-- ===== src/Client/Incoming.antt =====
-- The cards of the incoming files in ui/app.py: a card for a file, or one for all files of a
-- folder. A message with a card is a number, its subtitle stands in `subtitles`. Times are in
-- milliseconds.
use link_chat.Prelude.{
  ℕ, ◌+◌, ◌≡◌, ap, ◌↔◌, Bool, true, ◌&&◌, ◌||◌, Option, none, some, List, [], ◌∷◌, ◌++◌, arith, leb,
  ◌==◌, if◌then◌else◌,
}
use link_chat.Dict.{Dict, get, put, pop}
use link_chat.Text.{Text, codes}
use link_chat.Text.Equality.{Eq, text_eq, text_eq_iff, text_key, nat_key}
use link_chat.Text.Strip.{strip}
use link_chat.Text.Decimal.{format}
use link_chat.Client.Cards.{CardEvt}

abbrev pub pair_eq : Text × Text → Text × Text → Bool
pair_eq a b = text_eq a.0 b.0 && text_eq a.1 b.1

pub pair_eq_iff : (a b : Text × Text) → (pair_eq a b ≡ true) ↔ (a ≡ b)
pair_eq_iff (s, m) (t, n) = (
  λ h. ground (arith, h, text_eq_iff s t, text_eq_iff m n),
  λ e. ground (arith, ap (λ p. p.0) e, ap (λ p. p.1) e, text_eq_iff s t, text_eq_iff m n),
)

instance abbrev pub pair_key : Eq (Text × Text)
pair_key = record { beq = pair_eq; beq_iff = pair_eq_iff }

-- `folder_stats` has the files that have started and those that have ended.
pub record RxCards : Type 0 where
  pub next : ℕ
  pub subtitles : Dict ℕ Text
  pub progress_index : Dict Text ℕ
  pub name_index : Dict (Text × Text) (List ℕ)
  pub rel_index : Dict (Text × Text) (List ℕ)
  pub last_tick : Dict Text ℕ
  pub folder_card : Dict (Text × Text) ℕ
  pub folder_stats : Dict (Text × Text) (ℕ × ℕ)
  pub fileid_to_folder : Dict Text (Text × Text)

abbrev pub slot : Text × Text → Dict (Text × Text) (List ℕ) → List ℕ
slot k d = elim (get k d) [ none ↦ [] | some ms ↦ ms ]

unfoldable pub append_incoming_file_card : Text → Text → Text → RxCards → ℕ × RxCards
append_incoming_file_card from_mac filename subtitle s = (
  s.next,
  record s {
    next = s.next + 1;
    subtitles = put s.next subtitle s.subtitles;
    name_index =
        put (from_mac, filename) (slot (from_mac, filename) s.name_index ++ s.next ∷ [])
          s.name_index;
  },
)

abbrev pub set_subtitle : ℕ → Text → RxCards → RxCards
set_subtitle msg subtitle s = record s { subtitles = put msg subtitle s.subtitles }

-- `rel.lstrip("./")`
unfoldable pub lstrip_dots : Text → Text
lstrip_dots [] = []
lstrip_dots (c ∷ s) = let rest = lstrip_dots s in if c == b'.' || c == b'/' then rest else c ∷ s

-- `rel.split("/", 1)[0]`
unfoldable pub first_part : Text → Text
first_part [] = []
first_part (c ∷ s) = let rest = first_part s in if c == b'/' then [] else c ∷ rest

abbrev pub some_root : Text → Option Text
some_root [] = none
some_root (c ∷ s) = some (first_part (c ∷ s))

unfoldable pub folder_root : Option Text → Option Text
unfolding lstrip_dots first_part
folder_root none = none
folder_root (some []) = none
folder_root (some (c ∷ rel)) = some_root (lstrip_dots (strip (c ∷ rel)))

unfoldable pub touch_rx : ℕ → Text → RxCards → RxCards
touch_rx now [] s = s
touch_rx now (c ∷ i) s = record s { last_tick = put (c ∷ i) now s.last_tick }

abbrev pub count_text : ℕ × ℕ → Text
count_text (total, done) = format done ++ (codes "/" ++ format total)

abbrev pub receiving : ℕ × ℕ → Text
receiving st = codes "Recibiendo… " ++ count_text st

-- The card of a folder, made for its first file.
unfoldable pub folder_msg : Text → Text → RxCards → ℕ × RxCards
unfolding append_incoming_file_card
folder_msg src root s = elim (get (src, root) s.folder_card) [
  | some m ↦ (m, s)
  | none ↦
      let r = append_incoming_file_card src root (codes "Recibiendo… 0/1") s in
      (
        r.0,
        record (r.1) {
          folder_card = put (src, root) r.0 s.folder_card;
          rel_index = put (src, root) (slot (src, root) s.rel_index ++ r.0 ∷ []) s.rel_index;
        },
      )
]

abbrev pub stats_or : ℕ × ℕ → Option (ℕ × ℕ) → ℕ × ℕ
stats_or other none = other
stats_or other (some st) = st

-- A file of a folder starts.
unfoldable pub start_in_folder : ℕ → Text → Text → Text → RxCards → RxCards
unfolding folder_msg touch_rx
start_in_folder now src root fid s =
    let r = folder_msg src root s in
    let old = stats_or (0, 0) (get (src, root) s.folder_stats) in
    let st : ℕ × ℕ = (old.0 + 1, old.1) in
    touch_rx now fid (record (set_subtitle r.0 (receiving st) r.1) {
      folder_stats = put (src, root) st s.folder_stats;
      fileid_to_folder = put fid (src, root) s.fileid_to_folder;
      progress_index = put fid r.0 s.progress_index;
    })

-- A file of its own starts.
unfoldable pub start_alone : ℕ → Text → Option Text → Text → Text → RxCards → RxCards
unfolding append_incoming_file_card touch_rx
start_alone now src rel name fid s =
    let r = append_incoming_file_card src name (codes "Recibiendo…") s in
    touch_rx now fid (record (r.1) {
      rel_index = (elim rel [
        | none ↦ s.rel_index
        | some p ↦ elim p [
          | [] ↦ s.rel_index
          | c ∷ t ↦ put (src, c ∷ t) (slot (src, c ∷ t) s.rel_index ++ r.0 ∷ []) s.rel_index
        ]
      ]);
      progress_index = put fid r.0 s.progress_index;
    })

abbrev pub or_name : Option Text → Text → Text
or_name none other = other
or_name (some []) other = other
or_name (some (c ∷ t)) other = c ∷ t

-- `src` is the first of the three fields for the sender that is not empty.
unfoldable pub on_file_rx_started : ℕ → Option Text → CardEvt → RxCards → RxCards
unfolding folder_root start_in_folder start_alone
on_file_rx_started now none ev s = s
on_file_rx_started now (some []) ev s = s
on_file_rx_started now (some (c ∷ src)) ev s =
    let fid = or_name ev.file_id [] in
    elim (folder_root ev.rel) [
      | some root ↦ start_in_folder now (c ∷ src) root fid s
      | none ↦ start_alone now (c ∷ src) ev.rel (or_name ev.name (codes "archivo")) fid s
    ]

-- The folder of a file that belongs to one.
abbrev pub folder_of : Option Text → RxCards → Option (Text × Text)
folder_of none s = none
folder_of (some fid) s = get fid s.fileid_to_folder

unfoldable pub mark_done : Text × Text → RxCards → RxCards
mark_done key s = elim (get key s.folder_card) [
  | none ↦ s
  | some msg ↦ elim (get key s.folder_stats) [
    | none ↦ s
    | some st ↦
        let after : ℕ × ℕ = (st.0, st.1 + 1) in
        set_subtitle msg (if leb st.0 (st.1 + 1) then codes "Recibido" else receiving after)
          (record s { folder_stats = put key after s.folder_stats })
  ]
]

unfoldable pub forget_rx : Option Text → RxCards → RxCards
forget_rx none s = s
forget_rx (some fid) s = record s {
  progress_index = pop fid s.progress_index;
  last_tick = pop fid s.last_tick;
}
