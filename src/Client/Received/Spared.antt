-- ===== src/Client/Received/Spared.antt =====
-- The watchdog of ui/app.py over the incoming files.
use link_chat.Prelude.{
  ◌∷◌, [], refl, ap, true, ◌∙◌, Bool-cases, inl, ◌+◌, ◌⊎◌, arith, false, inr, ltb, ◌==◌, All,
  Option-cases, none, some, List, ◌≡◌, ℕ,
}
use link_chat.Dict.{Dict, get, put, pop, get-pop, get-put}
use link_chat.Text.{Text, codes}
use link_chat.Text.Equality.{text_eq_iff, text_eq, text_key, nat_key}
use link_chat.Client.Incoming.{RxCards}
use link_chat.Client.Received.{watch_rx_one, watch_rx_loop, watch_rx}

-- The file `k` is watched as before and still belongs to its folder, and the card `m` shows what it
-- showed.
pub record IsSpared (k : Text) (key : Text × Text) (m : ℕ) (s t : RxCards) : Type 0 where
  pub folder : get k t.fileid_to_folder ≡ some key
  pub watched : get k t.progress_index ≡ get k s.progress_index
  pub seen : get k t.last_tick ≡ get k s.last_tick
  pub shown : get m t.subtitles ≡ get m s.subtitles

-- The file belongs to a folder.
abbrev pub IsInFolder : Dict Text (Text × Text) → Text → Type 0
IsInFolder folders fid = (key : Text × Text) × (get fid folders ≡ some key)

-- Every watched file under the card `m` belongs to a folder.
abbrev pub IsFolderCard : ℕ → Dict Text (Text × Text) → List (Text × ℕ) → Type 0
IsFolderCard m folders = All (λ p. ((p.1 == m) ≡ false) ⊎ IsInFolder folders p.0)

IsSpared-self :
    (k : Text) (key : Text × Text) (m : ℕ) (s : RxCards)
    → get k s.fileid_to_folder ≡ some key
    → IsSpared k key m s s
IsSpared-self k key m s e = record { folder = e; watched = refl; seen = refl; shown = refl }

module _ (now : ℕ) (fid : Text) (msg : ℕ) (s : RxCards) where
  in_folder :
      (key : Text × Text) → get fid s.fileid_to_folder ≡ some key → watch_rx_one now fid msg s ≡ s
  unfolding watch_rx_one
  in_folder key e = ground (arith, e)

  unseen :
      get fid s.fileid_to_folder ≡ none
      → get fid s.last_tick ≡ none
      → watch_rx_one now fid msg s ≡ s
  unfolding watch_rx_one
  unseen e h = ground (arith, e, h)

  young :
      (ts : ℕ)
      → get fid s.fileid_to_folder ≡ none
      → get fid s.last_tick ≡ some ts
      → ltb (ts + 1000) now ≡ false
      → watch_rx_one now fid msg s ≡ s
  unfolding watch_rx_one
  young ts e h l = ground (arith, e, h, l)

  overdue :
      (ts : ℕ)
      → get fid s.fileid_to_folder ≡ none
      → get fid s.last_tick ≡ some ts
      → ltb (ts + 1000) now ≡ true
      → watch_rx_one now fid msg s ≡ record s {
        subtitles = put msg (codes "Recibido") s.subtitles;
        progress_index = pop fid s.progress_index;
        last_tick = pop fid s.last_tick;
      }
  unfolding watch_rx_one
  overdue ts e h l = ground (arith, e, h, l)

  apart :
      (k : Text) (key : Text × Text)
      → get fid s.fileid_to_folder ≡ none
      → get k s.fileid_to_folder ≡ some key
      → text_eq fid k ≡ false
  apart k key e h = elim (Bool-cases (text_eq fid k)) [
    | inl same ↦ absurd (cc (e, h, ap (λ j. get j s.fileid_to_folder) ((text_eq_iff fid k).0 same)))
    | inr other ↦ other
  ]

  one-IsSpared :
      (k : Text) (key : Text × Text) (m : ℕ)
      → get k s.fileid_to_folder ≡ some key
      → ((msg == m) ≡ false) ⊎ IsInFolder s.fileid_to_folder fid
      → IsSpared k key m s (watch_rx_one now fid msg s)
  one-IsSpared k key m e c = elim (Option-cases (get fid s.fileid_to_folder)) [
    | inr (key', f) ↦ rw (in_folder key' f) (IsSpared-self k key m s e)
    | inl f ↦ elim (Option-cases (get fid s.last_tick)) [
      | inl t ↦ rw (unseen f t) (IsSpared-self k key m s e)
      | inr (ts, t) ↦ elim (Bool-cases (ltb (ts + 1000) now)) [
        | inr l ↦ rw (young ts f t l) (IsSpared-self k key m s e)
        | inl l ↦ rw (overdue ts f t l) (record {
          folder = e;
          watched = get-pop k fid s.progress_index ∙ rw (apart k key f e) refl;
          seen = get-pop k fid s.last_tick ∙ rw (apart k key f e) refl;
          shown = elim c [
            | inl o ↦ get-put m msg (codes "Recibido") s.subtitles ∙ rw o refl
            | inr (key', g) ↦ absurd (cc (f, g))
          ];
        })
      ]
    ]
  ]

  folders_kept : (watch_rx_one now fid msg s).fileid_to_folder ≡ s.fileid_to_folder
  folders_kept = elim (Option-cases (get fid s.fileid_to_folder)) [
    | inr (key', f) ↦ rw (in_folder key' f) refl
    | inl f ↦ elim (Option-cases (get fid s.last_tick)) [
      | inl t ↦ rw (unseen f t) refl
      | inr (ts, t) ↦ elim (Bool-cases (ltb (ts + 1000) now)) [
        | inr l ↦ rw (young ts f t l) refl
        | inl l ↦ rw (overdue ts f t l) refl
      ]
    ]
  ]

loop-IsSpared :
    (now : ℕ) (es : List (Text × ℕ)) (s : RxCards) (k : Text) (key : Text × Text) (m : ℕ)
    → get k s.fileid_to_folder ≡ some key
    → IsFolderCard m s.fileid_to_folder es
    → IsSpared k key m s (watch_rx_loop now es s)
unfolding watch_rx_loop
loop-IsSpared now [] s k key m e a = IsSpared-self k key m s e
loop-IsSpared now ((fid, msg) ∷ rest) s k key m e a =
    let head = one-IsSpared now fid msg s k key m e a.0 in
    let later =
      loop-IsSpared now rest (watch_rx_one now fid msg s) k key m head.folder
        (rw (folders_kept now fid msg s) a.1) in
    record {
      folder = later.folder;
      watched = later.watched ∙ head.watched;
      seen = later.seen ∙ head.seen;
      shown = later.shown ∙ head.shown;
    }

-- The watchdog of the incoming files spares the files of folders: such a file is watched after its
-- look as before, with the same last sign, however old that is; and a card under which only files
-- of folders are watched shows what it showed.
pub watch_rx-IsSpared :
    (now : ℕ) (s : RxCards) (k : Text) (key : Text × Text) (m : ℕ)
    → get k s.fileid_to_folder ≡ some key
    → IsFolderCard m s.fileid_to_folder s.progress_index
    → IsSpared k key m s (watch_rx now s)
unfolding watch_rx
watch_rx-IsSpared now s k key m e a = loop-IsSpared now s.progress_index s k key m e a
