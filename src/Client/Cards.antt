-- ===== src/Client/Cards.antt =====
-- The cards of the outgoing files in ui/app.py: what a conversation shows of a transfer. A message
-- with a card is a number, its subtitle stands in `subtitles`. Times are in milliseconds, and the
-- percentage of an event, `int(max(0, min(100, pct)))`, is one of its fields.
pub mod Watch
use link_chat.Prelude.{
  get_elem?, All-get_elem?, if_cases, ℕ, zero, suc, ◌+◌, ◌-◌, ◌*◌, ◌/◌, ◌%◌, ◌^◌, ◌≤◌, ◌<◌, min,
  max, bit_and, bit_or, bit_xor, String, ◌≡◌, refl, sym, ap, ◌∙◌, subst, ◌≢◌, ◌↔◌, ◌⊎◌, inl, inr,
  Bool, true, false, ◌&&◌, ◌||◌, not, Option, none, some, List, [], ◌∷◌, ◌++◌, map, arith, ltb, leb,
  ◌==◌, if◌then◌else◌, ltb→lt, lt→ltb, leb→le, le→leb, ==_iff, ==_refl, le_split, lt_split,
  Bool-cases, Option-cases, length, take, drop, replicate, All, length-append, length-take,
  length-drop, length-replicate, take-append-drop, take-append, drop-append, take_all, drop-drop,
  All-append, All-take, All-drop, Error, value_error, struct_error, unicode_error, file_not_found,
  zero_division, key_error, runtime_error, Result, ok, err, ◌>>=◌, ◌>>◌, guard, >>=-eq-ok,
}
use link_chat.Dict.{Dict, get, put, pop}
use link_chat.Text.{Text, codes}
use link_chat.Text.Equality.{text_key, nat_key}
use link_chat.Text.Decimal.{format}

pub record CardEvt : Type 0 where
  pub file_id : Option Text
  pub rel : Option Text
  pub name : Option Text
  pub percent : Option ℕ
  pub acked : Option ℕ
  pub total : ℕ
  pub error : Option Text

pub record TxCards : Type 0 where
  pub next : ℕ
  pub subtitles : Dict ℕ Text
  pub progress_index : Dict Text ℕ
  pub name_index : Dict Text (List ℕ)
  pub rel_index : Dict Text (List ℕ)
  pub last_tick : Dict Text ℕ

abbrev pub listed : Text → Dict Text (List ℕ) → List ℕ
listed k d = elim (get k d) [ none ↦ [] | some ms ↦ ms ]

-- `append_local_file_card`: a new card, under the name of its file.
unfoldable pub append_local_file_card : Text → Text → TxCards → ℕ × TxCards
append_local_file_card filename subtitle s = (
  s.next,
  record s {
    next = s.next + 1;
    subtitles = put s.next subtitle s.subtitles;
    name_index = put filename (listed filename s.name_index ++ s.next ∷ []) s.name_index;
  },
)

unfoldable pub update_msg_subtitle : ℕ → Text → TxCards → TxCards
update_msg_subtitle msg subtitle s = record s { subtitles = put msg subtitle s.subtitles }

-- `if fid: last_tick_tx[fid] = time.time()`
unfoldable pub touch_tx : ℕ → Option Text → TxCards → TxCards
touch_tx now none s = s
touch_tx now (some []) s = s
touch_tx now (some (c ∷ i)) s = record s { last_tick = put (c ∷ i) now s.last_tick }

-- `lst[-1]`, if there is one
unfoldable pub last_of : List ℕ → Option ℕ
last_of [] = none
last_of (m ∷ []) = some m
last_of (m ∷ n ∷ ms) = last_of (n ∷ ms)

-- The last card in an index under a text that is not empty.
abbrev pub last_listed : Option Text → Dict Text (List ℕ) → Option ℕ
last_listed none d = none
last_listed (some []) d = none
last_listed (some (c ∷ t)) d = last_of (listed (c ∷ t) d)

abbrev pub known_msg : Option Text → Dict Text ℕ → Option ℕ
known_msg none d = none
known_msg (some []) d = none
known_msg (some (c ∷ i)) d = get (c ∷ i) d

abbrev pub or_msg : Option ℕ → Option ℕ → Option ℕ
or_msg none m = m
or_msg (some n) m = some n

-- A card that was found under another key is known by the identifier from then on.
unfoldable pub remember : Option Text → Option ℕ → TxCards → Option ℕ × TxCards
remember fid none s = (none, s)
remember none (some m) s = (some m, s)
remember (some []) (some m) s = (some m, s)
remember (some (c ∷ i)) (some m) s =
    (some m, record s { progress_index = put (c ∷ i) m s.progress_index })

unfoldable pub resolve_msg_for_event_tx : CardEvt → TxCards → Option ℕ × TxCards
unfolding remember last_of
resolve_msg_for_event_tx ev s = elim (known_msg ev.file_id s.progress_index) [
  | some m ↦ (some m, s)
  | none ↦
      remember ev.file_id
        (or_msg (last_listed ev.rel s.rel_index) (last_listed ev.name s.name_index)) s
]

unfoldable pub on_file_tx_started : ℕ → CardEvt → TxCards → TxCards
unfolding resolve_msg_for_event_tx remember touch_tx
on_file_tx_started now ev s =
    let r = resolve_msg_for_event_tx ev s in
    elim r.0 [ none ↦ r.1 | some m ↦ touch_tx now ev.file_id (remember ev.file_id (some m) r.1).1 ]

-- The text under a file that is being sent.
unfoldable pub progress_subtitle : CardEvt → Text
progress_subtitle ev = elim ev.percent [
  | none ↦ codes "Enviando…"
  | some p ↦ elim ev.acked [
    | none ↦ format p ++ codes "%"
    | some a ↦
        if ev.total == 0
        then format p ++ codes "%"
        else format p
          ++ (codes "% (" ++ (format a ++ (codes "/" ++ (format ev.total ++ codes " chunks)"))))
  ]
]

unfoldable pub on_file_tx_progress : ℕ → CardEvt → TxCards → TxCards
unfolding resolve_msg_for_event_tx touch_tx progress_subtitle update_msg_subtitle
on_file_tx_progress now ev s =
    let r = resolve_msg_for_event_tx ev s in
    elim r.0 [
      | none ↦ r.1
      | some m ↦ update_msg_subtitle m (progress_subtitle ev) (touch_tx now ev.file_id r.1)
    ]

-- `progress_index_tx.pop(fid, None); last_tick_tx.pop(fid, None)`
unfoldable pub forget_tx : Option Text → TxCards → TxCards
forget_tx none s = s
forget_tx (some []) s = s
forget_tx (some (c ∷ i)) s = record s {
  progress_index = pop (c ∷ i) s.progress_index;
  last_tick = pop (c ∷ i) s.last_tick;
}

unfoldable pub end_tx : Text → CardEvt → TxCards → TxCards
unfolding resolve_msg_for_event_tx update_msg_subtitle forget_tx
end_tx subtitle ev s =
    let r = resolve_msg_for_event_tx ev s in
    forget_tx ev.file_id (elim r.0 [ none ↦ r.1 | some m ↦ update_msg_subtitle m subtitle r.1 ])

unfoldable pub on_file_tx_finished : CardEvt → TxCards → TxCards
unfolding end_tx
on_file_tx_finished ev s = end_tx (codes "Enviado") ev s

-- `ev.get("error") or "Error"`
abbrev pub error_text : Option Text → Text
error_text none = codes "Error"
error_text (some []) = codes "Error"
error_text (some (c ∷ t)) = c ∷ t

unfoldable pub on_file_tx_error : CardEvt → TxCards → TxCards
unfolding end_tx
on_file_tx_error ev s = end_tx (error_text ev.error) ev s

-- The watchdog's look at a card that is being sent.
unfoldable pub watch_one : ℕ → Text → ℕ → TxCards → TxCards
unfolding update_msg_subtitle
watch_one now fid msg s = elim (get fid s.last_tick) [
  | none ↦ s
  | some ts ↦ elim (ltb (ts + 1000) now) [
    | false ↦ s
    | true ↦
        let ended = update_msg_subtitle msg (codes "Enviado") s in
        record ended { progress_index = pop fid s.progress_index; last_tick = pop fid s.last_tick }
  ]
]

-- The loop over a copy of the cards.
unfoldable pub watch_loop : ℕ → List (Text × ℕ) → TxCards → TxCards
unfolding watch_one
watch_loop now [] s = s
watch_loop now ((fid, msg) ∷ rest) s = watch_loop now rest (watch_one now fid msg s)

unfoldable pub watch_tx : ℕ → TxCards → TxCards
unfolding watch_loop
watch_tx now s = watch_loop now s.progress_index s
