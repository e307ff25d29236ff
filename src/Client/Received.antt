-- ===== src/Client/Received.antt =====
-- The events of the incoming files in ui/app.py, after their start, and their watchdog.
pub mod Spared
use link_chat.Prelude.{
  ℕ, ◌+◌, ◌≡◌, refl, ap, ◌∙◌, inl, inr, true, false, Option, none, some, List, [], ◌∷◌, ◌++◌, arith,
  ltb, Bool-cases, Option-cases,
}
use link_chat.Dict.{Dict, get, put, pop, get-pop}
use link_chat.Text.{Text, codes}
use link_chat.Text.Equality.{text_eq_iff, text_eq, text_key, nat_key}
use link_chat.Client.Cards.{CardEvt, last_of, known_msg, or_msg, error_text, progress_subtitle}
use link_chat.Client.Incoming.{
  RxCards, pair_key, slot, set_subtitle, touch_rx, count_text, receiving, stats_or, folder_of,
  mark_done, forget_rx, or_name,
}

-- The last card of an index under the sender and a text that is not empty.
abbrev pub last_slot : Option Text → Option Text → Dict (Text × Text) (List ℕ) → Option ℕ
last_slot none t d = none
last_slot (some []) t d = none
last_slot (some (a ∷ src)) none d = none
last_slot (some (a ∷ src)) (some []) d = none
last_slot (some (a ∷ src)) (some (c ∷ t)) d = last_of (slot (a ∷ src, c ∷ t) d)

unfoldable pub remember_rx : Option Text → Option ℕ → RxCards → Option ℕ × RxCards
remember_rx fid none s = (none, s)
remember_rx none (some m) s = (some m, s)
remember_rx (some []) (some m) s = (some m, s)
remember_rx (some (c ∷ i)) (some m) s =
    (some m, record s { progress_index = put (c ∷ i) m s.progress_index })

unfoldable pub resolve_msg_for_event_rx : Option Text → CardEvt → RxCards → Option ℕ × RxCards
unfolding remember_rx last_of
resolve_msg_for_event_rx src ev s = elim (known_msg ev.file_id s.progress_index) [
  | some m ↦ (some m, s)
  | none ↦
      remember_rx ev.file_id
        (or_msg (last_slot src ev.rel s.rel_index) (last_slot src ev.name s.name_index)) s
]

-- The text of a progress, which starts with another word than that of an outgoing file.
abbrev pub rx_subtitle : CardEvt → Text
rx_subtitle ev = elim ev.percent [ none ↦ codes "Recibiendo…" | some p ↦ progress_subtitle ev ]

unfoldable pub on_file_rx_progress : ℕ → Option Text → CardEvt → RxCards → RxCards
unfolding touch_rx resolve_msg_for_event_rx
on_file_rx_progress now src ev s = elim (folder_of ev.file_id s) [
  | some key ↦
      let touched = touch_rx now (or_name ev.file_id []) s in
      elim (get key s.folder_card) [
        | none ↦ touched
        | some m ↦ set_subtitle m (receiving (stats_or (1, 0) (get key s.folder_stats))) touched
      ]
  | none ↦
      let r = resolve_msg_for_event_rx src ev s in
      elim r.0 [
        | none ↦ r.1
        | some m ↦ set_subtitle m (rx_subtitle ev) (touch_rx now (or_name ev.file_id []) r.1)
      ]
]

-- `if fid:`
abbrev pub given : Option Text → Option Text
given none = none
given (some []) = none
given (some (c ∷ i)) = some (c ∷ i)

unfoldable pub end_alone : Option Text → Text → CardEvt → RxCards → RxCards
unfolding resolve_msg_for_event_rx forget_rx
end_alone src subtitle ev s =
    let r = resolve_msg_for_event_rx src ev s in
    forget_rx (given ev.file_id) (elim r.0 [ none ↦ r.1 | some m ↦ set_subtitle m subtitle r.1 ])

unfoldable pub on_file_rx_finished : Option Text → CardEvt → RxCards → RxCards
unfolding mark_done forget_rx end_alone
on_file_rx_finished src ev s = elim (folder_of ev.file_id s) [
  | some key ↦ forget_rx ev.file_id (mark_done key s)
  | none ↦ end_alone src (codes "Recibido") ev s
]

abbrev pub folder_error : ℕ × ℕ → Text
folder_error st = codes "Error (" ++ (count_text st ++ codes ")")

unfoldable pub on_file_rx_error : Option Text → CardEvt → RxCards → RxCards
unfolding forget_rx end_alone
on_file_rx_error src ev s = elim (folder_of ev.file_id s) [
  | some key ↦ forget_rx ev.file_id (elim (get key s.folder_card) [
    | none ↦ s
    | some m ↦ set_subtitle m (folder_error (stats_or (1, 0) (get key s.folder_stats))) s
  ])
  | none ↦ end_alone src (error_text ev.error) ev s
]

-- The watchdog's look at a card: those of folders are left alone.
unfoldable pub watch_rx_one : ℕ → Text → ℕ → RxCards → RxCards
watch_rx_one now fid msg s = elim (get fid s.fileid_to_folder) [
  | some key ↦ s
  | none ↦ elim (get fid s.last_tick) [
    | none ↦ s
    | some ts ↦ elim (ltb (ts + 1000) now) [
      | false ↦ s
      | true ↦ record (set_subtitle msg (codes "Recibido") s) {
        progress_index = pop fid s.progress_index;
        last_tick = pop fid s.last_tick;
      }
    ]
  ]
]

unfoldable pub watch_rx_loop : ℕ → List (Text × ℕ) → RxCards → RxCards
unfolding watch_rx_one
watch_rx_loop now [] s = s
watch_rx_loop now ((fid, msg) ∷ rest) s = watch_rx_loop now rest (watch_rx_one now fid msg s)

unfoldable pub watch_rx : ℕ → RxCards → RxCards
unfolding watch_rx_loop
watch_rx now s = watch_rx_loop now s.progress_index s
