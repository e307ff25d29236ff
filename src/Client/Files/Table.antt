-- ===== src/Client/Files/Table.antt =====
-- The events of the server in the table of transfers: ui/services/file.py.
use link_chat.Prelude.{
  ℕ, Bool, false, ◌&&◌, ◌||◌, not, Option, none, some, List, [], ◌∷◌, ◌++◌, if◌then◌else◌,
  key_error, Result, ok, err,
}
use link_chat.Prelude.Int.{ℤ, pos, ltb_ℤ, max_ℤ}
use link_chat.Dict.{Dict, get, put, pop, keys}
use link_chat.Text.{Text, codes}
use link_chat.Text.Equality.{text_eq, text_key}
use link_chat.Client.Files.{
  Kind, Status, TransferState, new_transfer, FileEvt, eqb_ℤ, name_size_key, FileService, or_text,
  or_blank, or_number, new_tid,
}

-- An identifier that is not empty: what `if not tid` lets through.
abbrev pub truthy : Option Text → Option Text
truthy tid = or_text tid none

-- `_tid_by_server`
unfoldable pub tid_by_server : Option Text → FileService → Option Text
tid_by_server none s = none
tid_by_server (some []) s = none
tid_by_server (some (c ∷ i)) s = get (c ∷ i) s.tid_by_server_id

-- The pending keys with a name.
unfoldable pub candidates : Text → List (Text × ℤ) → List (Text × ℤ)
candidates name [] = []
candidates name (k ∷ ks) =
    let rest = candidates name ks in if text_eq k.0 name then k ∷ rest else rest

-- The only candidate, if it is the only one.
unfoldable pub only_candidate : List (Text × ℤ) → Dict (Text × ℤ) Text → Option Text
only_candidate [] d = none
only_candidate (k ∷ []) d = get k d
only_candidate (k ∷ j ∷ ks) d = none

unfoldable pub tid_by_name_size : Option Text → FileEvt → FileService → Option Text
unfolding candidates only_candidate
tid_by_name_size none evt s = none
tid_by_name_size (some []) evt s = none
tid_by_name_size (some (c ∷ name)) evt s = elim evt.size [
  | none ↦
      only_candidate (candidates (c ∷ name) (keys s.pending_by_name_size)) s.pending_by_name_size
  | some n ↦ get (c ∷ name, n) s.pending_by_name_size
]

-- `_tid_from_evt`, which is always asked to prefer the server's identifier.
unfoldable pub tid_from_evt : FileEvt → FileService → Option Text
unfolding tid_by_server tid_by_name_size
tid_from_evt evt s = elim (tid_by_server (or_text evt.file_id evt.id) s) [
  | some tid ↦ some tid
  | none ↦ tid_by_name_size (or_text evt.name evt.filename) evt s
]

abbrev pub is_zero : ℤ → Bool
is_zero n = eqb_ℤ n (pos 0)

-- The entry of a transfer that has started, with the server's identifier if there is one.
unfoldable pub start_entry : Option Text → Option Text → ℤ → TransferState → TransferState
start_entry server_id peer size st = record st {
  status = Status.running;
  peer = or_text st.peer peer;
  size = (if not (is_zero size) && is_zero st.size then size else st.size);
  server_id = or_text server_id st.server_id;
}

abbrev pub index_server : Option Text → Text → Dict Text Text → Dict Text Text
index_server none tid d = d
index_server (some []) tid d = d
index_server (some (c ∷ i)) tid d = put (c ∷ i) tid d

-- `st = self.transfers[tid]` and what follows it.
unfoldable pub started : Text → Option Text → Option Text → ℤ → FileService → Result FileService
unfolding start_entry
started tid server_id peer size s = elim (get tid s.transfers) [
  | none ↦ err key_error
  | some st ↦ ok (record s {
    transfers = put tid (start_entry server_id peer size st) s.transfers;
    tid_by_server_id = index_server server_id tid s.tid_by_server_id;
  })
]

abbrev pub number_or_zero : Option ℤ → ℤ
number_or_zero none = pos 0
number_or_zero (some n) = n

unfoldable pub on_tx_started : ℕ → FileEvt → FileService → Result FileService
unfolding tid_by_server tid_by_name_size started
on_tx_started now evt s =
    let server_id = or_text evt.file_id evt.id in
    let name = or_text evt.name evt.filename in
    let size = number_or_zero evt.size in
    let peer = or_text evt.dst evt.peer in
    elim (truthy (or_text (tid_by_server server_id s) (tid_by_name_size name evt s))) [
      | some tid ↦ started tid server_id peer size s
      | none ↦
          let tid = new_tid (codes "tx-") now in
          started tid server_id peer size (record s {
            transfers = put tid (new_transfer tid Kind.tx (or_blank name) size) s.transfers;
          })
    ]

-- `int(a / b * c)` and `int(p * c)` in floating point are arguments.
module _ (scaled : ℤ → ℤ → ℤ → ℤ) (scaled_by : ℤ × ℕ → ℤ → ℤ) where
  unfoldable pub done_by_progress : TransferState → ℤ
  done_by_progress st = elim st.progress [
    | none ↦ st.done
    | some p ↦ if is_zero st.size then st.done else max_ℤ st.done (scaled_by p st.size)
  ]

  unfoldable pub done_after : FileEvt → TransferState → ℤ
  unfolding done_by_progress
  done_after evt st = elim evt.bytes [
    | some n ↦ max_ℤ st.done n
    | none ↦ elim st.total [
      | none ↦ done_by_progress st
      | some t ↦
          if ltb_ℤ (pos 0) t && not (is_zero st.size)
          then max_ℤ st.done (scaled (number_or_zero st.acked) t st.size)
          else done_by_progress st
    ]
  ]

  -- The common body of the two progress handlers.
  unfoldable pub progress_entry : FileEvt → TransferState → TransferState
  unfolding done_after
  progress_entry evt st =
      let told = record st {
        status = Status.running;
        acked = or_number evt.acked st.acked;
        total = or_number evt.total st.total;
        progress = (elim evt.progress [ none ↦ st.progress | some p ↦ some p ]);
      } in
      record told { done = done_after evt told }

  unfoldable pub progress_at : Option Text → FileEvt → FileService → FileService
  unfolding progress_entry
  progress_at none evt s = s
  progress_at (some tid) evt s = elim (get tid s.transfers) [
    | none ↦ s
    | some st ↦ record s { transfers = put tid (progress_entry evt st) s.transfers }
  ]

  unfoldable pub on_tx_progress : FileEvt → FileService → FileService
  unfolding tid_from_evt tid_by_name_size progress_at
  on_tx_progress evt s =
      progress_at (truthy (or_text (tid_from_evt evt s) (tid_by_name_size evt.name evt s))) evt s

  unfoldable pub on_rx_progress : FileEvt → FileService → FileService
  unfolding tid_from_evt progress_at
  on_rx_progress evt s = progress_at (truthy (tid_from_evt evt s)) evt s

-- `_cleanup_tid_correlators`
unfoldable pub cleanup_tid_correlators : TransferState → FileService → FileService
cleanup_tid_correlators st s = record s {
  pending_by_name_size = pop (st.name, st.size) s.pending_by_name_size;
  tid_by_server_id = (elim (truthy st.server_id) [
    | none ↦ s.tid_by_server_id
    | some i ↦ pop i s.tid_by_server_id
  ]);
}

abbrev pub is_ok : FileEvt → Bool
is_ok evt = evt.ok || (elim evt.status [ none ↦ false | some t ↦ text_eq t (codes "ok") ])

-- The common body of the two handlers of the end.
unfoldable pub finished_at : Option Text → FileEvt → FileService → FileService
unfolding cleanup_tid_correlators
finished_at none evt s = s
finished_at (some tid) evt s = elim (get tid s.transfers) [
  | none ↦ s
  | some st ↦
      let ended = record st { status = (if is_ok evt then Status.done else Status.error) } in
      cleanup_tid_correlators ended (record s { transfers = put tid ended s.transfers })
]

unfoldable pub on_tx_finished : FileEvt → FileService → FileService
unfolding tid_from_evt tid_by_name_size finished_at
on_tx_finished evt s =
    finished_at (truthy (or_text (tid_from_evt evt s) (tid_by_name_size evt.name evt s))) evt s

unfoldable pub on_rx_finished : FileEvt → FileService → FileService
unfolding tid_from_evt finished_at
on_rx_finished evt s = finished_at (truthy (tid_from_evt evt s)) evt s

-- `f"rx-{server_id or int(time.time()*1000)}"`
abbrev pub rx_tid : ℕ → Option Text → Text
rx_tid now none = new_tid (codes "rx-") now
rx_tid now (some []) = new_tid (codes "rx-") now
rx_tid now (some (c ∷ i)) = codes "rx-" ++ (c ∷ i)

unfoldable pub on_rx_started : ℕ → FileEvt → FileService → FileService
on_rx_started now evt s =
    let server_id = or_text evt.file_id evt.id in
    let tid = rx_tid now server_id in
    record s {
      transfers =
          put tid
            (record (new_transfer tid Kind.rx (or_blank (or_text evt.name evt.filename))
              (number_or_zero evt.size)) {
                status = Status.running;
                peer = or_text evt.src evt.peer;
                server_id = server_id;
              })
            s.transfers;
      tid_by_server_id = index_server server_id tid s.tid_by_server_id;
    }
