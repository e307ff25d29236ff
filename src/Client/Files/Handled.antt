-- ===== src/Client/Files/Handled.antt =====
-- The table of transfers after any event of the server.
use link_chat.Prelude.{if_cases, if◌then◌else◌, Bool, ℕ, ◌≡◌, refl, Option, none, some, [], ◌∷◌, ok}
use link_chat.Prelude.Int.{ℤ}
use link_chat.Dict.{pop, get, put}
use link_chat.Text.{Text}
use link_chat.Text.Equality.{text_key}
use link_chat.Client.Files.{
  send_cmd, FileCmd, Status, TransferState, on_file_offer, FileEvt, name_size_key, FileService,
  or_text,
}
use link_chat.Client.Files.Table.{
  on_rx_finished, is_ok, on_tx_finished, progress_entry, on_rx_progress, rx_tid, on_tx_progress,
  cleanup_tid_correlators, progress_at, finished_at, on_rx_started, truthy,
}
use link_chat.Client.Files.Consistent.{
  EventType, AllKnown-pop, index_server-AllKnown, AllKnown, handle, Known-self, IsConsistent,
  stored-IsConsistent,
}
use link_chat.Client.Files.Found.{on_tx_started-IsConsistent}

offer-IsConsistent :
    (auto_accept : Bool) (evt : FileEvt) (s : FileService)
    → IsConsistent s
    → IsConsistent (on_file_offer auto_accept evt s)
unfolding on_file_offer
offer-IsConsistent auto_accept evt s c = by_id (or_text evt.id evt.file_id)
  where
    by_id :
        (i : Option Text)
        → IsConsistent (elim i [
          | none ↦ s
          | some t ↦ elim t [
            | [] ↦ s
            | d ∷ r ↦ if auto_accept then send_cmd (FileCmd.file_accept (d ∷ r)) s else s
          ]
        ])
    by_id none = c
    by_id (some []) = c
    by_id (some (d ∷ r)) =
        if_cases IsConsistent auto_accept _ s
          (λ h. record { by_server = c.by_server; by_name_size = c.by_name_size }) (λ h. c)

progress_at-IsConsistent :
    (scaled : ℤ → ℤ → ℤ → ℤ) (scaled_by : ℤ × ℕ → ℤ → ℤ) (o : Option Text) (evt : FileEvt)
    (s : FileService)
    → IsConsistent s
    → IsConsistent (progress_at scaled scaled_by o evt s)
unfolding progress_at
progress_at-IsConsistent scaled scaled_by none evt s c = c
progress_at-IsConsistent scaled scaled_by (some tid) evt s c = by_entry (get tid s.transfers)
  where
    by_entry :
        (o : Option TransferState)
        → IsConsistent (elim o [
          | none ↦ s
          | some st ↦ record s {
            transfers = put tid (progress_entry scaled scaled_by evt st) s.transfers;
          }
        ])
    by_entry none = c
    by_entry (some st) = stored-IsConsistent tid (progress_entry scaled scaled_by evt st) s c

cleanup-IsConsistent :
    (st : TransferState) (s : FileService)
    → IsConsistent s
    → IsConsistent (cleanup_tid_correlators st s)
unfolding cleanup_tid_correlators
cleanup-IsConsistent st s c = record {
  by_server = by_id (truthy st.server_id);
  by_name_size = AllKnown-pop (st.name, st.size) s.pending_by_name_size s.transfers c.by_name_size;
}
  where
    by_id :
        (o : Option Text)
        → AllKnown
            (elim o [ none ↦ s.tid_by_server_id | some i ↦ pop i s.tid_by_server_id ])
            s.transfers
    by_id none = c.by_server
    by_id (some i) = AllKnown-pop i s.tid_by_server_id s.transfers c.by_server

finished_at-IsConsistent :
    (o : Option Text) (evt : FileEvt) (s : FileService)
    → IsConsistent s
    → IsConsistent (finished_at o evt s)
unfolding finished_at
finished_at-IsConsistent none evt s c = c
finished_at-IsConsistent (some tid) evt s c = by_entry (get tid s.transfers)
  where
    ended : TransferState → TransferState
    ended st = record st { status = (if is_ok evt then Status.done else Status.error) }

    by_entry :
        (o : Option TransferState)
        → IsConsistent (elim o [
          | none ↦ s
          | some st ↦
              cleanup_tid_correlators
                (ended st)
                (record s { transfers = put tid (ended st) s.transfers })
        ])
    by_entry none = c
    by_entry (some st) = cleanup-IsConsistent (ended st) _ (stored-IsConsistent tid (ended st) s c)

rx_started-IsConsistent :
    (now : ℕ) (evt : FileEvt) (s : FileService)
    → IsConsistent s
    → IsConsistent (on_rx_started now evt s)
unfolding on_rx_started
rx_started-IsConsistent now evt s c =
    let tid = rx_tid now (or_text evt.file_id evt.id) in
    let kept = stored-IsConsistent tid _ s c in
    record {
      by_server =
          index_server-AllKnown (or_text evt.file_id evt.id) tid s.tid_by_server_id _
            (Known-self tid _ s.transfers) kept.by_server;
      by_name_size = kept.by_name_size;
    }

-- When every transfer that the two correlators name stands in the table, then the handler of any
-- event of the server, whatever its fields, returns without a KeyError, and every transfer that
-- they name stands in the table again.
pub handle-IsConsistent :
    (scaled : ℤ → ℤ → ℤ → ℤ) (scaled_by : ℤ × ℕ → ℤ → ℤ) (now : ℕ) (auto_accept : Bool)
    (type : EventType) (evt : FileEvt) (s : FileService)
    → IsConsistent s
    → (s' : FileService) × (handle scaled scaled_by now auto_accept type evt s ≡ ok s')
      × IsConsistent s'
unfolding handle on_tx_progress on_rx_progress on_tx_finished on_rx_finished
handle-IsConsistent f g now a EventType.file_tx_started evt s c =
    on_tx_started-IsConsistent now evt s c
handle-IsConsistent f g now a EventType.file_tx_progress evt s c =
    (_, refl, progress_at-IsConsistent f g _ evt s c)
handle-IsConsistent f g now a EventType.file_tx_finished evt s c =
    (_, refl, finished_at-IsConsistent _ evt s c)
handle-IsConsistent f g now a EventType.file_rx_started evt s c =
    (_, refl, rx_started-IsConsistent now evt s c)
handle-IsConsistent f g now a EventType.file_rx_progress evt s c =
    (_, refl, progress_at-IsConsistent f g _ evt s c)
handle-IsConsistent f g now a EventType.file_rx_finished evt s c =
    (_, refl, finished_at-IsConsistent _ evt s c)
handle-IsConsistent f g now a EventType.file_offer evt s c = (_, refl, offer-IsConsistent a evt s c)
