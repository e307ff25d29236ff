-- ===== src/Examples/Files.antt =====
-- The table of transfers after the start of a file.
use link_chat.Prelude.{◌≡◌, refl, subst, Bool, true, false, none, some, [], ◌∷◌, if◌then◌else◌, ok}
use link_chat.Prelude.Int.{pos}
use link_chat.Dict.{get}
use link_chat.Text.{Text, codes}
use link_chat.Text.Equality.{text_eq, text_key}
use link_chat.Client.Files.{
  name_size_eq, TransferState, FileEvt, FileService, Kind, new_transfer, name_size_key,
}
use link_chat.Client.Files.Consistent.{EventType, handle, IsConsistent}
use link_chat.Client.Files.Handled.{handle-IsConsistent}

abbrev evt : FileEvt
evt = record {
  file_id = some (codes "h-2cf2");
  id = none;
  name = some (codes "h");
  filename = none;
  dst = some (codes "02:42:ac:11:00:03");
  src = none;
  peer = none;
  size = none;
  acked = none;
  total = none;
  progress = none;
  bytes = none;
  ok = false;
  status = none;
}

-- A file of five bytes waits for its start.
abbrev waiting : FileService
waiting = record {
  transfers = (codes "tx-7", new_transfer (codes "tx-7") Kind.tx (codes "h") (pos 5)) ∷ [];
  tid_by_server_id = [];
  pending_by_name_size = ((codes "h", pos 5), codes "tx-7") ∷ [];
  sent = [];
}

one_pending :
    (b : Bool) (tid : Text)
    → (if b then some (codes "tx-7") else none) ≡ some tid
    → codes "tx-7" ≡ tid
one_pending true tid h = cc h
one_pending false tid h = absurd (cc h)

waiting-IsConsistent : IsConsistent waiting
unfolding get text_eq
waiting-IsConsistent = record {
  by_server = record { found = λ k tid h. absurd (cc h) };
  by_name_size = record {
    found = λ k tid h.
        subst (λ t. (st : TransferState) × (get t waiting.transfers ≡ some st))
          (one_pending (name_size_eq (codes "h", pos 5) k) tid h)
          (new_transfer (codes "tx-7") Kind.tx (codes "h") (pos 5), refl);
  };
}

handle-IsConsistent_example :
    (s' : FileService) × (handle
        (λ a b c. c)
        (λ p c. c)
        9
        true
        EventType.file_tx_started
        evt
        waiting
      ≡ ok s')
    × IsConsistent s'
handle-IsConsistent_example =
    handle-IsConsistent (λ a b c. c) (λ p c. c) 9 true EventType.file_tx_started evt waiting
      waiting-IsConsistent
