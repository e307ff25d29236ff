-- ===== src/Client/Files/Consistent.antt =====
-- The correlators of the table of transfers.
use link_chat.Prelude.{
  [], none, ◌∷◌, Option, ℕ, ◌≡◌, refl, ◌∙◌, subst, inl, inr, Bool, some, arith, Bool-cases, Result,
  ok,
}
use link_chat.Prelude.Int.{ℤ}
use link_chat.Dict.{get-put_self, Dict, get, put, pop, get-put, get-pop}
use link_chat.Text.{Text}
use link_chat.Text.Equality.{Eq, text_eq, text_key}
use link_chat.Client.Files.{TransferState, FileEvt, name_size_key, FileService, on_file_offer}
use link_chat.Client.Files.Table.{
  index_server, start_entry, started, on_tx_started, on_tx_progress, on_rx_progress, on_tx_finished,
  on_rx_finished, on_rx_started,
}

-- The handler that `register_event_handlers` subscribes to a type of events.
pub data EventType : Type 0 where
  file_tx_started : EventType
  file_tx_progress : EventType
  file_tx_finished : EventType
  file_rx_started : EventType
  file_rx_progress : EventType
  file_rx_finished : EventType
  file_offer : EventType

unfoldable pub handle :
    (ℤ → ℤ → ℤ → ℤ)
    → (ℤ × ℕ → ℤ → ℤ)
    → ℕ
    → Bool
    → EventType
    → FileEvt
    → FileService
    → Result FileService
unfolding on_tx_started on_tx_progress on_tx_finished on_rx_started on_rx_progress on_rx_finished
    on_file_offer
handle scaled scaled_by now auto_accept EventType.file_tx_started evt s = on_tx_started now evt s
handle scaled scaled_by now auto_accept EventType.file_tx_progress evt s =
    ok (on_tx_progress scaled scaled_by evt s)
handle scaled scaled_by now auto_accept EventType.file_tx_finished evt s = ok (on_tx_finished evt s)
handle scaled scaled_by now auto_accept EventType.file_rx_started evt s =
    ok (on_rx_started now evt s)
handle scaled scaled_by now auto_accept EventType.file_rx_progress evt s =
    ok (on_rx_progress scaled scaled_by evt s)
handle scaled scaled_by now auto_accept EventType.file_rx_finished evt s = ok (on_rx_finished evt s)
handle scaled scaled_by now auto_accept EventType.file_offer evt s =
    ok (on_file_offer auto_accept evt s)

-- A transfer stands in the table.
abbrev pub Known : Text → Dict Text TransferState → Type 0
Known tid d = (st : TransferState) × (get tid d ≡ some st)

Known-put :
    (tid k : Text) (v : TransferState) (d : Dict Text TransferState)
    → Known tid d
    → Known tid (put k v d)
Known-put tid k v d (st, h) = elim (Bool-cases (text_eq k tid)) [
  | inl same ↦ (v, get-put tid k v d ∙ rw same refl)
  | inr other ↦ (st, get-put tid k v d ∙ rw (other, h) refl)
]

module _ {K : Type 0} ⦃e : Eq K⦄ where
  -- Every value of a correlator stands in the table.
  pub record AllKnown (d : Dict K Text) (ts : Dict Text TransferState) : Type 0 where
    pub found : (k : K) (tid : Text) → get k d ≡ some tid → Known tid ts

  pub AllKnown-later :
      (d : Dict K Text) (k : Text) (v : TransferState) (ts : Dict Text TransferState)
      → AllKnown d ts
      → AllKnown d (put k v ts)
  AllKnown-later d k v ts a = record { found = λ j tid h. Known-put tid k v ts (a.found j tid h) }

  pub AllKnown-put :
      (k : K) (t : Text) (d : Dict K Text) (ts : Dict Text TransferState)
      → Known t ts
      → AllKnown d ts
      → AllKnown (put k t d) ts
  AllKnown-put k t d ts known a = record {
    found = λ j tid h. elim (Bool-cases (e.beq k j)) [
      | inl same ↦ subst (λ x. Known x ts) (ground (arith, h, same, get-put j k t d)) known
      | inr other ↦ a.found j tid (ground (arith, h, other, get-put j k t d))
    ];
  }

  pub AllKnown-pop :
      (k : K) (d : Dict K Text) (ts : Dict Text TransferState)
      → AllKnown d ts
      → AllKnown (pop k d) ts
  AllKnown-pop k d ts a = record {
    found = λ j tid h. elim (Bool-cases (e.beq k j)) [
      | inl same ↦ absurd (ground (arith, h, same, get-pop j k d))
      | inr other ↦ a.found j tid (ground (arith, h, other, get-pop j k d))
    ];
  }

-- Every transfer that a correlator names stands in the table.
pub record IsConsistent (s : FileService) : Type 0 where
  pub by_server : AllKnown s.tid_by_server_id s.transfers
  pub by_name_size : AllKnown s.pending_by_name_size s.transfers

pub index_server-AllKnown :
    (i : Option Text) (tid : Text) (d : Dict Text Text) (ts : Dict Text TransferState)
    → Known tid ts
    → AllKnown d ts
    → AllKnown (index_server i tid d) ts
index_server-AllKnown none tid d ts k a = a
index_server-AllKnown (some []) tid d ts k a = a
index_server-AllKnown (some (c ∷ i)) tid d ts k a = AllKnown-put (c ∷ i) tid d ts k a

pub Known-self :
    (tid : Text) (v : TransferState) (ts : Dict Text TransferState) → Known tid (put tid v ts)
Known-self tid v ts = (v, get-put_self tid v ts)

-- An entry is put into the table.
pub stored-IsConsistent :
    (tid : Text) (v : TransferState) (s : FileService)
    → IsConsistent s
    → IsConsistent (record s { transfers = put tid v s.transfers })
stored-IsConsistent tid v s c = record {
  by_server = AllKnown-later s.tid_by_server_id tid v s.transfers c.by_server;
  by_name_size = AllKnown-later s.pending_by_name_size tid v s.transfers c.by_name_size;
}

started_step :
    (tid : Text) (i peer : Option Text) (size : ℤ) (s : FileService) (st : TransferState)
    → get tid s.transfers ≡ some st
    → started tid i peer size s
      ≡ ok (record s {
        transfers = put tid (start_entry i peer size st) s.transfers;
        tid_by_server_id = index_server i tid s.tid_by_server_id;
      })
unfolding started
started_step tid i peer size s st e = ground (arith, e)

pub started-IsConsistent :
    (tid : Text) (i peer : Option Text) (size : ℤ) (s : FileService)
    → Known tid s.transfers
    → IsConsistent s
    → (s' : FileService) × (started tid i peer size s ≡ ok s') × IsConsistent s'
started-IsConsistent tid i peer size s (st, known) c =
    let v = start_entry i peer size st in
    let kept = stored-IsConsistent tid v s c in
    (
      _,
      started_step tid i peer size s st known,
      record {
        by_server =
            index_server-AllKnown i tid s.tid_by_server_id (put tid v s.transfers)
              (Known-self tid v s.transfers) kept.by_server;
        by_name_size = kept.by_name_size;
      },
    )
