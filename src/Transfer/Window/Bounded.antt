-- ===== src/Transfer/Window/Bounded.antt =====
-- The frames that rounds of `_pump` queue.
use link_chat.Prelude.{
  refl, none, true, ◌∙◌, length, ◌==◌, ◌≡◌, if_cases, ℕ, zero, suc, ◌+◌, ◌≤◌, inl, inr, ◌&&◌, not,
  List, [], ◌∷◌, arith, leb, Bool-cases,
}
use link_chat.Dict.{Dict, get, put, get-put}
use link_chat.Transfer.Window.Ending.{pump_rounds, rounds_step}
use link_chat.Transfer.Window.Budget.{AreDistinct, budget, pump_ctx-frames}
use link_chat.Text.{Bytes}
use link_chat.Text.Equality.{nat_key}
use link_chat.Transfer.{Node, FileSendCtx}
use link_chat.Transfer.Window.{
  Tx, all_acked, has_room, send_chunk, send_next, refill_loop, refill_window, give_up,
  retransfer_loop, retransfer_expired, complete, pump_ctx,
}
use link_chat.Transfer.Window.Refill.{refill_loop_room, refill_loop_full}
use link_chat.Transfer.Window.Pumping.{still_waiting, spent, again}

-- No chunk is in flight twice.
pub record IsDistinct (ctx : FileSendCtx) : Type 0 where
  pub distinct : AreDistinct ctx.inflight

no_entry : (k : ℕ) → get {V = ℕ × ℕ} k [] ≡ none
unfolding get
no_entry k = refl

put-AreDistinct : (k : ℕ) (v : ℕ × ℕ) (d : Dict ℕ (ℕ × ℕ)) → AreDistinct d → AreDistinct (put k v d)
unfolding put
put-AreDistinct k v [] h = (no_entry k, tt)
put-AreDistinct k v ((j, e) ∷ d) h = elim (Bool-cases (j == k)) [
  | inl same ↦ rw same (h.0, h.1)
  | inr other ↦ rw other ((get-put j k v d ∙ ground (arith, other, h.0)), put-AreDistinct k v d h.1)
]

module _ (node : Node) (content : Bytes) (stamp : ℕ → ℕ) where
  send_chunk-IsDistinct :
      (idx retries : ℕ) (t : Tx)
      → IsDistinct t.ctx
      → IsDistinct (send_chunk node content stamp idx retries t).ctx
  unfolding send_chunk
  send_chunk-IsDistinct idx retries t p = record {
    distinct = put-AreDistinct idx (stamp idx, retries) t.ctx.inflight p.distinct;
  }

  loop-IsDistinct :
      (now : ℕ) (entries : List (ℕ × (ℕ × ℕ))) (t : Tx)
      → IsDistinct t.ctx
      → IsDistinct (retransfer_loop node content stamp now entries t).ctx
  loop-IsDistinct now [] t p = unfold retransfer_loop in p
  loop-IsDistinct now ((idx, (last, tries)) ∷ rest) t p =
      elim (Bool-cases (leb (last + t.ctx.timeout_s) now)) [
        | inr h ↦
            rw (still_waiting node content stamp now idx last tries rest t h)
              (loop-IsDistinct now rest t p)
        | inl h ↦ elim (Bool-cases (leb t.ctx.max_retries tries)) [
          | inl g ↦
              rw (spent node content stamp now idx last tries rest t h g)
                (unfold give_up in record { distinct = p.distinct })
          | inr g ↦ rw (again node content stamp now idx last tries rest t h g) (
              loop-IsDistinct now rest (send_chunk node content stamp idx (tries + 1) t)
                (send_chunk-IsDistinct idx (tries + 1) t p))
        ]
      ]

  send_next-IsDistinct :
      (t : Tx) → IsDistinct t.ctx → IsDistinct (send_next node content stamp t).ctx
  unfolding send_next
  send_next-IsDistinct t p =
      let q = send_chunk-IsDistinct t.ctx.next_to_send 0 t p in record { distinct = q.distinct }

  refill-IsDistinct :
      (fuel : ℕ) (t : Tx)
      → IsDistinct t.ctx
      → IsDistinct (refill_loop node content stamp fuel t).ctx
  refill-IsDistinct zero t p = unfold refill_loop in p
  refill-IsDistinct (suc fuel) t p = elim (Bool-cases (has_room node content stamp t)) [
    | inl room ↦
        rw (refill_loop_room node content stamp fuel t room)
          (refill-IsDistinct fuel (send_next node content stamp t) (send_next-IsDistinct t p))
    | inr full ↦ rw (refill_loop_full node content stamp fuel t full) p
  ]

  complete-IsDistinct : (t : Tx) → IsDistinct t.ctx → IsDistinct (complete node content stamp t).ctx
  unfolding complete
  complete-IsDistinct t p =
      if_cases (λ (u : Tx). IsDistinct u.ctx)
        (all_acked node content stamp t.ctx && not t.ctx.finished) _ t
        (λ h. record { distinct = p.distinct }) (λ h. p)

  pump_ctx-IsDistinct :
      (now : ℕ) (t : Tx) → IsDistinct t.ctx → IsDistinct (pump_ctx node content stamp now t).ctx
  unfolding pump_ctx retransfer_expired refill_window
  pump_ctx-IsDistinct now t p = complete-IsDistinct _ (
      if_cases (λ (u : Tx). IsDistinct u.ctx) t.ctx.meta_acked _ t
        (λ h.
          if_cases (λ (u : Tx). IsDistinct u.ctx)
            (retransfer_expired node content stamp now t).ctx.finished
            (retransfer_expired node content stamp now t)
            (refill_window node content stamp (retransfer_expired node content stamp now t))
            (λ f. retried) (λ f. refill-IsDistinct _ _ retried))
        (λ h. p))
    where
      retried : IsDistinct (retransfer_loop node content stamp now t.ctx.inflight t).ctx
      retried = loop-IsDistinct now t.ctx.inflight t p

settled :
    (node : Node) (content : Bytes) (rounds : List (ℕ × (ℕ → ℕ))) (t : Tx)
    → t.ctx.finished ≡ true
    → pump_rounds node content rounds t ≡ t
unfolding pump_rounds
settled node content [] t f = refl
settled node content ((now, stamp) ∷ rounds) t f = ground (arith, f)

-- No chunk of a transfer is in flight twice. Then any rounds of the pump, at any times, with no
-- acknowledgement between them, queue no more frames for it than its budget: one for each retry that
-- the chunks in flight have left of `max_retries`, `max_retries + 1` for each chunk that was not sent
-- yet, and one more for the `FILE_FIN` if it is not finished.
pub pump_rounds-budget :
    (node : Node) (content : Bytes) (rounds : List (ℕ × (ℕ → ℕ))) (t : Tx)
    → IsDistinct t.ctx
    → length (pump_rounds node content rounds t).outgoing ≤ length t.outgoing + budget t.ctx
pump_rounds-budget node content [] t d = unfold pump_rounds in omega arith
pump_rounds-budget node content ((now, stamp) ∷ rounds) t d = elim (Bool-cases t.ctx.finished) [
  | inl f ↦ rw (settled node content ((now, stamp) ∷ rounds) t f) (omega arith)
  | inr g ↦ rw (rounds_step node content now stamp rounds t g) (
      omega (
        arith,
        pump_rounds-budget node content rounds (pump_ctx node content stamp now t)
            (pump_ctx-IsDistinct node content stamp now t d),
        pump_ctx-frames node content stamp now t d.distinct g,
      ))
]
