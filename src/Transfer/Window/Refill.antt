-- ===== src/Transfer/Window/Refill.antt =====
-- `_refill_window` ends, and what it has done by then.
use link_chat.Prelude.{
  ℕ, zero, suc, ◌+◌, ◌-◌, ◌≤◌, ◌≡◌, refl, inl, inr, true, false, arith, Bool-cases,
}
use link_chat.Text.{Bytes}
use link_chat.Transfer.{Node}
use link_chat.Transfer.Window.{Tx, has_room, send_next, refill_loop, refill_window}

module _ (node : Node) (content : Bytes) (stamp : ℕ → ℕ) where
  send_next_total :
      (t : Tx) → (send_next node content stamp t).ctx.total_chunks ≡ t.ctx.total_chunks
  unfolding send_next
  send_next_total t = refl

  send_next_next :
      (t : Tx) → (send_next node content stamp t).ctx.next_to_send ≡ t.ctx.next_to_send + 1
  unfolding send_next
  send_next_next t = refl

  no_chunks :
      (t : Tx) → t.ctx.total_chunks ≤ t.ctx.next_to_send → has_room node content stamp t ≡ false
  no_chunks t h = ground arith

  pub refill_loop_room :
      (fuel : ℕ) (t : Tx)
      → has_room node content stamp t ≡ true
      → refill_loop node content stamp (suc fuel) t
        ≡ refill_loop node content stamp fuel (send_next node content stamp t)
  unfolding refill_loop
  refill_loop_room fuel t h = ground (arith, h)

  pub refill_loop_full :
      (fuel : ℕ) (t : Tx)
      → has_room node content stamp t ≡ false
      → refill_loop node content stamp (suc fuel) t ≡ t
  unfolding refill_loop
  refill_loop_full fuel t h = ground (arith, h)

  refill_loop_ends :
      (fuel : ℕ) (t : Tx)
      → t.ctx.total_chunks ≤ t.ctx.next_to_send + fuel
      → has_room node content stamp (refill_loop node content stamp fuel t) ≡ false
  unfolding refill_loop
  refill_loop_ends zero t h = no_chunks t (omega arith)
  refill_loop_ends (suc fuel) t h = elim (Bool-cases (has_room node content stamp t)) [
    | inl room ↦ rw (refill_loop_room fuel t room) (
        refill_loop_ends fuel (send_next node content stamp t)
          (rw (send_next_total t, send_next_next t) (omega arith)))
    | inr full ↦ rw (refill_loop_full fuel t full) full
  ]

  -- From every state the loop ends by its own test, so the fuel is enough: afterwards the window
  -- is full or no chunk of the file is left to send.
  pub refill_window-full :
      (t : Tx) → has_room node content stamp (refill_window node content stamp t) ≡ false
  unfolding refill_window
  refill_window-full t = refill_loop_ends (t.ctx.total_chunks - t.ctx.next_to_send) t (omega arith)
