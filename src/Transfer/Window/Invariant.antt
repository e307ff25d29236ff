-- ===== src/Transfer/Window/Invariant.antt =====
-- The window of a transfer, and what `_pump` keeps of it.
use link_chat.Prelude.{
  ℕ, zero, suc, ◌+◌, ◌≤◌, ◌<◌, ◌≡◌, refl, inl, inr, true, some, arith, Bool-cases, length,
}
use link_chat.Dict.{get, put, get-put, length-put, length-put_old}
use link_chat.Text.{Bytes}
use link_chat.Text.Equality.{nat_key}
use link_chat.Transfer.{Node, FileSendCtx}
use link_chat.Transfer.Window.{Tx, has_room, send_chunk, send_next, refill_loop}
use link_chat.Transfer.Window.Refill.{refill_loop_room, refill_loop_full}

-- No more chunks are in flight than the window holds, no more are sent than the file has, and what
-- is in flight has been sent.
pub record IsWindow (ctx : FileSendCtx) : Type 0 where
  pub fits : length ctx.inflight ≤ ctx.window_size
  pub in_range : ctx.next_to_send ≤ ctx.total_chunks
  pub behind : (j : ℕ) (e : ℕ × ℕ) → get j ctx.inflight ≡ some e → j < ctx.next_to_send

module _ (node : Node) (content : Bytes) (stamp : ℕ → ℕ) where
  send_next_ctx :
      (t : Tx)
      → (send_next node content stamp t).ctx ≡ record t.ctx {
        inflight = put t.ctx.next_to_send (stamp t.ctx.next_to_send, 0) t.ctx.inflight;
        next_to_send = t.ctx.next_to_send + 1;
      }
  unfolding send_next
  send_next_ctx t = refl

  send_next-IsWindow :
      (t : Tx)
      → has_room node content stamp t ≡ true
      → IsWindow t.ctx
      → IsWindow (send_next node content stamp t).ctx
  send_next-IsWindow t room w = rw (send_next_ctx t) (record {
    fits =
        ground
          (arith, room, length-put t.ctx.next_to_send (stamp t.ctx.next_to_send, 0) t.ctx.inflight);
    in_range = ground (arith, room);
    behind = λ j e h. ground (
      arith,
      h,
      w.behind j e,
      get-put j t.ctx.next_to_send (stamp t.ctx.next_to_send, 0) t.ctx.inflight,
    );
  })

  pub refill_loop-IsWindow :
      (fuel : ℕ) (t : Tx) → IsWindow t.ctx → IsWindow (refill_loop node content stamp fuel t).ctx
  refill_loop-IsWindow zero t w = unfold refill_loop in w
  refill_loop-IsWindow (suc fuel) t w = elim (Bool-cases (has_room node content stamp t)) [
    | inl room ↦
        rw (refill_loop_room node content stamp fuel t room)
          (refill_loop-IsWindow fuel (send_next node content stamp t) (send_next-IsWindow t room w))
    | inr full ↦ rw (refill_loop_full node content stamp fuel t full) w
  ]

  -- A chunk in flight that is sent again takes no more room.
  pub send_chunk-IsWindow :
      (idx retries : ℕ) (t : Tx) (e : ℕ × ℕ)
      → get idx t.ctx.inflight ≡ some e
      → IsWindow t.ctx
      → IsWindow (send_chunk node content stamp idx retries t).ctx
  unfolding send_chunk
  send_chunk-IsWindow idx retries t e k w = record {
    fits = omega (arith, length-put_old idx (stamp idx, retries) t.ctx.inflight e k, w.fits);
    in_range = w.in_range;
    behind = λ j f h. ground (
      arith,
      h,
      w.behind j f,
      w.behind idx e k,
      get-put j idx (stamp idx, retries) t.ctx.inflight,
    );
  }
