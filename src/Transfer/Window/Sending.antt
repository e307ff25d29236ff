-- ===== src/Transfer/Window/Sending.antt =====
-- What the sender of a transfer puts into its queue.
use link_chat.Prelude.{
  if_cases, ℕ, zero, suc, ◌+◌, ◌<◌, ◌≡◌, refl, sym, subst, inl, inr, true, ◌&&◌, not, List, [], ◌∷◌,
  ◌++◌, arith, leb, Bool-cases, All, All-append,
}
use link_chat.Prelude.Int.{ℤ}
use link_chat.Dict.{All-put}
use link_chat.Text.{Bytes}
use link_chat.Text.Equality.{nat_key}
use link_chat.Frame.{MessageType, FrameSchema}
use link_chat.Transfer.{
  Node, FileSendCtx, read_chunk, chunk_payload, get_data_chunk, get_file_fin_frame,
}
use link_chat.Transfer.Window.{
  Tx, all_acked, has_room, send_chunk, send_next, refill_loop, refill_window, give_up,
  retransfer_loop, retransfer_expired, complete, pump_ctx,
}
use link_chat.Transfer.Window.Refill.{refill_loop_room, refill_loop_full}
use link_chat.Transfer.Window.Pumping.{still_waiting, spent, again}

-- A frame with data is one of the file's chunks.
pub record IsSent (sctx : FileSendCtx) (original : Bytes) (frame : FrameSchema) : Type 0 where
  pub is_chunk :
      frame.header.message_type ≡ MessageType.file_data
      → (idx : ℕ) × (idx < sctx.total_chunks)
        × (frame.payload ≡ chunk_payload sctx idx (read_chunk original sctx.chunk_size idx))

-- The transfer of `sctx` goes on: its data are as at the start, the chunks in flight are the
-- file's, and so are those in the queue; `acked` is the highest acknowledged index.
pub record IsSending (sctx : FileSendCtx) (original : Bytes) (acked : ℤ) (t : Tx) : Type 0 where
  pub same_id : t.ctx.file_id ≡ sctx.file_id
  pub same_size : t.ctx.chunk_size ≡ sctx.chunk_size
  pub same_total : t.ctx.total_chunks ≡ sctx.total_chunks
  pub flying : All (λ (p : ℕ × (ℕ × ℕ)). p.0 < sctx.total_chunks) t.ctx.inflight
  pub sent : All (IsSent sctx original) t.outgoing
  pub highest : t.ctx.last_acked ≡ acked

chunk_payload_eq :
    (ctx sctx : FileSendCtx) (original : Bytes) (idx : ℕ)
    → ctx.file_id ≡ sctx.file_id
    → ctx.chunk_size ≡ sctx.chunk_size
    → ctx.total_chunks ≡ sctx.total_chunks
    → chunk_payload ctx idx (read_chunk original ctx.chunk_size idx)
      ≡ chunk_payload sctx idx (read_chunk original sctx.chunk_size idx)
unfolding chunk_payload
chunk_payload_eq ctx sctx original idx e f g = rw (e, f, g) refl

module _ (node : Node) (original : Bytes) (stamp : ℕ → ℕ) (sctx : FileSendCtx) (acked : ℤ) where
  send_chunk-IsSending :
      (idx retries : ℕ) (t : Tx)
      → idx < sctx.total_chunks
      → IsSending sctx original acked t
      → IsSending sctx original acked (send_chunk node original stamp idx retries t)
  unfolding send_chunk get_data_chunk
  send_chunk-IsSending idx retries t l s = record {
    same_id = s.same_id;
    same_size = s.same_size;
    same_total = s.same_total;
    flying =
        All-put (λ (p : ℕ × (ℕ × ℕ)). p.0 < sctx.total_chunks) idx (stamp idx, retries)
          t.ctx.inflight l s.flying;
    sent = All-append (IsSent sctx original) t.outgoing _ s.sent (
      record {
        is_chunk = λ e.
            (idx, l, chunk_payload_eq t.ctx sctx original idx s.same_id s.same_size s.same_total);
      },
      tt,
    );
    highest = s.highest;
  }

  -- A FILE_FIN, and the end.
  fin-IsSending :
      (status reason : List ℕ) (t : Tx)
      → IsSending sctx original acked t
      → (u : Tx)
      → u ≡ record {
        seq = (get_file_fin_frame node t.seq t.ctx status reason).1;
        outgoing = t.outgoing ++ (get_file_fin_frame node t.seq t.ctx status reason).0 ∷ [];
        ctx = record (t.ctx) { finished = true };
      }
      → IsSending sctx original acked u
  unfolding get_file_fin_frame
  fin-IsSending status reason t s u e = subst (IsSending sctx original acked) (sym e) (record {
    same_id = s.same_id;
    same_size = s.same_size;
    same_total = s.same_total;
    flying = s.flying;
    sent =
        All-append (IsSent sctx original) t.outgoing _ s.sent
          (record { is_chunk = λ h. absurd (cc h) }, tt);
    highest = s.highest;
  })

  loop-IsSending :
      (now : ℕ) (entries : List (ℕ × (ℕ × ℕ))) (t : Tx)
      → All (λ (p : ℕ × (ℕ × ℕ)). p.0 < sctx.total_chunks) entries
      → IsSending sctx original acked t
      → IsSending sctx original acked (retransfer_loop node original stamp now entries t)
  loop-IsSending now [] t f s = unfold retransfer_loop in s
  loop-IsSending now ((idx, (last, tries)) ∷ rest) t f s =
      elim (Bool-cases (leb (last + t.ctx.timeout_s) now)) [
        | inr h ↦
            rw (still_waiting node original stamp now idx last tries rest t h)
              (loop-IsSending now rest t f.1 s)
        | inl h ↦ elim (Bool-cases (leb t.ctx.max_retries tries)) [
          | inl g ↦
              rw (spent node original stamp now idx last tries rest t h g)
                (unfold give_up in fin-IsSending _ _ t s _ refl)
          | inr g ↦ rw (again node original stamp now idx last tries rest t h g) (
              loop-IsSending now rest (send_chunk node original stamp idx (tries + 1) t) f.1
                (send_chunk-IsSending idx (tries + 1) t f.0 s))
        ]
      ]

  send_next-IsSending :
      (t : Tx)
      → t.ctx.next_to_send < sctx.total_chunks
      → IsSending sctx original acked t
      → IsSending sctx original acked (send_next node original stamp t)
  unfolding send_next
  send_next-IsSending t l s =
      let r = send_chunk-IsSending t.ctx.next_to_send 0 t l s in
      record {
        same_id = r.same_id;
        same_size = r.same_size;
        same_total = r.same_total;
        flying = r.flying;
        sent = r.sent;
        highest = r.highest;
      }

  refill-IsSending :
      (fuel : ℕ) (t : Tx)
      → IsSending sctx original acked t
      → IsSending sctx original acked (refill_loop node original stamp fuel t)
  refill-IsSending zero t s = unfold refill_loop in s
  refill-IsSending (suc fuel) t s = elim (Bool-cases (has_room node original stamp t)) [
    | inl room ↦ rw (refill_loop_room node original stamp fuel t room) (
        refill-IsSending fuel (send_next node original stamp t)
          (send_next-IsSending t (ground (arith, room, s.same_total)) s))
    | inr full ↦ rw (refill_loop_full node original stamp fuel t full) s
  ]

  complete-IsSending :
      (t : Tx)
      → IsSending sctx original acked t
      → IsSending sctx original acked (complete node original stamp t)
  unfolding complete
  complete-IsSending t s =
      if_cases (IsSending sctx original acked)
        (all_acked node original stamp t.ctx && not t.ctx.finished) _ t
        (λ h. fin-IsSending _ _ t s _ refl) (λ h. s)

  -- A round of `_pump` queues chunks of the file and nothing else with data, and moves no
  -- acknowledgement.
  pub pump_ctx-IsSending :
      (now : ℕ) (t : Tx)
      → IsSending sctx original acked t
      → IsSending sctx original acked (pump_ctx node original stamp now t)
  unfolding pump_ctx retransfer_expired refill_window
  pump_ctx-IsSending now t s = complete-IsSending _ (
      if_cases (IsSending sctx original acked) t.ctx.meta_acked _ t
        (λ h.
          if_cases (IsSending sctx original acked)
            (retransfer_expired node original stamp now t).ctx.finished
            (retransfer_expired node original stamp now t)
            (refill_window node original stamp (retransfer_expired node original stamp now t))
            (λ f. retried) (λ f. refill-IsSending _ _ retried))
        (λ h. s))
    where
      retried :
          IsSending sctx original acked (retransfer_loop node original stamp now t.ctx.inflight t)
      retried = loop-IsSending now t.ctx.inflight t s.flying s
