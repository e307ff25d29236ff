-- ===== src/Transfer/Window.antt =====
-- The sending side of src/core/managers/service_threads.py: `_pump` and what it calls.
pub mod Refill
pub mod Invariant
pub mod Pumping
pub mod Silence
pub mod Ending
pub mod Budget
pub mod Bounded
pub mod Sending
use link_chat.Prelude.{
  ℕ, zero, suc, ◌+◌, ◌-◌, Bool, true, false, ◌&&◌, not, List, [], ◌∷◌, ◌++◌, ltb, leb,
  if◌then◌else◌, length, Result,
}
use link_chat.Prelude.Int.{ℤ, pos, pos_part, neg_part, leb_ℤ, ◌+ℤ◌}
use link_chat.Dict.{Dict, put}
use link_chat.Text.{Text, Bytes, codes}
use link_chat.Text.Equality.{nat_key}
use link_chat.Frame.{FrameSchema}
use link_chat.Transfer.{Node, FileSendCtx, get_data_chunk, get_file_fin_frame}

-- The sequence number of the frame factory, the outgoing queue (oldest first) and a context.
pub record Tx : Type 0 where
  pub seq : ℕ
  pub outgoing : List FrameSchema
  pub ctx : FileSendCtx

abbrev pub queue : Tx → FrameSchema × ℕ → Tx
queue t (frame, seq) = record t { seq = seq; outgoing = t.outgoing ++ frame ∷ [] }

-- `ctx.inflight[idx] = (time.time(), retries)`
unfoldable pub mark_inflight : ℕ → ℕ → ℕ → FileSendCtx → FileSendCtx
mark_inflight time idx retries ctx = record ctx { inflight = put idx (time, retries) ctx.inflight }

-- `content` is the file at the context's path; `stamp idx` is what the clock says when the chunk
-- `idx` is marked.
module _ (node : Node) (content : Bytes) (stamp : ℕ → ℕ) where
  -- Send one chunk and mark it.
  unfoldable pub send_chunk : ℕ → ℕ → Tx → Tx
  unfolding mark_inflight
  send_chunk idx retries t =
      let queued = queue t (get_data_chunk node t.seq t.ctx content idx) in
      record queued { ctx = mark_inflight (stamp idx) idx retries t.ctx }

  -- The last retry is spent: the transfer ends with a `FILE_FIN` of its own.
  unfoldable pub give_up : Tx → Tx
  give_up t =
      let queued =
        queue t (get_file_fin_frame node t.seq t.ctx (codes "error") (codes "timeout")) in
      record queued { ctx = record (t.ctx) { finished = true } }

  -- The loop of `_retransfer_expired` over a copy of the chunks in flight.
  unfoldable pub retransfer_loop : ℕ → List (ℕ × (ℕ × ℕ)) → Tx → Tx
  unfolding send_chunk give_up
  retransfer_loop now [] t = t
  retransfer_loop now ((idx, (last_time, retries)) ∷ rest) t =
      elim (leb (last_time + t.ctx.timeout_s) now) [
        | false ↦ retransfer_loop now rest t
        | true ↦ elim (leb t.ctx.max_retries retries) [
          | true ↦ give_up t
          | false ↦ retransfer_loop now rest (send_chunk idx (retries + 1) t)
        ]
      ]

  unfoldable pub retransfer_expired : ℕ → Tx → Tx
  unfolding retransfer_loop
  retransfer_expired now t = retransfer_loop now t.ctx.inflight t

  -- One round of the loop of `_refill_window`.
  unfoldable pub send_next : Tx → Tx
  unfolding send_chunk
  send_next t =
      let sent = send_chunk t.ctx.next_to_send 0 t in
      record sent { ctx = record (sent.ctx) { next_to_send = t.ctx.next_to_send + 1 } }

  abbrev pub has_room : Tx → Bool
  has_room t =
      ltb (length t.ctx.inflight) t.ctx.window_size && ltb t.ctx.next_to_send t.ctx.total_chunks

  -- Each round sends another chunk, so `total_chunks - next_to_send` rounds are enough.
  unfoldable pub refill_loop : ℕ → Tx → Tx
  unfolding send_next
  refill_loop zero t = t
  refill_loop (suc fuel) t = elim (has_room t) [ true ↦ refill_loop fuel (send_next t) | false ↦ t ]

  unfoldable pub refill_window : Tx → Tx
  unfolding refill_loop
  refill_window t = refill_loop (t.ctx.total_chunks - t.ctx.next_to_send) t

  -- `ctx.last_acked + 1 >= ctx.total_chunks`
  abbrev pub all_acked : FileSendCtx → Bool
  all_acked ctx = leb_ℤ (pos ctx.total_chunks) (ctx.last_acked +ℤ pos 1)

  unfoldable pub complete : Tx → Tx
  complete t =
      if all_acked t.ctx && not t.ctx.finished
      then (let queued = queue t (get_file_fin_frame node t.seq t.ctx (codes "ok") []) in
          record queued { ctx = record (t.ctx) { finished = true } })
      else t

  -- `_pump` for one context that is not finished.
  unfoldable pub pump_ctx : ℕ → Tx → Tx
  unfolding retransfer_expired refill_window complete
  pump_ctx now t = complete (
      if t.ctx.meta_acked
      then (let retried = retransfer_expired now t in
          if retried.ctx.finished then retried else refill_window retried)
      else t)

-- `_pump`: finished contexts go, the others are served in turn. `file` gives the content of a path.
unfoldable pub pump_all :
    Node
    → (Text → Bytes)
    → (ℕ → ℕ)
    → ℕ
    → ℕ × List FrameSchema
    → Dict Text FileSendCtx
    → (ℕ × List FrameSchema) × Dict Text FileSendCtx
unfolding pump_ctx
pump_all node file stamp now link [] = (link, [])
pump_all node file stamp now (seq, outgoing) ((id, ctx) ∷ rest) =
    let t =
      pump_ctx node (file ctx.path) stamp now
        (record { seq = seq; outgoing = outgoing; ctx = ctx }) in
    let dropped = pump_all node file stamp now (seq, outgoing) rest in
    let served = pump_all node file stamp now (t.seq, t.outgoing) rest in
    if ctx.finished then dropped else (served.0, (id, t.ctx) ∷ served.1)
