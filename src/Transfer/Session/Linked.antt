-- ===== src/Transfer/Session/Linked.antt =====
-- What the two ends of a transfer know of each other.
use link_chat.Transfer.Session.Acked.{
  ack_ctx-IsSending, same_ok, finished-IsSending, fin_outcome, ack_outcome,
}
use link_chat.Transfer.Receiver.Single.{step_or_end}
use link_chat.Transfer.Sender.{ack_ctx, on_fin, on_ack}
use link_chat.Dict.{get, Dict}
use link_chat.Frame.{MessageType, FrameSchema}
use link_chat.Payload.Fields.{IsField}
use link_chat.Transfer.Window.{pump_ctx, Tx}
use link_chat.Prelude.{
  ◌∷◌, ap, some, ◌∙◌, ok, All-get_elem?, sym, subst, false, ◌≢◌, ◌<◌, refl, ℕ, ◌≤◌, ◌≡◌, inl, inr,
  true, List, [], arith, All,
}
use link_chat.Prelude.Int.{ℤ, pos, leb_ℤ, max_ℤ, ◌+ℤ◌, ◌-ℤ◌}
use link_chat.Text.{Text, lower, codes, Bytes}
use link_chat.Text.Equality.{text_eq, text_key}
use link_chat.Transfer.{read_chunk, chunk_payload, Node, FileSendCtx, FileRcvCtx}
use link_chat.Transfer.Window.Sending.{pump_ctx-IsSending, IsSent, IsSending}
use link_chat.Transfer.Receiver.{Host, Rx}
use link_chat.Transfer.Receiver.Data.{on_data, has_index}
use link_chat.Transfer.Receiver.Answers.{ack_bytes, IsAnswer, progress}
use link_chat.Transfer.Receiver.States.{Status}
use link_chat.Transfer.Session.{only, Step, Reach, Session}

-- The sender sends the file's chunks, the receiver has stored what came of them, its
-- acknowledgements ask for no more than it misses, and the sender believes no more than they say.
pub record IsLinked (base : FileRcvCtx) (sctx : FileSendCtx) (original : Bytes) (s : Session)
    : Type 0 where
  pub sending : IsSending sctx original s.tx.ctx.last_acked s.tx
  pub status : Status base original [] s.rx
  pub answers : All (IsAnswer base.file_id (progress base s.rx)) s.rx.outgoing
  pub behind : leb_ℤ (s.tx.ctx.last_acked +ℤ pos 1) (pos (progress base s.rx)) ≡ true

has_index_nil : (i : ℕ) → has_index i [] ≡ true → ⊥
unfolding has_index
has_index_nil i h = cc h

forget :
    (base : FileRcvCtx) (original : Bytes) (got : List ℕ) (s : Rx)
    → Status base original got s
    → Status base original [] s
forget base original got s (inl a) = inl (record {
  received = a.received;
  next = a.next;
  content = a.content;
  known = a.known;
  stored = a.stored;
  assembly = a.assembly;
  missing = a.missing;
  counted = λ i h. absurd (has_index_nil i h);
})
forget base original got s (inr a) = inr a

believed : (a : ℤ) (p q : ℕ) → p ≤ q → leb_ℤ a (pos p) ≡ true → leb_ℤ a (pos q) ≡ true
believed a p q l h = ground (arith, l, h)

acked_behind :
    (a : ℤ) (m p : ℕ)
    → m ≤ p
    → leb_ℤ (a +ℤ pos 1) (pos p) ≡ true
    → leb_ℤ (max_ℤ a (pos m -ℤ pos 1) +ℤ pos 1) (pos p) ≡ true
acked_behind a m p l h = ground (arith, l, h)

own :
    (sctx : FileSendCtx) (original : Bytes) (acked : ℤ) (t : Tx)
    → IsSending sctx original acked t
    → IsSending sctx original t.ctx.last_acked t
own sctx original acked t s = record {
  same_id = s.same_id;
  same_size = s.same_size;
  same_total = s.same_total;
  flying = s.flying;
  sent = s.sent;
  highest = refl;
}

module _ (node : Node) (host : Host) (base : FileRcvCtx) (sctx : FileSendCtx) (original : Bytes)
    (same_id : base.file_id ≡ sctx.file_id) (same_size : base.chunk_size ≡ sctx.chunk_size)
    (same_total : base.total_chunks ≡ sctx.total_chunks) (some_chunks : 0 < sctx.total_chunks)
    (id_field : IsField (codes "file_id", sctx.file_id)) (some_id : sctx.file_id ≢ [])
    (running : base.finished ≡ false)
    (digest : text_eq (lower (host.sha256_hex original)) (lower base.sha256_expected) ≡ true) where
  -- The sender's side has moved.
  moved :
      (s : Session) (acked : ℤ) (t : Tx)
      → IsLinked base sctx original s
      → IsSending sctx original acked t
      → leb_ℤ (acked +ℤ pos 1) (pos (progress base s.rx)) ≡ true
      → IsLinked base sctx original (record { tx = t; rx = s.rx })
  moved s acked t l q b = record {
    sending = own sctx original acked t q;
    status = l.status;
    answers = l.answers;
    behind = subst (λ a. leb_ℤ (a +ℤ pos 1) (pos (progress base s.rx)) ≡ true) (sym q.highest) b;
  }

  unchanged_ctx :
      (s : Session) (ctx : FileSendCtx)
      → ctx ≡ s.tx.ctx
      → IsLinked base sctx original s
      → IsLinked base sctx original (record { tx = record (s.tx) { ctx = ctx }; rx = s.rx })
  unchanged_ctx s ctx e l =
      subst
        (λ c. IsLinked base sctx original (record { tx = record (s.tx) { ctx = c }; rx = s.rx }))
        (sym e) l

  data-IsLinked :
      (s : Session) (frame : FrameSchema) (rx : Rx)
      → IsSent sctx original frame
      → frame.header.message_type ≡ MessageType.file_data
      → on_data host frame s.rx ≡ ok rx
      → IsLinked base sctx original s
      → IsLinked base sctx original (record { tx = s.tx; rx = rx })
  data-IsLinked s frame rx sent e r l =
      let (idx, inside, payload) = sent.is_chunk e in
      let (rx', runs, told, status) =
        step_or_end host base sctx original same_id some_chunks id_field some_id running digest idx
          frame [] s.rx
          (payload ∙ ap (λ n. chunk_payload sctx idx (read_chunk original n idx)) (sym same_size))
          (omega (arith, inside, same_total)) l.status in
      subst (λ x. IsLinked base sctx original (record { tx = s.tx; rx = x })) (same_ok r runs)
        (record {
          sending = l.sending;
          status = forget base original (idx ∷ []) rx' status;
          answers = told.answers l.answers;
          behind =
              believed (s.tx.ctx.last_acked +ℤ pos 1) (progress base s.rx) (progress base rx')
                told.rising l.behind;
        })

  ack-IsLinked :
      (s : Session) (frame : FrameSchema) (ctxs : Dict Text FileSendCtx) (ctx : FileSendCtx)
      → IsAnswer base.file_id (progress base s.rx) frame
      → frame.header.message_type ≡ MessageType.ack
      → on_ack frame (only s.tx.ctx) ≡ ok ctxs
      → get s.tx.ctx.file_id ctxs ≡ some ctx
      → IsLinked base sctx original s
      → IsLinked base sctx original (record { tx = record (s.tx) { ctx = ctx }; rx = s.rx })
  ack-IsLinked s frame ctxs ctx answer e r g l =
      let (m, most, payload) = answer.asks e in
      elim (ack_outcome frame ctxs s.tx.ctx ctx m
        (subst (λ i. IsField (codes "file_id", i)) (sym l.sending.same_id) id_field)
        (subst (λ i. i ≢ []) (sym l.sending.same_id) some_id)
        (payload ∙ ap (λ i. ack_bytes i m) (same_id ∙ sym l.sending.same_id)) r g) [
          | inl kept ↦ unchanged_ctx s ctx kept l
          | inr acked ↦
              subst
                (λ c.
                  IsLinked base sctx original
                    (record { tx = record (s.tx) { ctx = c }; rx = s.rx }))
                (sym acked)
                (moved s (max_ℤ s.tx.ctx.last_acked (pos m -ℤ pos 1))
                  (record (s.tx) { ctx = ack_ctx (pos m) s.tx.ctx }) l
                  (ack_ctx-IsSending sctx original s.tx.ctx.last_acked (pos m) s.tx l.sending)
                  (acked_behind s.tx.ctx.last_acked m (progress base s.rx) most l.behind))
        ]

  fin-IsLinked :
      (s : Session) (frame : FrameSchema) (ctxs : Dict Text FileSendCtx) (ctx : FileSendCtx)
      → on_fin frame (only s.tx.ctx) ≡ ok ctxs
      → get s.tx.ctx.file_id ctxs ≡ some ctx
      → IsLinked base sctx original s
      → IsLinked base sctx original (record { tx = record (s.tx) { ctx = ctx }; rx = s.rx })
  fin-IsLinked s frame ctxs ctx r g l = elim (fin_outcome frame ctxs s.tx.ctx ctx r g) [
    | inl kept ↦ unchanged_ctx s ctx kept l
    | inr ended ↦
        subst
          (λ c. IsLinked base sctx original (record { tx = record (s.tx) { ctx = c }; rx = s.rx }))
          (sym ended)
          (moved s s.tx.ctx.last_acked
            (record (s.tx) { ctx = record (s.tx.ctx) { finished = true } }) l
            (finished-IsSending sctx original s.tx.ctx.last_acked s.tx l.sending) l.behind)
  ]

  step-IsLinked :
      (s t : Session)
      → Step node host original s t
      → IsLinked base sctx original s
      → IsLinked base sctx original t
  step-IsLinked s t (Step.pump now stamp going) l =
      moved s s.tx.ctx.last_acked (pump_ctx node original stamp now s.tx) l
        (pump_ctx-IsSending node original stamp sctx s.tx.ctx.last_acked now s.tx l.sending)
        l.behind
  step-IsLinked s t (Step.data_arrives i frame rx there e r) l =
      data-IsLinked s frame rx
        (All-get_elem? (IsSent sctx original) s.tx.outgoing i frame l.sending.sent there) e r l
  step-IsLinked s t (Step.ack_arrives i frame ctxs ctx there e r g) l =
      ack-IsLinked s frame ctxs ctx
        (All-get_elem? (IsAnswer base.file_id (progress base s.rx)) s.rx.outgoing i frame l.answers
          there)
        e r g l
  step-IsLinked s t (Step.fin_arrives i frame ctxs ctx there e r g) l =
      fin-IsLinked s frame ctxs ctx r g l

  pub reach-IsLinked :
      (s t : Session)
      → Reach node host original s t
      → IsLinked base sctx original s
      → IsLinked base sctx original t
  reach-IsLinked s t Reach.start l = l
  reach-IsLinked s t (Reach.later {t = u} r w) l = step-IsLinked u t w (reach-IsLinked s u r l)
