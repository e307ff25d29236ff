-- ===== src/Transfer/Session/Delivered.antt =====
-- What the sender may conclude from the acknowledgements.
use link_chat.Transfer.Session.Acked.{same_ok}
use link_chat.Payload.Fields.{is_plain-IsKey, key-IsField}
use link_chat.Transfer.Paths.{ensure_inside_base_dir}
use link_chat.Transfer.Sender.{basename, start_ctx}
use link_chat.Transfer.Receiver.Whole.{same_digest, some_chunks, opened_known, opened-Arriving}
use link_chat.Transfer.Receiver.Announced.{on_meta-sent, IsAnnounceable, sent_fields, opened}
use link_chat.Frame.{FrameSchema}
use link_chat.Transfer.Sender.Starting.{start_ctx-Started, Started}
use link_chat.Transfer.Receiver.Meta.{on_meta, dest_path, MetaFields, new_ctx}
use link_chat.Transfer.Receiver.{Rx, Host}
use link_chat.Prelude.{
  some, ◌≢◌, length, ok, ℕ, ◌<◌, ◌≡◌, refl, sym, ◌∙◌, subst, inl, inr, true, Option, [], ◌∷◌, arith,
  All,
}
use link_chat.Prelude.Int.{negsuc, ℤ, pos, leb_ℤ, ◌+ℤ◌}
use link_chat.Text.{codes, Text, Bytes}
use link_chat.Text.Equality.{text_key}
use link_chat.Transfer.{Node, FileSendCtx, FileRcvCtx, get_meta_frame}
use link_chat.Transfer.Window.{Tx}
use link_chat.Transfer.Window.Sending.{IsSending}
use link_chat.Transfer.Receiver.Progress.{le-length_of_all}
use link_chat.Transfer.Receiver.Answers.{send_ack_answers, IsAnswer, progress, known_progress}
use link_chat.Transfer.Receiver.States.{Arrived}
use link_chat.Transfer.Session.{Reach, Session}
use link_chat.Transfer.Session.Linked.{reach-IsLinked, IsLinked}

-- All chunks are acknowledged: then the transfer is over at the receiver.
acked-Arrived :
    (base : FileRcvCtx) (sctx : FileSendCtx) (original : Bytes) (s : Session)
    → base.total_chunks ≡ sctx.total_chunks
    → leb_ℤ (pos s.tx.ctx.total_chunks) (s.tx.ctx.last_acked +ℤ pos 1) ≡ true
    → IsLinked base sctx original s
    → Arrived base original s.rx
acked-Arrived base sctx original s e all l = elim l.status [
  | inr over ↦ over
  | inl a ↦ absurd (
      omega (
        arith,
        a.missing,
        le-length_of_all base.total_chunks a.received (λ i h. a.assembly.tally.before i (
            believed_all s.tx.ctx.total_chunks base.total_chunks (progress base s.rx) a.next i
              (known_progress base s.rx _ a.known) (l.sending.same_total ∙ sym e)
              s.tx.ctx.last_acked all l.behind h)),
      ))
]
  where
    believed_all :
        (n total p next i : ℕ)
        → p ≡ next
        → n ≡ total
        → (a : ℤ) → leb_ℤ (pos n) (a +ℤ pos 1) ≡ true
        → leb_ℤ (a +ℤ pos 1) (pos p) ≡ true
        → i < total
        → i < next
    believed_all n total p next i e f a h k l = ground (arith, e, f, h, k, l)

-- The sender when the first acknowledgement has come: the announcement is in its queue.
abbrev pub announced : Node → ℕ → FileSendCtx → Text → Option Text → Tx
announced node seq ctx name rel = record {
  seq = (get_meta_frame node seq ctx name rel).1;
  outgoing = (get_meta_frame node seq ctx name rel).0 ∷ [];
  ctx = record ctx { meta_acked = true };
}

announced-IsSending :
    (node : Node) (seq : ℕ) (ctx : FileSendCtx) (name : Text) (rel : Option Text) (original : Bytes)
    → ctx.inflight ≡ []
    → IsSending ctx original ctx.last_acked (announced node seq ctx name rel)
unfolding get_meta_frame
announced-IsSending node seq ctx name rel original e = record {
  same_id = refl;
  same_size = refl;
  same_total = refl;
  flying = subst (All (λ (p : ℕ × (ℕ × ℕ)). p.0 < ctx.total_chunks)) (sym e) tt;
  sent = (record { is_chunk = λ h. absurd (cc h) }, tt);
  highest = refl;
}

module _ (host : Host) (m : MetaFields) (frame : FrameSchema) (size chunk_size total : ℕ) where
  opened_progress :
      (s : Rx)
      → progress
          (new_ctx host m frame size chunk_size total)
          (opened host m frame size chunk_size total s)
        ≡ 0
  unfolding new_ctx
  opened_progress s =
      known_progress (new_ctx host m frame size chunk_size total)
        (opened host m frame size chunk_size total s) (new_ctx host m frame size chunk_size total)
        (opened_known host m frame size chunk_size total s)

  opened_answers :
      (s : Rx)
      → s.outgoing ≡ []
      → All (IsAnswer m.file_id 0) (opened host m frame size chunk_size total s).outgoing
  opened_answers s e =
      send_ack_answers host m.file_id frame.src_mac 0 0 _ (omega arith)
        (subst (All (IsAnswer m.file_id 0)) (sym e) tt)

none_believed : (a : ℤ) (p : ℕ) → a ≡ negsuc 0 → leb_ℤ (a +ℤ pos 1) (pos p) ≡ true
none_believed a p e = ground (arith, e)

start-IsLinked :
    (host : Host) (node : Node) (seq : ℕ) (content : Bytes) (ctx : FileSendCtx) (name : Text)
    (rel : Option Text) (s : Rx)
    → Started host.sha256_hex content ctx
    → 0 < ctx.total_chunks
    → s.outgoing ≡ []
    → IsLinked
        (new_ctx host
          (sent_fields ctx name rel)
          (get_meta_frame node seq ctx name rel).0
          ctx.size
          ctx.chunk_size
          ctx.total_chunks)
        ctx
        content
        (record {
          tx = announced node seq ctx name rel;
          rx =
              opened host
                (sent_fields ctx name rel)
                (get_meta_frame node seq ctx name rel).0
                ctx.size
                ctx.chunk_size
                ctx.total_chunks
                s;
        })
unfolding new_ctx
start-IsLinked host node seq content ctx name rel s st positive e = record {
  sending = announced-IsSending node seq ctx name rel content st.fresh;
  status = inl (
      opened-Arriving host m frame ctx.size ctx.chunk_size ctx.total_chunks content s st.covers
        positive);
  answers =
      subst (λ n. All (IsAnswer ctx.file_id n) after.outgoing)
        (sym (opened_progress host m frame ctx.size ctx.chunk_size ctx.total_chunks s))
        (opened_answers host m frame ctx.size ctx.chunk_size ctx.total_chunks s e);
  behind = none_believed ctx.last_acked _ st.unacked;
}
  where
    m : MetaFields
    m = sent_fields ctx name rel

    frame : FrameSchema
    frame = (get_meta_frame node seq ctx name rel).0

    after : Rx
    after = opened host m frame ctx.size ctx.chunk_size ctx.total_chunks s

-- A sender announces a file that is not empty, with any chunk size but zero; both nodes compute the
-- same digest, the values in the announcement can stand in a line, neither the file's name nor its
-- digest is empty, the destination lies inside the receiver's base directory, and the receiver's
-- queue is empty. After the receiver has handled the announcement and the sender has the first
-- acknowledgement, rounds of the pump, chunks at the receiver, and acknowledgements and ends of the
-- transfer at the sender follow in any order and at any time; frames are lost, repeated and
-- overtaken. Whenever the sender believes that all chunks are acknowledged, the file stands at its
-- destination at the receiver.
pub reach-delivered :
    (host : Host) (node : Node) (seq chunk_size : ℕ) (path dst : Text) (content : Bytes)
    (ctx : FileSendCtx) (rel : Option Text) (s s1 : Rx) (t : Session)
    → start_ctx host.sha256_hex chunk_size path dst content ≡ ok ctx
    → IsAnnounceable ctx (basename path) rel
    → 0 < length content
    → basename path ≢ []
    → ctx.hash_sha256_hex ≢ []
    → ensure_inside_base_dir host.realpath host.base_dir
        (dest_path host (sent_fields ctx (basename path) rel))
      ≡ true
    → s.outgoing ≡ []
    → on_meta host (get_meta_frame node seq ctx (basename path) rel).0 s ≡ ok s1
    → Reach node host content
        (record { tx = announced node seq ctx (basename path) rel; rx = s1 })
        t
    → leb_ℤ (pos t.tx.ctx.total_chunks) (t.tx.ctx.last_acked +ℤ pos 1) ≡ true
    → t.rx.files (dest_path host (sent_fields ctx (basename path) rel)) ≡ some content
unfolding new_ctx
reach-delivered host node seq chunk_size path dst content ctx rel s s1 t e a l n h inside empty meta
      reached all =
    let st = start_ctx-Started host.sha256_hex chunk_size path dst content ctx e in
    let positive = some_chunks ctx.total_chunks ctx.chunk_size (length content) st.covers l in
    let opens =
      on_meta-sent host node seq ctx (basename path) rel s a st.named n h st.covers.some_bytes
        positive inside in
    let linked =
      reach-IsLinked node host base ctx content refl refl refl positive
        (key-IsField (codes "file_id") ctx.file_id (is_plain-IsKey _ refl) a.id_word) st.named refl
        (same_digest host.sha256_hex content ctx.hash_sha256_hex st.hashed)
        (record { tx = announced node seq ctx (basename path) rel; rx = s1 }) t reached
        (subst
          (λ x.
            IsLinked base ctx content
              (record { tx = announced node seq ctx (basename path) rel; rx = x }))
          (same_ok meta opens)
          (start-IsLinked host node seq content ctx (basename path) rel s st positive empty)) in
    (acked-Arrived base ctx content t refl all linked).placed
  where
    base : FileRcvCtx
    base =
        new_ctx host (sent_fields ctx (basename path) rel)
          (get_meta_frame node seq ctx (basename path) rel).0 ctx.size ctx.chunk_size
          ctx.total_chunks
