-- ===== src/Transfer/Receiver/Whole.antt =====
-- A file's whole way: `send_file` announces it, the receiver takes the chunks.
use link_chat.Payload.Fields.{is_plain-IsKey, key-IsField}
use link_chat.Transfer.Receiver.Complete.{receive_all-Arrived}
use link_chat.Transfer.Receiver.Order.{chunk_frames, receive_all, indices}
use link_chat.Transfer.Paths.{ensure_inside_base_dir}
use link_chat.Prelude.{
  none, All, List, ℕ, zero, suc, ◌<◌, ◌≡◌, refl, ◌≢◌, true, Option, some, [], arith, length, ok,
}
use link_chat.Transfer.Sender.Starting.{start_ctx-Started}
use link_chat.Dict.{get, get-put_self}
use link_chat.Text.{codes, lower, Text, Bytes}
use link_chat.Text.Equality.{text_eq_refl, text_eq, text_key}
use link_chat.Frame.{FrameSchema}
use link_chat.Transfer.Receiver.Announced.{on_meta-sent}
use link_chat.Transfer.Receiver.Meta.{dest_path}
use link_chat.Transfer.{Node, FileSendCtx, get_meta_frame}
use link_chat.Transfer.Sender.{start_ctx, basename}
use link_chat.Transfer.Receiver.{Host, Rx, send_ack}
use link_chat.Transfer.Receiver.Data.{has_index}
use link_chat.Transfer.Receiver.Meta.{on_meta, MetaFields, new_ctx}
use link_chat.Transfer.Receiver.Progress.{IsTally}
use link_chat.Transfer.Receiver.Assembly.{Covers, IsAssembly}
use link_chat.Transfer.Receiver.States.{Arriving, write_file_self}
use link_chat.Transfer.Receiver.Announced.{IsAnnounceable, sent_fields, opened}

no_index : (i : ℕ) → has_index i [] ≡ true → ⊥
unfolding has_index
no_index i h = cc h

module _ (host : Host) (m : MetaFields) (frame : FrameSchema) (size chunk_size total : ℕ) where
  -- Nothing has come of a new transfer.
  new-IsTally : IsTally (new_ctx host m frame size chunk_size total)
  unfolding new_ctx has_index
  new-IsTally = record {
    distinct = tt;
    in_range = tt;
    before = λ i l. absurd (omega arith);
    missing = refl;
    bounded = omega arith;
  }

  new-IsAssembly :
      (original : Bytes)
      → Covers total chunk_size (length original)
      → IsAssembly original (new_ctx host m frame size chunk_size total) []
  unfolding new_ctx
  new-IsAssembly original c = record {
    covers = c;
    tally = new-IsTally;
    sized = omega arith;
    agree = λ i k h l inside. absurd (no_index i h);
  }

  pub opened_known :
      (s : Rx)
      → get m.file_id (opened host m frame size chunk_size total s).ctx_by_id
        ≡ some (new_ctx host m frame size chunk_size total)
  unfolding send_ack
  opened_known s = get-put_self m.file_id (new_ctx host m frame size chunk_size total) s.ctx_by_id

  opened_stored :
      (s : Rx)
      → (opened host m frame size chunk_size total s).files
          (new_ctx host m frame size chunk_size total).temp_path
        ≡ some []
  unfolding send_ack new_ctx
  opened_stored s = write_file_self _ [] s.files

  pub opened-Arriving :
      (original : Bytes) (s : Rx)
      → Covers total chunk_size (length original)
      → 0 < total
      → Arriving
          (new_ctx host m frame size chunk_size total)
          original
          []
          (opened host m frame size chunk_size total s)
  unfolding new_ctx
  opened-Arriving original s c l = record {
    received = [];
    next = 0;
    content = [];
    known = opened_known s;
    stored = opened_stored s;
    assembly = new-IsAssembly original c;
    missing = l;
    counted = λ i h. h;
  }

pub same_digest :
    (sha256_hex : Bytes → Text) (content : Bytes) (hash : Text)
    → hash ≡ sha256_hex content
    → text_eq (lower (sha256_hex content)) (lower hash) ≡ true
same_digest sha256_hex content hash e = rw e (text_eq_refl (lower (sha256_hex content)))

pub some_chunks : (total chunk_size size : ℕ) → Covers total chunk_size size → 0 < size → 0 < total
some_chunks zero chunk_size size c h = absurd (omega (arith, c.reaches))
some_chunks (suc total) chunk_size size c h = omega arith

-- A file that is not empty is sent by a sender of any chunk size but zero, with a relative path or
-- without one, and both nodes compute the same digest. When the values in its announcement can
-- stand in a line, neither the file's name nor its digest is empty, the destination lies inside the
-- receiver's base directory, and a list holds the index of every chunk and no other index, then
-- the receiver handles the announcement and after it the frames of the listed chunks, in that
-- order and with all repetitions, without an exception; in the end the file that was sent stands
-- at the destination and the transfer is closed.
pub on_meta-receive_all :
    (host : Host) (node : Node) (seq chunk_size : ℕ) (path dst : Text) (content : Bytes)
    (ctx : FileSendCtx) (rel : Option Text) (order : List (ℕ × ℕ)) (s : Rx)
    → start_ctx host.sha256_hex chunk_size path dst content ≡ ok ctx
    → IsAnnounceable ctx (basename path) rel
    → 0 < length content
    → basename path ≢ []
    → ctx.hash_sha256_hex ≢ []
    → ensure_inside_base_dir host.realpath host.base_dir
        (dest_path host (sent_fields ctx (basename path) rel))
      ≡ true
    → All (λ p. p.1 < ctx.total_chunks) order
    → ((i : ℕ) → i < ctx.total_chunks → has_index i (indices order) ≡ true)
    → (s1 : Rx) × (s2 : Rx) × (on_meta host (get_meta_frame node seq ctx (basename path) rel).0 s
        ≡ ok s1)
      × (receive_all host (chunk_frames node ctx content order) s1 ≡ ok s2)
      × (get ctx.file_id s2.ctx_by_id ≡ none)
      × (s2.files (dest_path host (sent_fields ctx (basename path) rel)) ≡ some content)
unfolding new_ctx
on_meta-receive_all host node seq chunk_size path dst content ctx rel order s e a l n h inside
      in_range all =
    let st = start_ctx-Started host.sha256_hex chunk_size path dst content ctx e in
    let positive = some_chunks ctx.total_chunks ctx.chunk_size (length content) st.covers l in
    let (s2, runs, over) =
      receive_all-Arrived host (new_ctx host m frame ctx.size ctx.chunk_size ctx.total_chunks) ctx
        content refl positive
        (key-IsField (codes "file_id") ctx.file_id (is_plain-IsKey _ refl) a.id_word) st.named refl
        (same_digest host.sha256_hex content ctx.hash_sha256_hex st.hashed) node order s1 refl
        in_range all
        (opened-Arriving host m frame ctx.size ctx.chunk_size ctx.total_chunks content s st.covers
          positive) in
    (
      s1,
      s2,
      on_meta-sent host node seq ctx (basename path) rel s a st.named n h st.covers.some_bytes
          positive inside,
      runs,
      over.gone,
      over.placed,
    )
  where
    m : MetaFields
    m = sent_fields ctx (basename path) rel

    frame : FrameSchema
    frame = (get_meta_frame node seq ctx (basename path) rel).0

    s1 : Rx
    s1 = opened host m frame ctx.size ctx.chunk_size ctx.total_chunks s
