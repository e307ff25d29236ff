-- ===== src/Transfer/Receiver/Arrival.antt =====
-- What `_on_data` does with a chunk, step by step.
use link_chat.Prelude.{
  ℕ, ◌*◌, ◌≤◌, ◌<◌, ◌≡◌, refl, ap, ◌∙◌, true, false, none, some, arith, length, All, ok,
}
use link_chat.Dict.{get-pop_self, get, put}
use link_chat.Text.{Text, Bytes, codes, lower}
use link_chat.Text.Equality.{text_eq, text_key, text_eq_refl}
use link_chat.Text.Utf8.{encode, decode, decode-encode}
use link_chat.Payload.{parse_payload}
use link_chat.Payload.RoundTrip.{lines_text, parse_payload-lines_text}
use link_chat.Frame.{FrameSchema}
use link_chat.Transfer.{FileSendCtx, FileRcvCtx, data_pairs, chunk_payload}
use link_chat.Transfer.Receiver.{Host, Rx, send_ack, send_fin}
use link_chat.Transfer.Receiver.Store.{Files, write_file, replace_file, write_at}
use link_chat.Transfer.Receiver.Data.{
  data_target, mark_received, finish_file, tell_progress, after_write, store_chunk, on_chunk,
  on_data, split_blank,
}
use link_chat.Transfer.Receiver.Header.{split_blank-kv_bytes}
use link_chat.Payload.Fields.{IsField, lines_scalars}
use link_chat.Transfer.Receiver.Target.{data_pairs-IsField, data_kv}

replaced :
    (ctx : FileRcvCtx) (content : Bytes) (files : Files)
    → replace_file ctx.temp_path ctx.dest_path content files ctx.dest_path ≡ some content
unfolding replace_file
replaced ctx content files = rw (text_eq_refl ctx.dest_path) refl

module _ (host : Host) where
  on_data_step :
      (frame : FrameSchema) (head chunk : Bytes) (text : Text) (s : Rx)
      → split_blank frame.payload ≡ some (head, chunk)
      → decode head ≡ ok text
      → on_data host frame s ≡ on_chunk host (data_target (parse_payload text) s) frame chunk s
  unfolding on_data
  on_data_step frame head chunk text s e d = ground (arith, e, d)

  -- The frame of a chunk comes to the context that its header names.
  pub on_data-chunk :
      (sctx : FileSendCtx) (idx : ℕ) (chunk : Bytes) (frame : FrameSchema) (s : Rx)
      → IsField (codes "file_id", sctx.file_id)
      → frame.payload ≡ chunk_payload sctx idx chunk
      → on_data host frame s ≡ on_chunk host (data_target (data_kv sctx idx) s) frame chunk s
  unfolding chunk_payload
  on_data-chunk sctx idx chunk frame s h e =
      on_data_step frame (encode (lines_text (data_pairs sctx idx))) chunk
        (lines_text (data_pairs sctx idx)) s
        (ap split_blank e ∙ split_blank-kv_bytes _ _ chunk fields)
        (decode-encode (lines_text (data_pairs sctx idx)) (lines_scalars _ _ fields))
      ∙ ap (λ kv. on_chunk host (data_target kv s) frame chunk s)
          (parse_payload-lines_text _ _
            (fields.0.clean, (fields.1.0.clean, (fields.1.1.0.clean, tt))))
    where
      fields : All IsField (data_pairs sctx idx)
      fields = data_pairs-IsField sctx idx h

  pub on_chunk_stored :
      (ctx : FileRcvCtx) (idx : ℕ) (frame : FrameSchema) (chunk content : Bytes) (s : Rx)
      → s.files ctx.temp_path ≡ some content
      → on_chunk host (some (ctx, idx)) frame chunk s
        ≡ ok (store_chunk host ctx frame idx chunk content s)
  unfolding on_chunk
  on_chunk_stored ctx idx frame chunk content s e = ground (arith, e)

  pub on_chunk_ignored :
      (frame : FrameSchema) (chunk : Bytes) (s : Rx) → on_chunk host none frame chunk s ≡ ok s
  unfolding on_chunk
  on_chunk_ignored frame chunk s = refl

  pub store_chunk_eq :
      (ctx : FileRcvCtx) (idx : ℕ) (frame : FrameSchema) (chunk content : Bytes) (s : Rx)
      → store_chunk host ctx frame idx chunk content s
        ≡ after_write host
            (mark_received idx ctx)
            frame
            (write_at (idx * ctx.chunk_size) chunk content)
            s
  unfolding store_chunk
  store_chunk_eq ctx idx frame chunk content s = refl

  module _ (ctx : FileRcvCtx) (frame : FrameSchema) (content : Bytes) (s : Rx) where
    -- Some chunks are missing yet.
    pub after_write_open :
        length ctx.received < ctx.total_chunks
        → after_write host ctx frame content s ≡ tell_progress host ctx frame content s
    unfolding after_write
    after_write_open l = ground arith

    pub told_ctx :
        (tell_progress host ctx frame content s).ctx_by_id ≡ put ctx.file_id ctx s.ctx_by_id
    unfolding tell_progress send_ack
    told_ctx = refl

    pub told_files :
        (tell_progress host ctx frame content s).files ≡ write_file ctx.temp_path content s.files
    unfolding tell_progress send_ack
    told_files = refl

    finish_ctx : get ctx.file_id (finish_file host ctx frame content s).ctx_by_id ≡ none
    unfolding finish_file
    finish_ctx = get-pop_self ctx.file_id _

    finish_files :
        text_eq (lower (host.sha256_hex content)) (lower ctx.sha256_expected) ≡ true
        → (finish_file host ctx frame content s).files
          ≡ replace_file ctx.temp_path ctx.dest_path content s.files
    unfolding finish_file send_fin
    finish_files h = rw h refl

  module _ (ctx : FileRcvCtx) (frame : FrameSchema) (content : Bytes) (s : Rx) where
    after_write_full :
        ctx.total_chunks ≤ length ctx.received
        → ctx.finished ≡ false
        → (done : FileRcvCtx) → done ≡ record ctx { finished = true }
        → (told : Rx) → told ≡ tell_progress host ctx frame content s
        → after_write host ctx frame content s
          ≡ finish_file host done frame content
              (record told { ctx_by_id = put ctx.file_id done told.ctx_by_id })
    unfolding after_write
    after_write_full l f done d told t = rw (d, t) (ground (arith, f))

    -- The last chunk ends the transfer: its context is gone,
    pub last_ctx :
        ctx.total_chunks ≤ length ctx.received
        → ctx.finished ≡ false
        → get ctx.file_id (after_write host ctx frame content s).ctx_by_id ≡ none
    last_ctx l f = rw (after_write_full l f _ refl _ refl) (finish_ctx _ frame content _)

    -- and a file with the digest that was announced is at its place.
    pub last_files :
        ctx.total_chunks ≤ length ctx.received
        → ctx.finished ≡ false
        → text_eq (lower (host.sha256_hex content)) (lower ctx.sha256_expected) ≡ true
        → (after_write host ctx frame content s).files ctx.dest_path ≡ some content
    last_files l f h =
        ap (λ t. t.files ctx.dest_path) (after_write_full l f _ refl _ refl)
        ∙ ap (λ (fs : Files). fs ctx.dest_path)
            (finish_files (record ctx { finished = true }) frame content _ h)
        ∙ replaced ctx content _
