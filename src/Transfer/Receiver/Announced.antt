-- ===== src/Transfer/Receiver/Announced.antt =====
-- The FILE_META that the sender makes, as `_on_meta` reads it.
use link_chat.Prelude.{
  ℕ, ◌<◌, ◌≡◌, refl, ap, ◌∙◌, ◌≢◌, true, false, Option, none, some, List, [], ◌∷◌, ◌++◌, arith, All,
  ok,
}
use link_chat.Prelude.Int.{pos}
use link_chat.Dict.{get, put}
use link_chat.Text.{Text, codes}
use link_chat.Text.Equality.{text_eq, text_key}
use link_chat.Text.Utf8.{decode}
use link_chat.Text.Decimal.{format, int-format}
use link_chat.Frame.{FrameSchema}
use link_chat.Payload.{parse_payload, kv_bytes, kv_text}
use link_chat.Payload.RoundTrip.{of_pairs}
use link_chat.Payload.Fields.{
  IsWord, IsField, key-IsField, is_plain-IsKey, format-IsWord, decode-kv_bytes,
  parse_payload-fields,
}
use link_chat.Transfer.{Node, FileSendCtx, meta_pairs, get_meta_frame}
use link_chat.Transfer.Paths.{ensure_inside_base_dir}
use link_chat.Transfer.Events.{emit_started}
use link_chat.Transfer.Receiver.{Host, Rx, emit, send_ack}
use link_chat.Transfer.Receiver.Store.{write_file}
use link_chat.Transfer.Receiver.Meta.{
  MetaFields, meta_fields, meta_numbers, is_empty, dest_rel, part_suffix, dest_path, new_ctx,
  place_file, check_meta, on_meta,
}

-- The path field of a FILE_META: an empty relative path leaves it out.
abbrev pub sent_path : Option Text → Option Text
sent_path none = none
sent_path (some []) = none
sent_path (some (c ∷ s)) = some (c ∷ s)

-- The fields that the receiver finds.
abbrev pub sent_fields : FileSendCtx → Text → Option Text → MetaFields
sent_fields ctx name rel = record {
  file_id = ctx.file_id;
  name = name;
  size_text = format ctx.size;
  sha256 = ctx.hash_sha256_hex;
  chunk_text = format ctx.chunk_size;
  total_text = format ctx.total_chunks;
  path = sent_path rel;
  rel = none;
}

-- What the sender writes into the lines.
pub record IsAnnounceable (ctx : FileSendCtx) (name : Text) (rel : Option Text) : Type 0 where
  pub id_word : IsWord ctx.file_id
  pub name_word : IsWord name
  pub hash_word : IsWord ctx.hash_sha256_hex
  pub rel_word : (p : Text) → rel ≡ some p → IsWord p

meta_pairs-IsField :
    (ctx : FileSendCtx) (name : Text) (rel : Option Text)
    → IsAnnounceable ctx name rel
    → All IsField (meta_pairs ctx name rel)
meta_pairs-IsField ctx name rel a = (
  key-IsField (codes "file_id") ctx.file_id (is_plain-IsKey _ refl) a.id_word,
  (
    key-IsField (codes "name") name (is_plain-IsKey _ refl) a.name_word,
    (
      key-IsField (codes "size") (format ctx.size) (is_plain-IsKey _ refl) (format-IsWord ctx.size),
      (
        key-IsField (codes "sha256") ctx.hash_sha256_hex (is_plain-IsKey _ refl) a.hash_word,
        (
          key-IsField (codes "chunk_size") (format ctx.chunk_size) (is_plain-IsKey _ refl)
              (format-IsWord ctx.chunk_size),
          (
            key-IsField (codes "total") (format ctx.total_chunks) (is_plain-IsKey _ refl)
                (format-IsWord ctx.total_chunks),
            path_field rel a.rel_word,
          ),
        ),
      ),
    ),
  ),
)
  where
    path_field :
        (r : Option Text)
        → ((p : Text) → r ≡ some p → IsWord p)
        → All IsField (elim r [
          | none ↦ []
          | some p ↦ elim p [ [] ↦ [] | c ∷ s ↦ (codes "path", c ∷ s) ∷ [] ]
        ])
    path_field none h = tt
    path_field (some []) h = tt
    path_field (some (c ∷ s)) h =
        (key-IsField (codes "path") (c ∷ s) (is_plain-IsKey _ refl) (h (c ∷ s) refl), tt)

meta_fields-sent :
    (ctx : FileSendCtx) (name : Text) (rel : Option Text)
    → meta_fields (of_pairs (meta_pairs ctx name rel) []) ≡ some (sent_fields ctx name rel)
unfolding meta_fields of_pairs get put text_eq
meta_fields-sent ctx name none = refl
meta_fields-sent ctx name (some []) = refl
meta_fields-sent ctx name (some (c ∷ s)) = refl

meta_numbers-sent :
    (ctx : FileSendCtx) (name : Text) (rel : Option Text)
    → meta_numbers (sent_fields ctx name rel)
      ≡ ok (pos ctx.size, pos ctx.chunk_size, pos ctx.total_chunks)
unfolding meta_numbers
meta_numbers-sent ctx name rel =
    rw (int-format ctx.size, int-format ctx.chunk_size, int-format ctx.total_chunks) refl

meta_payload :
    (node : Node) (seq : ℕ) (ctx : FileSendCtx) (name : Text) (rel : Option Text)
    → (get_meta_frame node seq ctx name rel).0.payload ≡ kv_bytes (meta_pairs ctx name rel)
unfolding get_meta_frame
meta_payload node seq ctx name rel = refl

nonempty : (t : Text) → t ≢ [] → is_empty t ≡ false
nonempty [] h = absurd (h refl)
nonempty (c ∷ s) h = refl

module _ (host : Host) where
  on_meta_step :
      (frame : FrameSchema) (text : Text) (m : MetaFields) (s : Rx)
      → decode frame.payload ≡ ok text
      → meta_fields (parse_payload text) ≡ some m
      → on_meta host frame s ≡ ok (check_meta host m frame s)
  unfolding on_meta
  on_meta_step frame text m s d e = ground (arith, d, e)

  check_meta_step :
      (m : MetaFields) (frame : FrameSchema) (s : Rx) (size chunk_size total : ℕ)
      → meta_numbers m ≡ ok (pos size, pos chunk_size, pos total)
      → m.file_id ≢ []
      → m.name ≢ []
      → m.sha256 ≢ []
      → 0 < chunk_size
      → check_meta host m frame s ≡ place_file host m frame size chunk_size total s
  unfolding check_meta
  check_meta_step m frame s size chunk_size total e i n h l =
      ground (arith, e, nonempty m.file_id i, nonempty m.name n, nonempty m.sha256 h)

  -- The state after an accepted FILE_META of a file with chunks.
  abbrev pub opened : MetaFields → FrameSchema → ℕ → ℕ → ℕ → Rx → Rx
  opened m frame size chunk_size total s =
      send_ack host m.file_id frame.src_mac 0
        (record (emit (emit_started m.file_id frame.src_mac m.name (some (dest_rel m)))
          (record s { files = write_file (dest_path host m ++ part_suffix) [] s.files })) {
            ctx_by_id = put m.file_id (new_ctx host m frame size chunk_size total) s.ctx_by_id;
          })

  place_file_step :
      (m : MetaFields) (frame : FrameSchema) (size chunk_size total : ℕ) (s : Rx)
      → ensure_inside_base_dir host.realpath host.base_dir (dest_path host m) ≡ true
      → 0 < total
      → place_file host m frame size chunk_size total s ≡ opened m frame size chunk_size total s
  unfolding place_file
  place_file_step m frame size chunk_size total s h l = ground (arith, h)

  -- The sender's FILE_META of a file with chunks, to a destination inside the base directory, is
  -- accepted.
  pub on_meta-sent :
      (node : Node) (seq : ℕ) (ctx : FileSendCtx) (name : Text) (rel : Option Text) (s : Rx)
      → IsAnnounceable ctx name rel
      → ctx.file_id ≢ []
      → name ≢ []
      → ctx.hash_sha256_hex ≢ []
      → 0 < ctx.chunk_size
      → 0 < ctx.total_chunks
      → ensure_inside_base_dir host.realpath host.base_dir
          (dest_path host (sent_fields ctx name rel))
        ≡ true
      → on_meta host (get_meta_frame node seq ctx name rel).0 s
        ≡ ok (
            opened
              (sent_fields ctx name rel)
              (get_meta_frame node seq ctx name rel).0
              ctx.size
              ctx.chunk_size
              ctx.total_chunks
              s)
  on_meta-sent node seq ctx name rel s a i n h c t inside =
      on_meta_step (get_meta_frame node seq ctx name rel).0 (kv_text pairs)
        (sent_fields ctx name rel) s
        (ap decode (meta_payload node seq ctx name rel) ∙ decode-kv_bytes _ _ fields)
        (ap meta_fields (parse_payload-fields _ _ fields) ∙ meta_fields-sent ctx name rel)
      ∙ ap ok (
          check_meta_step (sent_fields ctx name rel) (get_meta_frame node seq ctx name rel).0 s
            ctx.size ctx.chunk_size ctx.total_chunks (meta_numbers-sent ctx name rel) i n h c
          ∙ place_file_step (sent_fields ctx name rel) (get_meta_frame node seq ctx name rel).0
              ctx.size ctx.chunk_size ctx.total_chunks s inside t)
    where
      pairs : List (Text × Text)
      pairs = meta_pairs ctx name rel

      fields : All IsField (meta_pairs ctx name rel)
      fields = meta_pairs-IsField ctx name rel a
