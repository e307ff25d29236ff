-- ===== src/Transfer/Receiver/Data.antt =====
-- `FileReceiver._on_data`.
use link_chat.Prelude.{
  ℕ, zero, suc, ◌+◌, ◌-◌, ◌*◌, Bool, true, false, ◌&&◌, ◌||◌, not, Option, none, some, List, [],
  ◌∷◌, leb, ◌==◌, if◌then◌else◌, length, file_not_found, Result, ok, err, ◌>>=◌,
}
use link_chat.Prelude.Int.{ℤ, pos, negsuc, pos_part, ltb_ℤ, leb_ℤ}
use link_chat.Dict.{Dict, get, put, pop}
use link_chat.Text.{Text, Bytes, codes, lower}
use link_chat.Text.Equality.{text_eq, text_key}
use link_chat.Text.Utf8.{decode}
use link_chat.Text.Decimal.{int}
use link_chat.Frame.{FrameSchema}
use link_chat.Payload.{parse_payload}
use link_chat.Transfer.{FileRcvCtx}
use link_chat.Transfer.Events.{emit_progress, emit_finished, emit_error}
use link_chat.Transfer.Receiver.{Host, Rx, emit, send_ack, send_fin, refuse}
use link_chat.Transfer.Receiver.Store.{write_file, replace_file, write_at}

-- What stands before and after the first `b"\n\n"`, or nothing if there is none.
unfoldable pub split_blank : Bytes → Option (Bytes × Bytes)
split_blank [] = none
split_blank (a ∷ []) = none
split_blank (a ∷ b ∷ s) =
    if a == 10 && b == 10
    then some ([], s)
    else elim (split_blank (b ∷ s)) [ none ↦ none | some (h, d) ↦ some (a ∷ h, d) ]

-- `idx in received`
unfoldable pub has_index : ℕ → List ℕ → Bool
has_index i [] = false
has_index i (j ∷ js) = i == j || has_index i js

-- `while next_needed in received: next_needed += 1`; an index in the set is below the total, so
-- `total - next_needed` rounds are enough.
unfoldable pub advance : ℕ → ℕ → List ℕ → ℕ
advance zero next received = next
advance (suc fuel) next received = elim (has_index next received) [
  | true ↦ advance fuel (next + 1) received
  | false ↦ next
]

unfoldable pub mark_received : ℕ → FileRcvCtx → FileRcvCtx
unfolding has_index advance
mark_received idx ctx = if has_index idx ctx.received then ctx else record ctx {
  received = idx ∷ ctx.received;
  next_needed = advance (ctx.total_chunks - ctx.next_needed) ctx.next_needed (idx ∷ ctx.received);
}

-- `int(kv.get(key, "-1"))`
unfoldable pub int_field : Text → Dict Text Text → Result ℤ
int_field key kv = elim (get key kv) [ none ↦ ok (negsuc 0) | some t ↦ int t ]

-- The fields of the header and the context that they name, or nothing where the handler
-- returns without a word.
unfoldable pub data_target : Dict Text Text → Rx → Option (FileRcvCtx × ℕ)
unfolding int_field
data_target kv s = elim (get (codes "file_id") kv) [
  | none ↦ none
  | some i ↦ elim i [
    | [] ↦ none
    | c ∷ r ↦ elim (get (c ∷ r) s.ctx_by_id) [
      | none ↦ none
      | some ctx ↦ elim (int_field (codes "idx") kv) [
        | err e ↦ none
        | ok idx ↦ elim (int_field (codes "total") kv) [
          | err e ↦ none
          | ok total ↦
              if ltb_ℤ idx (pos 0) || leb_ℤ (pos ctx.total_chunks) idx || leb_ℤ total (pos 0)
              then none
              else some (ctx, pos_part idx)
        ]
      ]
    ]
  ]
]

module _ (host : Host) where
  -- The end of a transfer: the digest decides.
  unfoldable pub finish_file : FileRcvCtx → FrameSchema → Bytes → Rx → Rx
  finish_file ctx frame content s =
      let ended =
        if text_eq (lower (host.sha256_hex content)) (lower ctx.sha256_expected)
        then emit (emit_finished ctx.file_id ctx.src_mac ctx.name (some ctx.rel) (codes "ok")) (
            send_fin host ctx.file_id frame.src_mac (codes "ok") []
              (record s { files = replace_file ctx.temp_path ctx.dest_path content s.files }))
        else emit
            (emit_error ctx.file_id ctx.src_mac (some ctx.name) (some ctx.rel)
              (codes "hash_mismatch"))
            (send_fin host ctx.file_id frame.src_mac (codes "error") (codes "hash_mismatch") s) in
      record ended { ctx_by_id = pop ctx.file_id ended.ctx_by_id }

  -- The context and the content of its file are stored, and the sender and the interface hear of
  -- it.
  unfoldable pub tell_progress : FileRcvCtx → FrameSchema → Bytes → Rx → Rx
  tell_progress ctx frame content s =
      let acked = length ctx.received in
      emit
        (emit_progress ctx.file_id ctx.src_mac ctx.name (some ctx.rel) acked ctx.total_chunks
          (acked, ctx.total_chunks))
        (send_ack host ctx.file_id frame.src_mac ctx.next_needed (record s {
          ctx_by_id = put ctx.file_id ctx s.ctx_by_id;
          files = write_file ctx.temp_path content s.files;
        }))

  -- What follows the write: `ctx` is marked, and `content` is what the file holds now.
  unfoldable pub after_write : FileRcvCtx → FrameSchema → Bytes → Rx → Rx
  unfolding finish_file tell_progress
  after_write ctx frame content s =
      let told = tell_progress ctx frame content s in
      if leb ctx.total_chunks (length ctx.received) && not ctx.finished
      then (let done = record ctx { finished = true } in
          finish_file done frame content
            (record told { ctx_by_id = put ctx.file_id done told.ctx_by_id }))
      else told

  -- A chunk of a known transfer, with the content of its temporary file.
  unfoldable pub store_chunk : FileRcvCtx → FrameSchema → ℕ → Bytes → Bytes → Rx → Rx
  unfolding after_write mark_received
  store_chunk ctx frame idx chunk content s =
      after_write (mark_received idx ctx) frame (write_at (idx * ctx.chunk_size) chunk content) s

  -- A temporary file that is gone raises `FileNotFoundError`; nothing has changed by then.
  unfoldable pub on_chunk : Option (FileRcvCtx × ℕ) → FrameSchema → Bytes → Rx → Result Rx
  unfolding store_chunk
  on_chunk none frame chunk s = ok s
  on_chunk (some (ctx, idx)) frame chunk s = elim (s.files ctx.temp_path) [
    | none ↦ err file_not_found
    | some content ↦ ok (store_chunk ctx frame idx chunk content s)
  ]

  unfoldable pub on_data : FrameSchema → Rx → Result Rx
  unfolding data_target on_chunk split_blank
  on_data frame s = elim (split_blank frame.payload) [
    | none ↦ ok (refuse host (codes "unknown") frame.src_mac none none (codes "bad_payload") s)
    | some (header, chunk) ↦ do
      text ← decode header
      on_chunk (data_target (parse_payload text) s) frame chunk s
  ]
