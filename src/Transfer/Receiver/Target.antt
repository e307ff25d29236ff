-- ===== src/Transfer/Receiver/Target.antt =====
-- A chunk that the sender makes finds its transfer at the receiver.
use link_chat.Prelude.{ℕ, ◌<◌, ◌≡◌, refl, ◌≢◌, none, some, [], ◌∷◌, arith, All, ok}
use link_chat.Prelude.Int.{pos}
use link_chat.Dict.{Dict, get, put}
use link_chat.Text.{Text, codes}
use link_chat.Text.Equality.{text_key, text_eq}
use link_chat.Text.Decimal.{format, int-format}
use link_chat.Payload.RoundTrip.{of_pairs}
use link_chat.Transfer.{FileSendCtx, FileRcvCtx, data_pairs}
use link_chat.Transfer.Receiver.{Rx}
use link_chat.Transfer.Receiver.Data.{data_target, int_field}
use link_chat.Payload.Fields.{IsField, key-IsField, is_plain-IsKey, format-IsWord}

module _ (n : ℕ) where
  idx_field : IsField (codes "idx", format n)
  idx_field = key-IsField (codes "idx") (format n) (is_plain-IsKey _ refl) (format-IsWord n)

  total_field : IsField (codes "total", format n)
  total_field = key-IsField (codes "total") (format n) (is_plain-IsKey _ refl) (format-IsWord n)

-- The fields of a chunk's header can stand in lines if the identifier can.
pub data_pairs-IsField :
    (ctx : FileSendCtx) (idx : ℕ)
    → IsField (codes "file_id", ctx.file_id)
    → All IsField (data_pairs ctx idx)
data_pairs-IsField ctx idx h = (h, (idx_field idx, (total_field ctx.total_chunks, tt)))

-- The dictionary of the header.
abbrev pub data_kv : FileSendCtx → ℕ → Dict Text Text
data_kv ctx idx = of_pairs (data_pairs ctx idx) []

kv_file_id :
    (ctx : FileSendCtx) (idx : ℕ) → get (codes "file_id") (data_kv ctx idx) ≡ some ctx.file_id
unfolding of_pairs get put text_eq
kv_file_id ctx idx = refl

kv_idx : (ctx : FileSendCtx) (idx : ℕ) → int_field (codes "idx") (data_kv ctx idx) ≡ ok (pos idx)
unfolding of_pairs get put text_eq int_field
kv_idx ctx idx = int-format idx

kv_total :
    (ctx : FileSendCtx) (idx : ℕ)
    → int_field (codes "total") (data_kv ctx idx) ≡ ok (pos ctx.total_chunks)
unfolding of_pairs get put text_eq int_field
kv_total ctx idx = int-format ctx.total_chunks

target_step :
    (kv : Dict Text Text) (s : Rx) (c : ℕ) (r : Text) (rcv : FileRcvCtx) (idx total : ℕ)
    → get (codes "file_id") kv ≡ some (c ∷ r)
    → get (c ∷ r) s.ctx_by_id ≡ some rcv
    → int_field (codes "idx") kv ≡ ok (pos idx)
    → int_field (codes "total") kv ≡ ok (pos total)
    → idx < rcv.total_chunks
    → 0 < total
    → data_target kv s ≡ some (rcv, idx)
unfolding data_target
target_step kv s c r rcv idx total e f g h l p = ground arith

-- The header of a chunk in range leads to the context under its identifier.
pub data_target-data_kv :
    (ctx : FileSendCtx) (idx : ℕ) (s : Rx) (rcv : FileRcvCtx)
    → ctx.file_id ≢ []
    → get ctx.file_id s.ctx_by_id ≡ some rcv
    → idx < rcv.total_chunks
    → 0 < ctx.total_chunks
    → data_target (data_kv ctx idx) s ≡ some (rcv, idx)
data_target-data_kv ctx idx s rcv n e l p = named ctx.file_id (kv_file_id ctx idx) n e
  where
    named :
        (i : Text)
        → get (codes "file_id") (data_kv ctx idx) ≡ some i
        → i ≢ []
        → get i s.ctx_by_id ≡ some rcv
        → data_target (data_kv ctx idx) s ≡ some (rcv, idx)
    named [] k n e = absurd (n refl)
    named (c ∷ r) k n e =
        target_step (data_kv ctx idx) s c r rcv idx ctx.total_chunks k e (kv_idx ctx idx)
          (kv_total ctx idx) l p

gone_step :
    (kv : Dict Text Text) (s : Rx) (i : Text)
    → get (codes "file_id") kv ≡ some i
    → get i s.ctx_by_id ≡ none
    → data_target kv s ≡ none
unfolding data_target
gone_step kv s [] e f = ground (arith, e)
gone_step kv s (c ∷ r) e f = ground (arith, e, f)

-- A chunk of a transfer that is not known leads nowhere.
pub data_target_gone :
    (ctx : FileSendCtx) (idx : ℕ) (s : Rx)
    → get ctx.file_id s.ctx_by_id ≡ none
    → data_target (data_kv ctx idx) s ≡ none
data_target_gone ctx idx s e = gone_step (data_kv ctx idx) s ctx.file_id (kv_file_id ctx idx) e
