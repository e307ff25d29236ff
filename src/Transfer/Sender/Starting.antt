-- ===== src/Transfer/Sender/Starting.antt =====
-- What `send_file` makes of a file: its chunks, its digest, its identifier.
use link_chat.Prelude.{
  ℕ, zero, suc, ◌+◌, ◌-◌, ◌*◌, ◌/◌, ◌%◌, ◌<◌, ◌≡◌, refl, sym, ◌∙◌, subst, ◌≢◌, [], ◌∷◌, ◌++◌, arith,
  length, take, zero_division, ok, err,
}
use native.Mathlib.Nat.{mod-lt, div-add-mod'}
use link_chat.Prelude.Int.{negsuc}
use link_chat.Text.{Text, Bytes}
use link_chat.Transfer.{FileSendCtx, new_send_ctx}
use link_chat.Transfer.Sender.{start_ctx, basename}
use link_chat.Transfer.Receiver.Assembly.{Covers}

-- `(file_size + chunk_size - 1) // chunk_size` chunks cover the file.
ceiling-Covers :
    (size chunk_size : ℕ)
    → 0 < chunk_size
    → Covers ((size + chunk_size - 1) / chunk_size) chunk_size size
ceiling-Covers size chunk_size h = record {
  some_bytes = h;
  reaches = omega (arith, quotient, rest);
  tight = omega (arith, quotient, rest);
}
  where
    quotient :
        (size + chunk_size - 1) / chunk_size * chunk_size + (size + chunk_size - 1) % chunk_size
        ≡ size + chunk_size - 1
    quotient = div-add-mod' (size + chunk_size - 1) chunk_size

    rest : (size + chunk_size - 1) % chunk_size < chunk_size
    rest = mod-lt (size + chunk_size - 1) h

-- What `send_file` makes of a file.
pub record Started (sha256_hex : Bytes → Text) (content : Bytes) (ctx : FileSendCtx) : Type 0 where
  pub covers : Covers ctx.total_chunks ctx.chunk_size (length content)
  pub hashed : ctx.hash_sha256_hex ≡ sha256_hex content
  pub named : ctx.file_id ≢ []
  pub fresh : ctx.inflight ≡ []
  pub unacked : ctx.last_acked ≡ negsuc 0

append_not_nil : (s t : Text) (c : ℕ) → s ++ c ∷ t ≢ []
append_not_nil [] t c e = cc e
append_not_nil (d ∷ s) t c e = cc e

ok_injective : {A : Type 0} {a b : A} → ok a ≡ ok b → a ≡ b
ok_injective e = cc e

-- The context that `send_file` makes when the chunk size is not zero.
abbrev started_ctx : (Bytes → Text) → ℕ → Text → Text → Bytes → FileSendCtx
started_ctx sha256_hex chunk_size path dst content =
    new_send_ctx (basename path ++ b'-' ∷ take 12 (sha256_hex content)) dst path (length content)
      (sha256_hex content) chunk_size ((length content + chunk_size - 1) / chunk_size)

start_ctx_zero :
    (sha256_hex : Bytes → Text) (path dst : Text) (content : Bytes)
    → start_ctx sha256_hex 0 path dst content ≡ err zero_division
unfolding start_ctx
start_ctx_zero sha256_hex path dst content = refl

start_ctx_suc :
    (sha256_hex : Bytes → Text) (chunk_size : ℕ) (path dst : Text) (content : Bytes)
    → 0 < chunk_size
    → start_ctx sha256_hex chunk_size path dst content
      ≡ ok (started_ctx sha256_hex chunk_size path dst content)
unfolding start_ctx
start_ctx_suc sha256_hex chunk_size path dst content h = ground (arith, h)

start_ctx_pos :
    (sha256_hex : Bytes → Text) (chunk_size : ℕ) (path dst : Text) (content : Bytes)
    (ctx : FileSendCtx)
    → start_ctx sha256_hex chunk_size path dst content ≡ ok ctx
    → 0 < chunk_size
start_ctx_pos sha256_hex zero path dst content ctx e =
    absurd (cc (e, start_ctx_zero sha256_hex path dst content))
start_ctx_pos sha256_hex (suc c) path dst content ctx e = omega arith

started_ctx-Started :
    (sha256_hex : Bytes → Text) (chunk_size : ℕ) (path dst : Text) (content : Bytes)
    → 0 < chunk_size
    → Started sha256_hex content (started_ctx sha256_hex chunk_size path dst content)
unfolding new_send_ctx
started_ctx-Started sha256_hex chunk_size path dst content h = record {
  covers = ceiling-Covers (length content) chunk_size h;
  hashed = refl;
  named = append_not_nil (basename path) _ _;
  fresh = refl;
  unacked = refl;
}

pub start_ctx-Started :
    (sha256_hex : Bytes → Text) (chunk_size : ℕ) (path dst : Text) (content : Bytes)
    (ctx : FileSendCtx)
    → start_ctx sha256_hex chunk_size path dst content ≡ ok ctx
    → Started sha256_hex content ctx
start_ctx-Started sha256_hex chunk_size path dst content ctx e =
    let h = start_ctx_pos sha256_hex chunk_size path dst content ctx e in
    subst (Started sha256_hex content)
      (ok_injective (sym (start_ctx_suc sha256_hex chunk_size path dst content h) ∙ e))
      (started_ctx-Started sha256_hex chunk_size path dst content h)

-- When a transfer of a file starts, the chunk size is not zero, and the announced number of chunks
-- is the least that covers the file: so many chunks reach its end, and the last one is not past it.
pub start_ctx-Covers :
    (sha256_hex : Bytes → Text) (chunk_size : ℕ) (path dst : Text) (content : Bytes)
    (ctx : FileSendCtx)
    → start_ctx sha256_hex chunk_size path dst content ≡ ok ctx
    → Covers ctx.total_chunks ctx.chunk_size (length content)
start_ctx-Covers sha256_hex chunk_size path dst content ctx e =
    (start_ctx-Started sha256_hex chunk_size path dst content ctx e).covers
