-- ===== src/Transfer/Sender/Replies.antt =====
-- The receiver's acknowledgement, as `_on_ack` reads it.
use link_chat.Prelude.{
  ℕ, ◌≡◌, refl, sym, ap, ◌∙◌, ◌≢◌, some, List, [], ◌∷◌, ◌++◌, arith, if◌then◌else◌, All, ok,
}
use mathlib.Core.List.{append_assoc}
use link_chat.Prelude.Int.{pos}
use link_chat.Dict.{Dict, get, put}
use link_chat.Text.{Text, codes}
use link_chat.Text.Equality.{text_eq, text_key}
use link_chat.Text.Utf8.{encode, decode}
use link_chat.Text.Decimal.{format, int-format}
use link_chat.Frame.{FrameSchema}
use link_chat.Payload.{kv_text, kv_line, join_lines, kv_bytes, parse_payload}
use link_chat.Payload.RoundTrip.{of_pairs, kv_bytes-encode}
use link_chat.Payload.Fields.{
  IsField, key-IsField, is_plain-IsKey, format-IsWord, decode-kv_bytes, parse_payload-fields,
}
use link_chat.Transfer.{FileSendCtx}
use link_chat.Transfer.Sender.{ack_ctx, ack_number, named_ctx, on_ack}
use link_chat.Transfer.Receiver.Answers.{ack_bytes}

abbrev ack_pairs : Text → ℕ → List (Text × Text)
ack_pairs file_id n = (codes "file_id", file_id) ∷ (codes "next_needed", format n) ∷ []

ack_text :
    (file_id : Text) (n : ℕ)
    → codes "file_id=" ++ (file_id ++ 10 ∷ (codes "next_needed=" ++ (format n ++ 10 ∷ [])))
      ≡ kv_text (ack_pairs file_id n)
unfolding kv_text join_lines kv_line
ack_text file_id n = simp append_assoc

ack_bytes-kv_bytes : (file_id : Text) (n : ℕ) → ack_bytes file_id n ≡ kv_bytes (ack_pairs file_id n)
ack_bytes-kv_bytes file_id n =
    ap encode (ack_text file_id n) ∙ sym (kv_bytes-encode (ack_pairs file_id n))

kv_named :
    (file_id : Text) (n : ℕ)
    → get (codes "file_id") (of_pairs (ack_pairs file_id n) []) ≡ some file_id
unfolding of_pairs get put text_eq
kv_named file_id n = refl

kv_number : (file_id : Text) (n : ℕ) → ack_number (of_pairs (ack_pairs file_id n) []) ≡ ok (pos n)
unfolding of_pairs get put text_eq ack_number
kv_number file_id n = int-format n

named_ctx_found :
    (kv : Dict Text Text) (ctxs : Dict Text FileSendCtx) (i : Text) (ctx : FileSendCtx)
    → get (codes "file_id") kv ≡ some i
    → i ≢ []
    → get i ctxs ≡ some ctx
    → named_ctx kv ctxs ≡ some (i, ctx)
unfolding named_ctx
named_ctx_found kv ctxs [] ctx e n f = absurd (n refl)
named_ctx_found kv ctxs (c ∷ r) ctx e n f = ground (arith, e, f)

on_ack_step :
    (frame : FrameSchema) (ctxs : Dict Text FileSendCtx) (text i : Text) (ctx : FileSendCtx) (n : ℕ)
    → decode frame.payload ≡ ok text
    → named_ctx (parse_payload text) ctxs ≡ some (i, ctx)
    → ack_number (parse_payload text) ≡ ok (pos n)
    → on_ack frame ctxs ≡ ok (if ctx.finished then ctxs else put i (ack_ctx (pos n) ctx) ctxs)
unfolding on_ack
on_ack_step frame ctxs text i ctx n d e f = ground (arith, d, e, f)

-- An acknowledgement of a known transfer that is not finished reaches its context.
pub on_ack-ack_bytes :
    (frame : FrameSchema) (ctxs : Dict Text FileSendCtx) (i : Text) (ctx : FileSendCtx) (n : ℕ)
    → IsField (codes "file_id", i)
    → i ≢ []
    → frame.payload ≡ ack_bytes i n
    → get i ctxs ≡ some ctx
    → on_ack frame ctxs ≡ ok (if ctx.finished then ctxs else put i (ack_ctx (pos n) ctx) ctxs)
on_ack-ack_bytes frame ctxs i ctx n h some_id e f =
    on_ack_step frame ctxs (kv_text (ack_pairs i n)) i ctx n
      (ap decode (e ∙ ack_bytes-kv_bytes i n) ∙ decode-kv_bytes _ _ fields)
      (ap (λ kv. named_ctx kv ctxs) parsed ∙ named_ctx_found _ ctxs i ctx (kv_named i n) some_id f)
      (ap ack_number parsed ∙ kv_number i n)
  where
    fields : All IsField (ack_pairs i n)
    fields = (
      h,
      (key-IsField (codes "next_needed") (format n) (is_plain-IsKey _ refl) (format-IsWord n), tt),
    )

    parsed : parse_payload (kv_text (ack_pairs i n)) ≡ of_pairs (ack_pairs i n) []
    parsed = parse_payload-fields _ _ fields
