-- ===== src/Transfer/Session/Acked.antt =====
-- An answer of the receiver leaves the sender's transfer as it was, up to its window.
use link_chat.Payload.{parse_payload}
use link_chat.Text.Utf8.{decode}
use link_chat.Transfer.Sender.Replies.{on_ack-ack_bytes}
use link_chat.Transfer.Receiver.Answers.{ack_bytes}
use link_chat.Payload.Fields.{IsField}
use link_chat.Transfer.Window.Sending.{IsSending}
use link_chat.Transfer.Session.{only}
use link_chat.Transfer.Window.{Tx}
use link_chat.Text.{codes, Text, Bytes}
use link_chat.Frame.{FrameSchema}
use link_chat.Prelude.{
  none, err, Error, refl, ap, ◌∙◌, ◌||◌, sym, ◌<◌, subst, if_cases, ◌⊎◌, ◌≢◌, true, arith, ok,
  Option, Result, some, ℕ, ◌≡◌, inl, inr, List, [], ◌∷◌, Bool-cases, All,
}
use link_chat.Prelude.Int.{◌-ℤ◌, max_ℤ, ℤ, pos, ltb_ℤ}
use link_chat.Dict.{keys, get-put_self, put, Dict, get, All-pop}
use link_chat.Text.Equality.{text_eq_iff, text_eq_refl, nat_key, text_key}
use link_chat.Transfer.{FileSendCtx}
use link_chat.Transfer.Sender.{on_fin, is_zero, on_ack, ack_ctx, named_ctx, settle}
use link_chat.Transfer.Sender.Acks.{settled, settle-below, settle-above}

-- The context after some chunks have been taken out of flight.
pub record Lighter (P : ℕ × (ℕ × ℕ) → Type 0) (c d : FileSendCtx) : Type 0 where
  pub id : d.file_id ≡ c.file_id
  pub size : d.chunk_size ≡ c.chunk_size
  pub total : d.total_chunks ≡ c.total_chunks
  pub flying : All P c.inflight → All P d.inflight
  pub highest : d.last_acked ≡ c.last_acked

settle-Lighter :
    (P : ℕ × (ℕ × ℕ) → Type 0) (n : ℤ) (ks : List ℕ) (c d : FileSendCtx)
    → Lighter P c d
    → Lighter P c (settle n ks d)
settle-Lighter P n [] c d l = unfold settle in l
settle-Lighter P n (k ∷ ks) c d l = elim (Bool-cases (ltb_ℤ (pos k) n)) [
  | inl h ↦ rw (settle-below n k ks d h) (
      settle-Lighter P n ks c (settled k d) (
        unfold settled in
        record {
          id = l.id;
          size = l.size;
          total = l.total;
          flying = λ a. All-pop P k d.inflight (l.flying a);
          highest = l.highest;
        }))
  | inr h ↦ rw (settle-above n k ks d h) (settle-Lighter P n ks c d l)
]

module _ (sctx : FileSendCtx) (original : Bytes) (acked : ℤ) where
  pub ack_ctx-IsSending :
      (n : ℤ) (t : Tx)
      → IsSending sctx original acked t
      → IsSending sctx original (max_ℤ acked (n -ℤ pos 1)) (record t { ctx = ack_ctx n t.ctx })
  unfolding ack_ctx
  ack_ctx-IsSending n t s =
      let l =
        settle-Lighter (λ p. p.0 < sctx.total_chunks) n (keys t.ctx.inflight) t.ctx
          (record t.ctx { meta_acked = t.ctx.meta_acked || is_zero n })
          (record { id = refl; size = refl; total = refl; flying = λ a. a; highest = refl }) in
      record {
        same_id = l.id ∙ s.same_id;
        same_size = l.size ∙ s.same_size;
        same_total = l.total ∙ s.same_total;
        flying = l.flying s.flying;
        sent = s.sent;
        highest = ap (λ a. max_ℤ a (n -ℤ pos 1)) (l.highest ∙ s.highest);
      }

  pub finished-IsSending :
      (t : Tx)
      → IsSending sctx original acked t
      → IsSending sctx original acked (record t { ctx = record t.ctx { finished = true } })
  finished-IsSending t s = record {
    same_id = s.same_id;
    same_size = s.same_size;
    same_total = s.same_total;
    flying = s.flying;
    sent = s.sent;
    highest = s.highest;
  }

only_self : (ctx : FileSendCtx) → get ctx.file_id (only ctx) ≡ some ctx
unfolding get
only_self ctx = rw (text_eq_refl ctx.file_id) refl

some_injective : {A : Type 0} {a b : A} → some a ≡ some b → a ≡ b
some_injective e = cc e

same_some : {A : Type 0} {o : Option A} {a b : A} → o ≡ some a → o ≡ some b → b ≡ a
same_some e f = cc (e, f)

pub same_ok : {A : Type 0} {r : Result A} {a b : A} → r ≡ ok a → r ≡ ok b → b ≡ a
same_ok e f = cc (e, f)

-- The transfer after an acknowledgement: as it was when it was finished, otherwise acknowledged.
pub ack_outcome :
    (frame : FrameSchema) (ctxs : Dict Text FileSendCtx) (ctx ctx' : FileSendCtx) (n : ℕ)
    → IsField (codes "file_id", ctx.file_id)
    → ctx.file_id ≢ []
    → frame.payload ≡ ack_bytes ctx.file_id n
    → on_ack frame (only ctx) ≡ ok ctxs
    → get ctx.file_id ctxs ≡ some ctx'
    → (ctx' ≡ ctx) ⊎ (ctx' ≡ ack_ctx (pos n) ctx)
ack_outcome frame ctxs ctx ctx' n h some_id e r g =
    if_cases (λ d. get ctx.file_id d ≡ some ctx' → (ctx' ≡ ctx) ⊎ (ctx' ≡ ack_ctx (pos n) ctx))
      ctx.finished (only ctx) (put ctx.file_id (ack_ctx (pos n) ctx) (only ctx))
      (λ f k. inl (same_some (only_self ctx) k))
      (λ f k. inr (same_some (get-put_self ctx.file_id (ack_ctx (pos n) ctx) (only ctx)) k))
      (subst (λ d. get ctx.file_id d ≡ some ctx')
        (sym (
          same_ok r
            (on_ack-ack_bytes frame (only ctx) ctx.file_id ctx n h some_id e (only_self ctx))))
        g)

only-get :
    (j : Text) (ctx c : FileSendCtx) → get j (only ctx) ≡ some c → (j ≡ ctx.file_id) × (c ≡ ctx)
unfolding get
only-get j ctx c e = ground (arith, e, text_eq_iff ctx.file_id j)

named-get :
    (kv : Dict Text Text) (ctxs : Dict Text FileSendCtx) (j : Text) (c : FileSendCtx)
    → named_ctx kv ctxs ≡ some (j, c)
    → get j ctxs ≡ some c
unfolding named_ctx
named-get kv ctxs j c e = ground (arith, e)

module _ (frame : FrameSchema) (ctxs : Dict Text FileSendCtx) where
  fin_undecoded : (x : Error) → decode frame.payload ≡ err x → on_fin frame ctxs ≡ err x
  unfolding on_fin
  fin_undecoded x d = ground (arith, d)

  fin_unknown :
      (text : Text)
      → decode frame.payload ≡ ok text
      → named_ctx (parse_payload text) ctxs ≡ none
      → on_fin frame ctxs ≡ ok ctxs
  unfolding on_fin
  fin_unknown text d e = ground (arith, d, e)

  fin_known :
      (text j : Text) (c : FileSendCtx)
      → decode frame.payload ≡ ok text
      → named_ctx (parse_payload text) ctxs ≡ some (j, c)
      → on_fin frame ctxs ≡ ok (put j (record c { finished = true }) ctxs)
  unfolding on_fin
  fin_known text j c d e = ground (arith, d, e)

-- The transfer after a FILE_FIN: as it was or finished.
pub fin_outcome :
    (frame : FrameSchema) (ctxs : Dict Text FileSendCtx) (ctx ctx' : FileSendCtx)
    → on_fin frame (only ctx) ≡ ok ctxs
    → get ctx.file_id ctxs ≡ some ctx'
    → (ctx' ≡ ctx) ⊎ (ctx' ≡ record ctx { finished = true })
fin_outcome frame ctxs ctx ctx' r g = by_text (decode frame.payload) refl
  where
    looked_up :
        (d : Dict Text FileSendCtx) → on_fin frame (only ctx) ≡ ok d → get ctx.file_id d ≡ some ctx'
    looked_up d e = subst (λ x. get ctx.file_id x ≡ some ctx') (same_ok e r) g

    by_name :
        (text : Text)
        → decode frame.payload ≡ ok text
        → (o : Option (Text × FileSendCtx)) → named_ctx (parse_payload text) (only ctx) ≡ o
        → (ctx' ≡ ctx) ⊎ (ctx' ≡ record ctx { finished = true })
    by_name text d none e =
        inl
          (same_some (only_self ctx) (looked_up (only ctx) (fin_unknown frame (only ctx) text d e)))
    by_name text d (some (j, c)) e =
        let q = only-get j ctx c (named-get (parse_payload text) (only ctx) j c e) in
        inr (
          same_some (get-put_self ctx.file_id (record ctx { finished = true }) (only ctx)) (
            looked_up (put ctx.file_id (record ctx { finished = true }) (only ctx)) (
              fin_known frame (only ctx) text j c d e
              ∙ ap (λ i. ok (put i (record c { finished = true }) (only ctx))) q.0
              ∙ ap
                  (λ (x : FileSendCtx).
                    ok (put ctx.file_id (record x { finished = true }) (only ctx)))
                  q.1)))

    by_text :
        (d : Result Text)
        → decode frame.payload ≡ d
        → (ctx' ≡ ctx) ⊎ (ctx' ≡ record ctx { finished = true })
    by_text (err x) d = absurd (cc (r, fin_undecoded frame (only ctx) x d))
    by_text (ok text) d = by_name text d (named_ctx (parse_payload text) (only ctx)) refl
