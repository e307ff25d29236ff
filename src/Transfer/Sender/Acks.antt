-- ===== src/Transfer/Sender/Acks.antt =====
-- What an acknowledgement does to the window.
use link_chat.Prelude.{
  ℕ, ◌≡◌, refl, ◌∙◌, inl, inr, true, false, ◌&&◌, none, List, [], ◌∷◌, arith, ◌==◌, if◌then◌else◌,
  Bool-cases,
}
use link_chat.Prelude.Int.{max_ℤ, leb_ℤ, ℤ, pos, ltb_ℤ}
use link_chat.Dict.{Dict, keys, get, pop, get-pop}
use link_chat.Text.Equality.{nat_key}
use link_chat.Transfer.{FileSendCtx}
use link_chat.Transfer.Sender.{ack_ctx, settle, add_index}
use link_chat.Transfer.Receiver.Data.{has_index}

unfoldable pub settled : ℕ → FileSendCtx → FileSendCtx
settled k ctx = record ctx { acked = add_index k ctx.acked; inflight = pop k ctx.inflight }

pub settle-below :
    (n : ℤ) (k : ℕ) (ks : List ℕ) (ctx : FileSendCtx)
    → ltb_ℤ (pos k) n ≡ true
    → settle n (k ∷ ks) ctx ≡ settle n ks (settled k ctx)
unfolding settle settled
settle-below n k ks ctx h = rw h refl

pub settle-above :
    (n : ℤ) (k : ℕ) (ks : List ℕ) (ctx : FileSendCtx)
    → ltb_ℤ (pos k) n ≡ false
    → settle n (k ∷ ks) ctx ≡ settle n ks ctx
unfolding settle
settle-above n k ks ctx h = rw h refl

get-settled :
    (j k : ℕ) (ctx : FileSendCtx)
    → get j (settled k ctx).inflight ≡ (if k == j then none else get j ctx.inflight)
unfolding settled
get-settled j k ctx = get-pop j k ctx.inflight

lookup_settle :
    (n : ℤ) (ks : List ℕ) (ctx : FileSendCtx) (j : ℕ)
    → get j (settle n ks ctx).inflight
      ≡ (if ltb_ℤ (pos j) n && has_index j ks then none else get j ctx.inflight)
unfolding has_index
lookup_settle n [] ctx j = unfold settle in ground arith
lookup_settle n (k ∷ ks) ctx j = elim (Bool-cases (ltb_ℤ (pos k) n)) [
  | inl h ↦
      rw (settle-below n k ks ctx h)
        (lookup_settle n ks (settled k ctx) j ∙ ground (arith, get-settled j k ctx, h))
  | inr h ↦ rw (settle-above n k ks ctx h) (lookup_settle n ks ctx j ∙ ground (arith, h))
]

no_key : (d : Dict ℕ (ℕ × ℕ)) (j : ℕ) → has_index j (keys d) ≡ false → get j d ≡ none
unfolding has_index get keys
no_key [] j h = refl
no_key ((k, v) ∷ d) j h = ground (arith, no_key d j)

pub settle-last_acked :
    (n : ℤ) (ks : List ℕ) (ctx : FileSendCtx) → (settle n ks ctx).last_acked ≡ ctx.last_acked
settle-last_acked n [] ctx = unfold settle in refl
settle-last_acked n (k ∷ ks) ctx = elim (Bool-cases (ltb_ℤ (pos k) n)) [
  | inl h ↦
      rw (settle-below n k ks ctx h)
        (settle-last_acked n ks (settled k ctx) ∙ (unfold settled in refl))
  | inr h ↦ rw (settle-above n k ks ctx h) (settle-last_acked n ks ctx)
]

settle-below_all :
    (n : ℤ) (ctx : FileSendCtx) (j : ℕ)
    → get j (settle n (keys ctx.inflight) ctx).inflight
      ≡ (if ltb_ℤ (pos j) n then none else get j ctx.inflight)
settle-below_all n ctx j = elim (Bool-cases (has_index j (keys ctx.inflight))) [
  | inl h ↦ lookup_settle n (keys ctx.inflight) ctx j ∙ ground (arith, h)
  | inr h ↦ lookup_settle n (keys ctx.inflight) ctx j ∙ ground (arith, h, no_key ctx.inflight j h)
]

le_max_ℤ : (a b : ℤ) → leb_ℤ a (max_ℤ a b) ≡ true
le_max_ℤ a b = ground arith

-- After an acknowledgement with any `next_needed`, no chunk below that number is in flight, every
-- other index is in flight as it was, with its time and its retries, or not at all as before, and
-- the highest acknowledged index is not lower than it was.
pub ack_ctx-inflight :
    (next_needed : ℤ) (ctx : FileSendCtx)
    → ((j : ℕ)
        → get j (ack_ctx next_needed ctx).inflight
          ≡ (if ltb_ℤ (pos j) next_needed then none else get j ctx.inflight))
      × (leb_ℤ ctx.last_acked (ack_ctx next_needed ctx).last_acked ≡ true)
unfolding ack_ctx
ack_ctx-inflight n ctx = (
  λ j. settle-below_all n _ j,
  rw (settle-last_acked n (keys ctx.inflight) _) (le_max_ℤ ctx.last_acked _),
)
