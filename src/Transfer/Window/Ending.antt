-- ===== src/Transfer/Window/Ending.antt =====
-- Rounds of `_pump` with no acknowledgement between them.
use link_chat.Prelude.{
  lt_split, ◌/◌, ◌*◌, if_cases, ℕ, zero, suc, ◌+◌, ◌-◌, ◌≤◌, ◌<◌, ◌≡◌, refl, ◌⊎◌, inl, inr, true,
  false, ◌&&◌, not, List, [], ◌∷◌, arith, if◌then◌else◌, Bool-cases, length,
}
use link_chat.Text.{Bytes}
use link_chat.Text.Equality.{nat_key}
use link_chat.Transfer.{Node}
use link_chat.Transfer.Window.{
  Tx, all_acked, has_room, send_next, refill_loop, refill_window, retransfer_expired, complete,
  pump_ctx,
}
use link_chat.Transfer.Window.Refill.{refill_loop_room, refill_loop_full}
use link_chat.Transfer.Window.Silence.{loop_quiet, Waiting, Outcome, loop_overdue, send_other}

-- Rounds of the pump, each with its time and what the clock says when a chunk is marked; a context
-- that is finished is served no more.
unfoldable pub pump_rounds : Node → Bytes → List (ℕ × (ℕ → ℕ)) → Tx → Tx
unfolding pump_ctx
pump_rounds node content [] t = t
pump_rounds node content ((now, stamp) ∷ rounds) t = elim t.ctx.finished [
  | true ↦ t
  | false ↦ pump_rounds node content rounds (pump_ctx node content stamp now t)
]

-- The sleep between two rounds, in milliseconds.
abbrev pub pump_pause : ℕ
pump_pause = 20

-- The clock of the rounds, after it has shown `clock`: no round begins before the sleep is over, and
-- the clock does not go back between the begin of a round and the marking of the chunk `k`.
abbrev pub ArePaced : ℕ → ℕ → List (ℕ × (ℕ → ℕ)) → Type 0
ArePaced k clock [] = Unit
ArePaced k clock ((now, stamp) ∷ rounds) =
    (clock + pump_pause ≤ now) × (now ≤ stamp k) × ArePaced k (stamp k) rounds

module _ (node : Node) (content : Bytes) (stamp : ℕ → ℕ) (k limit timeout : ℕ) where
  next_ctx :
      (time retries : ℕ) (t : Tx)
      → Waiting k time retries limit timeout t.ctx
      → Waiting k time retries limit timeout (send_next node content stamp t).ctx
  unfolding send_next
  next_ctx time retries t w =
      let v =
        send_other node content stamp k limit timeout t.ctx.next_to_send 0 time retries t
          (ground (arith, w.behind)) w in
      record {
        known = v.known;
        once = v.once;
        behind = omega (arith, w.behind);
        announced = v.announced;
        bound = v.bound;
        pace = v.pace;
        tries = v.tries;
      }

  refill-Waiting :
      (fuel time retries : ℕ) (t : Tx)
      → Waiting k time retries limit timeout t.ctx
      → Waiting k time retries limit timeout (refill_loop node content stamp fuel t).ctx
  refill-Waiting zero time retries t w = unfold refill_loop in w
  refill-Waiting (suc fuel) time retries t w = elim (Bool-cases (has_room node content stamp t)) [
    | inl room ↦ rw (refill_loop_room node content stamp fuel t room) (
        refill-Waiting fuel time retries (send_next node content stamp t)
          (next_ctx time retries t w))
    | inr full ↦ rw (refill_loop_full node content stamp fuel t full) w
  ]

  complete-Outcome :
      (time retries : ℕ) (t : Tx)
      → Outcome node content stamp k limit timeout time retries t
      → Outcome node content stamp k limit timeout time retries (complete node content stamp t)
  unfolding complete Outcome
  complete-Outcome time retries t o =
      elim (Bool-cases (all_acked node content stamp t.ctx && not t.ctx.finished)) [
        | inl h ↦ rw h (inl refl)
        | inr h ↦ rw h o
      ]

  filled-Outcome :
      (time retries : ℕ) (t : Tx)
      → Outcome node content stamp k limit timeout time retries t
      → Outcome node content stamp k limit timeout time retries
          (if t.ctx.finished then t else refill_window node content stamp t)
  unfolding Outcome refill_window
  filled-Outcome time retries t o =
      if_cases (Outcome node content stamp k limit timeout time retries) t.ctx.finished t
        (refill_window node content stamp t) (λ f. inl f)
        (λ g. elim o [
          | inl f ↦ absurd (cc (f, g))
          | inr w ↦ inr (refill-Waiting (t.ctx.total_chunks - t.ctx.next_to_send) time retries t w)
        ])

  -- What is left to do after the retransmissions.
  served-Outcome :
      (now time retries : ℕ) (t : Tx)
      → t.ctx.meta_acked ≡ true
      → Outcome node content stamp k limit timeout time retries
          (retransfer_expired node content stamp now t)
      → Outcome node content stamp k limit timeout time retries (pump_ctx node content stamp now t)
  unfolding pump_ctx
  served-Outcome now time retries t a o = complete-Outcome time retries _ (
      if_cases (Outcome node content stamp k limit timeout time retries) t.ctx.meta_acked _ t
        (λ h. filled-Outcome time retries (retransfer_expired node content stamp now t) o)
        (λ h. absurd (cc (h, a))))

  -- A round in which `k` is overdue.
  overdue_round :
      (now time retries : ℕ) (t : Tx)
      → time + timeout ≤ now
      → Waiting k time retries limit timeout t.ctx
      → ((pump_ctx node content stamp now t).ctx.finished ≡ true)
        ⊎ Waiting k (stamp k) (retries + 1) limit timeout (pump_ctx node content stamp now t).ctx
  unfolding retransfer_expired Outcome
  overdue_round now time retries t l w = served-Outcome now (stamp k) (retries + 1) t w.announced (
      loop_overdue node content stamp k limit timeout now time retries t.ctx.inflight t w.known
        w.once l w)

  -- A round in which it is not.
  quiet_round :
      (now time retries : ℕ) (t : Tx)
      → now < time + timeout
      → Waiting k time retries limit timeout t.ctx
      → ((pump_ctx node content stamp now t).ctx.finished ≡ true)
        ⊎ Waiting k time retries limit timeout (pump_ctx node content stamp now t).ctx
  unfolding retransfer_expired Outcome
  quiet_round now time retries t l w = served-Outcome now time retries t w.announced (
      loop_quiet node content stamp k limit timeout now time retries t.ctx.inflight t w.known w.once
        l w)

finished_rounds :
    (node : Node) (content : Bytes) (rounds : List (ℕ × (ℕ → ℕ))) (t : Tx)
    → t.ctx.finished ≡ true
    → (pump_rounds node content rounds t).ctx.finished ≡ true
unfolding pump_rounds
finished_rounds node content [] t f = f
finished_rounds node content ((now, stamp) ∷ rounds) t f = ground (arith, f)

pub rounds_step :
    (node : Node) (content : Bytes) (now : ℕ) (stamp : ℕ → ℕ) (rounds : List (ℕ × (ℕ → ℕ))) (t : Tx)
    → t.ctx.finished ≡ false
    → pump_rounds node content ((now, stamp) ∷ rounds) t
      ≡ pump_rounds node content rounds (pump_ctx node content stamp now t)
unfolding pump_rounds
rounds_step node content now stamp rounds t f = ground (arith, f)

retry_cost : (left x : ℕ) → 1 ≤ left → left * x ≡ x + (left - 1) * x
retry_cost zero x h = absurd (omega arith)
retry_cost (suc left) x h = ground arith

cost : (left x : ℕ) → suc x + left * suc x ≡ (left + 1) * (x + 1)
cost left x = ground arith

module _ (node : Node) (content : Bytes) (k limit timeout per : ℕ)
    (enough : timeout ≤ pump_pause * suc per) where
  -- `left` retries are left and `wait` more rounds follow before the next one is due.
  rounds_end :
      (left wait clock time retries : ℕ) (rounds : List (ℕ × (ℕ → ℕ))) (t : Tx)
      → Waiting k time retries limit timeout t.ctx
      → ArePaced k clock rounds
      → retries + left ≡ limit
      → time + timeout ≤ clock + pump_pause * suc wait
      → suc wait + left * suc per ≤ length rounds
      → (pump_rounds node content rounds t).ctx.finished ≡ true
  rounds_end left wait clock time retries [] t w p e d l = absurd (omega arith)
  rounds_end left wait clock time retries ((now, stamp) ∷ rounds) t w (slept, marked, later) e d l =
      elim (Bool-cases t.ctx.finished) [
        | inl f ↦ finished_rounds node content ((now, stamp) ∷ rounds) t f
        | inr g ↦
            rw (rounds_step node content now stamp rounds t g)
              (elim (lt_split now (time + timeout)) [
                | inr due ↦
                    elim (overdue_round node content stamp k limit timeout now time retries t due
                      w) [
                        | inl f ↦ finished_rounds node content rounds _ f
                        | inr v ↦
                            rounds_end (left - 1) per (stamp k) (stamp k) (retries + 1) rounds _ v
                              later (omega (arith, v.tries)) (omega arith)
                              (omega (arith, retry_cost left (suc per) (omega (arith, v.tries))))
                      ]
                | inl early ↦
                    elim (quiet_round node content stamp k limit timeout now time retries t early
                      w) [
                        | inl f ↦ finished_rounds node content rounds _ f
                        | inr v ↦
                            rounds_end left (wait - 1) (stamp k) time retries rounds _ v later e
                              (omega arith) (omega arith)
                      ]
              ])
      ]

-- A chunk of a transfer is in flight, once, below the next chunk to send, its retries not more than
-- the most that are allowed, and the first acknowledgement has come. Rounds of the pump follow, with
-- its sleep of 20 ms between them, at any times the clock may show, and no acknowledgement comes.
-- After `timeout / 20 + 1` rounds for each retry that is left and once more, the transfer is
-- finished.
pub pump_rounds_end :
    (node : Node) (content : Bytes) (k limit timeout time retries : ℕ) (rounds : List (ℕ × (ℕ → ℕ)))
    (t : Tx)
    → Waiting k time retries limit timeout t.ctx
    → ArePaced k time rounds
    → (limit - retries + 1) * (timeout / pump_pause + 1) ≤ length rounds
    → (pump_rounds node content rounds t).ctx.finished ≡ true
pump_rounds_end node content k limit timeout time retries rounds t w p l =
    rounds_end node content k limit timeout (timeout / pump_pause) (omega arith) (limit - retries)
      (timeout / pump_pause) time time retries rounds t w p (omega (arith, w.tries)) (omega arith)
      (omega (arith, cost (limit - retries) (timeout / pump_pause)))
