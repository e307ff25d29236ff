-- ===== src/Transfer/Window/Budget.antt =====
-- How many frames a transfer may still queue in `_pump`.
use link_chat.Transfer.Window.Pumping.{again, spent, still_waiting}
use link_chat.Transfer.Window.Refill.{refill_loop_full, refill_loop_room}
use link_chat.Text.{codes, Bytes}
use link_chat.Prelude.{
  length-append, ◌++◌, not, ◌&&◌, leb, true, if_cases, false, ℕ, zero, suc, ◌+◌, ◌-◌, ◌*◌, ◌≤◌, ◌<◌,
  ◌≡◌, refl, ◌∙◌, inl, inr, none, some, List, [], ◌∷◌, arith, ◌==◌, if◌then◌else◌, Bool-cases,
  length, All,
}
use link_chat.Dict.{Dict, get, put, get-put}
use link_chat.Text.Equality.{nat_key}
use link_chat.Transfer.{get_file_fin_frame, get_data_chunk, Node, FileSendCtx}
use link_chat.Transfer.Window.{
  refill_window, all_acked, retransfer_expired, has_room, retransfer_loop, send_next, complete,
  refill_loop, give_up, send_chunk, pump_ctx, Tx,
}

-- The retries that the chunks in flight have left.
abbrev pub tries_left : ℕ → Dict ℕ (ℕ × ℕ) → ℕ
tries_left limit [] = 0
tries_left limit ((k, (time, retries)) ∷ d) = (limit - retries) + tries_left limit d

-- One frame for each retry that is left, `max_retries + 1` for each chunk that was not sent yet, and
-- the `FILE_FIN` of a transfer that is not finished.
abbrev pub budget : FileSendCtx → ℕ
budget ctx =
    (if ctx.finished then 0 else 1)
    + (tries_left ctx.max_retries ctx.inflight
        + (ctx.total_chunks - ctx.next_to_send) * (ctx.max_retries + 1))

-- No chunk stands twice.
abbrev pub AreDistinct : Dict ℕ (ℕ × ℕ) → Type 0
AreDistinct [] = Unit
AreDistinct ((k, e) ∷ d) = (get k d ≡ none) × AreDistinct d

-- The entries are those of a dictionary.
abbrev AreCurrent : Dict ℕ (ℕ × ℕ) → List (ℕ × (ℕ × ℕ)) → Type 0
AreCurrent d = All (λ p. get p.0 d ≡ some p.1)

put-old :
    (limit k time r r0 time0 : ℕ) (d : Dict ℕ (ℕ × ℕ))
    → get k d ≡ some (time0, r0)
    → tries_left limit (put k (time, r) d) + (limit - r0) ≡ tries_left limit d + (limit - r)
unfolding get put
put-old limit k time r r0 time0 [] h = absurd (cc h)
put-old limit k time r r0 time0 ((j, (u, s)) ∷ d) h = elim (Bool-cases (j == k)) [
  | inl e ↦ ground (arith, h, e)
  | inr e ↦ ground (arith, e, put-old limit k time r r0 time0 d (ground (arith, h, e)))
]

put-new :
    (limit k time : ℕ) (d : Dict ℕ (ℕ × ℕ))
    → tries_left limit (put k (time, 0) d) ≤ tries_left limit d + limit
unfolding put
put-new limit k time [] = ground arith
put-new limit k time ((j, (u, s)) ∷ d) = ground (arith, put-new limit k time d)

cons-AreCurrent :
    (k : ℕ) (e : ℕ × ℕ) (d : Dict ℕ (ℕ × ℕ)) (xs : List (ℕ × (ℕ × ℕ)))
    → get k xs ≡ none
    → AreCurrent d xs
    → AreCurrent ((k, e) ∷ d) xs
unfolding get
cons-AreCurrent k e d [] n a = tt
cons-AreCurrent k e d ((j, v) ∷ xs) n a =
    (ground (arith, n, a.0), cons-AreCurrent k e d xs (ground (arith, n)) a.1)

head-current : (k : ℕ) (e : ℕ × ℕ) (d : Dict ℕ (ℕ × ℕ)) → get k ((k, e) ∷ d) ≡ some e
unfolding get
head-current k e d = ground arith

self-AreCurrent : (d : Dict ℕ (ℕ × ℕ)) → AreDistinct d → AreCurrent d d
self-AreCurrent [] h = tt
self-AreCurrent ((k, e) ∷ d) h =
    (head-current k e d, cons-AreCurrent k e d d h.0 (self-AreCurrent d h.1))

put-AreCurrent :
    (k : ℕ) (v : ℕ × ℕ) (d : Dict ℕ (ℕ × ℕ)) (xs : List (ℕ × (ℕ × ℕ)))
    → get k xs ≡ none
    → AreCurrent d xs
    → AreCurrent (put k v d) xs
unfolding get
put-AreCurrent k v d [] n a = tt
put-AreCurrent k v d ((j, e) ∷ xs) n a =
    (get-put j k v d ∙ ground (arith, n, a.0), put-AreCurrent k v d xs (ground (arith, n)) a.1)

one_less : (a b m : ℕ) → b < a → (a - b) * (m + 1) ≡ (a - (b + 1)) * (m + 1) + (m + 1)
one_less a b m h = by_left (a - b) refl
  where
    by_left : (n : ℕ) → a - b ≡ n → (a - b) * (m + 1) ≡ (a - (b + 1)) * (m + 1) + (m + 1)
    by_left zero e = absurd (omega arith)
    by_left (suc n) e = rw (e, less n e) (ground arith)
      where
        less : (n : ℕ) → a - b ≡ suc n → a - (b + 1) ≡ n
        less n e = omega arith

-- The frames in the queue and those that may still come.
abbrev pub frames : Tx → ℕ
frames t = length t.outgoing + budget t.ctx

module _ (node : Node) (content : Bytes) (stamp : ℕ → ℕ) where
  sent_again :
      (idx last tries : ℕ) (t : Tx)
      → get idx t.ctx.inflight ≡ some (last, tries)
      → tries < t.ctx.max_retries
      → frames (send_chunk node content stamp idx (tries + 1) t) ≤ frames t
  unfolding send_chunk
  sent_again idx last tries t g l = omega (
    arith,
    length-append t.outgoing ((get_data_chunk node t.seq t.ctx content idx).0 ∷ []),
    put-old t.ctx.max_retries idx (stamp idx) (tries + 1) tries last t.ctx.inflight g,
    l,
  )

  gave_up : (t : Tx) → t.ctx.finished ≡ false → frames (give_up node content stamp t) ≤ frames t
  unfolding give_up get_file_fin_frame
  gave_up t f = rw f (
      omega (
        arith,
        length-append t.outgoing
            ((get_file_fin_frame node t.seq t.ctx (codes "error") (codes "timeout")).0 ∷ []),
      ))

  loop-frames :
      (now : ℕ) (entries : List (ℕ × (ℕ × ℕ))) (t : Tx)
      → AreDistinct entries
      → AreCurrent t.ctx.inflight entries
      → t.ctx.finished ≡ false
      → frames (retransfer_loop node content stamp now entries t) ≤ frames t
  loop-frames now [] t n a f = unfold retransfer_loop in omega arith
  loop-frames now ((idx, (last, tries)) ∷ rest) t n a f =
      elim (Bool-cases (leb (last + t.ctx.timeout_s) now)) [
        | inr h ↦
            rw (still_waiting node content stamp now idx last tries rest t h)
              (loop-frames now rest t n.1 a.1 f)
        | inl h ↦ elim (Bool-cases (leb t.ctx.max_retries tries)) [
          | inl g ↦ rw (spent node content stamp now idx last tries rest t h g) (gave_up t f)
          | inr g ↦
              let more =
                loop-frames now rest (send_chunk node content stamp idx (tries + 1) t) n.1
                  (unfold send_chunk in
                    put-AreCurrent idx (stamp idx, tries + 1) t.ctx.inflight rest n.0 a.1)
                  (unfold send_chunk in f) in
              rw (again node content stamp now idx last tries rest t h g)
                (omega (arith, more, sent_again idx last tries t a.0 (ground (arith, g))))
        ]
      ]

  sent_next :
      (t : Tx)
      → has_room node content stamp t ≡ true
      → frames (send_next node content stamp t) ≤ frames t
  unfolding send_next send_chunk
  sent_next t h = omega (
    arith,
    length-append t.outgoing ((get_data_chunk node t.seq t.ctx content t.ctx.next_to_send).0 ∷ []),
    put-new t.ctx.max_retries t.ctx.next_to_send (stamp t.ctx.next_to_send) t.ctx.inflight,
    one_less t.ctx.total_chunks t.ctx.next_to_send t.ctx.max_retries (ground (arith, h)),
  )

  refill-frames : (fuel : ℕ) (t : Tx) → frames (refill_loop node content stamp fuel t) ≤ frames t
  refill-frames zero t = unfold refill_loop in omega arith
  refill-frames (suc fuel) t = elim (Bool-cases (has_room node content stamp t)) [
    | inl room ↦
        rw (refill_loop_room node content stamp fuel t room)
          (omega (arith, refill-frames fuel (send_next node content stamp t), sent_next t room))
    | inr full ↦ rw (refill_loop_full node content stamp fuel t full) (omega arith)
  ]

  closed_frames :
      (t : Tx)
      → t.ctx.finished ≡ false
      → length (t.outgoing ++ (get_file_fin_frame node t.seq t.ctx (codes "ok") []).0 ∷ [])
          + budget (record t.ctx { finished = true })
        ≤ frames t
  unfolding get_file_fin_frame
  closed_frames t f = rw f (
      omega (
        arith,
        length-append t.outgoing ((get_file_fin_frame node t.seq t.ctx (codes "ok") []).0 ∷ []),
      ))

  complete-frames : (t : Tx) → frames (complete node content stamp t) ≤ frames t
  unfolding complete
  complete-frames t =
      if_cases (λ u. frames u ≤ frames t) (all_acked node content stamp t.ctx && not t.ctx.finished)
        _ t (λ h. closed_frames t (ground (arith, h))) (λ h. omega arith)

  complete-within :
      (t u : Tx) → frames u ≤ frames t → frames (complete node content stamp u) ≤ frames t
  complete-within t u h = omega (arith, complete-frames u, h)

  refill-within :
      (t u : Tx) → frames u ≤ frames t → frames (refill_window node content stamp u) ≤ frames t
  unfolding refill_window
  refill-within t u h = omega (arith, refill-frames (u.ctx.total_chunks - u.ctx.next_to_send) u, h)

  -- A round of `_pump` for a transfer that is not finished takes each frame that it queues from the
  -- budget.
  pub pump_ctx-frames :
      (now : ℕ) (t : Tx)
      → AreDistinct t.ctx.inflight
      → t.ctx.finished ≡ false
      → length (pump_ctx node content stamp now t).outgoing
          + budget (pump_ctx node content stamp now t).ctx
        ≤ length t.outgoing + budget t.ctx
  unfolding pump_ctx retransfer_expired
  pump_ctx-frames now t n f = complete-within t _ (
      if_cases (λ u. frames u ≤ frames t) t.ctx.meta_acked _ t
        (λ h.
          if_cases (λ u. frames u ≤ frames t)
            (retransfer_expired node content stamp now t).ctx.finished
            (retransfer_expired node content stamp now t)
            (refill_window node content stamp (retransfer_expired node content stamp now t))
            (λ g. retried) (λ g. refill-within t _ retried))
        (λ h. omega arith))
    where
      retried : frames (retransfer_loop node content stamp now t.ctx.inflight t) ≤ frames t
      retried = loop-frames now t.ctx.inflight t n (self-AreCurrent t.ctx.inflight n) f
