-- ===== src/Transfer/Window/Pumping.antt =====
-- `_pump` keeps the window.
use link_chat.Prelude.{
  ℕ, ◌+◌, ◌-◌, ◌≡◌, refl, ◌∙◌, inl, inr, Bool, true, false, ◌&&◌, not, some, List, [], ◌∷◌, arith,
  leb, ◌==◌, if◌then◌else◌, Bool-cases, All,
}
use link_chat.Dict.{Dict, get, put, get-put}
use link_chat.Text.{Bytes}
use link_chat.Text.Equality.{nat_key}
use link_chat.Transfer.{Node, FileSendCtx}
use link_chat.Transfer.Window.{
  Tx, all_acked, send_chunk, refill_window, give_up, retransfer_loop, retransfer_expired, complete,
  pump_ctx,
}
use link_chat.Transfer.Window.Invariant.{IsWindow, refill_loop-IsWindow, send_chunk-IsWindow}

-- The entries are those of chunks in flight.
AreFlying : Dict ℕ (ℕ × ℕ) → List (ℕ × (ℕ × ℕ)) → Type 0
AreFlying d = All (λ p. (e : ℕ × ℕ) × (get p.0 d ≡ some e))

put_there :
    (j k : ℕ) (v : ℕ × ℕ) (d : Dict ℕ (ℕ × ℕ))
    → (e : ℕ × ℕ) × (get j d ≡ some e)
    → (e : ℕ × ℕ) × (get j (put k v d) ≡ some e)
put_there j k v d (e, h) = elim (Bool-cases (k == j)) [
  | inl same ↦ (v, get-put j k v d ∙ ground (arith, same))
  | inr other ↦ (e, get-put j k v d ∙ ground (arith, other, h))
]

put-AreFlying :
    (k : ℕ) (v : ℕ × ℕ) (d : Dict ℕ (ℕ × ℕ)) (xs : List (ℕ × (ℕ × ℕ)))
    → AreFlying d xs
    → AreFlying (put k v d) xs
unfolding AreFlying
put-AreFlying k v d [] h = tt
put-AreFlying k v d (x ∷ xs) h = (put_there x.0 k v d h.0, put-AreFlying k v d xs h.1)

cons_there :
    (j k : ℕ) (v : ℕ × ℕ) (d : Dict ℕ (ℕ × ℕ))
    → (e : ℕ × ℕ) × (get j d ≡ some e)
    → (e : ℕ × ℕ) × (get j ((k, v) ∷ d) ≡ some e)
unfolding get
cons_there j k v d (e, h) = elim (Bool-cases (k == j)) [
  | inl same ↦ (v, ground (arith, same))
  | inr other ↦ (e, ground (arith, other, h))
]

cons-AreFlying :
    (k : ℕ) (v : ℕ × ℕ) (d : Dict ℕ (ℕ × ℕ)) (xs : List (ℕ × (ℕ × ℕ)))
    → AreFlying d xs
    → AreFlying ((k, v) ∷ d) xs
unfolding AreFlying
cons-AreFlying k v d [] h = tt
cons-AreFlying k v d (x ∷ xs) h = (cons_there x.0 k v d h.0, cons-AreFlying k v d xs h.1)

get-head : (k : ℕ) (v : ℕ × ℕ) (d : Dict ℕ (ℕ × ℕ)) → get k ((k, v) ∷ d) ≡ some v
unfolding get
get-head k v d = ground arith

self-AreFlying : (d : Dict ℕ (ℕ × ℕ)) → AreFlying d d
unfolding AreFlying
self-AreFlying [] = tt
self-AreFlying ((k, v) ∷ d) = ((v, get-head k v d), cons-AreFlying k v d d (self-AreFlying d))

finished-IsWindow : (ctx : FileSendCtx) → IsWindow ctx → IsWindow (record ctx { finished = true })
finished-IsWindow ctx w = record { fits = w.fits; in_range = w.in_range; behind = w.behind }

module _ (node : Node) (content : Bytes) (stamp : ℕ → ℕ) where
  pub give_up_ctx : (t : Tx) → (give_up node content stamp t).ctx ≡ record t.ctx { finished = true }
  unfolding give_up
  give_up_ctx t = refl

  module _ (now idx last_time retries : ℕ) (rest : List (ℕ × (ℕ × ℕ))) (t : Tx) where
    pub still_waiting :
        leb (last_time + t.ctx.timeout_s) now ≡ false
        → retransfer_loop node content stamp now ((idx, (last_time, retries)) ∷ rest) t
          ≡ retransfer_loop node content stamp now rest t
    unfolding retransfer_loop
    still_waiting h = ground (arith, h)

    pub spent :
        leb (last_time + t.ctx.timeout_s) now ≡ true
        → leb t.ctx.max_retries retries ≡ true
        → retransfer_loop node content stamp now ((idx, (last_time, retries)) ∷ rest) t
          ≡ give_up node content stamp t
    unfolding retransfer_loop
    spent h k = ground (arith, h, k)

    pub again :
        leb (last_time + t.ctx.timeout_s) now ≡ true
        → leb t.ctx.max_retries retries ≡ false
        → retransfer_loop node content stamp now ((idx, (last_time, retries)) ∷ rest) t
          ≡ retransfer_loop node content stamp now rest
              (send_chunk node content stamp idx (retries + 1) t)
    unfolding retransfer_loop
    again h k = ground (arith, h, k)

  sent_inflight :
      (idx retries : ℕ) (t : Tx)
      → (send_chunk node content stamp idx retries t).ctx.inflight
        ≡ put idx (stamp idx, retries) t.ctx.inflight
  unfolding send_chunk
  sent_inflight idx retries t = refl

  retransfer_loop-IsWindow :
      (now : ℕ) (entries : List (ℕ × (ℕ × ℕ))) (t : Tx)
      → AreFlying t.ctx.inflight entries
      → IsWindow t.ctx
      → IsWindow (retransfer_loop node content stamp now entries t).ctx
  unfolding AreFlying
  retransfer_loop-IsWindow now [] t f w = unfold retransfer_loop in w
  retransfer_loop-IsWindow now ((idx, (last_time, retries)) ∷ rest) t f w =
      elim (Bool-cases (leb (last_time + t.ctx.timeout_s) now)) [
        | inr h ↦
            rw (still_waiting now idx last_time retries rest t h)
              (retransfer_loop-IsWindow now rest t f.1 w)
        | inl h ↦ elim (Bool-cases (leb t.ctx.max_retries retries)) [
          | inl k ↦
              rw (spent now idx last_time retries rest t h k, give_up_ctx t)
                (finished-IsWindow t.ctx w)
          | inr k ↦ rw (again now idx last_time retries rest t h k) (
              retransfer_loop-IsWindow now rest (send_chunk node content stamp idx (retries + 1) t)
                (rw (sent_inflight idx (retries + 1) t)
                  (put-AreFlying idx (stamp idx, retries + 1) t.ctx.inflight rest f.1))
                (send_chunk-IsWindow node content stamp idx (retries + 1) t f.0.0 f.0.1 w))
        ]
      ]

  complete-IsWindow : (t : Tx) → IsWindow t.ctx → IsWindow (complete node content stamp t).ctx
  unfolding complete
  complete-IsWindow t w =
      elim (Bool-cases (all_acked node content stamp t.ctx && not t.ctx.finished)) [
        | inl h ↦ rw h (finished-IsWindow t.ctx w)
        | inr h ↦ rw h w
      ]

  refill_window-IsWindow :
      (t : Tx) → IsWindow t.ctx → IsWindow (refill_window node content stamp t).ctx
  unfolding refill_window
  refill_window-IsWindow t w =
      refill_loop-IsWindow node content stamp (t.ctx.total_chunks - t.ctx.next_to_send) t w

  if-IsWindow :
      (b : Bool) (t u : Tx) → IsWindow t.ctx → IsWindow u.ctx → IsWindow (if b then t else u).ctx
  if-IsWindow true t u h k = h
  if-IsWindow false t u h k = k

  -- When no more chunks of a transfer are in flight than its window holds, no more are sent than
  -- the file has, and what is in flight has been sent, then all of this holds again after a round
  -- of `_pump`: retransmissions take no room, new chunks only what is free.
  pub pump_ctx-IsWindow :
      (now : ℕ) (t : Tx) → IsWindow t.ctx → IsWindow (pump_ctx node content stamp now t).ctx
  unfolding pump_ctx retransfer_expired
  pump_ctx-IsWindow now t w = complete-IsWindow _ (
      if-IsWindow t.ctx.meta_acked _ t
        (if-IsWindow (retransfer_expired node content stamp now t).ctx.finished
          (retransfer_expired node content stamp now t)
          (refill_window node content stamp (retransfer_expired node content stamp now t)) retried
          (refill_window-IsWindow (retransfer_expired node content stamp now t) retried))
        w)
    where
      retried : IsWindow (retransfer_expired node content stamp now t).ctx
      retried = retransfer_loop-IsWindow now t.ctx.inflight t (self-AreFlying t.ctx.inflight) w
