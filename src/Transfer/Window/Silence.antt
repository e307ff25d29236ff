-- ===== src/Transfer/Window/Silence.antt =====
-- A transfer whose receiver has fallen silent: its rounds of `_pump` come to an end.
use link_chat.Prelude.{
  ℕ, suc, ◌+◌, ◌≤◌, ◌<◌, ◌≡◌, refl, ap, ◌∙◌, subst, ◌⊎◌, inl, inr, true, false, none, some, List,
  [], ◌∷◌, arith, leb, ◌==◌, if◌then◌else◌, Bool-cases,
}
use link_chat.Dict.{Dict, get, put, get-put}
use link_chat.Text.{Bytes}
use link_chat.Text.Equality.{nat_key}
use link_chat.Transfer.{Node, FileSendCtx}
use link_chat.Transfer.Window.{Tx, send_chunk, give_up, retransfer_loop}
use link_chat.Transfer.Window.Pumping.{still_waiting, spent, again, give_up_ctx}

-- How often a key stands in an association list; in a dictionary it is once at most.
abbrev pub count : ℕ → Dict ℕ (ℕ × ℕ) → ℕ
count k [] = 0
count k ((j, e) ∷ d) = let rest = count k d in if j == k then suc rest else rest

-- The chunk `k` is in flight since `time`, sent again `retries` times so far.
pub record Waiting (k time retries limit timeout : ℕ) (ctx : FileSendCtx) : Type 0 where
  pub known : get k ctx.inflight ≡ some (time, retries)
  pub once : count k ctx.inflight ≡ 1
  pub behind : k < ctx.next_to_send
  pub announced : ctx.meta_acked ≡ true
  pub bound : ctx.max_retries ≡ limit
  pub pace : ctx.timeout_s ≡ timeout
  pub tries : retries ≤ limit

count_lacks : (k : ℕ) (d : Dict ℕ (ℕ × ℕ)) → get k d ≡ none → count k d ≡ 0
unfolding get
count_lacks k [] h = refl
count_lacks k ((j, e) ∷ d) h = ground (arith, h, count_lacks k d)

count-put_self : (k : ℕ) (v : ℕ × ℕ) (d : Dict ℕ (ℕ × ℕ)) → count k d ≡ 1 → count k (put k v d) ≡ 1
unfolding put
count-put_self k v [] h = ground arith
count-put_self k v ((j, e) ∷ d) h = ground (arith, h, count-put_self k v d)

count-put_other :
    (j k : ℕ) (v : ℕ × ℕ) (d : Dict ℕ (ℕ × ℕ)) → (j == k) ≡ false → count k (put j v d) ≡ count k d
unfolding put
count-put_other j k v [] h = ground (arith, h)
count-put_other j k v ((i, e) ∷ d) h = ground (arith, h, count-put_other j k v d h)

module _ (node : Node) (content : Bytes) (stamp : ℕ → ℕ) (k limit timeout : ℕ) where
  -- Another chunk is sent: `k` waits on.
  pub send_other :
      (idx again time retries : ℕ) (t : Tx)
      → (idx == k) ≡ false
      → Waiting k time retries limit timeout t.ctx
      → Waiting k time retries limit timeout (send_chunk node content stamp idx again t).ctx
  unfolding send_chunk
  send_other idx again time retries t h w = record {
    known = get-put k idx (stamp idx, again) t.ctx.inflight ∙ rw (h, w.known) refl;
    once = count-put_other idx k (stamp idx, again) t.ctx.inflight h ∙ w.once;
    behind = w.behind;
    announced = w.announced;
    bound = w.bound;
    pace = w.pace;
    tries = w.tries;
  }

  send_self :
      (time retries : ℕ) (t : Tx)
      → retries < limit
      → Waiting k time retries limit timeout t.ctx
      → Waiting k
          (stamp k)
          (retries + 1)
          limit
          timeout
          (send_chunk node content stamp k (retries + 1) t).ctx
  unfolding send_chunk
  send_self time retries t l w = record {
    known = get-put k k (stamp k, retries + 1) t.ctx.inflight ∙ ground arith;
    once = count-put_self k (stamp k, retries + 1) t.ctx.inflight w.once;
    behind = w.behind;
    announced = w.announced;
    bound = w.bound;
    pace = w.pace;
    tries = omega arith;
  }

  -- After the entries of a round: the transfer is over, or `k` waits since a time with its retries.
  unfoldable pub Outcome : ℕ → ℕ → Tx → Type 0
  Outcome time retries t = (t.ctx.finished ≡ true) ⊎ Waiting k time retries limit timeout t.ctx

  finished_give_up : (t : Tx) → (give_up node content stamp t).ctx.finished ≡ true
  finished_give_up t = ap (λ (c : FileSendCtx). c.finished) (give_up_ctx node content stamp t)

  -- The entries of other chunks.
  loop_others :
      (now time retries : ℕ) (entries : List (ℕ × (ℕ × ℕ))) (t : Tx)
      → count k entries ≡ 0
      → Waiting k time retries limit timeout t.ctx
      → Outcome time retries (retransfer_loop node content stamp now entries t)
  unfolding Outcome
  loop_others now time retries [] t c w = unfold retransfer_loop in inr w
  loop_others now time retries ((idx, (last, tries)) ∷ rest) t c w =
      elim (Bool-cases (leb (last + t.ctx.timeout_s) now)) [
        | inr h ↦
            rw (still_waiting node content stamp now idx last tries rest t h)
              (loop_others now time retries rest t (ground (arith, c)) w)
        | inl h ↦ elim (Bool-cases (leb t.ctx.max_retries tries)) [
          | inl g ↦
              rw (spent node content stamp now idx last tries rest t h g) (inl (finished_give_up t))
          | inr g ↦ rw (again node content stamp now idx last tries rest t h g) (
              loop_others now time retries rest (send_chunk node content stamp idx (tries + 1) t)
                (ground (arith, c))
                (send_other idx (tries + 1) time retries t (ground (arith, c)) w))
        ]
      ]

  -- The entry of `k` is overdue: it is sent again, or the transfer is over.
  loop_self :
      (now time retries : ℕ) (rest : List (ℕ × (ℕ × ℕ))) (t : Tx)
      → count k rest ≡ 0
      → time + timeout ≤ now
      → Waiting k time retries limit timeout t.ctx
      → Outcome
          (stamp k)
          (retries + 1)
          (retransfer_loop node content stamp now ((k, (time, retries)) ∷ rest) t)
  unfolding Outcome
  loop_self now time retries rest t c l w = elim (Bool-cases (leb t.ctx.max_retries retries)) [
    | inl g ↦
        rw (spent node content stamp now k time retries rest t (ground (arith, l, w.pace)) g)
          (inl (finished_give_up t))
    | inr g ↦
        rw (again node content stamp now k time retries rest t (ground (arith, l, w.pace)) g) (
          loop_others now (stamp k) (retries + 1) rest
            (send_chunk node content stamp k (retries + 1) t) c
            (send_self time retries t (ground (arith, g, w.bound)) w))
  ]

  head_entry :
      (idx : ℕ) (e v : ℕ × ℕ) (rest : List (ℕ × (ℕ × ℕ)))
      → get k ((idx, e) ∷ rest) ≡ some v
      → (idx == k) ≡ true
      → ◌≡◌ {A = ℕ × (ℕ × ℕ)} (k, v) (idx, e)
  unfolding get
  head_entry idx e v rest g h = ground (arith, g, h)

  rest_entry :
      (idx : ℕ) (e v : ℕ × ℕ) (rest : List (ℕ × (ℕ × ℕ)))
      → get k ((idx, e) ∷ rest) ≡ some v
      → (idx == k) ≡ false
      → get k rest ≡ some v
  unfolding get
  rest_entry idx e v rest g h = ground (arith, g, h)

  -- The entries with the one of `k`.
  pub loop_overdue :
      (now time retries : ℕ) (entries : List (ℕ × (ℕ × ℕ))) (t : Tx)
      → get k entries ≡ some (time, retries)
      → count k entries ≡ 1
      → time + timeout ≤ now
      → Waiting k time retries limit timeout t.ctx
      → Outcome (stamp k) (retries + 1) (retransfer_loop node content stamp now entries t)
  unfolding Outcome
  loop_overdue now time retries [] t g c l w = absurd (omega arith)
  loop_overdue now time retries ((idx, (last, tries)) ∷ rest) t g c l w =
      elim (Bool-cases (idx == k)) [
        | inl same ↦
            subst
              (λ p.
                Outcome (stamp k) (retries + 1)
                  (retransfer_loop node content stamp now (p ∷ rest) t))
              (head_entry idx (last, tries) (time, retries) rest g same)
              (loop_self now time retries rest t (ground (arith, c, same)) l w)
        | inr other ↦ elim (Bool-cases (leb (last + t.ctx.timeout_s) now)) [
          | inr h ↦ rw (still_waiting node content stamp now idx last tries rest t h) (
              loop_overdue now time retries rest t
                (rest_entry idx (last, tries) (time, retries) rest g other)
                (ground (arith, c, other)) l w)
          | inl h ↦ elim (Bool-cases (leb t.ctx.max_retries tries)) [
            | inl m ↦
                rw (spent node content stamp now idx last tries rest t h m)
                  (inl (finished_give_up t))
            | inr m ↦ rw (again node content stamp now idx last tries rest t h m) (
                loop_overdue now time retries rest (send_chunk node content stamp idx (tries + 1) t)
                  (rest_entry idx (last, tries) (time, retries) rest g other)
                  (ground (arith, c, other)) l (send_other idx (tries + 1) time retries t other w))
          ]
        ]
      ]

  -- The entries with the one of `k`, which is not overdue.
  pub loop_quiet :
      (now time retries : ℕ) (entries : List (ℕ × (ℕ × ℕ))) (t : Tx)
      → get k entries ≡ some (time, retries)
      → count k entries ≡ 1
      → now < time + timeout
      → Waiting k time retries limit timeout t.ctx
      → Outcome time retries (retransfer_loop node content stamp now entries t)
  unfolding Outcome
  loop_quiet now time retries [] t g c l w = absurd (omega arith)
  loop_quiet now time retries ((idx, (last, tries)) ∷ rest) t g c l w =
      elim (Bool-cases (idx == k)) [
        | inl same ↦
            subst (λ p. Outcome time retries (retransfer_loop node content stamp now (p ∷ rest) t))
              (head_entry idx (last, tries) (time, retries) rest g same)
              (rw
                (still_waiting node content stamp now k time retries rest t
                  (ground (arith, l, w.pace)))
                (loop_others now time retries rest t (ground (arith, c, same)) w))
        | inr other ↦ elim (Bool-cases (leb (last + t.ctx.timeout_s) now)) [
          | inr h ↦ rw (still_waiting node content stamp now idx last tries rest t h) (
              loop_quiet now time retries rest t
                (rest_entry idx (last, tries) (time, retries) rest g other)
                (ground (arith, c, other)) l w)
          | inl h ↦ elim (Bool-cases (leb t.ctx.max_retries tries)) [
            | inl m ↦
                rw (spent node content stamp now idx last tries rest t h m)
                  (inl (finished_give_up t))
            | inr m ↦ rw (again node content stamp now idx last tries rest t h m) (
                loop_quiet now time retries rest (send_chunk node content stamp idx (tries + 1) t)
                  (rest_entry idx (last, tries) (time, retries) rest g other)
                  (ground (arith, c, other)) l (send_other idx (tries + 1) time retries t other w))
          ]
        ]
      ]
