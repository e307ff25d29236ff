-- ===== src/Dict.antt =====
-- A Python dictionary: an association list in insertion order, a key at most once.
use link_chat.Prelude.{
  sym, subst, if_cases, All, ◌+◌, ◌≤◌, ◌≡◌, refl, true, Option, none, some, List, [], ◌∷◌, arith,
  if◌then◌else◌, length,
}
use link_chat.Text.Equality.{Eq}

abbrev pub Dict {ℓ κ} : Type ℓ → Type κ → Type (ℓ ⊔ κ)
Dict K V = List (K × V)

module _ {ℓ} {K : Type ℓ} ⦃e : Eq K⦄ where
  pub beq_refl : (k : K) → e.beq k k ≡ true
  beq_refl k = (e.beq_iff k k).1 refl

  pub beq_eq : (j k : K) → e.beq j k ≡ true → j ≡ k
  beq_eq j k h = (e.beq_iff j k).0 h

module _ {ℓ κ} {K : Type ℓ} {V : Type κ} ⦃e : Eq K⦄ where
  -- `d.get(k)`
  unfoldable pub get : K → Dict K V → Option V
  get k [] = none
  get k ((j, v) ∷ d) = if e.beq j k then some v else get k d

  -- `d[k] = v`
  unfoldable pub put : K → V → Dict K V → Dict K V
  put k v [] = (k, v) ∷ []
  put k v ((j, w) ∷ d) = if e.beq j k then (j, v) ∷ d else (j, w) ∷ put k v d

  -- `d.pop(k, None)`
  unfoldable pub pop : K → Dict K V → Dict K V
  pop k [] = []
  pop k ((j, w) ∷ d) = let rest = pop k d in if e.beq j k then rest else (j, w) ∷ rest

  -- `d.keys()`
  unfoldable pub keys : Dict K V → List K
  keys [] = []
  keys ((j, w) ∷ d) = j ∷ keys d

  pub get-put :
      (j k : K) (v : V) (d : Dict K V) → get j (put k v d) ≡ (if e.beq k j then some v else get j d)
  unfolding get put
  get-put j k v [] = refl
  get-put j k v ((i, w) ∷ d) =
      ground (arith, e.beq_iff k j, e.beq_iff i k, e.beq_iff i j, get-put j k v d)

  pub get-put_self : (k : K) (v : V) (d : Dict K V) → get k (put k v d) ≡ some v
  get-put_self k v d = rw (get-put k k v d, beq_refl k)

  pub get-pop : (j k : K) (d : Dict K V) → get j (pop k d) ≡ (if e.beq k j then none else get j d)
  unfolding get pop
  get-pop j k [] = ground arith
  get-pop j k ((i, w) ∷ d) =
      ground (arith, e.beq_iff k j, e.beq_iff i k, e.beq_iff i j, get-pop j k d)

  pub get-pop_self : (k : K) (d : Dict K V) → get k (pop k d) ≡ none
  get-pop_self k d = rw (get-pop k k d, beq_refl k) refl

  pub length-put : (k : K) (v : V) (d : Dict K V) → length (put k v d) ≤ length d + 1
  unfolding put
  length-put k v [] = omega arith
  length-put k v ((j, w) ∷ d) = ground (arith, length-put k v d)

  -- A key that is there takes no more room.
  pub length-put_old :
      (k : K) (v : V) (d : Dict K V) (w : V) → get k d ≡ some w → length (put k v d) ≡ length d
  unfolding get put
  length-put_old k v [] w h = cc
  length-put_old k v ((j, u) ∷ d) w h = ground (arith, length-put_old k v d w)

  pub length-pop : (k : K) (d : Dict K V) → length (pop k d) ≤ length d
  unfolding pop
  length-pop k [] = omega arith
  length-pop k ((j, w) ∷ d) = ground (arith, length-pop k d)

  -- What holds of all entries and of a value under its key holds after the value is put there.
  pub All-put :
      (P : K × V → Type 0) (k : K) (v : V) (d : Dict K V) → P (k, v) → All P d → All P (put k v d)
  unfolding put
  All-put P k v [] p h = (p, tt)
  All-put P k v ((j, w) ∷ d) p h =
      if_cases (All P) (e.beq j k) ((j, v) ∷ d) ((j, w) ∷ put k v d)
        (λ same. (subst (λ i. P (i, v)) (sym (beq_eq j k same)) p, h.1))
        (λ other. (h.0, All-put P k v d p h.1))

  pub All-pop : (P : K × V → Type 0) (k : K) (d : Dict K V) → All P d → All P (pop k d)
  unfolding pop
  All-pop P k [] h = tt
  All-pop P k ((j, w) ∷ d) h =
      if_cases (All P) (e.beq j k) (pop k d) ((j, w) ∷ pop k d) (λ same. All-pop P k d h.1)
        (λ other. (h.0, All-pop P k d h.1))
