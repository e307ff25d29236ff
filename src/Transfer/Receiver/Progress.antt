-- ===== src/Transfer/Receiver/Progress.antt =====
-- The set of received indices and the first one that is missing.
use link_chat.Prelude.{
  ℕ, zero, suc, ◌+◌, ◌-◌, ◌≤◌, ◌<◌, ◌≡◌, refl, sym, ap, ◌∙◌, ◌≢◌, inl, inr, true, false, List, [],
  ◌∷◌, arith, ◌==◌, if◌then◌else◌, le_split, lt_split, Bool-cases, length, All,
}
use link_chat.Transfer.{FileRcvCtx}
use link_chat.Transfer.Receiver.Data.{advance, mark_received, has_index}

-- No index stands in the list twice.
abbrev pub Distinct : List ℕ → Type 0
Distinct [] = Unit
Distinct (i ∷ is) = (has_index i is ≡ false) × Distinct is

abbrev pub Below : ℕ → List ℕ → Type 0
Below n = All (λ i. i < n)

remove : ℕ → List ℕ → List ℕ
remove n [] = []
remove n (i ∷ is) = let rest = remove n is in if n == i then rest else i ∷ rest

has_index-remove :
    (n i : ℕ) (is : List ℕ) → has_index i is ≡ true → i ≢ n → has_index i (remove n is) ≡ true
unfolding has_index remove
has_index-remove n i [] h e = cc
has_index-remove n i (j ∷ is) h e = ground (arith, has_index-remove n i is)

lacks-remove : (n i : ℕ) (is : List ℕ) → has_index i is ≡ false → has_index i (remove n is) ≡ false
unfolding has_index remove
lacks-remove n i [] h = refl
lacks-remove n i (j ∷ is) h = ground (arith, lacks-remove n i is)

Below-remove : (n : ℕ) (is : List ℕ) → Below (suc n) is → Below n (remove n is)
unfolding remove
Below-remove n [] h = tt
Below-remove n (i ∷ is) h = ground (arith, Below-remove n is h.1, h.0)

Distinct-remove : (n : ℕ) (is : List ℕ) → Distinct is → Distinct (remove n is)
unfolding remove
Distinct-remove n [] h = tt
Distinct-remove n (i ∷ is) h = ground (arith, Distinct-remove n is h.1, lacks-remove n i is h.0)

remove_lacking : (n : ℕ) (is : List ℕ) → has_index n is ≡ false → remove n is ≡ is
unfolding has_index remove
remove_lacking n [] h = refl
remove_lacking n (i ∷ is) h = ground (arith, remove_lacking n is)

length-remove-Distinct :
    (n : ℕ) (is : List ℕ) → Distinct is → length is ≤ suc (length (remove n is))
unfolding remove
length-remove-Distinct n [] h = omega arith
length-remove-Distinct n (i ∷ is) h =
    ground (arith, length-remove-Distinct n is h.1, remove_lacking n is, h.0)

length-remove_has :
    (n : ℕ) (is : List ℕ) → has_index n is ≡ true → suc (length (remove n is)) ≤ length is
unfolding has_index remove
length-remove_has n [] h = cc
length-remove_has n (i ∷ is) h = ground (arith, length-remove_has n is, length-remove_le n is)
  where
    length-remove_le : (m : ℕ) (js : List ℕ) → length (remove m js) ≤ length js
    length-remove_le m [] = omega arith
    length-remove_le m (j ∷ js) = ground (arith, length-remove_le m js)

-- At most `n` distinct indices lie below `n`.
pub length-le_of_Distinct : (n : ℕ) (is : List ℕ) → Distinct is → Below n is → length is ≤ n
length-le_of_Distinct zero [] d b = omega arith
length-le_of_Distinct zero (i ∷ is) d b = absurd (omega arith)
length-le_of_Distinct (suc n) is d b = omega (
  arith,
  length-remove-Distinct n is d,
  length-le_of_Distinct n (remove n is) (Distinct-remove n is d) (Below-remove n is b),
)

-- A set that has all indices below `n` has `n` of them at least.
pub le-length_of_all :
    (n : ℕ) (is : List ℕ) → ((i : ℕ) → i < n → has_index i is ≡ true) → n ≤ length is
le-length_of_all zero is h = omega arith
le-length_of_all (suc n) is h = omega (
  arith,
  length-remove_has n is (h n (omega arith)),
  le-length_of_all n (remove n is)
      (λ i l. has_index-remove n i is (h i (omega arith)) (omega arith)),
)

-- When there are `n` of them, every index below `n` is there.
pub has_index-of_full :
    (n : ℕ) (is : List ℕ) (i : ℕ)
    → Distinct is
    → Below n is
    → n ≤ length is
    → i < n
    → has_index i is ≡ true
has_index-of_full n is i d b full l = elim (Bool-cases (has_index i is)) [
  | inl e ↦ e
  | inr e ↦ absurd (omega (arith, length-le_of_Distinct n (i ∷ is) (e, d) (l, b)))
]

-- The context's account of what has come: distinct indices in range, and every index below
-- `next_needed` among them, which itself is missing.
pub record IsTally (ctx : FileRcvCtx) : Type 0 where
  pub distinct : Distinct ctx.received
  pub in_range : Below ctx.total_chunks ctx.received
  pub before : (i : ℕ) → i < ctx.next_needed → has_index i ctx.received ≡ true
  pub missing : has_index ctx.next_needed ctx.received ≡ false
  pub bounded : ctx.next_needed ≤ ctx.total_chunks

lacks-Below : (n i : ℕ) (is : List ℕ) → Below n is → n ≤ i → has_index i is ≡ false
unfolding has_index
lacks-Below n i [] b h = refl
lacks-Below n i (j ∷ is) b h = ground (arith, lacks-Below n i is b.1 h, b.0)

record Advanced (next total : ℕ) (received : List ℕ) (n : ℕ) : Type 0 where
  upper : n ≤ total
  lower : next ≤ n
  all_in : (i : ℕ) → next ≤ i → i < n → has_index i received ≡ true
  stops : has_index n received ≡ false

advance-has :
    (fuel next : ℕ) (received : List ℕ)
    → has_index next received ≡ true
    → advance (suc fuel) next received ≡ advance fuel (next + 1) received
unfolding advance
advance-has fuel next received h = ground (arith, h)

advance-lacks :
    (fuel next : ℕ) (received : List ℕ)
    → has_index next received ≡ false
    → advance fuel next received ≡ next
unfolding advance
advance-lacks zero next received h = refl
advance-lacks (suc fuel) next received h = ground (arith, h)

advance-zero : (next : ℕ) (received : List ℕ) → advance zero next received ≡ next
unfolding advance
advance-zero next received = refl

all_from :
    (next : ℕ) (received : List ℕ)
    → has_index next received ≡ true
    → (i : ℕ) → next ≤ i
    → (next + 1 ≤ i → has_index i received ≡ true)
    → has_index i received ≡ true
all_from next received here i h later = elim (le_split h) [
  | inl same ↦ ap (λ k. has_index k received) (sym same) ∙ here
  | inr less ↦ later less
]

advance_lem :
    (fuel next total : ℕ) (received : List ℕ)
    → next + fuel ≡ total
    → Below total received
    → Advanced next total received (advance fuel next received)
advance_lem zero next total received e b = rw (advance-zero next received) (record {
  upper = omega arith;
  lower = omega arith;
  all_in = λ i h l. absurd (omega arith);
  stops = lacks-Below total next received b (omega arith);
})
advance_lem (suc fuel) next total received e b = elim (Bool-cases (has_index next received)) [
  | inl here ↦
      let a = advance_lem fuel (next + 1) total received (omega arith) b in
      rw (advance-has fuel next received here) (record {
        upper = a.upper;
        lower = omega (arith, a.lower);
        all_in = λ i h l. all_from next received here i h (λ h'. a.all_in i h' l);
        stops = a.stops;
      })
  | inr gone ↦ rw (advance-lacks (suc fuel) next received gone) (record {
    upper = omega arith;
    lower = omega arith;
    all_in = λ i h l. absurd (omega arith);
    stops = gone;
  })
]

pub mark_received-old :
    (idx : ℕ) (ctx : FileRcvCtx) → has_index idx ctx.received ≡ true → mark_received idx ctx ≡ ctx
unfolding mark_received
mark_received-old idx ctx h = rw h refl

pub mark_received-new :
    (idx : ℕ) (ctx : FileRcvCtx)
    → has_index idx ctx.received ≡ false
    → mark_received idx ctx ≡ record ctx {
      received = idx ∷ ctx.received;
      next_needed =
          advance (ctx.total_chunks - ctx.next_needed) ctx.next_needed (idx ∷ ctx.received);
    }
unfolding mark_received
mark_received-new idx ctx h = rw h refl

pub has_index-cons :
    (i idx : ℕ) (is : List ℕ) → has_index i is ≡ true → has_index i (idx ∷ is) ≡ true
unfolding has_index
has_index-cons i idx is h = ground (arith, h)

-- When the received indices are distinct and in range, `next_needed` is not among them and every
-- index below it is, then all of this holds again after any index in range is marked: the loop
-- over `next_needed` stops at the first index that is missing.
pub mark_received-IsTally :
    (idx : ℕ) (ctx : FileRcvCtx)
    → IsTally ctx
    → idx < ctx.total_chunks
    → IsTally (mark_received idx ctx)
mark_received-IsTally idx ctx t l = elim (Bool-cases (has_index idx ctx.received)) [
  | inl old ↦ rw (mark_received-old idx ctx old) t
  | inr new ↦
      let bounded = t.bounded in
      let a =
        advance_lem (ctx.total_chunks - ctx.next_needed) ctx.next_needed ctx.total_chunks
          (idx ∷ ctx.received) (omega arith) (l, t.in_range) in
      rw (mark_received-new idx ctx new) (record {
        distinct = (new, t.distinct);
        in_range = (l, t.in_range);
        before = λ i h. elim (lt_split i ctx.next_needed) [
          | inl less ↦ has_index-cons i idx ctx.received (t.before i less)
          | inr more ↦ a.all_in i more h
        ];
        missing = a.stops;
        bounded = a.upper;
      })
]
