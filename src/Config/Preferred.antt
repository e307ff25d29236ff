-- ===== src/Config/Preferred.antt =====
-- The order in which src/prepare/network_config.py prefers the interfaces.
use link_chat.Prelude.{
  ◌∙◌, sym, ap, subst, ◌⊎◌, ◌≡◌, refl, Bool, true, false, ◌&&◌, ◌||◌, not, Option, none, some, List,
  [], ◌∷◌, arith, inl, inr, Bool-cases, All,
}
use link_chat.Text.{Text}
use link_chat.Config.{Net, filter, first, or_else, is_candidate, is_up, pick_interface}

filter-true :
    (p : Text → Bool) (x : Text) (xs : List Text) → p x ≡ true → filter p (x ∷ xs) ≡ x ∷ filter p xs
unfolding filter
filter-true p x xs h = rw h refl

filter-false :
    (p : Text → Bool) (x : Text) (xs : List Text) → p x ≡ false → filter p (x ∷ xs) ≡ filter p xs
unfolding filter
filter-false p x xs h = rw h refl

-- What `filter` keeps passes the test.
filter-All : (p : Text → Bool) (xs : List Text) → All (λ x. p x ≡ true) (filter p xs)
unfolding filter
filter-All p [] = tt
filter-All p (x ∷ xs) = elim (Bool-cases (p x)) [
  | inl h ↦ rw (filter-true p x xs h) (h, filter-All p xs)
  | inr h ↦ rw (filter-false p x xs h) (filter-All p xs)
]

-- What passes a test on top is in the list that was filtered.
All-filter : (P : Text → Type 0) (p : Text → Bool) (xs : List Text) → All P xs → All P (filter p xs)
unfolding filter
All-filter P p [] a = tt
All-filter P p (x ∷ xs) a = elim (Bool-cases (p x)) [
  | inl h ↦ rw (filter-true p x xs h) (a.0, All-filter P p xs a.1)
  | inr h ↦ rw (filter-false p x xs h) (All-filter P p xs a.1)
]

map-All : (P : Text → Type 0) (xs : List Text) → ((x : Text) → P x) → All P xs
map-All P [] f = tt
map-All P (x ∷ xs) f = (f x, map-All P xs f)

widen-All : (P Q : Text → Type 0) (xs : List Text) → ((x : Text) → P x → Q x) → All P xs → All Q xs
widen-All P Q [] f a = tt
widen-All P Q (x ∷ xs) f a = (f x a.0, widen-All P Q xs f a.1)

All-first : (P : Text → Type 0) (xs : List Text) (i : Text) → All P xs → first xs ≡ some i → P i
All-first P [] i a e = absurd (cc e)
All-first P (x ∷ xs) i a e = subst P (cc e) a.0

none-passes :
    (p : Text → Bool) (xs : List Text) → first (filter p xs) ≡ none → All (λ x. p x ≡ false) xs
unfolding filter
none-passes p [] e = tt
none-passes p (x ∷ xs) e = elim (Bool-cases (p x)) [
  | inl h ↦ absurd (cc (e, ap first (filter-true p x xs h)))
  | inr h ↦ (h, none-passes p xs (ap first (sym (filter-false p x xs h)) ∙ e))
]

abbrev implies : Bool → Bool → Bool
implies a b = not a || b

implies-true : (a b : Bool) → b ≡ true → implies a b ≡ true
implies-true a b h = ground (arith, h)

false-implies : (a b : Bool) → a ≡ false → implies a b ≡ true
false-implies a b h = ground (arith, h)

module _ (net : Net) where
  abbrev candidates : List Text
  candidates = filter (is_candidate net) net.ifaces

  abbrev wired_up : Text → Bool
  wired_up i = not (net.is_wireless i) && is_up net i

  abbrev wireless_up : Text → Bool
  wireless_up i = net.is_wireless i && is_up net i

-- The interface is a candidate, it is wired and up if a candidate is, and up if a candidate is.
pub record IsPreferred (net : Net) (i : Text) : Type 0 where
  pub candidate : is_candidate net i ≡ true
  pub wired : All (λ j. implies (wired_up net j) (wired_up net i) ≡ true) (candidates net)
  pub up : All (λ j. implies (is_up net j) (is_up net i) ≡ true) (candidates net)

module _ (net : Net) (i : Text) where
  kept : (p : Text → Bool) → first (filter p (candidates net)) ≡ some i → is_candidate net i ≡ true
  kept p e =
      All-first (λ j. is_candidate net j ≡ true) (filter p (candidates net)) i
        (All-filter (λ j. is_candidate net j ≡ true) p (candidates net)
          (filter-All (is_candidate net) net.ifaces))
        e

  passed : (p : Text → Bool) → first (filter p (candidates net)) ≡ some i → p i ≡ true
  passed p e =
      All-first (λ j. p j ≡ true) (filter p (candidates net)) i (filter-All p (candidates net)) e

  any-implies :
      (p q : Text → Bool) → q i ≡ true → All (λ j. implies (p j) (q i) ≡ true) (candidates net)
  any-implies p q h =
      map-All (λ j. implies (p j) (q i) ≡ true) (candidates net) (λ j. implies-true (p j) (q i) h)

  none-implies :
      (p q : Text → Bool)
      → All (λ j. p j ≡ false) (candidates net)
      → All (λ j. implies (p j) (q i) ≡ true) (candidates net)
  none-implies p q a =
      widen-All (λ j. p j ≡ false) (λ j. implies (p j) (q i) ≡ true) (candidates net)
        (λ j h. false-implies (p j) (q i) h) a

  wired-IsPreferred : first (filter (wired_up net) (candidates net)) ≡ some i → IsPreferred net i
  wired-IsPreferred e =
      let w = passed (wired_up net) e in
      record {
        candidate = kept (wired_up net) e;
        wired = any-implies (wired_up net) (wired_up net) w;
        up = any-implies (is_up net) (is_up net) (ground (arith, w));
      }

  up-IsPreferred :
      (p : Text → Bool)
      → All (λ j. wired_up net j ≡ false) (candidates net)
      → first (filter p (candidates net)) ≡ some i
      → is_up net i ≡ true
      → IsPreferred net i
  up-IsPreferred p a e u = record {
    candidate = kept p e;
    wired = none-implies (wired_up net) (wired_up net) a;
    up = any-implies (is_up net) (is_up net) u;
  }

  down-IsPreferred :
      All (λ j. wired_up net j ≡ false) (candidates net)
      → All (λ j. is_up net j ≡ false) (candidates net)
      → first (candidates net) ≡ some i
      → IsPreferred net i
  down-IsPreferred a b e = record {
    candidate =
        All-first (λ j. is_candidate net j ≡ true) (candidates net) i
          (filter-All (is_candidate net) net.ifaces) e;
    wired = none-implies (wired_up net) (wired_up net) a;
    up = none-implies (is_up net) (is_up net) b;
  }

or_else-some :
    (a b : Option Text) (i : Text)
    → or_else a b ≡ some i
    → (a ≡ some i) ⊎ ((a ≡ none) × (b ≡ some i))
or_else-some none b i e = inr (refl, e)
or_else-some (some x) b i e = inl e

-- The interface that is picked is a candidate; it is wired and up if some candidate is both, and up
-- if some candidate is.
pub pick_interface-IsPreferred :
    (net : Net) (i : Text) → pick_interface net ≡ some i → IsPreferred net i
unfolding pick_interface
pick_interface-IsPreferred net i e = elim (or_else-some _ _ i e) [
  | inl f ↦ wired-IsPreferred net i f
  | inr (f, e2) ↦
      let a = none-passes (wired_up net) (candidates net) f in
      elim (or_else-some _ _ i e2) [
        | inl g ↦
            up-IsPreferred net i (wireless_up net) a g
              (ground (arith, passed net i (wireless_up net) g))
        | inr (g, e3) ↦ elim (or_else-some _ _ i e3) [
          | inl h ↦ up-IsPreferred net i (is_up net) a h (passed net i (is_up net) h)
          | inr (h, e4) ↦ down-IsPreferred net i a (none-passes (is_up net) (candidates net) h) e4
        ]
      ]
]
