-- ===== src/Text/Equality.antt =====
-- Equality of texts, and the interface of a dictionary's keys.
use link_chat.Prelude.{
  ℕ, List, [], ◌∷◌, Bool, true, false, ◌&&◌, ◌≡◌, refl, ◌↔◌, arith, ◌==◌, ==_iff,
}

-- Keys that can be compared.
pub record Eq {ℓ} (Key : Type ℓ) : Type ℓ where
  pub beq : (j k : Key) → Bool
  pub beq_iff : (j k : Key) → (beq j k ≡ true) ↔ (j ≡ k)

unfoldable pub text_eq : List ℕ → List ℕ → Bool
text_eq [] [] = true
text_eq [] (b ∷ t) = false
text_eq (a ∷ s) [] = false
text_eq (a ∷ s) (b ∷ t) = a == b && text_eq s t

pub text_eq_sound : (s t : List ℕ) → text_eq s t ≡ true → s ≡ t
unfolding text_eq
text_eq_sound [] [] h = refl
text_eq_sound [] (b ∷ t) h = cc
text_eq_sound (a ∷ s) [] h = cc
text_eq_sound (a ∷ s) (b ∷ t) h = ground (arith, text_eq_sound s t)

pub text_eq_refl : (s : List ℕ) → text_eq s s ≡ true
unfolding text_eq
text_eq_refl [] = refl
text_eq_refl (a ∷ s) = ground (arith, text_eq_refl s)

pub text_eq_iff : (s t : List ℕ) → (text_eq s t ≡ true) ↔ (s ≡ t)
text_eq_iff s t = (text_eq_sound s t, λ e. subst_right e)
  where
    subst_right : s ≡ t → text_eq s t ≡ true
    subst_right e = rw e (text_eq_refl t)

instance abbrev pub text_key : Eq (List ℕ)
text_key = record { beq = text_eq; beq_iff = text_eq_iff }

abbrev pub nat_beq : ℕ → ℕ → Bool
nat_beq a b = a == b

instance abbrev pub nat_key : Eq ℕ
nat_key = record { beq = nat_beq; beq_iff = ==_iff }
