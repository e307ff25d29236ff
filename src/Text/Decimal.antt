-- ===== src/Text/Decimal.antt =====
-- `str(n)` of a natural number, and `int(s)`: strips, takes a sign, and allows single underscores
-- between digits. The decimal digits outside ASCII, which `int` takes too, count as no digits.
use mathlib.Core.List.{append_assoc, append-nil}
use link_chat.Prelude.{
  ℕ, zero, suc, ◌+◌, ◌-◌, ◌*◌, ◌/◌, ◌%◌, ◌≤◌, ◌≡◌, refl, sym, ap, ◌∙◌, inl, inr, Bool, true, false,
  ◌&&◌, Option, none, some, [], ◌∷◌, ◌++◌, arith, ltb, leb, ◌==◌, if◌then◌else◌, Bool-cases, All,
  All-append, value_error, Result, ok, err,
}
use link_chat.Prelude.Int.{ℤ, pos, neg}
use link_chat.Text.{Text, is_space, codes}
use link_chat.Text.Strip.{strip, strip_id, IsSolid, IsSolid-IsStripped}

-- Fuel `n` is enough: each round divides by ten.
digits : ℕ → ℕ → Text
digits zero n = (b'0' + n % 10) ∷ []
digits (suc f) n = elim (ltb n 10) [
  | true ↦ (b'0' + n) ∷ []
  | false ↦ digits f (n / 10) ++ (b'0' + n % 10) ∷ []
]

unfoldable pub format : ℕ → Text
unfolding digits
format n = digits n n

abbrev is_digit : ℕ → Bool
is_digit c = leb b'0' c && leb c b'9'

-- The flag says that the character before was a digit.
scan : Text → ℕ → Bool → Option ℕ
scan [] n true = some n
scan [] n false = none
scan (c ∷ s) n after_digit = elim (is_digit c) [
  | true ↦ scan s (n * 10 + (c - b'0')) true
  | false ↦ elim (c == b'_' && after_digit) [ true ↦ scan s n false | false ↦ none ]
]

signed : Text → Option ℤ
signed [] = none
signed (c ∷ s) =
    if c == b'-'
    then (elim (scan s 0 false) [ none ↦ none | some n ↦ some (neg (pos n)) ])
    else if c == b'+'
    then (elim (scan s 0 false) [ none ↦ none | some n ↦ some (pos n) ])
    else (elim (scan (c ∷ s) 0 false) [ none ↦ none | some n ↦ some (pos n) ])

or_value_error : Option ℤ → Result ℤ
or_value_error none = err value_error
or_value_error (some n) = ok n

unfoldable pub int : Text → Result ℤ
unfolding scan signed or_value_error
int s = or_value_error (signed (strip s))

digits-lt : (f n : ℕ) → ltb n 10 ≡ true → digits (suc f) n ≡ (b'0' + n) ∷ []
unfolding digits
digits-lt f n h = ground arith

digits-ge :
    (f n : ℕ) → ltb n 10 ≡ false → digits (suc f) n ≡ digits f (n / 10) ++ (b'0' + n % 10) ∷ []
unfolding digits
digits-ge f n h = ground arith

digits-IsDigits : (f n : ℕ) → All (λ c. (b'0' ≤ c) × (c ≤ b'9')) (digits f n)
digits-IsDigits zero n = unfold digits in ((omega arith, omega arith), tt)
digits-IsDigits (suc f) n = elim (Bool-cases (ltb n 10)) [
  | inl h ↦ rw (digits-lt f n h) ((omega arith, ground arith), tt)
  | inr h ↦ rw (digits-ge f n h) (
      All-append _ (digits f (n / 10)) _ (digits-IsDigits f (n / 10))
        ((omega arith, omega arith), tt))
]

digit_solid : (c : ℕ) → (b'0' ≤ c) × (c ≤ b'9') → is_space c ≡ false
unfolding is_space
digit_solid c h = ground arith

IsSolid-of_digits : (s : Text) → All (λ c. (b'0' ≤ c) × (c ≤ b'9')) s → IsSolid s
IsSolid-of_digits [] h = tt
IsSolid-of_digits (c ∷ s) h = (digit_solid c h.0, IsSolid-of_digits s h.1)

pub format-IsSolid : (n : ℕ) → IsSolid (format n)
unfolding format
format-IsSolid n = IsSolid-of_digits (digits n n) (digits-IsDigits n n)

-- Only digits.
pub format-AreDigits : (n : ℕ) → All (λ c. (b'0' ≤ c) × (c ≤ b'9')) (format n)
unfolding format
format-AreDigits n = digits-IsDigits n n

scan-digits : (f n : ℕ) (s : Text) (b : Bool) → n ≤ f → scan (digits f n ++ s) 0 b ≡ scan s n true
unfolding scan
scan-digits zero n s b h = unfold digits in ground arith
scan-digits (suc f) n s b h = elim (Bool-cases (ltb n 10)) [
  | inl small ↦ rw (digits-lt f n small) (ground arith)
  | inr big ↦
      rw (digits-ge f n big, append_assoc)
        (scan-digits f (n / 10) ((b'0' + n % 10) ∷ s) b (ground arith) ∙ ground arith)
]

signed_digits :
    (s : Text) (n : ℕ)
    → All (λ c. (b'0' ≤ c) × (c ≤ b'9')) s
    → scan s 0 false ≡ some n
    → signed s ≡ some (pos n)
unfolding signed
signed_digits [] n h e = unfold scan in cc
signed_digits (c ∷ s) n h e = ground (arith, e, h.0.0, h.0.1)

scan-format : (n : ℕ) → scan (format n) 0 false ≡ some n
unfolding format
scan-format n =
    ap (λ t. scan t 0 false) (sym (append-nil (digits n n)))
    ∙ scan-digits n n [] false (omega arith)
    ∙ (unfold scan in refl)

-- Reading a printed number gives the number.
pub int-format : (n : ℕ) → int (format n) ≡ ok (pos n)
unfolding int
int-format n = rw (strip_id (format n) (IsSolid-IsStripped _ (format-IsSolid n))) (
    ap or_value_error
      (signed_digits (format n) n (unfold format in digits-IsDigits n n) (scan-format n)))

int_tests :
    (int (codes " 42 ") ≡ ok (pos 42))
    × (int (codes "-1_0") ≡ ok (neg (pos 10)))
    × (int (codes "1__0") ≡ err value_error)
    × (int (codes "") ≡ err value_error)
    × (format 907 ≡ codes "907")
unfolding int format strip is_space
int_tests = (refl, refl, refl, refl, refl)
