-- ===== src/Server/Setup/Keys.antt =====
-- A key that is written in hexadecimal digits.
use link_chat.Text.Strip.{IsSolid-IsStripped, strip_id, strip, IsSolid}
use link_chat.Transfer.Paths.{starts_with}
use link_chat.Prelude.{
  ok, ◌++◌, ◌==◌, ◌≢◌, ap, refl, ◌∙◌, length, ◌*◌, ℕ, ◌+◌, ◌-◌, ◌/◌, ◌%◌, ◌<◌, ◌≡◌, true, false,
  ◌&&◌, ◌||◌, some, [], ◌∷◌, arith, ltb, leb, if◌then◌else◌,
}
use native.Mathlib.Nat.{div-add-mod'}
use link_chat.Text.{codes, AreBytes, lower, lower_char, Text, Bytes, is_space}
use link_chat.Server.Setup.{
  or_encoded, read_psk, psk_bytes, all_hex, from_hex, is_ascii_space, hex_value,
}

-- `k.hex()`
abbrev pub hex_digit : ℕ → ℕ
hex_digit n = if ltb n 10 then b'0' + n else b'a' + (n - 10)

unfoldable pub hex : Bytes → Text
hex [] = []
hex (b ∷ bs) = hex_digit (b / 16) ∷ hex_digit (b % 16) ∷ hex bs

record IsDigit (n c : ℕ) : Type 0 where
  value : hex_value c ≡ some n
  plain : ((leb b'0' c && leb c b'9') || (leb b'a' c && leb c b'f')) ≡ true
  solid : is_space c ≡ false

hex_digit-IsDigit : (n : ℕ) → n < 16 → IsDigit n (hex_digit n)
unfolding hex_value is_space
hex_digit-IsDigit n h = record {
  value = ground (arith, h);
  plain = ground (arith, h);
  solid = ground (arith, h);
}

high : (b : ℕ) → b < 256 → b / 16 < 16
high b h = omega (arith, div-add-mod' b 16)

low : (b : ℕ) → b % 16 < 16
low b = omega arith

lower_digit : (n : ℕ) → n < 16 → lower_char (hex_digit n) ≡ hex_digit n
unfolding lower_char
lower_digit n h = ground (arith, h)

lower-hex : (k : Bytes) → AreBytes k → lower (hex k) ≡ hex k
unfolding lower hex
lower-hex [] h = refl
lower-hex (b ∷ bs) h =
    rw (lower_digit (b / 16) (high b h.0), lower_digit (b % 16) (low b), lower-hex bs h.1) refl

hex-IsSolid : (k : Bytes) → AreBytes k → IsSolid (hex k)
unfolding hex
hex-IsSolid [] h = tt
hex-IsSolid (b ∷ bs) h = (
  (hex_digit-IsDigit (b / 16) (high b h.0)).solid,
  ((hex_digit-IsDigit (b % 16) (low b)).solid, hex-IsSolid bs h.1),
)

all_hex-hex : (k : Bytes) → AreBytes k → all_hex (hex k) ≡ true
unfolding all_hex hex
all_hex-hex [] h = refl
all_hex-hex (b ∷ bs) h =
    rw
      (
        (hex_digit-IsDigit (b / 16) (high b h.0)).plain,
        (hex_digit-IsDigit (b % 16) (low b)).plain,
        all_hex-hex bs h.1,
      )
      refl

length-hex : (k : Bytes) → length (hex k) ≡ length k * 2
unfolding hex
length-hex [] = refl
length-hex (b ∷ bs) = omega (arith, length-hex bs)

digit_no_space : (c : ℕ) → is_space c ≡ false → is_ascii_space c ≡ false
unfolding is_space
digit_no_space c h = ground (arith, h)

whole_byte : (b : ℕ) → b / 16 * 16 + b % 16 ≡ b
whole_byte b = div-add-mod' b 16

from_hex-step :
    (c d : ℕ) (s : Text) (m n : ℕ) (bs : Bytes)
    → IsDigit m c
    → IsDigit n d
    → from_hex s ≡ some bs
    → from_hex (c ∷ d ∷ s) ≡ some ((m * 16 + n) ∷ bs)
unfolding from_hex
from_hex-step c d s m n bs p q e = rw (digit_no_space c p.solid, p.value, q.value, e) refl

from_hex-hex : (k : Bytes) → AreBytes k → from_hex (hex k) ≡ some k
unfolding hex
from_hex-hex [] h = unfold from_hex in refl
from_hex-hex (b ∷ bs) h =
    from_hex-step (hex_digit (b / 16)) (hex_digit (b % 16)) (hex bs) (b / 16) (b % 16) bs
      (hex_digit-IsDigit (b / 16) (high b h.0)) (hex_digit-IsDigit (b % 16) (low b))
      (from_hex-hex bs h.1)
    ∙ ap (λ x. some (x ∷ bs)) (whole_byte b)

no_prefix : (k : Bytes) → AreBytes k → starts_with (hex k) (codes "0x") ≡ false
unfolding starts_with hex
no_prefix [] h = refl
no_prefix (b ∷ bs) h = ground (arith, (hex_digit-IsDigit (b % 16) (low b)).plain)

even : (n : ℕ) → (n * 2 % 2 == 0) ≡ true
even n = ground arith

clean-hex : (k : Bytes) → AreBytes k → lower (strip (hex k)) ≡ hex k
clean-hex k h =
    ap lower (strip_id (hex k) (IsSolid-IsStripped (hex k) (hex-IsSolid k h))) ∙ lower-hex k h

psk_bytes-hex : (k : Bytes) → AreBytes k → psk_bytes (hex k) ≡ k
unfolding psk_bytes
psk_bytes-hex k h =
    rw
      (
        clean-hex k h,
        no_prefix k h,
        all_hex-hex k h,
        length-hex k,
        even (length k),
        from_hex-hex k h,
      )
      refl

-- The same with the prefix.
with_prefix-IsSolid : (k : Bytes) → AreBytes k → IsSolid (codes "0x" ++ hex k)
unfolding is_space
with_prefix-IsSolid k h = (refl, (refl, hex-IsSolid k h))

lower_prefix : (s : Text) → lower (codes "0x" ++ s) ≡ codes "0x" ++ lower s
unfolding lower lower_char
lower_prefix s = refl

prefixed : (s : Text) → starts_with (codes "0x" ++ s) (codes "0x") ≡ true
unfolding starts_with
prefixed [] = refl
prefixed (c ∷ s) = refl

clean_prefix : (k : Bytes) → AreBytes k → lower (strip (codes "0x" ++ hex k)) ≡ codes "0x" ++ hex k
clean_prefix k h =
    ap lower (
      strip_id (codes "0x" ++ hex k)
        (IsSolid-IsStripped (codes "0x" ++ hex k) (with_prefix-IsSolid k h)))
    ∙ lower_prefix (hex k)
    ∙ ap (λ s. codes "0x" ++ s) (lower-hex k h)

psk_bytes_prefix : (k : Bytes) → AreBytes k → psk_bytes (codes "0x" ++ hex k) ≡ k
unfolding psk_bytes
psk_bytes_prefix k h =
    rw (clean_prefix k h, prefixed (hex k))
      (ap (or_encoded (codes "0x" ++ hex k)) (from_hex-hex k h))

read_psk-some : (psk : Text) → psk ≢ [] → read_psk (some psk) ≡ ok (psk_bytes psk)
unfolding read_psk
read_psk-some [] h = absurd (h refl)
read_psk-some (c ∷ s) h = refl

hex_not_nil : (k : Bytes) → k ≢ [] → hex k ≢ []
unfolding hex
hex_not_nil [] h e = h refl
hex_not_nil (b ∷ bs) h e = cc e

-- A key of bytes that is not empty is read back from its hexadecimal digits in PSK, with the prefix
-- `0x` and without it.
pub read_psk-hex :
    (k : Bytes)
    → AreBytes k
    → k ≢ []
    → (read_psk (some (hex k)) ≡ ok k) × (read_psk (some (codes "0x" ++ hex k)) ≡ ok k)
read_psk-hex k h n = (
  read_psk-some (hex k) (hex_not_nil k n) ∙ ap ok (psk_bytes-hex k h),
  read_psk-some (codes "0x" ++ hex k) (λ e. cc e) ∙ ap ok (psk_bytes_prefix k h),
)
