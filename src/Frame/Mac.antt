-- ===== src/Frame/Mac.antt =====
-- MAC addresses as text: `bytes.fromhex(mac.replace(":", ""))` of
-- src/core/helpers/frame_creator.py and `':'.join(f'{b:02x}' for b in …)` of
-- src/core/helpers/frame_decoder.py.
use link_chat.Prelude.{
  ℕ, ◌+◌, ◌-◌, ◌*◌, ◌/◌, ◌%◌, ◌≤◌, ◌<◌, ◌≡◌, refl, ◌≢◌, ◌&&◌, ◌||◌, [], ◌∷◌, ◌++◌, arith, ltb, leb,
  ◌==◌, if◌then◌else◌, length, value_error, Result, ok, err, ◌>>=◌,
}
use link_chat.Text.{Text, Bytes, AreBytes}

unfoldable pub remove_colons : Text → Text
remove_colons [] = []
remove_colons (c ∷ s) = let rest = remove_colons s in if c == b':' then rest else c ∷ rest

unfoldable pub hex_digit : ℕ → Result ℕ
hex_digit c =
    if leb b'0' c && leb c b'9'
    then ok (c - b'0')
    else if leb b'a' c && leb c b'f'
    then ok (c - b'a' + 10)
    else if leb b'A' c && leb c b'F'
    then ok (c - b'A' + 10)
    else err value_error

-- `bytes.fromhex`, which passes over white space between two bytes.
unfoldable pub from_hex : Text → Result Bytes
unfolding hex_digit
from_hex [] = ok []
from_hex (a ∷ []) = if (leb 9 a && leb a 13) || a == 32 then ok [] else err value_error
from_hex (a ∷ b ∷ s) =
    let skipped = from_hex (b ∷ s) in
    let rest = from_hex s in
    if (leb 9 a && leb a 13) || a == 32
    then skipped
    else do x ← hex_digit a; y ← hex_digit b; r ← rest; ok ((x * 16 + y) ∷ r)

unfoldable pub hex_char : ℕ → ℕ
hex_char n = if ltb n 10 then b'0' + n else b'a' + (n - 10)

-- `f'{b:02x}'`
unfoldable pub hex_byte : ℕ → Text
unfolding hex_char
hex_byte b = hex_char (b / 16) ∷ hex_char (b % 16) ∷ []

unfoldable pub mac_text : Bytes → Text
unfolding hex_byte
mac_text [] = []
mac_text (b ∷ []) = hex_byte b
mac_text (b ∷ c ∷ bs) = hex_byte b ++ b':' ∷ mac_text (c ∷ bs)

-- The address bytes of a text, or the `ValueError`.
unfoldable pub mac_bytes : Text → Result Bytes
unfolding remove_colons from_hex
mac_bytes m = from_hex (remove_colons m)

-- A text in the form in which the program writes addresses.
pub record IsMac (m : Text) : Type 0 where
  pub bytes : Bytes
  pub in_range : AreBytes bytes
  pub six : length bytes ≡ 6
  pub written : m ≡ mac_text bytes

plain_hex : Bytes → Text
unfolding hex_byte
plain_hex [] = []
plain_hex (b ∷ bs) = hex_byte b ++ plain_hex bs

hex_char-lt : (n : ℕ) → n < 16 → hex_digit (hex_char n) ≡ ok n
unfolding hex_digit hex_char
hex_char-lt n h = ground arith

hex_char_range : (n : ℕ) → n < 16 → (48 ≤ hex_char n) × (hex_char n ≢ 58)
unfolding hex_char
hex_char_range n h = ground arith

remove_mac : (bs : Bytes) → AreBytes bs → remove_colons (mac_text bs) ≡ plain_hex bs
unfolding plain_hex remove_colons mac_text
remove_mac [] h = refl
remove_mac (b ∷ []) h = ground (arith, hex_char_range (b / 16), hex_char_range (b % 16))
remove_mac (b ∷ c ∷ bs) h =
    ground (arith, hex_char_range (b / 16), hex_char_range (b % 16), remove_mac (c ∷ bs) h.1)

from_plain : (bs : Bytes) → AreBytes bs → from_hex (plain_hex bs) ≡ ok bs
unfolding from_hex plain_hex
from_plain [] h = refl
from_plain (b ∷ bs) h =
    ground (
      arith,
      hex_char_range (b / 16),
      hex_char-lt (b / 16),
      hex_char-lt (b % 16),
      from_plain bs h.1,
    )

pub mac_bytes-mac_text : (bs : Bytes) → AreBytes bs → mac_bytes (mac_text bs) ≡ ok bs
unfolding mac_bytes
mac_bytes-mac_text bs h = rw (remove_mac bs h) (from_plain bs h)
