-- ===== src/Text.antt =====
-- Python's `str` and `bytes` as lists of numbers, and what the program uses of their methods.
-- A `str` is a list of code points and `bytes` is a list of numbers below 256.
pub mod Equality
pub mod Utf8
pub mod Strip
pub mod Lines
pub mod Decimal
use Prim.Native.Char.{code}
use Prim.Native.String.{String}
use link_chat.Prelude.{ℕ, List, [], ◌∷◌, ◌<◌, Bool, ◌||◌, ◌&&◌, leb, ◌==◌, All, true, false, ◌+◌}

abbrev pub Text : Type 0
Text = List ℕ

abbrev pub Bytes : Type 0
Bytes = List ℕ

abbrev pub IsByte : ℕ → Type 0
IsByte b = b < 256

abbrev pub AreBytes : Bytes → Type 0
AreBytes = All IsByte

-- The code points of a literal.
abbrev pub codes : String → Text
codes String.[] = []
codes (String.◌∷◌ c s) = code c ∷ codes s

-- `str.isspace` of one character: what `strip` takes off.
unfoldable pub is_space : ℕ → Bool
is_space c =
    (leb 9 c && leb c 13)
    || (leb 28 c && leb c 32)
    || c == 133
    || c == 160
    || c == 5760
    || (leb 8192 c && leb c 8202)
    || c == 8232
    || c == 8233
    || c == 8239
    || c == 8287
    || c == 12288

-- The characters at which `splitlines` ends a line.
unfoldable pub is_break : ℕ → Bool
is_break c = (leb 10 c && leb c 13) || (leb 28 c && leb c 30) || c == 133 || c == 8232 || c == 8233

-- `str.lower` on ASCII. No other character lowers to a hexadecimal digit.
unfoldable pub lower_char : ℕ → ℕ
lower_char c = elim (leb b'A' c && leb c b'Z') [ true ↦ c + 32 | false ↦ c ]

unfoldable pub lower : Text → Text
unfolding lower_char
lower [] = []
lower (c ∷ s) = lower_char c ∷ lower s
