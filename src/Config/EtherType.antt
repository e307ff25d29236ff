-- ===== src/Config/EtherType.antt =====
-- The number of the EtherType in src/prepare/network_config.py: `int(s, 0)`, which takes the prefixes
-- 0x, 0o and 0b, and no leading zeros otherwise. The decimal digits outside ASCII, which `int` takes
-- too, count as no digits.
use link_chat.Prelude.{
  true, [], false, ◌&&◌, ◌+◌, ◌||◌, leb, ltb, ◌*◌, ◌-◌, ◌==◌, Bool, if◌then◌else◌, ◌∷◌, ℕ, Option,
  none, some, Result, ok, err, value_error,
}
use link_chat.Prelude.Int.{ℤ, pos, neg}
use link_chat.Text.{Text, codes}
use link_chat.Text.Strip.{strip}

abbrev pub between : ℕ → ℕ → ℕ → Bool
between a b c = leb a c && leb c b

abbrev pub digit_value : ℕ → Option ℕ
digit_value c =
    if between b'0' b'9' c
    then some (c - b'0')
    else if between b'a' b'z' c
    then some (c - b'a' + 10)
    else if between b'A' b'Z' c
    then some (c - b'A' + 10)
    else none

abbrev pub digit_in : ℕ → ℕ → Option ℕ
digit_in base c = elim (digit_value c) [
  | none ↦ none
  | some d ↦ if ltb d base then some d else none
]

-- The flag says that the character before was a digit.
unfoldable pub scan_base : ℕ → Text → ℕ → Bool → Option ℕ
scan_base base [] n true = some n
scan_base base [] n false = none
scan_base base (c ∷ s) n after_digit = elim (digit_in base c) [
  | some d ↦ scan_base base s (n * base + d) true
  | none ↦ elim (c == b'_' && after_digit) [ true ↦ scan_base base s n false | false ↦ none ]
]

-- One underscore may follow a prefix.
abbrev pub skip_underscore : Text → Text
skip_underscore [] = []
skip_underscore (c ∷ s) = if c == b'_' then s else c ∷ s

abbrev pub only_zero : Option ℕ → Option ℕ
only_zero none = none
only_zero (some n) = if n == 0 then some 0 else none

-- What follows a zero.
unfoldable pub after_zero : Text → Option ℕ
unfolding scan_base
after_zero [] = some 0
after_zero (c ∷ s) =
    if c == b'x' || c == b'X'
    then scan_base 16 (skip_underscore s) 0 false
    else if c == b'o' || c == b'O'
    then scan_base 8 (skip_underscore s) 0 false
    else if c == b'b' || c == b'B'
    then scan_base 2 (skip_underscore s) 0 false
    else only_zero (scan_base 10 (c ∷ s) 0 true)

unfoldable pub unsigned : Text → Option ℕ
unfolding after_zero scan_base
unsigned [] = none
unsigned (c ∷ s) = if c == b'0' then after_zero s else scan_base 10 (c ∷ s) 0 false

abbrev pub negated : Option ℕ → Option ℤ
negated none = none
negated (some n) = some (neg (pos n))

abbrev pub positive : Option ℕ → Option ℤ
positive none = none
positive (some n) = some (pos n)

abbrev pub with_sign : Text → Option ℤ
unfolding unsigned
with_sign [] = none
with_sign (c ∷ s) =
    if c == b'-'
    then negated (unsigned s)
    else if c == b'+'
    then positive (unsigned s)
    else positive (unsigned (c ∷ s))

unfoldable pub parse_ethertype : Text → Result ℤ
unfolding unsigned
parse_ethertype val = elim (with_sign (strip val)) [ none ↦ err value_error | some n ↦ ok n ]

abbrev pub default_ether_type : Text
default_ether_type = codes "0x88B5"

-- The variable ETHER_TYPE, if it is set.
unfoldable pub get_ether_type : Option Text → Result ℤ
unfolding parse_ethertype
get_ether_type none = parse_ethertype default_ether_type
get_ether_type (some val) = parse_ethertype val
