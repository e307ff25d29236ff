-- ===== src/Text/Utf8.antt =====
-- `str.encode("utf-8")` and the strict `bytes.decode("utf-8")`.
use mathlib.Core.List.{append_assoc}
use link_chat.Prelude.{
  ◌>>=◌, length-append, length, sym, ◌∙◌, ap, ◌≢◌, ℕ, ◌+◌, ◌-◌, ◌*◌, ◌/◌, ◌%◌, ◌<◌, ◌≤◌, ◌≡◌, refl,
  ◌⊎◌, inl, inr, [], ◌∷◌, ◌++◌, ◌&&◌, ◌||◌, arith, ltb, leb, if◌then◌else◌, Result, ok, err,
  unicode_error, All, All-append, Bool-cases,
}
use link_chat.Text.{Text, Bytes, IsByte, AreBytes}

-- A code point that is no surrogate.
abbrev pub IsScalar : ℕ → Type 0
IsScalar c = (c < 0xd800) ⊎ ((0xe000 ≤ c) × (c < 0x110000))

encode_char : ℕ → Bytes
encode_char c =
    if ltb c 0x80
    then c ∷ []
    else if ltb c 0x800
    then (0xc0 + c / 64) ∷ (0x80 + c % 64) ∷ []
    else if ltb c 0x10000
    then (0xe0 + c / 4096) ∷ (0x80 + c / 64 % 64) ∷ (0x80 + c % 64) ∷ []
    else (0xf0 + c / 262144) ∷ (0x80 + c / 4096 % 64) ∷ (0x80 + c / 64 % 64) ∷ (0x80 + c % 64) ∷ []

unfoldable pub encode : Text → Bytes
unfolding encode_char
encode [] = []
encode (c ∷ s) = encode_char c ++ encode s

-- What the decoder waits for: nothing, or some continuation bytes of a character whose value must
-- reach `floor`.
pub data Pending : Type 0 where
  start : Pending
  more : ℕ → ℕ → ℕ → Pending

pub data Fed : Type 0 where
  bad : Fed
  emit : ℕ → Fed
  wait : Pending → Fed

finish : ℕ → ℕ → Fed
finish c floor =
    if ltb c floor || (leb 0xd800 c && ltb c 0xe000) || leb 0x110000 c then bad else emit c

feed : Pending → ℕ → Fed
unfolding finish
feed start b =
    if ltb b 0x80
    then emit b
    else if ltb b 0xc0
    then bad
    else if ltb b 0xe0
    then wait (more 1 (b - 0xc0) 0x80)
    else if ltb b 0xf0
    then wait (more 2 (b - 0xe0) 0x800)
    else if ltb b 0xf8
    then wait (more 3 (b - 0xf0) 0x10000)
    else bad
feed (more n c floor) b =
    if ltb b 0x80 || leb 0xc0 b
    then bad
    else if leb n 1
    then finish (c * 64 + (b - 0x80)) floor
    else wait (more (n - 1) (c * 64 + (b - 0x80)) floor)

cons_ok : ℕ → Result Text → Result Text
cons_ok c r = do s ← r; ok (c ∷ s)

decode_from : Pending → Bytes → Result Text
decode_from start [] = ok []
decode_from (more n c floor) [] = err unicode_error
decode_from p (b ∷ bs) = elim (feed p b) [
  | bad ↦ err unicode_error
  | emit c ↦ cons_ok c (decode_from start bs)
  | wait q ↦ decode_from q bs
]

unfoldable pub decode : Bytes → Result Text
unfolding decode_from feed cons_ok
decode = decode_from start

decode_char :
    (c : ℕ) (bs : Bytes)
    → IsScalar c
    → decode_from start (encode_char c ++ bs) ≡ cons_ok c (decode_from start bs)
unfolding decode_from encode_char feed
decode_char c bs h = elim (Bool-cases (ltb c 0x80)) [
  | inl one ↦ ground arith
  | inr _ ↦ elim (Bool-cases (ltb c 0x800)) [
    | inl two ↦ ground arith
    | inr _ ↦ elim (Bool-cases (ltb c 0x10000)) [ inl three ↦ ground arith | inr _ ↦ ground arith ]
  ]
]

pub decode-encode : (s : Text) → All IsScalar s → decode (encode s) ≡ ok s
unfolding decode encode
decode-encode [] h = refl
decode-encode (c ∷ s) h = rw (decode_char c (encode s) h.0, decode-encode s h.1)

encode_char_bytes : (c : ℕ) → IsScalar c → AreBytes (encode_char c)
unfolding encode_char
encode_char_bytes c h = ground arith

pub encode-AreBytes : (s : Text) → All IsScalar s → AreBytes (encode s)
unfolding encode
encode-AreBytes [] h = tt
encode-AreBytes (c ∷ s) h =
    All-append IsByte (encode_char c) (encode s) (encode_char_bytes c h.0) (encode-AreBytes s h.1)

pub encode-append : (s t : Text) → encode (s ++ t) ≡ encode s ++ encode t
unfolding encode
encode-append [] t = refl
encode-append (c ∷ s) t =
    ap (λ u. encode_char c ++ u) (encode-append s t)
    ∙ sym (append_assoc (encode_char c) (encode s) (encode t))

pub encode_nil : encode [] ≡ []
unfolding encode
encode_nil = refl

-- A line feed is a byte of its own,
pub encode_feed : (t : Text) → encode (10 ∷ t) ≡ 10 ∷ encode t
unfolding encode
encode_feed t = refl

encode_char_feed : (c : ℕ) → IsScalar c → c ≢ 10 → All (λ b. b ≢ 10) (encode_char c)
unfolding encode_char
encode_char_feed c h n = ground arith

-- and no part of another character.
pub encode_no_feed :
    (s : Text) → All IsScalar s → All (λ c. c ≢ 10) s → All (λ b. b ≢ 10) (encode s)
unfolding encode
encode_no_feed [] h n = tt
encode_no_feed (c ∷ s) h n =
    All-append _ (encode_char c) (encode s) (encode_char_feed c h.0 n.0) (encode_no_feed s h.1 n.1)

encode_char_some : (c : ℕ) → 1 ≤ length (encode_char c)
unfolding encode_char
encode_char_some c = ground arith

pub encode_some : (c : ℕ) (s : Text) → 1 ≤ length (encode (c ∷ s))
unfolding encode
encode_some c s = omega (arith, length-append (encode_char c) (encode s), encode_char_some c)
