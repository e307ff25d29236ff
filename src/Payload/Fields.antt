-- ===== src/Payload/Fields.antt =====
-- Pairs that can stand in the lines of a payload, and what their reader makes of them.
use link_chat.Prelude.{
  ℕ, ◌≤◌, ◌<◌, ◌≡◌, ap, ◌∙◌, inl, Bool, true, false, ◌&&◌, not, List, [], ◌∷◌, ◌++◌, arith, leb,
  ◌==◌, All, All-append, ok,
}
use link_chat.Text.{Text, is_break, is_space}
use link_chat.Text.Utf8.{decode, decode-encode, IsScalar}
use link_chat.Text.Lines.{IsOneLine, HasNoEq}
use link_chat.Text.Strip.{IsSolid, IsSolid-IsStripped, IsStripped}
use link_chat.Text.Decimal.{format, format-AreDigits, format-IsSolid}
use link_chat.Payload.{kv_line, kv_text, kv_bytes, parse_payload}
use link_chat.Payload.RoundTrip.{
  IsClean, of_pairs, lines_text, lines_text_one, lines_text_cons, kv_text_lines, kv_bytes-encode,
  parse_payload-kv_text,
}

-- A pair of a header: clean, and made of scalar values.
pub record IsField (p : Text × Text) : Type 0 where
  pub clean : IsClean p
  pub scalars : All IsScalar (kv_line p)

-- A text that can be a value.
pub record IsWord (s : Text) : Type 0 where
  pub line : IsOneLine s
  pub stripped : IsStripped s
  pub chars : All IsScalar s

-- A text that can be a key.
pub record IsKey (s : Text) : Type 0 where
  pub word : IsWord s
  pub plain : HasNoEq s

pub key-IsField : (k v : Text) → IsKey k → IsWord v → IsField (k, v)
unfolding kv_line
key-IsField k v hk hv = record {
  clean = record {
    key_line = hk.word.line;
    value_line = hv.line;
    key_stripped = hk.word.stripped;
    value_stripped = hv.stripped;
    key_plain = hk.plain;
  };
  scalars = All-append IsScalar k (b'=' ∷ v) hk.word.chars (inl (omega arith), hv.chars);
}

-- Printable characters of ASCII but for the blank and `=`.
abbrev is_plain_char : ℕ → Bool
is_plain_char c = leb 33 c && leb c 126 && not (c == b'=')

abbrev is_plain : Text → Bool
is_plain [] = true
is_plain (c ∷ s) = is_plain_char c && is_plain s

record ArePlain (s : Text) : Type 0 where
  one_line : IsOneLine s
  solid : IsSolid s
  chars : All IsScalar s
  plain : HasNoEq s

plain_char :
    (c : ℕ)
    → is_plain_char c ≡ true
    → (is_break c ≡ false) × (is_space c ≡ false) × (c < 0xd800) × ((c == b'=') ≡ false)
unfolding is_break is_space
plain_char c h = ground (arith, h)

is_plain-ArePlain : (s : Text) → is_plain s ≡ true → ArePlain s
is_plain-ArePlain [] h = record { one_line = tt; solid = tt; chars = tt; plain = tt }
is_plain-ArePlain (c ∷ s) h =
    let f = plain_char c (ground (arith, h)) in
    let r = is_plain-ArePlain s (ground (arith, h)) in
    record {
      one_line = (f.0, r.one_line);
      solid = (f.1, r.solid);
      chars = (inl f.2, r.chars);
      plain = (f.3, r.plain);
    }

-- The program's own keys are decided by evaluation.
pub is_plain-IsKey : (s : Text) → is_plain s ≡ true → IsKey s
is_plain-IsKey s h =
    let p = is_plain-ArePlain s h in
    record {
      word = record { line = p.one_line; stripped = IsSolid-IsStripped s p.solid; chars = p.chars };
      plain = p.plain;
    }

AreDigits : Text → Type 0
AreDigits = All (λ c. (b'0' ≤ c) × (c ≤ b'9'))

digits-IsOneLine : (s : Text) → AreDigits s → IsOneLine s
unfolding is_break AreDigits
digits-IsOneLine [] h = tt
digits-IsOneLine (c ∷ s) h = (ground (arith, h.0.0, h.0.1), digits-IsOneLine s h.1)

digits_scalars : (s : Text) → AreDigits s → All IsScalar s
unfolding AreDigits
digits_scalars [] h = tt
digits_scalars (c ∷ s) h = (inl (omega (arith, h.0.0, h.0.1)), digits_scalars s h.1)

number_digits : (n : ℕ) → AreDigits (format n)
unfolding AreDigits
number_digits n = format-AreDigits n

-- A printed number is a value,
pub format-IsWord : (n : ℕ) → IsWord (format n)
format-IsWord n = record {
  line = digits-IsOneLine (format n) (number_digits n);
  stripped = IsSolid-IsStripped (format n) (format-IsSolid n);
  chars = digits_scalars (format n) (number_digits n);
}

-- and so is the value of a field.
pub field-IsWord : (k v : Text) → IsField (k, v) → IsWord v
unfolding kv_line
field-IsWord k v h = record {
  line = h.clean.value_line;
  stripped = h.clean.value_stripped;
  chars = (All-drop_head k (b'=' ∷ v) h.scalars).1;
}
  where
    All-drop_head : (s t : Text) → All IsScalar (s ++ t) → All IsScalar t
    All-drop_head [] t a = a
    All-drop_head (c ∷ s) t a = All-drop_head s t a.1

pub lines_scalars :
    (p : Text × Text) (kvs : List (Text × Text))
    → All IsField (p ∷ kvs)
    → All IsScalar (lines_text (p ∷ kvs))
lines_scalars p [] h = rw (lines_text_one p) h.0.scalars
lines_scalars p (q ∷ kvs) h = rw (lines_text_cons p q kvs) (
    All-append IsScalar (kv_line p) (10 ∷ lines_text (q ∷ kvs)) h.0.scalars
      (inl (omega arith), lines_scalars q kvs h.1))

fields-IsClean : (kvs : List (Text × Text)) → All IsField kvs → All IsClean kvs
fields-IsClean [] h = tt
fields-IsClean (p ∷ kvs) h = (h.0.clean, fields-IsClean kvs h.1)

-- The bytes of the lines decode to their text,
pub decode-kv_bytes :
    (p : Text × Text) (kvs : List (Text × Text))
    → All IsField (p ∷ kvs)
    → decode (kv_bytes (p ∷ kvs)) ≡ ok (kv_text (p ∷ kvs))
decode-kv_bytes p kvs h =
    ap decode (kv_bytes-encode (p ∷ kvs)) ∙ decode-encode (kv_text (p ∷ kvs)) scalars
  where
    scalars : All IsScalar (kv_text (p ∷ kvs))
    scalars = rw (kv_text_lines (p ∷ kvs)) (
        All-append IsScalar (lines_text (p ∷ kvs)) (10 ∷ []) (lines_scalars p kvs h)
          (inl (omega arith), tt))

-- and the text parses to the dictionary of the pairs.
pub parse_payload-fields :
    (p : Text × Text) (kvs : List (Text × Text))
    → All IsField (p ∷ kvs)
    → parse_payload (kv_text (p ∷ kvs)) ≡ of_pairs (p ∷ kvs) []
parse_payload-fields p kvs h = parse_payload-kv_text p kvs (fields-IsClean (p ∷ kvs) h)
