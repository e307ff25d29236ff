-- ===== src/Payload/RoundTrip.antt =====
-- What a payload's lines say is read back.
use mathlib.Core.List.{append_assoc}
use link_chat.Prelude.{
  ℕ, ◌≡◌, refl, sym, ap, ◌∙◌, subst, false, List, [], ◌∷◌, ◌++◌, map, arith, All, All-append,
}
use link_chat.Dict.{Dict, put}
use link_chat.Text.{Text, is_break}
use link_chat.Text.Equality.{text_key}
use link_chat.Text.Utf8.{encode}
use link_chat.Text.Strip.{strip_id, IsStripped}
use link_chat.Text.Lines.{
  splitlines, IsOneLine, HasNoEq, splitlines-line, splitlines_one, splitlines_nil, split_eq_pair,
}
use link_chat.Payload.{
  kv_line, kv_text, kv_bytes, join_lines, parse_line, parse_lines, parse_payload,
}

-- A pair that a line can carry: both parts without line breaks and white space at the ends, and
-- no `=` in the key.
pub record IsClean (p : Text × Text) : Type 0 where
  pub key_line : IsOneLine p.0
  pub value_line : IsOneLine p.1
  pub key_stripped : IsStripped p.0
  pub value_stripped : IsStripped p.1
  pub key_plain : HasNoEq p.0

-- `dict(pairs)` on top of `out`
unfoldable pub of_pairs : List (Text × Text) → Dict Text Text → Dict Text Text
of_pairs [] out = out
of_pairs ((k, v) ∷ kvs) out = of_pairs kvs (put k v out)

pub kv_line-IsOneLine : (p : Text × Text) → IsClean p → IsOneLine (kv_line p)
unfolding kv_line
kv_line-IsOneLine (k, v) h = All-append _ k (b'=' ∷ v) h.key_line (eq_no_break, h.value_line)
  where
    eq_no_break : is_break b'=' ≡ false
    eq_no_break = unfold is_break in refl

parse_line-kv_line :
    (p : Text × Text) (out : Dict Text Text)
    → IsClean p
    → parse_line (kv_line p) out ≡ put p.0 p.1 out
unfolding parse_line kv_line
parse_line-kv_line (k, v) out h =
    ground
      (arith, split_eq_pair k v h.key_plain, strip_id k h.key_stripped, strip_id v h.value_stripped)

pub kv_line_cons : (p : Text × Text) → (c : ℕ) × (s : Text) × (kv_line p ≡ c ∷ s)
unfolding kv_line
kv_line_cons ([], v) = (b'=', v, refl)
kv_line_cons (c ∷ k, v) = (c, k ++ b'=' ∷ v, refl)

parse_lines_step :
    (p : Text × Text) (rest : List Text) (out : Dict Text Text)
    → IsClean p
    → parse_lines (kv_line p ∷ rest) out ≡ parse_lines rest (put p.0 p.1 out)
unfolding parse_lines
parse_lines_step p rest out h =
    let (c, s, e) = kv_line_cons p in
    ap (λ l. parse_lines (l ∷ rest) out) e
    ∙ ap (λ l. parse_lines rest (parse_line l out)) (sym e)
    ∙ ap (parse_lines rest) (parse_line-kv_line p out h)

-- The text with its last line feed, one line at a time.
kv_text_cons :
    (p q : Text × Text) (kvs : List (Text × Text))
    → kv_text (p ∷ q ∷ kvs) ≡ kv_line p ++ 10 ∷ kv_text (q ∷ kvs)
unfolding kv_text join_lines
kv_text_cons p q kvs = append_assoc (kv_line p) _ _

kv_text_one : (p : Text × Text) → kv_text (p ∷ []) ≡ kv_line p ++ 10 ∷ []
unfolding kv_text join_lines
kv_text_one p = refl

parse_lines_nil : (out : Dict Text Text) → parse_lines [] out ≡ out
unfolding parse_lines
parse_lines_nil out = refl

parse_kv_text :
    (p : Text × Text) (kvs : List (Text × Text)) (out : Dict Text Text)
    → All IsClean (p ∷ kvs)
    → parse_lines (splitlines (kv_text (p ∷ kvs))) out ≡ of_pairs (p ∷ kvs) out
unfolding of_pairs
parse_kv_text p [] out h =
    ap (λ t. parse_lines (splitlines t) out) (kv_text_one p)
    ∙ ap (λ ls. parse_lines ls out) (splitlines-line (kv_line p) [] (kv_line-IsOneLine p h.0))
    ∙ ap (λ ls. parse_lines (kv_line p ∷ ls) out) splitlines_nil
    ∙ parse_lines_step p [] out h.0
    ∙ parse_lines_nil (put p.0 p.1 out)
parse_kv_text p (q ∷ kvs) out h =
    ap (λ t. parse_lines (splitlines t) out) (kv_text_cons p q kvs)
    ∙ ap (λ ls. parse_lines ls out)
        (splitlines-line (kv_line p) (kv_text (q ∷ kvs)) (kv_line-IsOneLine p h.0))
    ∙ parse_lines_step p (splitlines (kv_text (q ∷ kvs))) out h.0
    ∙ parse_kv_text q kvs (put p.0 p.1 out) h.1

-- Lines made from clean pairs parse to the dictionary of those pairs, the last value of a key
-- winning.
pub parse_payload-kv_text :
    (p : Text × Text) (kvs : List (Text × Text))
    → All IsClean (p ∷ kvs)
    → parse_payload (kv_text (p ∷ kvs)) ≡ of_pairs (p ∷ kvs) []
unfolding parse_payload
parse_payload-kv_text p kvs h = parse_kv_text p kvs [] h

-- The same text without its last line feed.
pub lines_text : List (Text × Text) → Text
lines_text kvs = join_lines (map kv_line kvs)

pub lines_text_cons :
    (p q : Text × Text) (kvs : List (Text × Text))
    → lines_text (p ∷ q ∷ kvs) ≡ kv_line p ++ 10 ∷ lines_text (q ∷ kvs)
unfolding lines_text join_lines
lines_text_cons p q kvs = refl

pub lines_text_one : (p : Text × Text) → lines_text (p ∷ []) ≡ kv_line p
unfolding lines_text join_lines
lines_text_one p = refl

splitlines-kv_line : (p : Text × Text) → IsClean p → splitlines (kv_line p) ≡ kv_line p ∷ []
splitlines-kv_line p h =
    let (c, s, e) = kv_line_cons p in
    ap splitlines e
    ∙ splitlines_one c s (subst IsOneLine e (kv_line-IsOneLine p h))
    ∙ ap (λ l. l ∷ []) (sym e)

parse_lines_text :
    (p : Text × Text) (kvs : List (Text × Text)) (out : Dict Text Text)
    → All IsClean (p ∷ kvs)
    → parse_lines (splitlines (lines_text (p ∷ kvs))) out ≡ of_pairs (p ∷ kvs) out
unfolding of_pairs
parse_lines_text p [] out h =
    ap (λ t. parse_lines (splitlines t) out) (lines_text_one p)
    ∙ ap (λ ls. parse_lines ls out) (splitlines-kv_line p h.0)
    ∙ parse_lines_step p [] out h.0
    ∙ parse_lines_nil (put p.0 p.1 out)
parse_lines_text p (q ∷ kvs) out h =
    ap (λ t. parse_lines (splitlines t) out) (lines_text_cons p q kvs)
    ∙ ap (λ ls. parse_lines ls out)
        (splitlines-line (kv_line p) (lines_text (q ∷ kvs)) (kv_line-IsOneLine p h.0))
    ∙ parse_lines_step p (splitlines (lines_text (q ∷ kvs))) out h.0
    ∙ parse_lines_text q kvs (put p.0 p.1 out) h.1

-- So do the lines that stand in front of a chunk.
pub parse_payload-lines_text :
    (p : Text × Text) (kvs : List (Text × Text))
    → All IsClean (p ∷ kvs)
    → parse_payload (lines_text (p ∷ kvs)) ≡ of_pairs (p ∷ kvs) []
unfolding parse_payload
parse_payload-lines_text p kvs h = parse_lines_text p kvs [] h

pub kv_text_lines : (kvs : List (Text × Text)) → kv_text kvs ≡ lines_text kvs ++ 10 ∷ []
unfolding kv_text lines_text
kv_text_lines kvs = refl

pub kv_bytes-encode : (kvs : List (Text × Text)) → kv_bytes kvs ≡ encode (kv_text kvs)
unfolding kv_bytes
kv_bytes-encode kvs = refl
