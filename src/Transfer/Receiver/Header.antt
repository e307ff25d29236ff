-- ===== src/Transfer/Receiver/Header.antt =====
-- The lines in front of a chunk, as `_on_data` reads them.
use link_chat.Payload.Fields.{IsField}
use link_chat.Payload.{kv_bytes, kv_line}
use link_chat.Text.Utf8.{
  encode_nil, encode_some, encode_feed, encode-append, encode_no_feed, encode,
}
use link_chat.Payload.RoundTrip.{
  kv_text_lines, kv_bytes-encode, lines_text_cons, kv_line-IsOneLine, lines_text_one, kv_line_cons,
  lines_text,
}
use link_chat.Text.Lines.{IsOneLine}
use mathlib.Core.List.{append-nil}
use link_chat.Prelude.{
  length, ◌≤◌, ◌∙◌, subst, ap, List, ◌≡◌, refl, ◌≢◌, Bool, true, ◌&&◌, not, some, [], ◌∷◌, ◌++◌,
  arith, ◌==◌, All,
}
use link_chat.Text.{is_break, Text, Bytes}
use link_chat.Transfer.Receiver.Data.{split_blank}

-- No blank line inside, and no line feed at the end.
has_no_blank : Bytes → Bool
has_no_blank [] = true
has_no_blank (a ∷ []) = not (a == 10)
has_no_blank (a ∷ b ∷ s) = let rest = has_no_blank (b ∷ s) in not (a == 10 && b == 10) && rest

split_blank-append :
    (head chunk : Bytes)
    → has_no_blank head ≡ true
    → split_blank (head ++ 10 ∷ 10 ∷ chunk) ≡ some (head, chunk)
unfolding split_blank has_no_blank
split_blank-append [] chunk h = refl
split_blank-append (a ∷ []) chunk h = ground arith
split_blank-append (a ∷ b ∷ s) chunk h = ground (arith, split_blank-append (b ∷ s) chunk)

abbrev NoFeed : Bytes → Type 0
NoFeed = All (λ b. b ≢ 10)

-- Some bytes, the first of them no line feed.
abbrev Opens : Bytes → Type 0
Opens [] = ⊥
Opens (b ∷ bs) = b ≢ 10

has_no_blank_one : (bs : Bytes) → NoFeed bs → has_no_blank bs ≡ true
unfolding has_no_blank
has_no_blank_one [] h = refl
has_no_blank_one (a ∷ []) h = ground (arith, h.0)
has_no_blank_one (a ∷ b ∷ s) h = ground (arith, h.0, has_no_blank_one (b ∷ s) h.1)

has_no_blank_line :
    (bs rest : Bytes)
    → NoFeed bs
    → Opens rest
    → has_no_blank rest ≡ true
    → has_no_blank (bs ++ 10 ∷ rest) ≡ true
unfolding has_no_blank
has_no_blank_line [] [] h o e = absurd o
has_no_blank_line [] (r ∷ rest) h o e = ground (arith, o, e)
has_no_blank_line (a ∷ []) rest h o e = ground (arith, h.0, has_no_blank_line [] rest tt o e)
has_no_blank_line (a ∷ b ∷ s) rest h o e =
    ground (arith, h.0, has_no_blank_line (b ∷ s) rest h.1 o e)

Opens-append : (cs rest : Bytes) → 1 ≤ length cs → NoFeed cs → Opens (cs ++ rest)
Opens-append [] rest e h = absurd (omega arith)
Opens-append (c ∷ cs) rest e h = h.0

feedless : (s : Text) → IsOneLine s → All (λ c. c ≢ 10) s
unfolding is_break
feedless [] h = tt
feedless (c ∷ s) h = (ground (arith, h.0), feedless s h.1)

line_feedless : (p : Text × Text) → IsField p → NoFeed (encode (kv_line p))
line_feedless p h =
    encode_no_feed (kv_line p) h.scalars (feedless (kv_line p) (kv_line-IsOneLine p h.clean))

line-Opens : (p : Text × Text) (rest : Bytes) → IsField p → Opens (encode (kv_line p) ++ rest)
line-Opens p rest h =
    let (c, s, e) = kv_line_cons p in
    Opens-append (encode (kv_line p)) rest (rw e (encode_some c s)) (line_feedless p h)

record Solid (bs : Bytes) : Type 0 where
  opens : Opens bs
  no_blank : has_no_blank bs ≡ true

encode_lines_cons :
    (p q : Text × Text) (kvs : List (Text × Text))
    → encode (lines_text (p ∷ q ∷ kvs)) ≡ encode (kv_line p) ++ 10 ∷ encode (lines_text (q ∷ kvs))
encode_lines_cons p q kvs =
    ap encode (lines_text_cons p q kvs)
    ∙ encode-append (kv_line p) (10 ∷ lines_text (q ∷ kvs))
    ∙ ap (λ bs. encode (kv_line p) ++ bs) (encode_feed (lines_text (q ∷ kvs)))

lines-Solid :
    (p : Text × Text) (kvs : List (Text × Text))
    → All IsField (p ∷ kvs)
    → Solid (encode (lines_text (p ∷ kvs)))
lines-Solid p [] h = rw (lines_text_one p) (record {
  opens = subst Opens (append-nil (encode (kv_line p))) (line-Opens p [] h.0);
  no_blank = has_no_blank_one (encode (kv_line p)) (line_feedless p h.0);
})
lines-Solid p (q ∷ kvs) h =
    let rest = lines-Solid q kvs h.1 in
    rw (encode_lines_cons p q kvs) (record {
      opens = line-Opens p (10 ∷ encode (lines_text (q ∷ kvs))) h.0;
      no_blank =
          has_no_blank_line (encode (kv_line p)) (encode (lines_text (q ∷ kvs)))
            (line_feedless p h.0) rest.opens rest.no_blank;
    })

two_feeds : (head chunk : Bytes) → ((head ++ 10 ∷ []) ++ 10 ∷ []) ++ chunk ≡ head ++ 10 ∷ 10 ∷ chunk
two_feeds [] chunk = refl
two_feeds (b ∷ bs) chunk = ap (λ t. b ∷ t) (two_feeds bs chunk)

-- When the lines of a header are made of clean pairs of scalar values, at least one, then the
-- header with a blank line after it and any data behind come apart into the header's bytes,
-- without their last line feed, and the data, also where these have blank lines of their own.
pub split_blank-kv_bytes :
    (p : Text × Text) (kvs : List (Text × Text)) (chunk : Bytes)
    → All IsField (p ∷ kvs)
    → split_blank ((kv_bytes (p ∷ kvs) ++ 10 ∷ []) ++ chunk)
      ≡ some (encode (lines_text (p ∷ kvs)), chunk)
split_blank-kv_bytes p kvs chunk h =
    ap (λ bs. split_blank ((bs ++ 10 ∷ []) ++ chunk)) bytes
    ∙ ap split_blank (two_feeds (encode (lines_text (p ∷ kvs))) chunk)
    ∙ split_blank-append (encode (lines_text (p ∷ kvs))) chunk (lines-Solid p kvs h).no_blank
  where
    bytes : kv_bytes (p ∷ kvs) ≡ encode (lines_text (p ∷ kvs)) ++ 10 ∷ []
    bytes =
        kv_bytes-encode (p ∷ kvs)
        ∙ ap encode (kv_text_lines (p ∷ kvs))
        ∙ encode-append (lines_text (p ∷ kvs)) (10 ∷ [])
        ∙ ap (λ bs. encode (lines_text (p ∷ kvs)) ++ bs)
            (encode_feed [] ∙ ap (λ bs. 10 ∷ bs) encode_nil)
