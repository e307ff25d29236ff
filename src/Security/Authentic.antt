-- ===== src/Security/Authentic.antt =====
-- Only frames that a holder of the key can have sealed are accepted.
use link_chat.Prelude.{
  ℕ, suc, ◌+◌, ◌-◌, ◌^◌, ◌≤◌, ◌≡◌, refl, sym, ap, ◌∙◌, inl, inr, true, false, Option, none, some,
  [], ◌∷◌, ◌++◌, arith, ltb, if◌then◌else◌, Bool-cases, length, take, drop, length-take,
  length-drop, take-append-drop, drop-drop, All-take, All-drop, Result, ok,
}
use link_chat.Text.{Bytes, AreBytes, IsByte}
use link_chat.Text.Equality.{text_eq, text_eq_sound}
use link_chat.Frame.{FrameSchema}
use link_chat.Security.{Hmac, aad_for}
use link_chat.Security.Seal.{keys_for_cipher}
use link_chat.Security.Keys.{Keys, keys, seal-keys, open-keys, xor_bytes_twice}
use link_chat.Security.Manager.{
  should_protect, xor_bytes, with_payload, tag_for, seal, protect_outgoing, nonce_of, ciphertext_of,
  tag_of, has_version, open_sealed, accept_incoming,
}

-- A payload that is long enough is its version, its nonce, its cipher text and its tag.
split_body :
    (d : Bytes)
    → ltb (length d) 29 ≡ false
    → has_version d ≡ true
    → d ≡ 1 ∷ (nonce_of d ++ (ciphertext_of d ++ tag_of d))
split_body [] l v = cc
split_body (b ∷ d) l v =
    ap (λ t. t ∷ d) one
    ∙ ap (◌∷◌ 1) (
        sym (take-append-drop 12 d)
        ∙ ap (◌++◌ (take 12 d))
            (sym (take-append-drop m (drop 12 d)) ∙ ap (◌++◌ (take m (drop 12 d))) rest))
  where
    one : b ≡ 1
    one = ground arith

    m : ℕ
    m = length (b ∷ d) - 16 - 13

    whole : 12 + m ≡ length d - 16
    whole = ground arith

    last : suc (length d - 16) ≡ length (b ∷ d) - 16
    last = ground arith

    rest : drop m (drop 12 d) ≡ drop (length (b ∷ d) - 16) (b ∷ d)
    rest = drop-drop 12 m d ∙ ap (λ k. drop k d) whole ∙ ap (λ k. drop k (b ∷ d)) last

module _ (h : Hmac) (psk : Bytes) where
  -- An accepted frame of a protected type has passed all the tests.
  record Passed (g k : FrameSchema) : Type 0 where
    long : ltb (length g.payload) 29 ≡ false
    versioned : has_version g.payload ≡ true
    opened :
        open_sealed h psk g (nonce_of g.payload) (ciphertext_of g.payload) (tag_of g.payload)
        ≡ ok (some k)

  passed :
      (g k : FrameSchema)
      → should_protect g.header.message_type ≡ true
      → accept_incoming h psk g ≡ ok (some k)
      → Passed g k
  unfolding accept_incoming
  passed g k p e = record {
    long = ground (arith, p, e);
    versioned = ground (arith, p, e);
    opened = ground (arith, p, e);
  }

  aad-with_payload : (f : FrameSchema) (d : Bytes) → aad_for (with_payload f d) ≡ aad_for f
  aad-with_payload f d = unfold aad_for in refl

  opened_parts :
      (tag t : Bytes) (w k : FrameSchema)
      → ◌≡◌ {A = Result (Option FrameSchema)}
          (if text_eq tag t then ok (some w) else ok none)
          (ok (some k))
      → (tag ≡ t) × (k ≡ w)
  opened_parts tag t w k e = elim (Bool-cases (text_eq tag t)) [
    | inl same ↦ (text_eq_sound tag t same, ground (arith, same, e))
    | inr other ↦ absurd (ground (arith, other, e))
  ]

  module _ (g k : FrameSchema) (nonce c tag : Bytes) (kk : Keys h psk nonce (length c)) where
    -- What opens to `k` is what `k` seals to.
    reseal_parts :
        AreBytes c
        → open_sealed h psk g nonce c tag ≡ ok (some k)
        → seal h psk nonce k ≡ ok (with_payload g (1 ∷ (nonce ++ (c ++ tag))))
    reseal_parts bytes e =
        let s = kk.stream in
        let w = with_payload g (xor_bytes c s) in
        let (tag_eq, k_eq) =
          opened_parts tag (tag_for h psk kk.mac (aad_for g) nonce c) w k
            (sym (open-keys h psk nonce c g kk tag) ∙ e) in
        ap (seal h psk nonce) k_eq
        ∙ seal-keys h psk nonce w (keys_for_cipher h psk nonce c kk)
        ∙ ap
            (λ d.
              ok (with_payload g (1 ∷ (nonce ++ (d ++ tag_for h psk kk.mac (aad_for w) nonce d)))))
            (xor_bytes_twice c s (omega arith) bytes kk.stream_bytes)
        ∙ ap (λ a. ok (with_payload g (1 ∷ (nonce ++ (c ++ tag_for h psk kk.mac a nonce c)))))
            (aad-with_payload g (xor_bytes c s))
        ∙ ap (λ t. ok (with_payload g (1 ∷ (nonce ++ (c ++ t))))) (sym tag_eq)

  same_type :
      (g k : FrameSchema) (nonce c tag : Bytes) (kk : Keys h psk nonce (length c))
      → open_sealed h psk g nonce c tag ≡ ok (some k)
      → k.header.message_type ≡ g.header.message_type
  same_type g k nonce c tag kk e =
      ap (λ f. f.header.message_type)
        (opened_parts tag (tag_for h psk kk.mac (aad_for g) nonce c) _ k
          (sym (open-keys h psk nonce c g kk tag) ∙ e)).1

  protect-seal :
      (nonce : Bytes) (f : FrameSchema)
      → should_protect f.header.message_type ≡ true
      → protect_outgoing h psk nonce f ≡ seal h psk nonce f
  protect-seal nonce f p = unfold protect_outgoing in rw p

  -- A frame of a protected type is accepted only if it is, but for its checksum and length fields,
  -- the frame that the nonce in it seals the accepted frame to: without the key nothing passes
  -- but what `protect_outgoing` can make. The payload is made of bytes, at most 2 ^ 37 of them.
  pub accepted-protected :
      (g k : FrameSchema)
      → should_protect g.header.message_type ≡ true
      → AreBytes g.payload
      → length g.payload ≤ 2 ^ 37
      → accept_incoming h psk g ≡ ok (some k)
      → protect_outgoing h psk (nonce_of g.payload) k ≡ ok (with_payload g g.payload)
  accepted-protected g k p bytes fits e =
      let d = g.payload in
      let t = passed g k p e in
      let kk = keys h psk (nonce_of d) (length (ciphertext_of d)) (short d fits) in
      let cb =
        All-take IsByte _ (drop 12 (drop 1 d))
          (All-drop IsByte 12 (drop 1 d) (All-drop IsByte 1 d bytes)) in
      let q = same_type g k (nonce_of d) (ciphertext_of d) (tag_of d) kk t.opened in
      protect-seal (nonce_of d) k (ap should_protect q ∙ p)
      ∙ reseal_parts g k (nonce_of d) (ciphertext_of d) (tag_of d) kk cb t.opened
      ∙ ap (λ x. ok (with_payload g x)) (sym (split_body d t.long t.versioned))
    where
      short : (d : Bytes) → length d ≤ 2 ^ 37 → length (ciphertext_of d) ≤ 2 ^ 37
      short d h = omega (
        arith,
        length-take (length d - 16 - 13) (drop 12 (drop 1 d)),
        length-drop 12 (drop 1 d),
        length-drop 1 d,
      )
