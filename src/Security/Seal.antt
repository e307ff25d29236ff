-- ===== src/Security/Seal.antt =====
-- What the security layer seals, the other side with the same key opens.
use link_chat.Text.Equality.{text_eq_refl}
use link_chat.Frame.{FrameSchema}
use link_chat.Prelude.{
  Bool-cases, false, ltb, true, some, if◌then◌else◌, ok, ◌^◌, ℕ, ◌≤◌, ◌≡◌, refl, sym, ap, ◌∙◌, ◌∷◌,
  ◌++◌, arith, length,
}
use link_chat.Text.{Bytes, AreBytes}
use link_chat.Security.{aad_for, keystream, Hmac}
use link_chat.Security.Manager.{
  protect_outgoing, accept_incoming, should_protect, with_payload, open_sealed, xor_bytes, tag_for,
}
use link_chat.Prelude.{inl, inr, Bool-cases}
use link_chat.Security.Keys.{
  body, length-body, nonce_of-body, ciphertext_of-body, tag_of-body, Keys, keys, seal-keys,
  open-keys, length-tag_for, length-xor_bytes, xor_bytes_twice,
}

module _ (h : Hmac) (psk : Bytes) where
  pub rechecked : FrameSchema → ℕ → FrameSchema
  rechecked f c = record f { header = record (f.header) { checksum = c } }

  pub rechecked_lem :
      (f : FrameSchema) (c : ℕ)
      → rechecked f c ≡ record f { header = record (f.header) { checksum = c } }
  unfolding rechecked
  rechecked_lem f c = refl

  -- What the receiving side makes of a protected frame: the payload is back, and its length. A
  -- discovery frame passes as it came.
  pub restored : FrameSchema → ℕ → FrameSchema
  unfolding rechecked
  restored f c =
      if should_protect f.header.message_type then with_payload f f.payload else rechecked f c

  aad-rechecked :
      (f : FrameSchema) (d : Bytes) (c : ℕ) → aad_for (rechecked (with_payload f d) c) ≡ aad_for f
  aad-rechecked f d c = unfold aad_for rechecked in refl

  -- The cipher text is as long as the payload, so both sides use one stream.
  abbrev pub keys_for_cipher :
      (nonce d : Bytes) (k : Keys h psk nonce (length d))
      → Keys h psk nonce (length (xor_bytes d k.stream))
  keys_for_cipher nonce d k =
      let same : length (xor_bytes d k.stream) ≡ length d =
        length-xor_bytes d k.stream (omega arith) in
      record {
        enc = k.enc;
        mac = k.mac;
        stream = k.stream;
        enc_ok = k.enc_ok;
        mac_ok = k.mac_ok;
        stream_bytes = k.stream_bytes;
        stream_ok = ap (keystream h k.enc nonce) same ∙ k.stream_ok;
        stream_len = k.stream_len ∙ sym same;
      }

  open-seal :
      (nonce : Bytes) (f : FrameSchema) (checksum : ℕ)
      → length nonce ≡ 12
      → AreBytes f.payload
      → (k : Keys h psk nonce (length f.payload))
      → let c = xor_bytes f.payload k.stream in
        let tag = tag_for h psk k.mac (aad_for f) nonce c in
        open_sealed h psk
          (rechecked (with_payload f (1 ∷ (nonce ++ (c ++ tag)))) checksum)
          nonce
          c
          tag
        ≡ ok (some (with_payload f f.payload))
  unfolding rechecked
  open-seal nonce f checksum ln bytes k =
      let c = xor_bytes f.payload k.stream in
      let tag = tag_for h psk k.mac (aad_for f) nonce c in
      let g = rechecked (with_payload f (1 ∷ (nonce ++ (c ++ tag)))) checksum in
      open-keys h psk nonce c g (keys_for_cipher nonce f.payload k) tag
      ∙ rw (aad-rechecked f (1 ∷ (nonce ++ (c ++ tag))) checksum, text_eq_refl tag)
          (ap (λ d. ok (some (with_payload f d)))
            (xor_bytes_twice f.payload k.stream (omega arith) bytes k.stream_bytes))

  accept-body :
      (f : FrameSchema) (nonce c tag : Bytes) (checksum : ℕ)
      → length nonce ≡ 12
      → length tag ≡ 16
      → should_protect f.header.message_type ≡ true
      → let g = rechecked (with_payload f (1 ∷ (nonce ++ (c ++ tag)))) checksum in
        accept_incoming h psk g ≡ open_sealed h psk g nonce c tag
  unfolding accept_incoming rechecked
  accept-body f nonce c tag checksum ln lt p = rw (
    p,
    long_enough,
    nonce_of-body nonce c tag ln lt,
    ciphertext_of-body nonce c tag ln lt,
    tag_of-body nonce c tag ln lt,
  )
    where
      long_enough : ltb (length (body nonce c tag ln lt)) 29 ≡ false
      long_enough = ground (arith, length-body nonce c tag ln lt)

  -- A frame that is protected with any nonce of 12 bytes is accepted by the holder of the same key,
  -- whatever checksum its header gets on the way, and the payload comes back; discovery frames
  -- pass as they are. The payload is made of bytes, at most 2 ^ 37 of them.
  pub accept-protect :
      (nonce : Bytes) (f : FrameSchema) (checksum : ℕ)
      → length nonce ≡ 12
      → AreBytes f.payload
      → length f.payload ≤ 2 ^ 37
      → (g : FrameSchema) × (protect_outgoing h psk nonce f ≡ ok g)
        × (accept_incoming h psk (rechecked g checksum) ≡ ok (some (restored f checksum)))
  accept-protect nonce f checksum ln bytes fits =
      elim (Bool-cases (should_protect f.header.message_type)) [
        | inl p ↦
            let k = keys h psk nonce (length f.payload) fits in
            let c = xor_bytes f.payload k.stream in
            let tag = tag_for h psk k.mac (aad_for f) nonce c in
            (
              with_payload f (1 ∷ (nonce ++ (c ++ tag))),
              unfold protect_outgoing in rw p (seal-keys h psk nonce f k),
              accept-body f nonce c tag checksum ln (length-tag_for h psk k.mac (aad_for f) nonce c)
                    p
                  ∙ open-seal nonce f checksum ln bytes k
                  ∙ (unfold restored in rw p),
            )
        | inr p ↦ (f, unfold protect_outgoing in rw p, unfold accept_incoming restored in rw p)
      ]
