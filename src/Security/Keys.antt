-- ===== src/Security/Keys.antt =====
-- The parts of a sealed payload, and the keys that both sides derive.
use link_chat.Text.Equality.{text_eq}
use link_chat.Security.Streams.{keystream-total, hkdf-total}
use link_chat.Frame.{FrameSchema}
use link_chat.Prelude.{
  none, some, if◌then◌else◌, ok, ◌^◌, ℕ, suc, ◌+◌, ◌-◌, ◌≤◌, ◌≡◌, refl, sym, ap, ◌∙◌, [], ◌∷◌, ◌++◌,
  arith, length, take, drop, length-append, length-take, take-append, drop-append, drop-drop,
}
use link_chat.Prelude.Bits.{xor_cancel}
use link_chat.Text.{Bytes, AreBytes}
use link_chat.Security.{aad_for, keystream, hkdf_sha256, Hmac}
use link_chat.Security.Manager.{
  with_payload, mac_info, open_sealed, enc_info, seal, xor_bytes, tag_for, nonce_of, ciphertext_of,
  tag_of,
}

pub length-xor_bytes :
    (xs ys : Bytes) → length xs ≤ length ys → length (xor_bytes xs ys) ≡ length xs
unfolding xor_bytes
length-xor_bytes [] ys h = refl
length-xor_bytes (x ∷ xs) [] h = absurd (omega arith)
length-xor_bytes (x ∷ xs) (y ∷ ys) h = ap suc (length-xor_bytes xs ys (omega arith))

-- The cipher is its own inverse.
pub xor_bytes_twice :
    (xs ys : Bytes)
    → length xs ≤ length ys
    → AreBytes xs
    → AreBytes ys
    → xor_bytes (xor_bytes xs ys) ys ≡ xs
unfolding xor_bytes
xor_bytes_twice [] ys h bx by = refl
xor_bytes_twice (x ∷ xs) [] h bx by = absurd (omega arith)
xor_bytes_twice (x ∷ xs) (y ∷ ys) h bx by =
    cc (xor_cancel x y bx.0 by.0, xor_bytes_twice xs ys (omega arith) bx.1 by.1)

module _ (nonce c tag : Bytes) (ln : length nonce ≡ 12) (lt : length tag ≡ 16) where
  -- The payload of a sealed frame.
  abbrev pub body : Bytes
  body = 1 ∷ (nonce ++ (c ++ tag))

  pub length-body : length body ≡ 29 + length c
  length-body = omega (arith, length-append nonce (c ++ tag), length-append c tag, ln, lt)

  pub nonce_of-body : nonce_of body ≡ nonce
  nonce_of-body = take-append 12 nonce (c ++ tag) ln

  pub ciphertext_of-body : ciphertext_of body ≡ c
  ciphertext_of-body =
      ap (take (length body - 16 - 13)) (drop-append 12 nonce (c ++ tag) ln)
      ∙ ap (λ k. take k (c ++ tag)) short
      ∙ take-append (length c) c tag refl
    where
      short : length body - 16 - 13 ≡ length c
      short = omega (arith, length-body)

  pub tag_of-body : tag_of body ≡ tag
  tag_of-body =
      ap (λ k. drop k body) short
      ∙ sym (drop-drop 1 (12 + length c) body)
      ∙ sym (drop-drop 12 (length c) (nonce ++ (c ++ tag)))
      ∙ ap (drop (length c)) (drop-append 12 nonce (c ++ tag) ln)
      ∙ drop-append (length c) c tag refl
    where
      short : length body - 16 ≡ 1 + (12 + length c)
      short = omega (arith, length-body)

module _ (h : Hmac) (psk : Bytes) where
  pub length-tag_for : (k aad nonce c : Bytes) → length (tag_for h psk k aad nonce c) ≡ 16
  unfolding tag_for
  length-tag_for k aad nonce c = omega (
    arith,
    length-take 16 (h.digest k (aad ++ (nonce ++ c))),
    h.digest_len k (aad ++ (nonce ++ c)),
  )

  -- The keys and the key stream that both sides derive.
  pub record Keys (nonce : Bytes) (n : ℕ) : Type 0 where
    pub enc : Bytes
    pub mac : Bytes
    pub stream : Bytes
    pub enc_ok : hkdf_sha256 h psk nonce enc_info 32 ≡ ok enc
    pub mac_ok : hkdf_sha256 h psk nonce mac_info 32 ≡ ok mac
    pub stream_ok : keystream h enc nonce n ≡ ok stream
    pub stream_len : length stream ≡ n
    pub stream_bytes : AreBytes stream

  pub keys : (nonce : Bytes) (n : ℕ) → n ≤ 2 ^ 37 → Keys nonce n
  keys nonce n fits =
      let (e, e_ok, _) = hkdf-total h psk nonce enc_info 32 (omega arith) in
      let (m, m_ok, _) = hkdf-total h psk nonce mac_info 32 (omega arith) in
      let (s, s_ok, s_len, s_bytes) = keystream-total h e nonce n fits in
      record {
        enc = e;
        mac = m;
        stream = s;
        enc_ok = e_ok;
        mac_ok = m_ok;
        stream_ok = s_ok;
        stream_len = s_len;
        stream_bytes = s_bytes;
      }

  pub seal-keys :
      (nonce : Bytes) (f : FrameSchema) (k : Keys nonce (length f.payload))
      → let c = xor_bytes f.payload k.stream in
        seal h psk nonce f
        ≡ ok (with_payload f (1 ∷ (nonce ++ (c ++ tag_for h psk k.mac (aad_for f) nonce c))))
  seal-keys nonce f k = unfold seal in rw (k.enc_ok, k.mac_ok, k.stream_ok)

  pub open-keys :
      (nonce c : Bytes) (g : FrameSchema) (k : Keys nonce (length c)) (tag : Bytes)
      → open_sealed h psk g nonce c tag ≡ (
          if text_eq tag (tag_for h psk k.mac (aad_for g) nonce c)
          then ok (some (with_payload g (xor_bytes c k.stream)))
          else ok none)
  open-keys nonce c g k tag = unfold open_sealed in rw (k.enc_ok, k.mac_ok, k.stream_ok)
