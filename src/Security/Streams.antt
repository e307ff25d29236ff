-- ===== src/Security/Streams.antt =====
-- The loops of the security handler end with as many bytes as they were asked for.
use link_chat.Prelude.{
  ℕ, zero, suc, ◌+◌, ◌-◌, ◌*◌, ◌^◌, ◌≤◌, ◌<◌, ◌≡◌, refl, ◌∙◌, inl, inr, true, false, [], ◌∷◌, ◌++◌,
  arith, ltb, Bool-cases, length, take, length-append, length-take, All-append, All-take, ok,
}
use link_chat.Text.{Bytes, AreBytes, IsByte}
use link_chat.Frame.Struct.{pack_u32, u32_bytes}
use link_chat.Security.{
  Hmac, one_byte, keystream_loop, keystream, expand_loop, hkdf_expand, hkdf_sha256, salt,
}

module _ (h : Hmac) where
  keystream_round :
      (fuel : ℕ) (k nonce : Bytes) (n counter : ℕ) (out : Bytes)
      → ltb (length out) n ≡ true
      → counter < 2 ^ 32
      → keystream_loop h (suc fuel) k nonce n counter out
        ≡ keystream_loop h fuel k nonce n
            (counter + 1)
            (out ++ h.digest k (nonce ++ u32_bytes counter))
  unfolding keystream_loop pack_u32
  keystream_round fuel k nonce n counter out more fits = ground arith

  keystream_end :
      (fuel : ℕ) (k nonce : Bytes) (n counter : ℕ) (out : Bytes)
      → ltb (length out) n ≡ false
      → keystream_loop h (suc fuel) k nonce n counter out ≡ ok out
  unfolding keystream_loop
  keystream_end fuel k nonce n counter out done = ground arith

  longer : (out : Bytes) (k m : Bytes) → length (out ++ h.digest k m) ≡ length out + 32
  longer out k m = omega (arith, length-append out (h.digest k m), h.digest_len k m)

  -- The loop ends by its test, with only bytes in the stream.
  pub keystream_loop-total :
      (fuel : ℕ) (k nonce : Bytes) (n counter : ℕ) (out : Bytes)
      → n ≤ length out + fuel
      → n ≤ length out + 32 * (2 ^ 32 - counter)
      → AreBytes out
      → (ks : Bytes) × (keystream_loop h fuel k nonce n counter out ≡ ok ks)
        × (n ≤ length ks)
        × AreBytes ks
  keystream_loop-total zero k nonce n counter out enough fits bytes =
      (out, unfold keystream_loop in refl, omega arith, bytes)
  keystream_loop-total (suc fuel) k nonce n counter out enough fits bytes =
      elim (Bool-cases (ltb (length out) n)) [
        | inl more ↦
            let block = h.digest k (nonce ++ u32_bytes counter) in
            let len = longer out k (nonce ++ u32_bytes counter) in
            let (ks, e, l, b) =
              keystream_loop-total fuel k nonce n (counter + 1) (out ++ block) (omega (arith, len))
                (ground (arith, len))
                (All-append IsByte out block bytes
                  (h.digest_bytes k (nonce ++ u32_bytes counter))) in
            (ks, keystream_round fuel k nonce n counter out more (ground arith) ∙ e, l, b)
        | inr done ↦ (out, keystream_end fuel k nonce n counter out done, ground arith, bytes)
      ]

  -- Up to 2 ^ 37 bytes there is a key stream of exactly the length asked for.
  pub keystream-total :
      (k nonce : Bytes) (n : ℕ)
      → n ≤ 2 ^ 37
      → (ks : Bytes) × (keystream h k nonce n ≡ ok ks) × (length ks ≡ n) × AreBytes ks
  unfolding keystream
  keystream-total k nonce n fits =
      let (out, e, l, b) = keystream_loop-total n k nonce n 0 [] (omega arith) (omega arith) tt in
      (take n out, rw e, omega (arith, length-take n out), All-take IsByte n out b)

  expand_round :
      (fuel : ℕ) (prk info : Bytes) (n counter : ℕ) (t out : Bytes)
      → ltb (length out) n ≡ true
      → counter < 256
      → expand_loop h (suc fuel) prk info n counter t out
        ≡ expand_loop h fuel prk info n
            (counter + 1)
            (h.digest prk (t ++ info ++ counter ∷ []))
            (out ++ h.digest prk (t ++ info ++ counter ∷ []))
  unfolding expand_loop one_byte
  expand_round fuel prk info n counter t out more fits = ground arith

  expand_end :
      (fuel : ℕ) (prk info : Bytes) (n counter : ℕ) (t out : Bytes)
      → ltb (length out) n ≡ false
      → expand_loop h (suc fuel) prk info n counter t out ≡ ok out
  unfolding expand_loop
  expand_end fuel prk info n counter t out done = ground arith

  expand_loop-total :
      (fuel : ℕ) (prk info : Bytes) (n counter : ℕ) (t out : Bytes)
      → n ≤ length out + fuel
      → n ≤ length out + 32 * (256 - counter)
      → (okm : Bytes) × (expand_loop h fuel prk info n counter t out ≡ ok okm) × (n ≤ length okm)
  expand_loop-total zero prk info n counter t out enough fits =
      (out, unfold expand_loop in refl, omega arith)
  expand_loop-total (suc fuel) prk info n counter t out enough fits =
      elim (Bool-cases (ltb (length out) n)) [
        | inl more ↦
            let m = t ++ info ++ counter ∷ [] in
            let len = longer out prk m in
            let (okm, e, l) =
              expand_loop-total fuel prk info n (counter + 1) (h.digest prk m)
                (out ++ h.digest prk m) (omega (arith, len)) (ground (arith, len)) in
            (okm, expand_round fuel prk info n counter t out more (ground arith) ∙ e, l)
        | inr done ↦ (out, expand_end fuel prk info n counter t out done, ground arith)
      ]

  expand-total :
      (prk info : Bytes) (n : ℕ)
      → n ≤ 8160
      → (key : Bytes) × (hkdf_expand h prk info n ≡ ok key) × (length key ≡ n)
  unfolding hkdf_expand
  expand-total prk info n fits =
      let (okm, e, l) = expand_loop-total n prk info n 1 [] [] (omega arith) (omega arith) in
      (take n okm, rw e, omega (arith, length-take n okm))

  -- Up to 255 blocks the derived key has exactly the length asked for.
  pub hkdf-total :
      (psk nonce info : Bytes) (n : ℕ)
      → n ≤ 8160
      → (key : Bytes) × (hkdf_sha256 h psk nonce info n ≡ ok key) × (length key ≡ n)
  unfolding hkdf_sha256
  hkdf-total psk nonce info n fits = expand-total (h.digest (salt nonce) psk) info n fits
