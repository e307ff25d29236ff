-- ===== src/Frame/Struct.antt =====
-- What the program uses of `struct`: the big-endian fields `H`, `I` and `6s` of the formats in
-- src/core/enums/formats.py.
use mathlib.Core.List.{append_assoc}
use link_chat.Prelude.{
  ℕ, ◌+◌, ◌*◌, ◌/◌, ◌%◌, ◌^◌, ◌<◌, ◌≡◌, [], ◌∷◌, ◌++◌, arith, ltb, if◌then◌else◌, lt→ltb, length,
  take, drop, replicate, take-append, drop-append, struct_error, Result, ok, err, ◌>>=◌, ◌>>◌,
}
use link_chat.Text.{Bytes}

unfoldable pub u16_bytes : ℕ → Bytes
u16_bytes n = (n / 256) ∷ (n % 256) ∷ []

unfoldable pub u32_bytes : ℕ → Bytes
u32_bytes n = (n / 16777216) ∷ (n / 65536 % 256) ∷ (n / 256 % 256) ∷ (n % 256) ∷ []

unfoldable pub pack_u16 : ℕ → Result Bytes
unfolding u16_bytes
pack_u16 n = if ltb n (2 ^ 16) then ok (u16_bytes n) else err struct_error

unfoldable pub pack_u32 : ℕ → Result Bytes
unfolding u32_bytes
pack_u32 n = if ltb n (2 ^ 32) then ok (u32_bytes n) else err struct_error

-- `6s` cuts a longer argument off and pads a shorter one with zeros.
unfoldable pub pack_6s : Bytes → Bytes
pack_6s bs = take 6 (bs ++ replicate 6 0)

unfoldable pub read_u16 : Bytes → Result (ℕ × Bytes)
read_u16 (a ∷ b ∷ r) = ok (a * 256 + b, r)
read_u16 r = err struct_error

unfoldable pub read_u32 : Bytes → Result (ℕ × Bytes)
read_u32 (a ∷ b ∷ c ∷ d ∷ r) = ok (((a * 256 + b) * 256 + c) * 256 + d, r)
read_u32 r = err struct_error

-- `unpack` wants exactly as many bytes as the format has.
unfoldable pub at_end : Bytes → Result (Unit {0})
at_end [] = ok tt
at_end (b ∷ r) = err struct_error

-- `struct.unpack("!HIII", bs)`
unfoldable pub unpack_header : Bytes → Result (ℕ × ℕ × ℕ × ℕ)
unfolding read_u16 read_u32 at_end
unpack_header bs = do
  (t, r) ← read_u16 bs
  (s, r₁) ← read_u32 r
  (l, r₂) ← read_u32 r₁
  (c, r₃) ← read_u32 r₂
  at_end r₃
  ok (t, s, l, c)

unfoldable pub ether_fields : Bytes → Bytes → Bytes → Result (Bytes × Bytes × ℕ)
unfolding read_u16 at_end
ether_fields d s t = do (e, r) ← read_u16 t; at_end r; ok (d, s, e)

-- `struct.unpack("!6s6sH", bs)`
unfoldable pub unpack_ether : Bytes → Result (Bytes × Bytes × ℕ)
unpack_ether bs = ether_fields (take 6 bs) (take 6 (drop 6 bs)) (drop 6 (drop 6 bs))

-- `struct.pack("!HII", t, s, l)`
unfoldable pub pack_hii : ℕ → ℕ → ℕ → Result Bytes
unfolding pack_u16 pack_u32
pack_hii t s l = do a ← pack_u16 t; b ← pack_u32 s; c ← pack_u32 l; ok (a ++ b ++ c)

-- `struct.pack("!HIII", t, s, l, c)`
unfoldable pub pack_hiii : ℕ → ℕ → ℕ → ℕ → Result Bytes
unfolding pack_u16 pack_u32
pack_hiii t s l c = do
  w ← pack_u16 t
  x ← pack_u32 s
  y ← pack_u32 l
  z ← pack_u32 c
  ok (w ++ x ++ y ++ z)

pub pack_hii-ok :
    (t s l : ℕ)
    → t < 2 ^ 16
    → s < 2 ^ 32
    → l < 2 ^ 32
    → pack_hii t s l ≡ ok (u16_bytes t ++ u32_bytes s ++ u32_bytes l)
unfolding pack_hii
pack_hii-ok t s l ht hs hl = rw (lt→ltb t _ ht, lt→ltb s _ hs, lt→ltb l _ hl)

pub pack_hiii-ok :
    (t s l c : ℕ)
    → t < 2 ^ 16
    → s < 2 ^ 32
    → l < 2 ^ 32
    → c < 2 ^ 32
    → pack_hiii t s l c ≡ ok (u16_bytes t ++ u32_bytes s ++ u32_bytes l ++ u32_bytes c)
unfolding pack_hiii
pack_hiii-ok t s l c ht hs hl hc = rw (lt→ltb t _ ht, lt→ltb s _ hs, lt→ltb l _ hl, lt→ltb c _ hc)

pub unpack_header-pack :
    (t s l c : ℕ)
    → unpack_header (u16_bytes t ++ u32_bytes s ++ u32_bytes l ++ u32_bytes c) ≡ ok (t, s, l, c)
unfolding unpack_header u16_bytes u32_bytes
unpack_header-pack t s l c = ground arith

ether_fields-u16 : (d s : Bytes) (e : ℕ) → ether_fields d s (u16_bytes e) ≡ ok (d, s, e)
unfolding ether_fields u16_bytes
ether_fields-u16 d s e = ground arith

pub unpack_ether-pack :
    (d s : Bytes) (e : ℕ)
    → length d ≡ 6
    → length s ≡ 6
    → unpack_ether (d ++ s ++ u16_bytes e) ≡ ok (d, s, e)
unfolding unpack_ether
unpack_ether-pack d s e hd hs =
    rw
      (
        append_assoc,
        take-append 6 d (s ++ u16_bytes e) hd,
        drop-append 6 d (s ++ u16_bytes e) hd,
        take-append 6 s (u16_bytes e) hs,
        drop-append 6 s (u16_bytes e) hs,
      )
      (ether_fields-u16 d s e)

pub pack_6s_id : (bs : Bytes) → length bs ≡ 6 → pack_6s bs ≡ bs
unfolding pack_6s
pack_6s_id bs h = take-append 6 bs (replicate 6 0) h
