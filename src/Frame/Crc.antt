-- ===== src/Frame/Crc.antt =====
-- `zlib.crc32`, one bit at a time.
use link_chat.Prelude.{ℕ, zero, suc, ◌/◌, ◌%◌, bit_xor, ◌≡◌, refl, true, false, [], ◌∷◌, ◌==◌}
use link_chat.Text.{Bytes, codes}

abbrev crc_bit : ℕ → ℕ
crc_bit c = elim (c % 2 == 1) [ true ↦ bit_xor (c / 2) 0xedb88320 | false ↦ c / 2 ]

crc_bits : ℕ → ℕ → ℕ
crc_bits zero c = c
crc_bits (suc n) c = crc_bits n (crc_bit c)

crc_byte : ℕ → ℕ → ℕ
unfolding crc_bits
crc_byte c b = crc_bits 8 (bit_xor c b)

crc_from : ℕ → Bytes → ℕ
unfolding crc_byte
crc_from c [] = c
crc_from c (b ∷ bs) = crc_from (crc_byte c b) bs

pub crc32 : Bytes → ℕ
unfolding crc_from
crc32 bs = bit_xor (crc_from 0xffff_ffff bs) 0xffff_ffff

-- The check value of the algorithm.
crc32_check : crc32 (codes "123456789") ≡ 0xcbf43926
unfolding crc32
crc32_check = refl
