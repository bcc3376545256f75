-- ===== src/BitUtil.antt =====
-- src/bit_util.c: big-endian words and single bits in a buffer. A pointer argument is a memory
-- with an offset into it. `htobe32` and its like are the C library's: the most significant byte
-- stands first.
pub mod Endian
pub mod Bits
use bsfs.Base.{
  ℕ, ◌+◌, ◌-◌, ◌*◌, ◌/◌, ◌%◌, ◌^◌, Bool, true, not, bit_and, bit_xor, Bytes, store, bit, ◌==◌,
}

unfoldable pub read_be32 : Bytes → ℕ → ℕ
read_be32 buf off =
    buf off * 2 ^ 24 + buf (off + 1) * 2 ^ 16 + buf (off + 2) * 2 ^ 8 + buf (off + 3)

-- The argument is converted to `uint32_t`.
unfoldable pub write_be32 : Bytes → ℕ → ℕ → Bytes
write_be32 buf off v =
    store
      (store (store (store buf off (v / 2 ^ 24 % 2 ^ 8)) (off + 1) (v / 2 ^ 16 % 2 ^ 8)) (off + 2)
        (v / 2 ^ 8 % 2 ^ 8))
      (off + 3) (v % 2 ^ 8)

unfoldable pub read_be64 : Bytes → ℕ → ℕ
read_be64 buf off =
    buf off * 2 ^ 56
    + buf (off + 1) * 2 ^ 48
    + buf (off + 2) * 2 ^ 40
    + buf (off + 3) * 2 ^ 32
    + buf (off + 4) * 2 ^ 24
    + buf (off + 5) * 2 ^ 16
    + buf (off + 6) * 2 ^ 8
    + buf (off + 7)

unfoldable pub write_be64 : Bytes → ℕ → ℕ → Bytes
write_be64 buf off v =
    let b₀ = store buf off (v / 2 ^ 56 % 2 ^ 8) in
    let b₁ = store b₀ (off + 1) (v / 2 ^ 48 % 2 ^ 8) in
    let b₂ = store b₁ (off + 2) (v / 2 ^ 40 % 2 ^ 8) in
    let b₃ = store b₂ (off + 3) (v / 2 ^ 32 % 2 ^ 8) in
    let b₄ = store b₃ (off + 4) (v / 2 ^ 24 % 2 ^ 8) in
    let b₅ = store b₄ (off + 5) (v / 2 ^ 16 % 2 ^ 8) in
    let b₆ = store b₅ (off + 6) (v / 2 ^ 8 % 2 ^ 8) in store b₆ (off + 7) (v % 2 ^ 8)

abbrev pub byte_from_bit : ℕ → ℕ
byte_from_bit i = i / 8

abbrev pub bit_rem_from_bit : ℕ → ℕ
bit_rem_from_bit i = 8 - 1 - i % 8

-- `(byte >> rem) & 1`
unfoldable pub bit_of : ℕ → ℕ → Bool
bit_of byte rem = not (bit_and (byte / 2 ^ rem) 1 == 0)

-- `byte ^ ((-(uint8_t) val ^ byte) & (1 << rem))`: the flag is negated as an `int`, which gives 0
-- or 32 ones, and the result is cut to a byte when it is stored.
unfoldable pub with_bit : ℕ → ℕ → Bool → ℕ
with_bit byte rem val =
    bit_xor byte (bit_and (bit_xor ((2 ^ 32 - bit val) % 2 ^ 32) byte) (2 ^ rem)) % 2 ^ 8

unfoldable pub get_bit : Bytes → ℕ → Bool
unfolding bit_of
get_bit buf i = bit_of (buf (byte_from_bit i)) (bit_rem_from_bit i)

unfoldable pub set_bit : Bytes → ℕ → Bool → Bytes
unfolding with_bit
set_bit buf i val =
    store buf (byte_from_bit i) (with_bit (buf (byte_from_bit i)) (bit_rem_from_bit i) val)

unfoldable pub round_to_bytes : ℕ → ℕ
round_to_bytes bits = (bits + 8 - 1) % 2 ^ 64 / 8
