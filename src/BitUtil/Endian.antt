-- ===== src/BitUtil/Endian.antt =====
-- The big-endian words of src/bit_util.c: round trips, and what a write leaves alone.
use bsfs.Base.{ℕ, ◌+◌, ◌/◌, ◌%◌, ◌^◌, ◌<◌, ◌≡◌, arith, Bytes, IsBytes, in_range, true, false}
use bsfs.BitUtil.{read_be32, write_be32, read_be64, write_be64}

module _ (buf : Bytes) (off v : ℕ) where
  -- A word that is written and read back is the word cut to 32 bits.
  pub read_be32-write_be32 : read_be32 (write_be32 buf off v) off ≡ v % 2 ^ 32
  unfolding read_be32 write_be32
  read_be32-write_be32 = ground arith

  pub write_be32_outside : (a : ℕ) → in_range off 4 a ≡ false → write_be32 buf off v a ≡ buf a
  unfolding write_be32
  write_be32_outside a h = ground arith

  pub write_be32-IsBytes : IsBytes buf → IsBytes (write_be32 buf off v)
  unfolding write_be32
  write_be32-IsBytes h a = ground (arith, h a)

  write_be64_bytes :
      let b = write_be64 buf off v in
      (b off ≡ v / 2 ^ 56 % 2 ^ 8)
      × (b (off + 1) ≡ v / 2 ^ 48 % 2 ^ 8)
      × (b (off + 2) ≡ v / 2 ^ 40 % 2 ^ 8)
      × (b (off + 3) ≡ v / 2 ^ 32 % 2 ^ 8)
      × (b (off + 4) ≡ v / 2 ^ 24 % 2 ^ 8)
      × (b (off + 5) ≡ v / 2 ^ 16 % 2 ^ 8)
      × (b (off + 6) ≡ v / 2 ^ 8 % 2 ^ 8)
      × (b (off + 7) ≡ v % 2 ^ 8)
  unfolding write_be64
  write_be64_bytes = (
    ground arith,
    ground arith,
    ground arith,
    ground arith,
    ground arith,
    ground arith,
    ground arith,
    ground arith,
  )

  -- read_be64 reads back what write_be64 wrote, cut to 64 bits.
  pub read_be64-write_be64 : read_be64 (write_be64 buf off v) off ≡ v % 2 ^ 64
  unfolding read_be64
  read_be64-write_be64 = omega (arith, write_be64_bytes)

  pub write_be64_outside : (a : ℕ) → in_range off 8 a ≡ false → write_be64 buf off v a ≡ buf a
  unfolding write_be64
  write_be64_outside a h = ground arith

  pub write_be64-IsBytes : IsBytes buf → IsBytes (write_be64 buf off v)
  unfolding write_be64
  write_be64-IsBytes h a = ground (arith, h a)

-- A read depends on its own bytes only, and gives a word of its width.
pub read_be32_congr :
    (x y : Bytes) (off : ℕ)
    → ((a : ℕ) → in_range off 4 a ≡ true → x a ≡ y a)
    → read_be32 x off ≡ read_be32 y off
unfolding read_be32
read_be32_congr x y off h = ground (arith, h off, h (off + 1), h (off + 2), h (off + 3))

pub read_be32-lt : (buf : Bytes) (off : ℕ) → IsBytes buf → read_be32 buf off < 2 ^ 32
unfolding read_be32
read_be32-lt buf off h = omega (arith, h off, h (off + 1), h (off + 2), h (off + 3))

pub read_be64_congr :
    (x y : Bytes) (off : ℕ)
    → ((a : ℕ) → in_range off 8 a ≡ true → x a ≡ y a)
    → read_be64 x off ≡ read_be64 y off
unfolding read_be64
read_be64_congr x y off h = ground (
  arith,
  h off,
  h (off + 1),
  h (off + 2),
  h (off + 3),
  h (off + 4),
  h (off + 5),
  h (off + 6),
  h (off + 7),
)

pub read_be64-lt : (buf : Bytes) (off : ℕ) → IsBytes buf → read_be64 buf off < 2 ^ 64
unfolding read_be64
read_be64-lt buf off h = omega (
  arith,
  h off,
  h (off + 1),
  h (off + 2),
  h (off + 3),
  h (off + 4),
  h (off + 5),
  h (off + 6),
  h (off + 7),
)
