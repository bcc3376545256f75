-- ===== src/Tests/BitRuns.antt =====
-- Words, bits and vectors.
use bsfs.Base.{◌+◌, ◌%◌, ◌^◌, ◌≡◌, refl, Bytes}
use bsfs.BitUtil.{read_be32, write_be32}
use bsfs.BitUtil.Endian.{read_be32-write_be32}

abbrev zeros : Bytes
zeros a = 0

abbrev pattern_bytes : Bytes
pattern_bytes a = 0xa5

big_endian : write_be32 zeros 1 0x01020304 1 ≡ 1
unfolding write_be32
big_endian = refl

read_be32-write_be32_example :
    read_be32 (write_be32 zeros 4 (2 ^ 32 + 77)) 4 ≡ (2 ^ 32 + 77) % 2 ^ 32
read_be32-write_be32_example = read_be32-write_be32 zeros 4 (2 ^ 32 + 77)
