-- ===== src/Stego.antt =====
-- src/stego.c: the levels that are hidden in the exclusive or of the cover files.
pub mod Sum
pub mod Covers
pub mod Merge
pub mod Written
pub mod Levels
pub mod Keys
pub mod Dual
use bsfs.Base.{
  ℕ, zero, suc, ◌+◌, ◌-◌, ◌*◌, ◌/◌, ◌%◌, Bool, true, false, ◌&&◌, not, ltb, ◌==◌, if◌then◌else◌,
  min, Bytes, shift, memset, Outcome, ok, err, ◌>>=◌, einval, enomem,
}
use bsfs.BitUtil.{get_bit}
use bsfs.Cipher.{Cipher, enc_block_size, enc_iv_size}
use bsfs.Disk.{Disk, disk_get_size}
use bsfs.Vector.{aliased, vector_linear_combination}

abbrev pub stego_cover_file_count : ℕ
stego_cover_file_count = 256

abbrev pub stego_levels_per_password : ℕ
stego_levels_per_password = 4

abbrev pub stego_user_level_count : ℕ
stego_user_level_count = 16

abbrev pub stego_key_size : ℕ
stego_key_size = 32

-- `KEYTAB_SIZE` of src/keytab.h: the salt and 16 entries of 16 + 4 * 32 * 2 + 16 bytes.
abbrev pub keytab_size : ℕ
keytab_size = 16 + (16 + 4 * 32 * 2 + 16) * 16

pub record StegoKey : Type 0 where
  pub aes_key : Bytes
  pub read_keys : ℕ → Bytes
  pub write_keys : ℕ → Bytes

unfoldable pub compute_level_size : ℕ → ℕ
compute_level_size disk_size =
    if ltb disk_size keytab_size then 0 else (disk_size - keytab_size) / stego_cover_file_count

unfoldable pub stego_compute_user_level_size : ℕ → ℕ
stego_compute_user_level_size disk_size = stego_levels_per_password * compute_level_size disk_size

abbrev pub cover_offset : ℕ → ℕ → ℕ → ℕ
cover_offset level_size i off = keytab_size + i * level_size + off

-- The buffer is `buf + at`, and the result is the memory that holds it.
module _ (key : Bytes) (disk_data : Bytes) (level_size off at buf_size : ℕ) where
  read_loop : ℕ → ℕ → Bytes → Bytes
  read_loop zero i buf = buf
  read_loop (suc left) i buf = read_loop left (i + 1) (
      vector_linear_combination buf at aliased (shift disk_data (cover_offset level_size i off))
        buf_size (get_bit key i))

  unfoldable pub read_cover_file_delta : Bytes → Bytes
  unfolding read_loop
  read_cover_file_delta buf = read_loop stego_cover_file_count 0 buf

-- The same the other way: the disk is written and is the result.
module _ (key : Bytes) (buf : Bytes) (level_size off at buf_size : ℕ) where
  write_loop : ℕ → ℕ → Bytes → Bytes
  write_loop zero i disk_data = disk_data
  write_loop (suc left) i disk_data = write_loop left (i + 1) (
      vector_linear_combination disk_data (cover_offset level_size i off) aliased (shift buf at)
        buf_size (get_bit key i))

  unfoldable pub write_cover_file_delta : Bytes → Bytes
  unfolding write_loop
  write_cover_file_delta disk_data = write_loop stego_cover_file_count 0 disk_data

-- `cover_file_op_t`: the key, the offset in the level, the offset in the buffer and the size, with
-- the memory that the operation writes.
abbrev CoverFileOp : Type 0
CoverFileOp = Bytes → ℕ → ℕ → ℕ → Bytes → Bytes

-- The `while` loop on fuel. A round processes a byte at least, so the size is enough.
module _ (op : CoverFileOp) (keys : ℕ → Bytes) (level_size size : ℕ) where
  merged_loop : ℕ → ℕ → ℕ → ℕ → Bytes → Bytes
  merged_loop zero level_idx cur_off processed s = s
  merged_loop (suc fuel) level_idx cur_off processed s =
      let cur_size = min (size - processed) (level_size - cur_off) in
      let rest =
        merged_loop fuel (level_idx + 1) 0 (processed + cur_size)
          (op (keys level_idx) cur_off processed cur_size s) in
      if ltb processed size then rest else s

  merged_cover_file_op : ℕ → Bytes → Bytes
  unfolding merged_loop
  merged_cover_file_op off s = merged_loop size (off / level_size) (off % level_size) 0 s

unfoldable pub read_merged_cover_file_delta : StegoKey → Bytes → ℕ → ℕ → Bytes → ℕ → Bytes
unfolding merged_cover_file_op read_cover_file_delta
read_merged_cover_file_delta key disk level_size off buf size =
    merged_cover_file_op
      (λ k cur_off at cur_size b. read_cover_file_delta k disk level_size cur_off at cur_size b)
      key.read_keys level_size size off buf

-- The disk's memory after the call is the result.
unfoldable pub write_merged_cover_file_delta : StegoKey → Bytes → ℕ → ℕ → Bytes → ℕ → Bytes
unfolding merged_cover_file_op write_cover_file_delta
write_merged_cover_file_delta key disk level_size off buf size =
    merged_cover_file_op
      (λ k cur_off at cur_size d. write_cover_file_delta k buf level_size cur_off at cur_size d)
      key.write_keys level_size size off disk

unfoldable pub check_parameters : ℕ → ℕ → ℕ → Bool
check_parameters user_level_size off buf_size =
    ltb off user_level_size
    && ltb buf_size (user_level_size - off)
    && buf_size % enc_block_size == 0
    && off % enc_block_size == 0

-- What the functions ask of the system: whether `malloc` has so many bytes, and how the host lays
-- out a `uint64_t`.
pub record Host : Type 0 where
  pub malloc : ℕ → Bool
  pub u64_bytes : ℕ → Bytes

module _ (cipher : Cipher) (host : Host) where
  unfoldable pub get_iv : ℕ → Outcome Bytes
  get_iv off = cipher.enc_key_from_bytes (λ _. 0) 0 (host.u64_bytes off) 8 1 enc_iv_size

  -- The first `size` bytes of the result are what the call stores in `buf`.
  unfoldable pub stego_read_level : StegoKey → Disk → ℕ → ℕ → Outcome Bytes
  stego_read_level key disk off size =
      let level_size = compute_level_size (disk_get_size disk) in
      let user_level_size = stego_compute_user_level_size (disk_get_size disk) in
      if not (check_parameters user_level_size off size)
      then err einval
      else if not (host.malloc size)
      then err enomem
      else do
        let zeroed = memset (λ _. 0) 0 0 size
        let delta = read_merged_cover_file_delta key disk.contents level_size off zeroed size
        iv ← get_iv off
        cipher.aes_decrypt key.aes_key iv delta size

  -- Every failure comes before the disk is written, so an error leaves it alone.
  unfoldable pub stego_write_level : StegoKey → Disk → Bytes → ℕ → ℕ → Outcome Disk
  stego_write_level key disk buf off size =
      let level_size = compute_level_size (disk_get_size disk) in
      let user_level_size = stego_compute_user_level_size (disk_get_size disk) in
      if not (check_parameters user_level_size off size)
      then err einval
      else if not (host.malloc size)
      then err enomem
      else do
        iv ← get_iv off
        encrypted ← cipher.aes_encrypt key.aes_key iv buf size
        let delta = read_merged_cover_file_delta key disk.contents level_size off encrypted size
        let written = write_merged_cover_file_delta key disk.contents level_size off delta size
        ok (record disk { contents = written })
