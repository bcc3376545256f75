-- ===== src/Cluster.antt =====
-- src/cluster.c: how a level is laid out in clusters, and which clusters are in use. `size_t` has
-- 64 bits and `cluster_offset_t` 32.
pub mod Layout
pub mod Bitmap
pub mod Storage
use bsfs.Base.{
  ℕ, zero, suc, ◌+◌, ◌-◌, ◌*◌, ◌/◌, ◌%◌, ◌^◌, Bool, true, false, ltb, leb, if◌then◌else◌, Bytes,
  Option, none, some, Outcome, ok, err, einval, enospc,
}
use bsfs.BitUtil.{read_be32, write_be32, get_bit, set_bit, round_to_bytes}
use bsfs.Cipher.{Cipher}
use bsfs.Disk.{Disk, disk_get_size}
use bsfs.Stego.{StegoKey, Host, stego_compute_user_level_size, stego_read_level, stego_write_level}

-- `BFT_SIZE` of src/bft.h: 8192 entries of 64 + 4 + 2 * 4 + 2 * 8 bytes.
abbrev pub bft_size : ℕ
bft_size = (64 + 4 + 2 * 4 + 2 * 8) * 8192

abbrev pub cluster_size : ℕ
cluster_size = 2048

abbrev pub cluster_data_size : ℕ
cluster_data_size = cluster_size - 4

-- `UINT32_MAX`
abbrev pub cluster_offset_eof : ℕ
cluster_offset_eof = 2 ^ 32 - 1

abbrev pub bits_per_block : ℕ
bits_per_block = 16 * 8

unfoldable pub fs_count_clusters : ℕ → ℕ
fs_count_clusters level_size =
    let bits_after_bft = 8 * (level_size - bft_size) % 2 ^ 64 in
    if leb level_size bft_size
    then 0
    else if ltb bits_after_bft (bits_per_block - 1)
    then 0
    else (bits_after_bft + 2 ^ 64 - bits_per_block + 1) % 2 ^ 64 / (8 * cluster_size + 1)

unfoldable pub fs_compute_bitmap_size : ℕ → ℕ
fs_compute_bitmap_size clusters = 16 * ((round_to_bytes clusters + 15) / 16) % 2 ^ 64

unfoldable pub fs_compute_bitmap_size_from_disk : Disk → ℕ
fs_compute_bitmap_size_from_disk disk =
    fs_compute_bitmap_size (fs_count_clusters (stego_compute_user_level_size (disk_get_size disk)))

-- The product of an `int` and a `uint32_t` is a `uint32_t`, so it wraps before it is added.
unfoldable pub cluster_off : Disk → ℕ → ℕ
cluster_off disk cluster =
    bft_size + fs_compute_bitmap_size_from_disk disk + cluster_size * cluster % 2 ^ 32

unfoldable pub fs_next_cluster : Bytes → ℕ
fs_next_cluster cluster = read_be32 cluster cluster_data_size

unfoldable pub fs_set_next_cluster : Bytes → ℕ → Bytes
fs_set_next_cluster cluster next = write_be32 cluster cluster_data_size next

module _ (cipher : Cipher) (host : Host) (key : StegoKey) (disk : Disk) where
  unfoldable pub fs_read_cluster : ℕ → Outcome Bytes
  fs_read_cluster cluster =
      stego_read_level cipher host key disk (cluster_off disk cluster) cluster_size

  unfoldable pub fs_write_cluster : Bytes → ℕ → Outcome Disk
  fs_write_cluster buf cluster =
      stego_write_level cipher host key disk buf (cluster_off disk cluster) cluster_size

  unfoldable pub fs_read_bitmap : Outcome Bytes
  fs_read_bitmap =
      stego_read_level cipher host key disk bft_size (fs_compute_bitmap_size_from_disk disk)

  unfoldable pub fs_write_bitmap : Bytes → Outcome Disk
  fs_write_bitmap buf =
      stego_write_level cipher host key disk buf bft_size (fs_compute_bitmap_size_from_disk disk)

-- The loop from `cluster` on fuel, where `none` stands for no answer in so many rounds. The counter is
-- a `uint32_t`, which wraps.
unfoldable pub alloc_loop : ℕ → Bytes → ℕ → ℕ → Option (Outcome (Bytes × ℕ))
alloc_loop zero bitmap bitmap_bits cluster = none
alloc_loop (suc fuel) bitmap bitmap_bits cluster = elim (ltb cluster bitmap_bits) [
  | false ↦ some (err enospc)
  | true ↦ elim (get_bit bitmap cluster) [
    | true ↦ alloc_loop fuel bitmap bitmap_bits ((cluster + 1) % 2 ^ 32)
    | false ↦ some (ok (set_bit bitmap cluster true, cluster))
  ]
]

-- The bitmap after the call and the cluster that was found. There is a round for each bit and one
-- more; `none` is a search without end, of at least `2 ^ 32` bits.
unfoldable pub fs_alloc_cluster : Bytes → ℕ → Option (Outcome (Bytes × ℕ))
unfolding alloc_loop
fs_alloc_cluster bitmap bitmap_bits = alloc_loop (suc bitmap_bits) bitmap bitmap_bits 0

unfoldable pub fs_dealloc_cluster : Bytes → ℕ → ℕ → Outcome Bytes
fs_dealloc_cluster bitmap bitmap_bits cluster =
    if leb bitmap_bits cluster then err einval else ok (set_bit bitmap cluster false)
