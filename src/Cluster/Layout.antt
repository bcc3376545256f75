-- ===== src/Cluster/Layout.antt =====
-- The layout of a level in src/cluster.c: the table, the bitmap, and the clusters behind them.
use bsfs.Base.{ℕ, ◌+◌, ◌*◌, ◌%◌, ◌^◌, ◌≤◌, ◌<◌, ◌≡◌, refl, ap, arith, Bytes, Agree}
use bsfs.BitUtil.{round_to_bytes}
use bsfs.BitUtil.Endian.{read_be32-write_be32, write_be32_outside}
use bsfs.Cluster.{
  bft_size, cluster_size, cluster_data_size, fs_count_clusters, fs_compute_bitmap_size, cluster_off,
  fs_compute_bitmap_size_from_disk, fs_next_cluster, fs_set_next_cluster,
}
use bsfs.Disk.{Disk}
use bsfs.Stego.{stego_compute_user_level_size}

-- For fewer than 2^63 clusters, the bitmap has a bit for each, is a multiple of 16 bytes, and has
-- less than a block of bits more.
pub fs_compute_bitmap_size_bounds :
    (clusters : ℕ)
    → clusters < 2 ^ 63
    → (clusters ≤ 8 * fs_compute_bitmap_size clusters)
      × (8 * fs_compute_bitmap_size clusters < clusters + 128)
      × (fs_compute_bitmap_size clusters % 16 ≡ 0)
unfolding fs_compute_bitmap_size round_to_bytes
fs_compute_bitmap_size_bounds clusters h = omega arith

-- For a level below 2^61 bytes with at least one cluster, the table, the bitmap and the counted
-- clusters together fit the level.
pub fs_count_clusters_fits :
    (level_size : ℕ)
    → level_size < 2 ^ 61
    → 0 < fs_count_clusters level_size
    → bft_size
        + fs_compute_bitmap_size (fs_count_clusters level_size)
        + cluster_size * fs_count_clusters level_size
      ≤ level_size
unfolding fs_count_clusters fs_compute_bitmap_size round_to_bytes
fs_count_clusters_fits level_size h pos = ground arith

-- fs_next_cluster reads back the 32-bit link that fs_set_next_cluster set, and the data in front of
-- the link is unchanged.
pub fs_next_cluster-set :
    (cluster : Bytes) (next : ℕ)
    → next < 2 ^ 32
    → (fs_next_cluster (fs_set_next_cluster cluster next) ≡ next)
      × Agree cluster_data_size (fs_set_next_cluster cluster next) cluster
unfolding fs_next_cluster fs_set_next_cluster
fs_next_cluster-set cluster next h = (
  omega (arith, read_be32-write_be32 cluster cluster_data_size next),
  λ a lt. write_be32_outside cluster cluster_data_size next a (ground arith),
)

abbrev pub clusters_of : Disk → ℕ
clusters_of disk = fs_count_clusters (stego_compute_user_level_size disk.data_size)

-- What the code leaves to the size of the disk: no product of `size_t` wraps, and no offset of a
-- cluster wraps in 32 bits, which holds up to 256 GB.
pub record IsModerate (disk : Disk) : Type 0 where
  pub small : stego_compute_user_level_size disk.data_size < 2 ^ 61
  pub narrow : clusters_of disk ≤ 2 ^ 21

-- On a disk of at most 2^21 clusters a level, every counted cluster lies behind the table and the
-- bitmap and inside the level, at a multiple of 16 bytes.
pub cluster_off_bounds :
    (disk : Disk) (cluster : ℕ)
    → IsModerate disk
    → cluster < clusters_of disk
    → (bft_size + fs_compute_bitmap_size (clusters_of disk) ≤ cluster_off disk cluster)
      × (cluster_off disk cluster + cluster_size ≤ stego_compute_user_level_size disk.data_size)
      × (cluster_off disk cluster % 16 ≡ 0)
unfolding cluster_off fs_compute_bitmap_size_from_disk
cluster_off_bounds disk cluster m h =
    let n = clusters_of disk in
    let fit =
      fs_count_clusters_fits (stego_compute_user_level_size disk.data_size) m.small (omega arith) in
    let b = fs_compute_bitmap_size_bounds n (omega (arith, m.narrow)) in
    (omega arith, omega (arith, m.narrow), omega (arith, b.2))

-- On a disk of at most 2^21 clusters a level, two different counted clusters do not overlap.
pub cluster_off_apart :
    (disk : Disk) (c d : ℕ)
    → IsModerate disk
    → c < d
    → d < clusters_of disk
    → cluster_off disk c + cluster_size ≤ cluster_off disk d
unfolding cluster_off
cluster_off_apart disk c d m lt h = omega (arith, m.narrow)

pub bitmap_from_disk :
    (disk : Disk)
    → fs_compute_bitmap_size_from_disk disk ≡ fs_compute_bitmap_size (clusters_of disk)
unfolding fs_compute_bitmap_size_from_disk
bitmap_from_disk disk = refl

-- The layout depends on the size of the disk only.
pub fs_compute_bitmap_size_from_disk_congr :
    (x y : Disk)
    → x.data_size ≡ y.data_size
    → fs_compute_bitmap_size_from_disk x ≡ fs_compute_bitmap_size_from_disk y
unfolding fs_compute_bitmap_size_from_disk
fs_compute_bitmap_size_from_disk_congr x y e =
    ap (λ n. fs_compute_bitmap_size (fs_count_clusters (stego_compute_user_level_size n))) e

pub cluster_off_congr :
    (x y : Disk) (cluster : ℕ)
    → x.data_size ≡ y.data_size
    → cluster_off x cluster ≡ cluster_off y cluster
unfolding cluster_off
cluster_off_congr x y cluster e =
    ap (λ (n : ℕ). bft_size + n + cluster_size * cluster % 2 ^ 32)
      (fs_compute_bitmap_size_from_disk_congr x y e)
