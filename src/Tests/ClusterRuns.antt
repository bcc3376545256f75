-- ===== src/Tests/ClusterRuns.antt =====
-- Layout and allocation on small disks and bitmaps.
use bsfs.Base.{
  some, ℕ, ◌+◌, ◌-◌, ◌*◌, ◌%◌, ◌≤◌, ◌<◌, ◌≡◌, refl, arith, true, ◌==◌, if◌then◌else◌, Bytes, Agree,
  ok, err, einval, enospc,
}
use bsfs.BitUtil.{get_bit, set_bit, round_to_bytes}
use bsfs.Cluster.{
  bft_size, cluster_size, fs_count_clusters, fs_compute_bitmap_size, cluster_off,
  fs_compute_bitmap_size_from_disk, fs_read_cluster, fs_write_cluster, fs_read_bitmap,
  fs_alloc_cluster, fs_dealloc_cluster,
}
use bsfs.Cluster.Bitmap.{AllocResult, fs_alloc_cluster-AllocResult, fs_dealloc_cluster-alloc}
use bsfs.Cluster.Layout.{clusters_of, IsModerate, cluster_off_bounds}
use bsfs.Cluster.Storage.{fs_read_cluster-write, fs_read_cluster-write_other, fs_read_cluster_last}
use bsfs.Disk.{Disk}
use bsfs.Stego.{
  compute_level_size, stego_compute_user_level_size, get_iv, check_parameters,
  read_merged_cover_file_delta, write_merged_cover_file_delta, stego_read_level, stego_write_level,
}
use bsfs.Tests.Setting.{plain_cipher, plain_laws, roomy_host, alice, alice-IsDual, message}

abbrev zeros : Bytes
zeros a = 0

-- Levels of 200,000 bytes: a user level has 22 clusters.
abbrev disk : Disk
disk = record { data_size = 4624 + 256 * 200000; contents = λ a. 0 }

disk_runs : clusters_of disk ≡ 22
unfolding fs_count_clusters stego_compute_user_level_size compute_level_size
disk_runs = refl

disk-IsModerate : IsModerate disk
unfolding fs_count_clusters stego_compute_user_level_size compute_level_size
disk-IsModerate = record { small = omega arith; narrow = omega arith }

few : (n : ℕ) → n < 22 → n < clusters_of disk
few n h = rw disk_runs h

cluster_off_bounds_example :
    (bft_size + fs_compute_bitmap_size (clusters_of disk) ≤ cluster_off disk 21)
    × (cluster_off disk 21 + cluster_size ≤ stego_compute_user_level_size disk.data_size)
    × (cluster_off disk 21 % 16 ≡ 0)
cluster_off_bounds_example = cluster_off_bounds disk 21 disk-IsModerate (few 21 (omega arith))

abbrev written_disk : Disk
written_disk = record disk {
  contents =
      write_merged_cover_file_delta alice disk.contents 200000 759824
        (read_merged_cover_file_delta alice disk.contents 200000 759824 message 2048) 2048;
}

write_runs : fs_write_cluster plain_cipher roomy_host alice disk message 3 ≡ ok written_disk
unfolding fs_write_cluster cluster_off fs_compute_bitmap_size_from_disk fs_compute_bitmap_size
    fs_count_clusters round_to_bytes stego_write_level stego_compute_user_level_size
    compute_level_size check_parameters get_iv
write_runs = refl

fs_read_cluster-write_example :
    (out : Bytes) × (fs_read_cluster plain_cipher roomy_host alice written_disk 3 ≡ ok out)
    × Agree cluster_size out message
fs_read_cluster-write_example =
    fs_read_cluster-write plain_cipher roomy_host plain_laws alice disk written_disk message 3
      alice-IsDual write_runs

fs_read_cluster-write_other_example :
    (fs_read_cluster plain_cipher roomy_host alice written_disk 4
      ≡ fs_read_cluster plain_cipher roomy_host alice disk 4)
    × (fs_read_bitmap plain_cipher roomy_host alice written_disk
        ≡ fs_read_bitmap plain_cipher roomy_host alice disk)
    × (stego_read_level plain_cipher roomy_host alice written_disk 0 bft_size
        ≡ stego_read_level plain_cipher roomy_host alice disk 0 bft_size)
fs_read_cluster-write_other_example =
    fs_read_cluster-write_other plain_cipher roomy_host plain_laws alice disk written_disk message 3
      4 disk-IsModerate alice-IsDual (few 3 (omega arith)) (few 4 (omega arith)) (omega arith)
      write_runs

-- A user level that the table, a block of bitmap and one cluster fill exactly.
abbrev exact_disk : Disk
exact_disk = record { data_size = 4624 + 256 * 188932; contents = λ a. 0 }

exact_runs : clusters_of exact_disk ≡ 1
unfolding fs_count_clusters stego_compute_user_level_size compute_level_size
exact_runs = refl

exact-IsModerate : IsModerate exact_disk
unfolding fs_count_clusters stego_compute_user_level_size compute_level_size
exact-IsModerate = record { small = omega arith; narrow = omega arith }

exact_size :
    bft_size
      + fs_compute_bitmap_size (clusters_of exact_disk)
      + cluster_size * clusters_of exact_disk
    ≡ stego_compute_user_level_size exact_disk.data_size
unfolding fs_count_clusters fs_compute_bitmap_size round_to_bytes stego_compute_user_level_size
    compute_level_size
exact_size = refl

fs_read_cluster_last_example :
    fs_read_cluster plain_cipher roomy_host alice exact_disk (clusters_of exact_disk - 1)
    ≡ err einval
fs_read_cluster_last_example =
    fs_read_cluster_last plain_cipher roomy_host alice exact_disk exact-IsModerate
      (rw exact_runs (omega arith)) exact_size

abbrev two_used : Bytes
two_used a = if a == 0 then 0xa0 else 0

bytes : (a : ℕ) → two_used a < 256
bytes a = ground arith

-- Bits 0 and 2 are set, so bit 1 is the first that is free.
abbrev after_alloc : Bytes
after_alloc = set_bit two_used 1 true

alloc_runs : fs_alloc_cluster two_used 22 ≡ some (ok (after_alloc, 1))
unfolding fs_alloc_cluster get_bit
alloc_runs = refl

alloc_full : fs_alloc_cluster (λ a. 255) 9 ≡ some (err enospc)
unfolding fs_alloc_cluster get_bit
alloc_full = refl

fs_alloc_cluster-AllocResult_example : AllocResult two_used 22 (fs_alloc_cluster two_used 22)
fs_alloc_cluster-AllocResult_example = fs_alloc_cluster-AllocResult two_used 22 bytes

fs_dealloc_cluster-alloc_example :
    (again : Bytes) × (fs_dealloc_cluster after_alloc 22 1 ≡ ok again)
    × ((j : ℕ) → get_bit again j ≡ get_bit two_used j)
fs_dealloc_cluster-alloc_example =
    fs_dealloc_cluster-alloc two_used after_alloc 22 1 bytes alloc_runs
