-- ===== src/Tests/MakeRuns.antt =====
-- A new file on a level without files.
use bsfs.Base.{
  ℕ, ◌+◌, ◌*◌, ◌≡◌, refl, arith, Bytes, Text, [], ◌∷◌, some, ok, err, enoent, einval, true,
}
use bsfs.Bft.{bft_find_table_entry, bft_iter_table_entries, bft_find_free_table_entry}
use bsfs.BitUtil.{get_bit, set_bit, bit_of, round_to_bytes}
use bsfs.Bsfs.{OpenLevel, alloc_cluster, count_clusters_from_disk, write_cluster}
use bsfs.Bsfs.Made.{IsMade, empty_cluster, mknod_locked_lem, mknod_locked_unwritten}
use bsfs.Bsfs.Names.{mknod_locked}
use bsfs.Cluster.{
  fs_alloc_cluster, fs_count_clusters, fs_write_cluster, cluster_off,
  fs_compute_bitmap_size_from_disk, fs_compute_bitmap_size,
}
use bsfs.Disk.{Disk}
use bsfs.Stego.{
  stego_compute_user_level_size, compute_level_size, stego_write_level, check_parameters, get_iv,
  read_merged_cover_file_delta, write_merged_cover_file_delta,
}
use bsfs.Tests.Setting.{plain_cipher, roomy_host, alice}

abbrev pub zeros : Bytes
zeros a = 0

abbrev level_on : Disk → OpenLevel
level_on disk = record { disk = disk; key = alice; bft = zeros; bitmap = zeros }

-- A disk of 22 clusters a level, and one of a single cluster, which cannot be written.
abbrev pub roomy_disk : Disk
roomy_disk = record { data_size = 4624 + 256 * 200000; contents = zeros }

abbrev narrow_disk : Disk
narrow_disk = record { data_size = 4624 + 256 * 188932; contents = zeros }

abbrev name : Text
name = 99 ∷ []

absent : bft_find_table_entry zeros name ≡ err enoent
unfolding bft_find_table_entry bft_iter_table_entries
absent = refl

room : bft_find_free_table_entry zeros ≡ ok 0
unfolding bft_find_free_table_entry
room = refl

abbrev taken_level : Disk → OpenLevel
taken_level disk = record (level_on disk) { bitmap = set_bit zeros 0 true }

roomy_alloc : alloc_cluster (level_on roomy_disk) ≡ some (ok (taken_level roomy_disk, 0))
unfolding alloc_cluster count_clusters_from_disk fs_alloc_cluster get_bit bit_of fs_count_clusters
    stego_compute_user_level_size compute_level_size
roomy_alloc = refl

narrow_alloc : alloc_cluster (level_on narrow_disk) ≡ some (ok (taken_level narrow_disk, 0))
unfolding alloc_cluster count_clusters_from_disk fs_alloc_cluster get_bit bit_of fs_count_clusters
    stego_compute_user_level_size compute_level_size
narrow_alloc = refl

narrow_write :
    write_cluster plain_cipher roomy_host alice narrow_disk (empty_cluster zeros) 0 ≡ err einval
unfolding write_cluster fs_write_cluster cluster_off fs_compute_bitmap_size_from_disk
    fs_compute_bitmap_size fs_count_clusters round_to_bytes stego_write_level
    stego_compute_user_level_size compute_level_size check_parameters
narrow_write = refl

mknod_locked_unwritten_example :
    (after : OpenLevel) × (mknod_locked plain_cipher roomy_host zeros
        (level_on narrow_disk)
        name
        33188
      ≡ some (after, ok tt))
    × IsMade roomy_host zeros after.bft name 33188 0 0
    × ((j : ℕ) → get_bit after.bitmap j ≡ get_bit zeros j)
mknod_locked_unwritten_example =
    mknod_locked_unwritten plain_cipher roomy_host zeros (level_on narrow_disk)
      (taken_level narrow_disk) name 33188 0 0 absent room narrow_alloc
      ((omega arith, omega arith, tt), omega arith) (omega arith) refl einval (λ a. omega arith)
      narrow_write

abbrev pub written_disk : Disk
written_disk = record roomy_disk {
  contents =
      write_merged_cover_file_delta alice zeros 200000 753680
        (read_merged_cover_file_delta alice zeros 200000 753680 (empty_cluster zeros) 2048) 2048;
}

pub roomy_write :
    write_cluster plain_cipher roomy_host alice roomy_disk (empty_cluster zeros) 0 ≡ ok written_disk
unfolding write_cluster fs_write_cluster cluster_off fs_compute_bitmap_size_from_disk
    fs_compute_bitmap_size fs_count_clusters round_to_bytes stego_write_level
    stego_compute_user_level_size compute_level_size check_parameters get_iv
roomy_write = refl

mknod_locked_lem_example :
    (bft : Bytes) × (mknod_locked plain_cipher roomy_host zeros (level_on roomy_disk) name 33188
      ≡ some (record (taken_level roomy_disk) { disk = written_disk; bft = bft }, ok tt))
    × IsMade roomy_host zeros bft name 33188 0 0
mknod_locked_lem_example =
    mknod_locked_lem plain_cipher roomy_host zeros (level_on roomy_disk) (taken_level roomy_disk)
      name 33188 0 0 absent room roomy_alloc ((omega arith, omega arith, tt), omega arith)
      (omega arith) refl written_disk roomy_write
