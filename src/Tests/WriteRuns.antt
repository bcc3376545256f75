-- ===== src/Tests/WriteRuns.antt =====
-- A file of 100 bytes, into which three are written.
use bsfs.Base.{
  ℕ, ◌+◌, ◌-◌, ◌≡◌, refl, ◌∙◌, arith, ltb, ◌==◌, if◌then◌else◌, min, Bytes, IsBytes, in_range, [],
  ◌∷◌, Option, none, some, Outcome, ok, Agree, c_string,
}
use bsfs.Bft.{
  bft_read_table_entry, do_read_entry, bft_entry_init, bft_write_table_entry, do_write_entry,
}
use bsfs.BitUtil.{read_be32, write_be32, read_be64, round_to_bytes}
use bsfs.Bsfs.{
  OpenLevel, read_cluster, write_cluster, find_cluster, seek_loop, do_rw_op, rw_loop,
  adjust_size_and_off, get_size_and_initial_cluster, bsfs_read,
}
use bsfs.Bsfs.Made.{empty_cluster}
use bsfs.Bsfs.Metadata.{commit_write_to_bft}
use bsfs.Bsfs.Overwrite.{IsApart, next-congr}
use bsfs.Bsfs.Reading.{data_of, IsFile}
use bsfs.Bsfs.Writing.{bsfs_write, write_overlap, after_overlap, commit}
use bsfs.Bsfs.Written.{bsfs_read-write}
use bsfs.Cluster.{
  cluster_offset_eof, fs_next_cluster, fs_set_next_cluster, fs_read_cluster, fs_write_cluster,
  cluster_off, fs_compute_bitmap_size_from_disk, fs_count_clusters, fs_compute_bitmap_size,
}
use bsfs.Cluster.Layout.{clusters_of, IsModerate}
use bsfs.Cluster.Storage.{fs_read_cluster-write}
use bsfs.Stego.{
  stego_read_level, stego_write_level, check_parameters, get_iv, stego_compute_user_level_size,
  compute_level_size,
}
use bsfs.Tests.MakeRuns.{zeros, roomy_disk, written_disk, roomy_write}
use bsfs.Tests.Setting.{plain_cipher, roomy_host, plain_laws, alice, alice-IsDual, message}

-- The name "c", a size of 100, the cluster 0.
abbrev table : Bytes
table a = if a == 0 then 99 else if a == 71 then 100 else 0

abbrev level : OpenLevel
level = record { disk = written_disk; key = alice; bft = table; bitmap = zeros }

-- The file's only cluster, as it is read.
stored_cluster :
    (out : Bytes) × (read_cluster plain_cipher roomy_host alice written_disk 0 ≡ ok out)
    × Agree 2048 out (empty_cluster zeros)
unfolding read_cluster write_cluster
stored_cluster =
    fs_read_cluster-write plain_cipher roomy_host plain_laws alice roomy_disk written_disk
      (empty_cluster zeros) 0 alice-IsDual roomy_write

abbrev out : Bytes
out = stored_cluster.0

ends : fs_next_cluster (empty_cluster zeros) ≡ cluster_offset_eof
unfolding fs_next_cluster fs_set_next_cluster read_be32 write_be32
ends = refl

level-IsFile : IsFile plain_cipher roomy_host alice written_disk 0 (out ∷ [])
level-IsFile = (
  omega arith,
  stored_cluster.1,
  next-congr out (empty_cluster zeros) (λ a p. stored_cluster.2 a (ground (arith, p))) ∙ ends,
)

disk-IsModerate : IsModerate written_disk
unfolding fs_count_clusters stego_compute_user_level_size compute_level_size
disk-IsModerate = record { small = omega arith; narrow = omega arith }

level-IsApart : IsApart (clusters_of written_disk) 0 (out ∷ [])
unfolding fs_count_clusters stego_compute_user_level_size compute_level_size
level-IsApart = (omega arith, tt, tt)

table-IsBytes : IsBytes table
table-IsBytes a = ground arith

entry : get_size_and_initial_cluster roomy_host level 0 ≡ ok (100, 0)
unfolding get_size_and_initial_cluster bft_read_table_entry do_read_entry bft_entry_init read_be32
    read_be64
entry = refl

abbrev level_of : Option (OpenLevel × Outcome (Unit {0})) → OpenLevel
level_of none = level
level_of (some changed) = changed.0

abbrev level_after : OpenLevel
level_after = level_of (bsfs_write plain_cipher roomy_host zeros 0 level message 3 7)

writes : bsfs_write plain_cipher roomy_host zeros 0 level message 3 7 ≡ some (level_after, ok tt)
unfolding bsfs_write write_overlap find_cluster seek_loop do_rw_op rw_loop adjust_size_and_off
    after_overlap commit commit_write_to_bft get_size_and_initial_cluster bft_read_table_entry
    do_read_entry bft_entry_init bft_write_table_entry do_write_entry read_be32 read_be64
    read_cluster write_cluster fs_read_cluster fs_write_cluster stego_read_level stego_write_level
    check_parameters get_iv cluster_off fs_compute_bitmap_size_from_disk fs_count_clusters
    fs_compute_bitmap_size stego_compute_user_level_size compute_level_size round_to_bytes c_string
writes = refl

bsfs_read-write_example :
    (read : Bytes) × (bsfs_read plain_cipher roomy_host level_after 0 zeros 50 5
      ≡ (read, ok (min 50 (100 - 5))))
    × ((i : ℕ)
        → read i ≡ (
            if ltb i (min 50 (100 - 5))
            then (if in_range 7 3 (5 + i) then message (5 + i - 7) else data_of (out ∷ []) (5 + i))
            else 0))
bsfs_read-write_example =
    bsfs_read-write plain_cipher roomy_host plain_laws zeros level level_after 0 100 0 (out ∷ [])
      message 3 7 alice-IsDual disk-IsModerate table-IsBytes entry level-IsFile level-IsApart
      (omega arith) (omega arith) (omega arith) zeros 50 5 writes
