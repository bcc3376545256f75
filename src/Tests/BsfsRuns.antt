-- ===== src/Tests/BsfsRuns.antt =====
-- A file of one cluster, with a cipher that shows the same bytes everywhere.
use bsfs.Base.{
  ℕ, ◌+◌, ◌-◌, ◌*◌, ◌≡◌, refl, arith, ltb, ◌==◌, if◌then◌else◌, min, Bytes, [], ◌∷◌, ok,
}
use bsfs.Bft.{bft_read_table_entry, do_read_entry, bft_entry_init}
use bsfs.BitUtil.{read_be32, read_be64, round_to_bytes}
use bsfs.Cipher.{Cipher}
use bsfs.Cluster.{
  fs_next_cluster, fs_read_cluster, cluster_off, fs_compute_bitmap_size_from_disk,
  fs_count_clusters, fs_compute_bitmap_size,
}
use bsfs.Stego.{
  stego_read_level, check_parameters, get_iv, stego_compute_user_level_size, compute_level_size,
}
use bsfs.Bsfs.{OpenLevel, read_cluster, get_size_and_initial_cluster, bsfs_read}
use bsfs.Bsfs.Reading.{data_of, IsFile, bsfs_read_lem}
use bsfs.Base.{Text, ◌++◌, true, some, err, enospc}
use bsfs.BitUtil.{get_bit, set_bit, bit_of, with_bit}
use bsfs.Cluster.{fs_alloc_cluster}
use bsfs.Bsfs.{count_clusters_from_disk, alloc_cluster}
use bsfs.Bsfs.Path.{bs_split_path, bs_split_path-join}
use bsfs.Bsfs.Chain.{
  get_cluster_chain, get_cluster_chain-numbers, alloc_clusters, alloc_clusters_leak,
}
use bsfs.Tests.Setting.{roomy_host, alice}

-- The last four bytes of a cluster are the end mark.
abbrev ramp : Bytes
ramp a = if ltb a 2044 then a else 255

abbrev ramp_cipher : Cipher
ramp_cipher = record {
  enc_key_from_bytes = λ password n salt m rounds size. ok salt;
  aes_encrypt = λ key iv plain size. ok plain;
  aes_decrypt = λ key iv enc size. ok ramp;
}

-- The first entry has 1000 bytes from the cluster 0 on, and an empty name.
abbrev ramp_level : OpenLevel
ramp_level = record {
  disk = record { data_size = 4624 + 256 * 200000; contents = λ a. 0 };
  key = alice;
  bft = λ a. if a == 70 then 3 else if a == 71 then 232 else 0;
  bitmap = λ a. 0;
}

ramp_entry : get_size_and_initial_cluster roomy_host ramp_level 0 ≡ ok (1000, 0)
unfolding get_size_and_initial_cluster bft_read_table_entry do_read_entry bft_entry_init read_be32
    read_be64
ramp_entry = refl

ramp_cluster : read_cluster ramp_cipher roomy_host alice ramp_level.disk 0 ≡ ok ramp
unfolding read_cluster fs_read_cluster stego_read_level check_parameters get_iv cluster_off
    fs_compute_bitmap_size_from_disk fs_count_clusters fs_compute_bitmap_size
    stego_compute_user_level_size compute_level_size round_to_bytes
ramp_cluster = refl

ramp-IsFile : IsFile ramp_cipher roomy_host alice ramp_level.disk 0 (ramp ∷ [])
unfolding fs_next_cluster read_be32
ramp-IsFile = (omega arith, ramp_cluster, refl)

bsfs_read_lem_example :
    (out : Bytes) × (bsfs_read ramp_cipher roomy_host ramp_level 0 (λ a. 7) 50 980
      ≡ (out, ok (min 50 (1000 - 980))))
    × ((i : ℕ) → out i ≡ (if ltb i (min 50 (1000 - 980)) then data_of (ramp ∷ []) (980 + i) else 7))
bsfs_read_lem_example =
    bsfs_read_lem ramp_cipher roomy_host ramp_level 0 1000 0 (ramp ∷ []) (λ a. 7) 50 980 ramp_entry
      ramp-IsFile (omega arith)

get_cluster_chain-numbers_example :
    get_cluster_chain ramp_cipher roomy_host alice ramp_level.disk 2 0 ≡ some (ok (0 ∷ []))
get_cluster_chain-numbers_example =
    get_cluster_chain-numbers ramp_cipher roomy_host alice ramp_level.disk 2 0 (ramp ∷ [])
      (λ n. refl) ramp-IsFile (omega arith)

-- A level with one cluster, which is free at first.
abbrev narrow_level : OpenLevel
narrow_level = record ramp_level {
  disk = record { data_size = 4624 + 256 * 188932; contents = λ a. 0 };
}

abbrev full_level : OpenLevel
full_level = record narrow_level { bitmap = set_bit (λ a. 0) 0 true }

narrow_first : alloc_cluster narrow_level ≡ some (ok (full_level, 0))
unfolding alloc_cluster count_clusters_from_disk fs_alloc_cluster get_bit bit_of fs_count_clusters
    stego_compute_user_level_size compute_level_size
narrow_first = refl

narrow_second : alloc_cluster full_level ≡ some (err enospc)
unfolding alloc_cluster count_clusters_from_disk fs_alloc_cluster get_bit set_bit bit_of with_bit
    fs_count_clusters stego_compute_user_level_size compute_level_size
narrow_second = refl

alloc_clusters_leak_example : alloc_clusters narrow_level 2 ≡ some (full_level, err enospc)
alloc_clusters_leak_example =
    alloc_clusters_leak narrow_level full_level 0 0 enospc narrow_first narrow_second

-- "/ab/c"
abbrev some_path : Text
some_path = 47 ∷ 97 ∷ 98 ∷ 47 ∷ 99 ∷ []

bs_split_path-join_example :
    bs_split_path roomy_host (47 ∷ (97 ∷ 98 ∷ []) ++ 47 ∷ 99 ∷ []) ≡ ok (97 ∷ 98 ∷ [], 99 ∷ [])
bs_split_path-join_example =
    bs_split_path-join roomy_host (97 ∷ 98 ∷ []) (99 ∷ []) (omega arith, (omega arith, tt))
      (omega arith, tt) (omega arith) refl refl
