-- ===== src/Bsfs.antt =====
-- src/bsfs.c: files as chains of clusters. The model is of calls that find their
-- locks free.
pub mod Reading
pub mod Path
pub mod Chain
pub mod Metadata
pub mod Attributes
pub mod Exchange
pub mod Levels
pub mod Files
pub mod Names
pub mod Opened
pub mod Named
pub mod Distinct
pub mod Waiting
pub mod Renamed
pub mod Made
pub mod Extend
pub mod Writing
pub mod Overwrite
pub mod Sought
pub mod Written
use bsfs.Base.{
  ℕ, zero, suc, ◌+◌, ◌-◌, ◌*◌, ◌/◌, ◌%◌, ◌^◌, Bool, true, false, ltb, leb, ◌==◌, if◌then◌else◌, min,
  Bytes, shift, memcpy, List, [], ◌∷◌, Option, none, some, enospc, Outcome, ok, err, ◌>>=◌, eio,
}
use bsfs.Bft.{bft_read_table_entry}
use bsfs.Cipher.{Cipher}
use bsfs.Cluster.{
  cluster_data_size, cluster_offset_eof, fs_next_cluster, fs_read_cluster, fs_write_cluster,
  fs_count_clusters, fs_alloc_cluster, fs_dealloc_cluster,
}
use bsfs.Disk.{Disk, disk_get_size}
use bsfs.Stego.{StegoKey, Host, stego_compute_user_level_size}

-- The fields of an open level that these functions use; the disk is the file system's.
pub record OpenLevel : Type 0 where
  pub disk : Disk
  pub key : StegoKey
  pub bft : Bytes
  pub bitmap : Bytes

unfoldable pub count_clusters_from_disk : Disk → ℕ
count_clusters_from_disk disk =
    fs_count_clusters (stego_compute_user_level_size (disk_get_size disk))

-- The level after the call, with the cluster. `none` is a search without end.
unfoldable pub alloc_cluster : OpenLevel → Option (Outcome (OpenLevel × ℕ))
alloc_cluster level = elim (fs_alloc_cluster level.bitmap (count_clusters_from_disk level.disk)) [
  | none ↦ none
  | some (err e) ↦ some (err e)
  | some (ok (bitmap, cluster)) ↦ some (ok (record level { bitmap = bitmap }, cluster))
]

unfoldable pub dealloc_cluster : OpenLevel → ℕ → Outcome OpenLevel
dealloc_cluster level cluster = do
  bitmap ← fs_dealloc_cluster level.bitmap (count_clusters_from_disk level.disk) cluster
  ok (record level { bitmap = bitmap })

-- A cluster that cannot be freed is passed over.
unfoldable pub do_dealloc_clusters : OpenLevel → List ℕ → OpenLevel
do_dealloc_clusters level [] = level
do_dealloc_clusters level (cluster ∷ rest) = elim (dealloc_cluster level cluster) [
  | ok freed ↦ do_dealloc_clusters freed rest
  | err e ↦ do_dealloc_clusters level rest
]

-- Offsets and sizes of files are not negative.
unfoldable pub adjust_size_and_off : ℕ → ℕ → ℕ → ℕ × ℕ
adjust_size_and_off file_size size off =
    let within = if ltb file_size off then file_size else off in
    (if ltb (file_size - within) size then file_size - within else size, within)

unfoldable pub get_required_cluster_count : ℕ → ℕ
get_required_cluster_count file_size =
    (file_size + cluster_data_size - 1) % 2 ^ 64 / cluster_data_size

-- The remainder of C takes the sign of the dividend: for the size 0 it is -1.
unfoldable pub get_local_eof_off : ℕ → ℕ
get_local_eof_off zero = 0
get_local_eof_off (suc n) = n % cluster_data_size + 1

-- What `do_rw_op` changes: the disk, the buffer, and the last cluster that it used.
pub record Transfer : Type 0 where
  pub disk : Disk
  pub buf : Bytes
  pub last_index : ℕ

module _ (cipher : Cipher) (host : Host) (key : StegoKey) where
  unfoldable pub read_cluster : Disk → ℕ → Outcome Bytes
  read_cluster disk cluster = fs_read_cluster cipher host key disk cluster

  unfoldable pub write_cluster : Disk → Bytes → ℕ → Outcome Disk
  write_cluster disk buf cluster = fs_write_cluster cipher host key disk buf cluster

  -- The loop on fuel: a round takes a cluster's data off the offset, so the offset is enough.
  unfoldable pub seek_loop : ℕ → Disk → ℕ → ℕ → Outcome (ℕ × ℕ)
  unfolding read_cluster
  seek_loop zero disk cluster_idx off = ok (cluster_idx, off)
  seek_loop (suc fuel) disk cluster_idx off = elim (leb cluster_data_size off) [
    | false ↦ ok (cluster_idx, off)
    | true ↦ elim (read_cluster disk cluster_idx) [
      | err e ↦ err e
      | ok cluster ↦ elim (fs_next_cluster cluster == cluster_offset_eof) [
        | true ↦ err eio
        | false ↦ seek_loop fuel disk (fs_next_cluster cluster) (off - cluster_data_size)
      ]
    ]
  ]

  -- The cluster and the offset in it.
  unfoldable pub find_cluster : Disk → ℕ → ℕ → Outcome (ℕ × ℕ)
  unfolding seek_loop
  find_cluster disk cluster_idx off = seek_loop off disk cluster_idx off

  unfoldable pub find_eof_cluster : Disk → ℕ → ℕ → Outcome ℕ
  unfolding find_cluster
  find_eof_cluster disk initial_cluster file_size =
      if file_size == 0
      then ok initial_cluster
      else do found ← find_cluster disk initial_cluster (file_size - 1); ok found.0

  -- The `while` loop on fuel: a round processes a byte at least where `local_off` is in a cluster's
  -- data, so the size is enough. An error leaves what was transferred before it.
  unfoldable pub rw_loop : ℕ → ℕ → Bool → ℕ → ℕ → ℕ → Transfer → Transfer × Outcome ℕ
  unfolding read_cluster write_cluster
  rw_loop zero size write cluster_idx local_off processed t = (t, ok processed)
  rw_loop (suc fuel) size write cluster_idx local_off processed t = elim (ltb processed size) [
    | false ↦ (t, ok processed)
    | true ↦ elim (cluster_idx == cluster_offset_eof) [
      | true ↦ (t, err eio)
      | false ↦
          let used = record t { last_index = cluster_idx } in
          let cur_size = min (size - processed) (cluster_data_size - local_off) in
          elim (read_cluster t.disk cluster_idx) [
            | err e ↦ (used, err e)
            | ok cluster ↦ elim write [
              | true ↦
                  let changed = memcpy cluster local_off (shift t.buf processed) cur_size in
                  elim (write_cluster t.disk changed cluster_idx) [
                    | err e ↦ (used, err e)
                    | ok disk ↦
                        rw_loop fuel size true (fs_next_cluster changed) 0 (processed + cur_size)
                          (record used { disk = disk })
                  ]
              | false ↦
                  rw_loop fuel size false (fs_next_cluster cluster) 0 (processed + cur_size)
                    (record used {
                      buf = memcpy t.buf processed (shift cluster local_off) cur_size;
                    })
            ]
          ]
    ]
  ]

  -- Where the caller passes no `last_index`, the field of the result is not used.
  unfoldable pub do_rw_op : Disk → ℕ → ℕ → ℕ → Bytes → ℕ → Bool → Transfer × Outcome ℕ
  unfolding rw_loop
  do_rw_op disk cluster_idx last_index local_off buf size write =
      rw_loop size size write cluster_idx local_off 0
        (record { disk = disk; buf = buf; last_index = last_index })

-- The size of the file and its first cluster.
unfoldable pub get_size_and_initial_cluster : Host → OpenLevel → ℕ → Outcome (ℕ × ℕ)
get_size_and_initial_cluster host level index = do
  ent ← bft_read_table_entry host level.bft index
  ok (ent.size, ent.initial_cluster)

-- The part of `bsfs_read` behind `adjust_size_and_off`.
unfoldable pub read_adjusted : Cipher → Host → OpenLevel → ℕ → Bytes → ℕ → ℕ → Bytes × Outcome ℕ
read_adjusted cipher host level initial_cluster buf size off = elim (size == 0) [
  | true ↦ (buf, ok 0)
  | false ↦ elim (find_cluster cipher host level.key level.disk initial_cluster off) [
    | err e ↦ (buf, err e)
    | ok (cluster_idx, local_off) ↦
        let done =
          do_rw_op cipher host level.key level.disk cluster_idx 0 local_off buf size false in
        (done.0.buf, done.1)
  ]
]

-- The buffer after the call, and the number of bytes that were read or the error.
unfoldable pub bsfs_read : Cipher → Host → OpenLevel → ℕ → Bytes → ℕ → ℕ → Bytes × Outcome ℕ
unfolding read_adjusted
bsfs_read cipher host level index buf size off =
    elim (get_size_and_initial_cluster host level index) [
      | err e ↦ (buf, err e)
      | ok (file_size, initial_cluster) ↦
          let adjusted = adjust_size_and_off file_size size off in
          read_adjusted cipher host level initial_cluster buf adjusted.0 adjusted.1
    ]
