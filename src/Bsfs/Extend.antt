-- ===== src/Bsfs/Extend.antt =====
-- `bs_do_write_extend` of src/bsfs.c: data behind the end of a file, in new clusters.
use bsfs.Base.{
  Option, none, some, ℕ, ◌+◌, ◌-◌, ◌%◌, ◌^◌, ltb, if◌then◌else◌, min, Bytes, shift, memset, memcpy,
  List, [], ◌∷◌, Outcome, ok, err,
}
use bsfs.Bsfs.{
  OpenLevel, read_cluster, write_cluster, do_dealloc_clusters, get_required_cluster_count,
}
use bsfs.Bsfs.Chain.{alloc_clusters, but_last}
use bsfs.Cipher.{Cipher}
use bsfs.Cluster.{cluster_data_size, cluster_offset_eof, fs_set_next_cluster}
use bsfs.Disk.{Disk}
use bsfs.Stego.{StegoKey, Host}

-- What stands in a cluster that is `processed` bytes behind the end: zeros up to `off`, then the
-- bytes of `buf`. The sizes are `size_t`, and do not wrap below `actual_size`.
unfoldable pub fill_cluster : Bytes → ℕ → ℕ → ℕ → Bytes → Bytes
fill_cluster buf off processed write_size cluster =
    let pad_size = if ltb processed off then min write_size (off - processed) else 0 in
    let padded = memset cluster 0 0 pad_size in
    if ltb pad_size write_size
    then memcpy padded pad_size (shift buf (processed + pad_size - off)) (write_size - pad_size)
    else padded

-- The first cluster of an array that ends with a mark.
abbrev pub first_of : List ℕ → ℕ
first_of [] = cluster_offset_eof
first_of (index ∷ rest) = index

module _ (cipher : Cipher) (host : Host) (key : StegoKey) where
  -- The new clusters but for the mark at the end of their array, each with a link to the next. The
  -- local array `cluster` keeps its bytes from round to round.
  extend_loop : List ℕ → ℕ → Bytes → ℕ → ℕ → Bytes → Disk → Disk × Outcome Bytes
  unfolding fill_cluster
  extend_loop [] actual_size buf off processed cluster disk = (disk, ok cluster)
  extend_loop (mark ∷ []) actual_size buf off processed cluster disk = (disk, ok cluster)
  extend_loop (index ∷ (next ∷ rest)) actual_size buf off processed cluster disk =
      let remaining = (actual_size + 2 ^ 64 - processed) % 2 ^ 64 in
      let write_size = min remaining cluster_data_size in
      let filled = fill_cluster buf off processed write_size cluster in
      let linked = fs_set_next_cluster filled next in
      elim (write_cluster cipher host key disk linked index) [
        | err e ↦ (disk, err e)
        | ok written ↦
            extend_loop (next ∷ rest) actual_size buf off (processed + write_size) linked written
      ]

  -- The last cluster of the file gets what it has room for, and a link to the first new one.
  unfoldable pub fill_eof : ℕ → Bytes → ℕ → ℕ → ℕ → Bytes → Bytes
  fill_eof local_eof_off buf buf_size off next cluster =
      let partial_cluster_remaining = cluster_data_size - local_eof_off in
      let padded =
        if ltb 0 off
        then memset cluster local_eof_off 0 (min off partial_cluster_remaining)
        else cluster in
      let filled =
        if ltb off partial_cluster_remaining
        then memcpy padded (off + local_eof_off) buf
            (min (partial_cluster_remaining - off) buf_size)
        else padded in
      fs_set_next_cluster filled next

  -- The disk with the chain hooked up.
  hook_up : ℕ → ℕ → Bytes → ℕ → ℕ → ℕ → Disk × Outcome Bytes → Disk × Outcome (Unit {0})
  unfolding fill_eof
  hook_up cluster_idx local_eof_off buf buf_size off next (disk, err e) = (disk, err e)
  hook_up cluster_idx local_eof_off buf buf_size off next (disk, ok unused) =
      elim (read_cluster cipher host key disk cluster_idx) [
        | err e ↦ (disk, err e)
        | ok cluster ↦
            let linked = fill_eof local_eof_off buf buf_size off next cluster in
            elim (write_cluster cipher host key disk linked cluster_idx) [
              | err e ↦ (disk, err e)
              | ok written ↦ (written, ok tt)
            ]
      ]

-- A failure gives the new clusters back.
extend_result : OpenLevel → List ℕ → Disk × Outcome (Unit {0}) → OpenLevel × Outcome (Unit {0})
extend_result level clusters (disk, ok done) = (record level { disk = disk }, ok done)
extend_result level clusters (disk, err e) =
    (do_dealloc_clusters (record level { disk = disk }) (but_last clusters), err e)

extend_with :
    Cipher
    → Host
    → Bytes
    → ℕ
    → ℕ
    → Bytes
    → ℕ
    → ℕ
    → Option (OpenLevel × Outcome (List ℕ))
    → Option (OpenLevel × Outcome (Unit {0}))
unfolding extend_loop hook_up extend_result
extend_with cipher host cluster₀ cluster_idx local_eof_off buf buf_size off none = none
extend_with cipher host cluster₀ cluster_idx local_eof_off buf buf_size off (some (level, err e)) =
    some (level, err e)
extend_with cipher host cluster₀ cluster_idx local_eof_off buf buf_size off
      (some (level, ok clusters)) =
    let actual_size = (buf_size + off) % 2 ^ 64 in
    let looped =
      extend_loop cipher host level.key clusters actual_size buf off
        (cluster_data_size - local_eof_off) cluster₀ level.disk in
    some (
      extend_result level clusters (
        hook_up cipher host level.key cluster_idx local_eof_off buf buf_size off (first_of clusters)
          looped))

-- The local array `cluster` has the bytes of `cluster₀` at first.
unfoldable pub bs_do_write_extend :
    Cipher
    → Host
    → Bytes
    → OpenLevel
    → ℕ
    → ℕ
    → Bytes
    → ℕ
    → ℕ
    → Option (OpenLevel × Outcome (Unit {0}))
unfolding extend_with
bs_do_write_extend cipher host cluster₀ level cluster_idx local_eof_off buf buf_size off =
    let actual_size = (buf_size + off) % 2 ^ 64 in
    let partial_cluster_remaining = cluster_data_size - local_eof_off in
    let new_cluster_count =
      get_required_cluster_count ((actual_size + 2 ^ 64 - partial_cluster_remaining) % 2 ^ 64) in
    extend_with cipher host cluster₀ cluster_idx local_eof_off buf buf_size off
      (alloc_clusters level new_cluster_count)
