-- ===== src/Bsfs/Writing.antt =====
-- `bsfs_write`, `bsfs_ftruncate` and `bsfs_fallocate` of src/bsfs.c. The model is of
-- calls that find the locks of the file and of its level free.
use bsfs.Base.{
  ℕ, ◌+◌, ◌-◌, Bool, true, false, ltb, ◌==◌, if◌then◌else◌, max, Bytes, shift, Option, none, some,
  Outcome, ok, err,
}
use bsfs.Bsfs.{
  OpenLevel, Transfer, read_cluster, write_cluster, adjust_size_and_off, find_cluster,
  find_eof_cluster, do_rw_op, get_size_and_initial_cluster, get_required_cluster_count,
  get_local_eof_off,
}
use bsfs.Bsfs.Chain.{dealloc_cluster_chain}
use bsfs.Bsfs.Extend.{bs_do_write_extend}
use bsfs.Bsfs.Metadata.{commit_write_to_bft}
use bsfs.Cipher.{Cipher}
use bsfs.Cluster.{cluster_offset_eof, fs_next_cluster, fs_set_next_cluster}
use bsfs.Stego.{Host}

abbrev pub Changed : Type 0
Changed = OpenLevel × Outcome (Unit {0})

-- `index` is the place of the open file in the table; `cluster₀` as in `bs_do_write_extend`.
module _ (cipher : Cipher) (host : Host) (cluster₀ : Bytes) (index : ℕ) where
  unfoldable pub commit : OpenLevel → ℕ → Bool → Changed
  commit level new_size killpriv =
      elim (commit_write_to_bft host level.bft index new_size killpriv) [
        | err e ↦ (level, err e)
        | ok bft ↦ (record level { bft = bft }, ok tt)
      ]

  unfoldable pub commit_extended : ℕ → Bool → Option Changed → Option Changed
  unfolding commit
  commit_extended new_size killpriv none = none
  commit_extended new_size killpriv (some (level, err e)) = some (level, err e)
  commit_extended new_size killpriv (some (level, ok done)) = some (commit level new_size killpriv)

  -- The bytes behind the end of the file, of which `overlap_size` are written already.
  unfoldable pub write_rest : OpenLevel → ℕ → Bytes → ℕ → ℕ → ℕ → Outcome ℕ → Option Changed
  unfolding commit_extended
  write_rest level file_size buf size off overlap_size (err e) = some (level, err e)
  write_rest level file_size buf size off overlap_size (ok eof_cluster) =
      commit_extended (max file_size (off + size)) true (
        bs_do_write_extend cipher host cluster₀ level eof_cluster (get_local_eof_off file_size)
          (shift buf overlap_size) (size - overlap_size)
          (if ltb off file_size then 0 else off - file_size))

  -- What is done with the result of `do_rw_op`.
  unfoldable pub after_overlap :
      OpenLevel → ℕ → Bytes → ℕ → ℕ → ℕ → Transfer × Outcome ℕ → Option Changed
  unfolding write_rest commit
  after_overlap level file_size buf size off overlap_size (done, err e) =
      some (record level { disk = done.disk }, err e)
  after_overlap level file_size buf size off overlap_size (done, ok processed) =
      let written = record level { disk = done.disk } in
      if overlap_size == size
      then some (commit written (max file_size (off + size)) true)
      else write_rest written file_size buf size off overlap_size (ok done.last_index)

  unfoldable pub write_overlap : OpenLevel → ℕ → ℕ → Bytes → ℕ → ℕ → ℕ × ℕ → Option Changed
  unfolding after_overlap write_rest
  write_overlap level file_size initial_cluster buf size off overlap = elim (overlap.0 == 0) [
    | true ↦
        write_rest level file_size buf size off 0
          (find_eof_cluster cipher host level.key level.disk initial_cluster file_size)
    | false ↦ elim (find_cluster cipher host level.key level.disk initial_cluster overlap.1) [
      | err e ↦ some (level, err e)
      | ok (cluster_idx, local_off) ↦
          after_overlap level file_size buf size off overlap.0
            (do_rw_op cipher host level.key level.disk cluster_idx 0 local_off buf overlap.0 true)
    ]
  ]

  -- The number of bytes that were written is the size that was asked for.
  unfoldable pub bsfs_write : OpenLevel → Bytes → ℕ → ℕ → Option Changed
  unfolding write_overlap
  bsfs_write level buf size off = elim (size == 0) [
    | true ↦ some (level, ok tt)
    | false ↦ elim (get_size_and_initial_cluster host level index) [
      | err e ↦ some (level, err e)
      | ok (file_size, initial_cluster) ↦
          write_overlap level file_size initial_cluster buf size off
            (adjust_size_and_off file_size size off)
    ]
  ]

  -- Zeros up to the new size. The buffer of no bytes is a null pointer.
  unfoldable pub extend_to : OpenLevel → ℕ → ℕ → ℕ → Bool → Option Changed
  unfolding commit_extended
  extend_to level size initial_cluster new_size killpriv =
      elim (find_eof_cluster cipher host level.key level.disk initial_cluster size) [
        | err e ↦ some (level, err e)
        | ok curr_eof ↦ commit_extended new_size killpriv (
            bs_do_write_extend cipher host cluster₀ level curr_eof (get_local_eof_off size) (λ a. 0)
              0 (new_size - size))
      ]

  -- The end of the chain behind its new last cluster, when the clusters behind it are freed.
  cut_chain : ℕ → Bytes → ℕ → Option (Outcome OpenLevel) → OpenLevel → Option Changed
  unfolding commit
  cut_chain new_eof cluster new_size none level = none
  cut_chain new_eof cluster new_size (some (err e)) level = some (level, err e)
  cut_chain new_eof cluster new_size (some (ok freed)) level =
      elim (write_cluster cipher host freed.key freed.disk
        (fs_set_next_cluster cluster cluster_offset_eof) new_eof) [
          | err e ↦ some (freed, err e)
          | ok written ↦ some (commit (record freed { disk = written }) new_size true)
        ]

  -- With so many rounds for the chain that is freed.
  unfoldable pub shrink_to : ℕ → OpenLevel → ℕ → ℕ → Option Changed
  unfolding cut_chain
  shrink_to fuel level initial_cluster new_size =
      elim (find_eof_cluster cipher host level.key level.disk initial_cluster new_size) [
        | err e ↦ some (level, err e)
        | ok new_eof ↦ elim (read_cluster cipher host level.key level.disk new_eof) [
          | err e ↦ some (level, err e)
          | ok cluster ↦
              cut_chain new_eof cluster new_size
                (dealloc_cluster_chain cipher host fuel level (fs_next_cluster cluster)) level
        ]
      ]

  unfoldable pub resize : ℕ → OpenLevel → ℕ → ℕ × ℕ → Option Changed
  unfolding extend_to shrink_to commit
  resize fuel level new_size (size, initial_cluster) =
      if new_size == size
      then some (level, ok tt)
      else if ltb size new_size
      then extend_to level size initial_cluster new_size true
      else if ltb (get_required_cluster_count new_size) (get_required_cluster_count size)
      then shrink_to fuel level initial_cluster new_size
      else some (commit level new_size true)

  unfoldable pub bsfs_ftruncate : ℕ → OpenLevel → ℕ → Option Changed
  unfolding resize
  bsfs_ftruncate fuel level new_size = elim (get_size_and_initial_cluster host level index) [
    | err e ↦ some (level, err e)
    | ok found ↦ resize fuel level new_size found
  ]

  unfoldable pub bsfs_fallocate : OpenLevel → ℕ → ℕ → Option Changed
  unfolding extend_to
  bsfs_fallocate level off len = elim (get_size_and_initial_cluster host level index) [
    | err e ↦ some (level, err e)
    | ok (file_size, initial_cluster) ↦
        if ltb file_size (off + len)
        then extend_to level file_size initial_cluster (off + len) false
        else some (level, ok tt)
  ]
