-- ===== src/Bsfs/Made.antt =====
-- What `bsfs_mknod` of src/bsfs.c does to a level.
use bsfs.Base.{
  ℕ, ◌+◌, ◌%◌, ◌^◌, ◌<◌, ◌≡◌, ◌≢◌, refl, sym, ap, subst, ◌∙◌, Bytes, IsBytes, memset, Text, length,
  Errno, Outcome, ok, err, enoent, true, inl, inr, Option, none, some,
}
use bsfs.BitUtil.{get_bit}
use bsfs.Bft.{
  BftEntry, bft_max_entries, bft_entry_init, bft_find_free_table_entry, bft_find_table_entry,
  bft_read_table_entry, bft_write_table_entry,
}
use bsfs.Bft.Entries.{IsName}
use bsfs.Bft.Search.{bft_find_free_table_entry-FreeResult, FreeResult, bft_find_table_entry-write}
use bsfs.Bsfs.{OpenLevel, alloc_cluster, dealloc_cluster, write_cluster, count_clusters_from_disk}
use bsfs.Bsfs.Attributes.{write-IsUpdate}
use bsfs.Bsfs.Names.{freed_or_kept, first_cluster, store_entry, add_file, mknod_locked}
use bsfs.Bsfs.Renamed.{missing}
use bsfs.Cipher.{Cipher}
use bsfs.Cluster.{cluster_size, cluster_offset_eof, fs_set_next_cluster, fs_alloc_cluster}
use bsfs.Cluster.Bitmap.{fs_dealloc_cluster-alloc}
use bsfs.Disk.{Disk}
use bsfs.Stego.{Host}

-- The cluster that is written for a new file.
abbrev pub empty_cluster : Bytes → Bytes
empty_cluster cluster₀ = fs_set_next_cluster (memset cluster₀ 0 0 cluster_size) cluster_offset_eof

-- The entry of a new file, as it is kept on disk.
abbrev pub new_entry : Text → ℕ → ℕ → BftEntry
new_entry name mode cluster = record {
  name = name;
  initial_cluster = cluster % 2 ^ 32;
  size = 0;
  mode = mode % 2 ^ 32;
  atim = 0;
  mtim = 0;
}

-- What a call of `alloc_cluster` that succeeds got of `fs_alloc_cluster`.
alloc_cluster-ok :
    (level allocated : OpenLevel) (cluster : ℕ)
    → alloc_cluster level ≡ some (ok (allocated, cluster))
    → (bitmap : Bytes) × (fs_alloc_cluster level.bitmap (count_clusters_from_disk level.disk)
        ≡ some (ok (bitmap, cluster)))
      × (record level { bitmap = bitmap } ≡ allocated)
unfolding alloc_cluster
alloc_cluster-ok level allocated cluster h =
    by_answer (fs_alloc_cluster level.bitmap (count_clusters_from_disk level.disk)) refl
  where
    by_answer :
        (o : Option (Outcome (Bytes × ℕ)))
        → fs_alloc_cluster level.bitmap (count_clusters_from_disk level.disk) ≡ o
        → (bitmap : Bytes) × (fs_alloc_cluster level.bitmap (count_clusters_from_disk level.disk)
            ≡ some (ok (bitmap, cluster)))
          × (record level { bitmap = bitmap } ≡ allocated)
    by_answer none e = let wrong = rw (alloc_cluster, e) at h in cc
    by_answer (some (err cause)) e = let wrong = rw (alloc_cluster, e) at h in cc
    by_answer (some (ok (bitmap, found))) e =
        let same : (record level { bitmap = bitmap }, found) ≡ (allocated, cluster) =
          cc (rw (alloc_cluster, e) at h) in
        (
          bitmap,
          e ∙ ap (λ (p : OpenLevel × ℕ). some (ok (bitmap, p.1))) same,
          ap (λ (p : OpenLevel × ℕ). p.0) same,
        )

free-within :
    (bft : Bytes) (off : ℕ) → bft_find_free_table_entry bft ≡ ok off → off < bft_max_entries
free-within bft off h = by_result (bft_find_free_table_entry-FreeResult bft)
  where
    by_result :
        FreeResult bft 0 bft_max_entries (bft_find_free_table_entry bft) → off < bft_max_entries
    by_result (inl full) = cc (h, full.0)
    by_result (inr (o, e, lo, hi, unused, rest)) =
        let same : o ≡ off = cc (h, e) in subst (λ k. k < bft_max_entries) same hi

-- What a successful `bsfs_mknod` leaves in the table of `before`.
abbrev pub IsMade : Host → Bytes → Bytes → Text → ℕ → ℕ → ℕ → Type 0
IsMade host before bft name mode cluster off =
    (bft_find_table_entry bft name ≡ ok off)
    × (bft_read_table_entry host bft off ≡ ok (new_entry name mode cluster))
    × ((j : ℕ) → off ≢ j → bft_read_table_entry host bft j ≡ bft_read_table_entry host before j)

module _ (cipher : Cipher) (host : Host) (cluster₀ : Bytes) (level allocated : OpenLevel)
    (name : Text) (mode off cluster : ℕ) (absent : bft_find_table_entry level.bft name ≡ err enoent)
    (room : bft_find_free_table_entry level.bft ≡ ok off)
    (allocates : alloc_cluster level ≡ some (ok (allocated, cluster))) (is_name : IsName name)
    (filled : 0 < length name) (memory : host.malloc (length name + 1) ≡ true) where
  -- The table that the new entry is written to is the one that was searched.
  mknod_locked-prepared :
      (prepared : OpenLevel)
      → first_cluster cipher host cluster₀ allocated cluster ≡ prepared
      → prepared.bft ≡ level.bft
      → (bft : Bytes) × (mknod_locked cipher host cluster₀ level name mode
          ≡ some (record prepared { bft = bft }, ok tt))
        × IsMade host level.bft bft name mode cluster off
  unfolding mknod_locked add_file store_entry bft_entry_init
  mknod_locked-prepared prepared prepares same =
      let ent : BftEntry = record {
        name = name;
        initial_cluster = cluster;
        size = 0;
        mode = mode;
        atim = 0;
        mtim = 0;
      } in
      let within = free-within level.bft off room in
      let (b, written, reads, others) =
        write-IsUpdate host level.bft off ent within is_name memory in
      let (c, written', finds) =
        bft_find_table_entry-write level.bft ent off within is_name filled
          (λ j ne lt. missing level.bft name absent j lt) in
      let equal : c ≡ b = cc (written, written') in
      let stores : bft_write_table_entry prepared.bft ent off ≡ ok b =
        ap (λ m. bft_write_table_entry m ent off) same ∙ written in
      let result : OpenLevel × Outcome (Unit {0}) = (record prepared { bft = b }, ok tt) in
      let done : store_entry cipher host prepared (bft_entry_init host name 0 mode cluster 0 0)
            cluster off
          ≡ result =
        rw (bft_entry_init, memory, store_entry, stores) refl in
      (
        b,
        rw (mknod_locked, absent, add_file, room, allocates)
            (ap
                (λ l. some (
                  store_entry cipher host l (bft_entry_init host name 0 mode cluster 0 0) cluster
                    off))
                prepares
              ∙ ap some done),
        (ap (λ m. bft_find_table_entry m name) (sym equal) ∙ finds, reads, others),
      )

  -- What a call of `alloc_cluster` changes.
  allocated_bft : allocated.bft ≡ level.bft
  allocated_bft =
      let (bitmap, runs, same) = alloc_cluster-ok level allocated cluster allocates in
      ap (λ (l : OpenLevel). l.bft) (sym same)

  gives_back :
      IsBytes level.bitmap
      → (freed : OpenLevel) × (dealloc_cluster allocated cluster ≡ ok freed)
        × (freed.bft ≡ level.bft)
        × ((j : ℕ) → get_bit freed.bitmap j ≡ get_bit level.bitmap j)
  unfolding dealloc_cluster
  gives_back bytes =
      let bits = count_clusters_from_disk level.disk in
      let (bitmap, runs, same) = alloc_cluster-ok level allocated cluster allocates in
      let (again, frees, restored) =
        fs_dealloc_cluster-alloc level.bitmap bitmap bits cluster bytes runs in
      let freed = record level { bitmap = again } in
      let done : dealloc_cluster (record level { bitmap = bitmap }) cluster ≡ ok freed =
        rw (dealloc_cluster, frees) refl in
      (freed, ap (λ (l : OpenLevel). dealloc_cluster l cluster) (sym same) ∙ done, refl, restored)

  -- Where the table has neither the name nor a damaged entry, has a free entry, a cluster can be
  -- had and is written, the name fits and is not empty, and there is memory for it, the part of
  -- bsfs_mknod under the lock succeeds: the name is found in the free entry, with the cluster and
  -- the mode cut to 32 bits, no bytes and no times, and the other entries are as they were.
  pub mknod_locked_lem :
      (written : Disk)
      → write_cluster cipher host allocated.key allocated.disk (empty_cluster cluster₀) cluster
        ≡ ok written
      → (bft : Bytes) × (mknod_locked cipher host cluster₀ level name mode
          ≡ some (record allocated { disk = written; bft = bft }, ok tt))
        × IsMade host level.bft bft name mode cluster off
  unfolding first_cluster
  mknod_locked_lem written writes =
      mknod_locked-prepared (record allocated { disk = written }) (rw (first_cluster, writes) refl)
        allocated_bft

  -- Under the conditions of a successful bsfs_mknod, on a bitmap of bytes, but where write_cluster
  -- fails, the part of bsfs_mknod under the lock succeeds all the same: the new entry has the
  -- cluster, and the bitmap has the bits that it had before the call, in which the cluster is free.
  pub mknod_locked_unwritten :
      (e : Errno)
      → IsBytes level.bitmap
      → write_cluster cipher host allocated.key allocated.disk (empty_cluster cluster₀) cluster
        ≡ err e
      → (after : OpenLevel) × (mknod_locked cipher host cluster₀ level name mode
          ≡ some (after, ok tt))
        × IsMade host level.bft after.bft name mode cluster off
        × ((j : ℕ) → get_bit after.bitmap j ≡ get_bit level.bitmap j)
  unfolding first_cluster freed_or_kept
  mknod_locked_unwritten e bytes fails =
      let (freed, frees, same, bits) = gives_back bytes in
      let (b, runs, made) =
        mknod_locked-prepared freed (rw (first_cluster, fails, freed_or_kept, frees) refl) same in
      (record freed { bft = b }, runs, made, bits)
