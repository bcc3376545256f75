-- ===== src/Bsfs/Names.antt =====
-- `bsfs_mknod` and `bsfs_rename` of src/bsfs.c.
use bsfs.Base.{
  ℕ, Bool, true, false, not, ◌&&◌, ◌==◌, if◌then◌else◌, bit_and, Bytes, memset, Text, text_eq,
  Option, none, some, Errno, Outcome, ok, err, einval, enoent, enotsup, eexist, exdev,
}
use bsfs.Bft.{
  BftEntry, bft_entry_init, bft_find_free_table_entry, bft_find_table_entry, bft_write_table_entry,
}
use bsfs.Bsfs.{OpenLevel, alloc_cluster, dealloc_cluster, write_cluster}
use bsfs.Bsfs.Chain.{dealloc_cluster_chain}
use bsfs.Bsfs.Files.{Done, and_then, opened, give_back, store_bitmap}
use bsfs.Bsfs.Levels.{Level, Fs, System, lock, unlock, set_level, bs_level_get}
use bsfs.Bsfs.Metadata.{s_ifreg, do_exchange, do_rename, do_unlink_metadata}
use bsfs.Bsfs.Path.{bs_split_path}
use bsfs.Cipher.{Cipher}
use bsfs.Cluster.{cluster_size, cluster_offset_eof, fs_set_next_cluster}
use bsfs.Oft.{Oft}
use bsfs.Stego.{Host}

-- The level after a call of `dealloc_cluster` whose answer is not looked at.
unfoldable pub freed_or_kept : OpenLevel → ℕ → OpenLevel
freed_or_kept level cluster = elim (dealloc_cluster level cluster) [
  | ok freed ↦ freed
  | err e ↦ level
]

module _ (cipher : Cipher) (host : Host) where
  -- A cluster of zeros that ends its chain. If it cannot be written it is freed, and the function
  -- goes on. The local array holds `cluster₀` before it is cleared.
  unfoldable pub first_cluster : Bytes → OpenLevel → ℕ → OpenLevel
  unfolding freed_or_kept
  first_cluster cluster₀ level initial_cluster =
      let cluster_data =
        fs_set_next_cluster (memset cluster₀ 0 0 cluster_size) cluster_offset_eof in
      elim (write_cluster cipher host level.key level.disk cluster_data initial_cluster) [
        | err e ↦ freed_or_kept level initial_cluster
        | ok written ↦ record level { disk = written }
      ]

  unfoldable pub store_entry : OpenLevel → Outcome BftEntry → ℕ → ℕ → OpenLevel × Outcome (Unit {0})
  unfolding freed_or_kept
  store_entry level (err e) initial_cluster offset = (freed_or_kept level initial_cluster, err e)
  store_entry level (ok ent) initial_cluster offset =
      elim (bft_write_table_entry level.bft ent offset) [
        | err e ↦ (freed_or_kept level initial_cluster, err e)
        | ok bft ↦ (record level { bft = bft }, ok tt)
      ]

  -- What is done under the lock of the level where the name is not in the table.
  unfoldable pub add_file : Bytes → OpenLevel → Text → ℕ → Option (OpenLevel × Outcome (Unit {0}))
  unfolding first_cluster store_entry
  add_file cluster₀ level name mode = elim (bft_find_free_table_entry level.bft) [
    | err e ↦ some (level, err e)
    | ok offset ↦ elim (alloc_cluster level) [
      | none ↦ none
      | some (err e) ↦ some (level, err e)
      | some (ok (allocated, initial_cluster)) ↦ some (
          store_entry (first_cluster cluster₀ allocated initial_cluster)
            (bft_entry_init host name 0 mode initial_cluster 0 0) initial_cluster offset)
    ]
  ]

  -- A damaged table is no obstacle: only a name that is found is one.
  unfoldable pub mknod_locked :
      Bytes → OpenLevel → Text → ℕ → Option (OpenLevel × Outcome (Unit {0}))
  unfolding add_file
  mknod_locked cluster₀ level name mode = elim (bft_find_table_entry level.bft name) [
    | ok existing ↦ some (level, err eexist)
    | err e ↦ add_file cluster₀ level name mode
  ]

-- The file system with a level and a disk that were changed under the level's lock.
unfoldable pub give_back_open : Fs → ℕ → Level → OpenLevel → Fs
unfolding give_back
give_back_open fs at level changed =
    give_back (record fs { disk = changed.disk }) at
      (record level { bft = changed.bft; bitmap = changed.bitmap })

unfoldable pub is_enoent : Errno → Bool
is_enoent enoent = true
is_enoent e = false

abbrev pub rename_noreplace : ℕ
rename_noreplace = 1

abbrev pub rename_exchange : ℕ
rename_exchange = 2

-- What a renaming does to the table: the table, the answer, and the first cluster of the file that
-- was replaced.
pub record Renaming : Type 0 where
  pub bft : Bytes
  pub answer : Option Errno
  pub replaced : Option ℕ

module _ (host : Host) (open_files : Oft) where
  unfoldable pub rename_entry : Bytes → ℕ → Text → Option ℕ → Renaming
  rename_entry bft old_index new_name replaced = elim (do_rename host bft old_index new_name) [
    | err e ↦ record { bft = bft; answer = some e; replaced = replaced }
    | ok written ↦ record { bft = written; answer = none; replaced = replaced }
  ]

  unfoldable pub replace_entry : Bytes → ℕ → ℕ → Text → Renaming
  unfolding rename_entry
  replace_entry bft old_index new_index new_name =
      elim (do_unlink_metadata host bft new_index open_files) [
        | err e ↦ record { bft = bft; answer = some e; replaced = none }
        | ok (removed, initial_cluster) ↦
            rename_entry removed old_index new_name (some initial_cluster)
      ]

  -- The answer of the search for the new name decides.
  unfoldable pub rename_to : ℕ → Bytes → ℕ → Text → Outcome ℕ → Renaming
  unfolding rename_entry replace_entry
  rename_to flags bft old_index new_name (err e) =
      if not (is_enoent e)
      then record { bft = bft; answer = some e; replaced = none }
      else if flags == rename_exchange
      then record { bft = bft; answer = some enoent; replaced = none }
      else rename_entry bft old_index new_name none
  rename_to flags bft old_index new_name (ok new_index) =
      let exchanged = do_exchange host bft old_index new_index in
      if flags == rename_exchange
      then record { bft = exchanged.0; answer = exchanged.1; replaced = none }
      else if flags == rename_noreplace
      then record { bft = bft; answer = some eexist; replaced = none }
      else replace_entry bft old_index new_index new_name

  unfoldable pub rename_locked : ℕ → Bytes → Text → Text → Renaming
  unfolding rename_to
  rename_locked flags bft old_name new_name = elim (bft_find_table_entry bft old_name) [
    | err e ↦ record { bft = bft; answer = some e; replaced = none }
    | ok old_index ↦ rename_to flags bft old_index new_name (bft_find_table_entry bft new_name)
  ]

abbrev pub answer_of : Option Errno → Outcome (Unit {0})
answer_of none = ok tt
answer_of (some e) = err e

module _ (system : System) where
  mknod_level : Bytes → Text → ℕ → Fs × Outcome (ℕ × Level) → Option Done
  unfolding mknod_locked give_back_open
  mknod_level cluster₀ name mode (fs, err e) = some (fs, err e)
  mknod_level cluster₀ name mode (fs, ok (at, level)) =
      and_then
        (λ taken.
          and_then
            (λ made.
              some (give_back_open fs at (record level { metadata_lock = taken }) made.0, made.1))
            (mknod_locked system.cipher system.host cluster₀ (opened fs.disk level) name mode))
        (lock system.edeadlk true level.metadata_lock)

  -- `S_ISREG` looks at the bits 0xf000 of the mode.
  unfoldable pub bsfs_mknod : Bytes → Fs → Text → ℕ → Option Done
  unfolding mknod_level
  bsfs_mknod cluster₀ fs path mode = elim (bit_and mode 61440 == s_ifreg) [
    | false ↦ some (fs, err enotsup)
    | true ↦ elim (bs_split_path system.host path) [
      | err e ↦ some (fs, err e)
      | ok (pass, name) ↦ mknod_level cluster₀ name mode (bs_level_get system fs pass)
    ]
  ]

  -- The clusters of a replaced file are freed when the lock is given back; the answer is then that
  -- of `dealloc_cluster_chain`, whatever the renaming answered.
  unfoldable pub after_renaming : ℕ → Fs → ℕ → Level → Renaming → Option Done
  unfolding give_back store_bitmap
  after_renaming fuel fs at level done = elim done.replaced [
    | none ↦ some (give_back fs at (record level { bft = done.bft }), answer_of done.answer)
    | some initial_cluster ↦
        let free = record level { bft = done.bft; metadata_lock = unlock level.metadata_lock } in
        store_bitmap (set_level fs at (some free)) at free (
          dealloc_cluster_chain system.cipher system.host fuel (opened fs.disk free)
            initial_cluster)
  ]

  rename_level : ℕ → ℕ → Text → Text → Fs × Outcome (ℕ × Level) → Option Done
  unfolding rename_locked after_renaming
  rename_level fuel flags old_name new_name (fs, err e) = some (fs, err e)
  rename_level fuel flags old_name new_name (fs, ok (at, level)) =
      and_then
        (λ taken.
          after_renaming fuel fs at (record level { metadata_lock = taken })
            (rename_locked system.host level.open_files flags level.bft old_name new_name))
        (lock system.edeadlk true level.metadata_lock)

  rename_paths : ℕ → ℕ → Fs → Outcome (Text × Text) → Outcome (Text × Text) → Option Done
  unfolding rename_level
  rename_paths fuel flags fs (err e) old = some (fs, err e)
  rename_paths fuel flags fs (ok new) (err e) = some (fs, err e)
  rename_paths fuel flags fs (ok new) (ok old) =
      if not (text_eq old.0 new.0)
      then some (fs, err exdev)
      else rename_level fuel flags old.1 new.1 (bs_level_get system fs old.0)

  unfoldable pub bsfs_rename : ℕ → Fs → Text → Text → ℕ → Option Done
  unfolding rename_paths
  bsfs_rename fuel fs old_path new_path flags =
      if not (flags == 0) && not (flags == rename_noreplace) && not (flags == rename_exchange)
      then some (fs, err einval)
      else rename_paths fuel flags fs (bs_split_path system.host new_path)
          (bs_split_path system.host old_path)
