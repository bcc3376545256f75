-- ===== src/Bsfs/Files.antt =====
-- The operations of src/bsfs.c on files that have a name or are open: attributes, opening,
-- closing, deletion and the directory.
use bsfs.Base.{
  ℕ, ◌+◌, Bool, true, false, if◌then◌else◌, Bytes, Text, [], ◌∷◌, Option, none, some, Errno,
  Outcome, ok, err, enotdir,
}
use bsfs.Bft.{BftEntry, bft_iter_table_entries}
use bsfs.Bsfs.{OpenLevel}
use bsfs.Bsfs.Chain.{dealloc_cluster_chain}
use bsfs.Bsfs.Levels.{
  Level, Fs, System, Held, lock, unlock, set_level, bs_level_get, get_locked_level_and_index, Lock,
  level_flush_metadata,
}
use bsfs.Bsfs.Metadata.{
  Stat, Timespec, stat_from_bft_ent, s_ifdir, do_getattr, do_chmod, do_utimens, do_unlink_metadata,
}
use bsfs.Bsfs.Path.{bs_get_dirname}
use bsfs.Disk.{Disk}
use bsfs.Oft.{OpenFile, bs_oft_get, bs_oft_release}

-- A function that returns 0 or an error, on the file system. It is `none` where the function waits
-- for ever.
abbrev pub Done : Type 0
Done = Fs × Outcome (Unit {0})

-- `f` behind a step that may wait.
abbrev pub and_then {ℓ κ} : {A : Type ℓ} {B : Type κ} → (A → Option B) → Option A → Option B
and_then f none = none
and_then f (some a) = f a

-- The level with the lock given back.
unfoldable pub give_back : Fs → ℕ → Level → Fs
give_back fs at level =
    set_level fs at (some (record level { metadata_lock = unlock level.metadata_lock }))

-- What the functions on the entry of a locked level do with its result.
unfoldable pub store_table : Fs → ℕ → Level → Outcome Bytes → Done
unfolding give_back
store_table fs at level (err e) = (give_back fs at level, err e)
store_table fs at level (ok bft) = (give_back fs at (record level { bft = bft }), ok tt)

-- The part of the level that the functions on clusters use.
abbrev pub opened : Disk → Level → OpenLevel
opened disk level = record { disk = disk; key = level.key; bft = level.bft; bitmap = level.bitmap }

-- The level after its clusters were freed, whose lock is free.
unfoldable pub store_bitmap : Fs → ℕ → Level → Option (Outcome OpenLevel) → Option Done
store_bitmap fs at level none = none
store_bitmap fs at level (some (err e)) = some (fs, err e)
store_bitmap fs at level (some (ok freed)) =
    some (set_level fs at (some (record level { bitmap = freed.bitmap })), ok tt)

module _ (system : System) where
  unfoldable pub edit_held : (Bytes → ℕ → Outcome Bytes) → Fs × Outcome Held → Option Done
  unfolding store_table
  edit_held edit (fs, err e) = some (fs, err e)
  edit_held edit (fs, ok held) =
      some (store_table fs held.at held.level (edit held.level.bft held.index))

  unfoldable pub bsfs_chmod : Fs → Text → ℕ → Option Done
  unfolding edit_held
  bsfs_chmod fs path mode =
      and_then (edit_held (λ bft index. do_chmod system.host bft index mode))
        (get_locked_level_and_index system fs path true)

  unfoldable pub bsfs_utimens : Fs → Text → Option (ℕ → Timespec) → ℕ → ℕ → Option Done
  unfolding edit_held
  bsfs_utimens fs path times now₀ now₁ =
      and_then (edit_held (λ bft index. do_utimens system.host bft index times now₀ now₁))
        (get_locked_level_and_index system fs path true)

  -- An open file knows its level, `level` at the place `at`.
  edit_file : Fs → ℕ → Level → OpenFile → (Bytes → ℕ → Outcome Bytes) → Option Done
  unfolding store_table
  edit_file fs at level file edit =
      and_then
        (λ taken.
          some (
            store_table fs at (record level { metadata_lock = taken }) (edit level.bft file.index)))
        (lock system.edeadlk true level.metadata_lock)

  unfoldable pub bsfs_fchmod : Fs → ℕ → Level → OpenFile → ℕ → Option Done
  unfolding edit_file
  bsfs_fchmod fs at level file mode =
      edit_file fs at level file (λ bft index. do_chmod system.host bft index mode)

  unfoldable pub bsfs_futimens :
      Fs → ℕ → Level → OpenFile → Option (ℕ → Timespec) → ℕ → ℕ → Option Done
  unfolding edit_file
  bsfs_futimens fs at level file times now₀ now₁ =
      edit_file fs at level file (λ bft index. do_utimens system.host bft index times now₀ now₁)

  -- The lock of the level is given back before the clusters are freed, and not at all where
  -- `do_unlink_metadata` fails.
  unfoldable pub unlink_held : ℕ → Fs × Outcome Held → Option Done
  unfolding store_bitmap give_back
  unlink_held fuel (fs, err e) = some (fs, err e)
  unlink_held fuel (fs, ok held) =
      let level = held.level in
      elim (do_unlink_metadata system.host level.bft held.index level.open_files) [
        | err e ↦ some (fs, err e)
        | ok (bft, initial_cluster) ↦
            let free = record level { bft = bft; metadata_lock = unlock level.metadata_lock } in
            store_bitmap (set_level fs held.at (some free)) held.at free (
              dealloc_cluster_chain system.cipher system.host fuel (opened fs.disk free)
                initial_cluster)
      ]

  unfoldable pub bsfs_unlink : ℕ → Fs → Text → Option Done
  unfolding unlink_held
  bsfs_unlink fuel fs path =
      and_then (unlink_held fuel) (get_locked_level_and_index system fs path true)

  -- The answers of the system are those that `bs_oft_get` asks for.
  open_held : Bool → Option ℕ → Option Errno → Fs × Outcome Held → Option (Fs × Outcome OpenFile)
  open_held calloc address init (fs, err e) = some (fs, err e)
  open_held calloc address init (fs, ok held) =
      let level = held.level in
      elim (bs_oft_get calloc address init level.open_files level.refcounts held.index) [
        | err e ↦ some (give_back fs held.at level, err e)
        | ok (table, refcounts, file) ↦
            let changed = record level { open_files = table; refcounts = refcounts } in
            some (give_back fs held.at changed, ok file)
      ]

  unfoldable pub bsfs_open :
      Bool → Option ℕ → Option Errno → Fs → Text → Option (Fs × Outcome OpenFile)
  unfolding open_held
  bsfs_open calloc address init fs path =
      and_then (open_held calloc address init) (get_locked_level_and_index system fs path false)

  unfoldable pub bsfs_release : Fs → ℕ → Level → OpenFile → Done
  bsfs_release fs at level file = elim (bs_oft_release level.open_files level.refcounts file) [
    | err e ↦ (fs, err e)
    | ok (table, refcounts) ↦
        let changed = record level { open_files = table; refcounts = refcounts } in
        (set_level fs at (some changed), ok tt)
  ]

  -- The file system with the disk and the lock after a flush.
  flushed : Fs → ℕ → Level → Lock × Disk × Option Errno → Fs × Option Errno
  flushed fs at level (given_back, disk, ret) = (
    set_level (record fs { disk = disk }) at (some (record level { metadata_lock = given_back })),
    ret,
  )

  unfoldable pub bsfs_fsync : Fs → ℕ → Level → Bool → Option (Fs × Option Errno)
  unfolding flushed
  bsfs_fsync fs at level true = some (fs, none)
  bsfs_fsync fs at level false =
      and_then (λ after. some (flushed fs at level after))
        (level_flush_metadata system fs.disk level)

  unfoldable pub getattr_held : Fs × Outcome Held → Option (Fs × Outcome Stat)
  unfolding give_back
  getattr_held (fs, err e) = some (fs, err e)
  getattr_held (fs, ok held) =
      some (give_back fs held.at held.level, do_getattr system.host held.level.bft held.index)

  abbrev directory_stat : Stat
  directory_stat = record {
    st_nlink = 1;
    st_mode = s_ifdir + 511;
    st_size = 0;
    st_atim = 0;
    st_mtim = 0;
  }

  getattr_directory : Fs × Outcome (ℕ × Level) → Option (Fs × Outcome Stat)
  getattr_directory (fs, err e) = some (fs, err e)
  getattr_directory (fs, ok found) = some (fs, ok directory_stat)

  -- `bs_get_dirname` answers ENOTDIR for a path with a name behind the directory.
  unfoldable pub getattr_named : Fs → Text → Outcome Text → Option (Fs × Outcome Stat)
  unfolding getattr_held getattr_directory
  getattr_named fs path (err enotdir) =
      and_then getattr_held (get_locked_level_and_index system fs path false)
  getattr_named fs path (err e) = some (fs, err e)
  getattr_named fs path (ok []) = some (fs, ok directory_stat)
  getattr_named fs path (ok (x ∷ pass)) = getattr_directory (bs_level_get system fs (x ∷ pass))

  unfoldable pub bsfs_getattr : Fs → Text → Option (Fs × Outcome Stat)
  unfolding getattr_named
  bsfs_getattr fs path = getattr_named fs path (bs_get_dirname system.host path)

  unfoldable pub bsfs_fgetattr : Fs → ℕ → Level → OpenFile → Option (Fs × Outcome Stat)
  unfolding give_back
  bsfs_fgetattr fs at level file =
      and_then
        (λ taken. some (
          give_back fs at (record level { metadata_lock = taken }),
          do_getattr system.host level.bft file.index,
        ))
        (lock system.edeadlk false level.metadata_lock)

-- `bs_dir_iter_t`: a name, its attributes or a null pointer, and the user's context.
module _ {ℓ} {S : Type ℓ} (system : System) (iter : Text → Option Stat → S → Bool × S) where
  unfoldable pub bft_readdir_iter : ℕ → BftEntry → S → Bool × S
  bft_readdir_iter off ent ctx = iter ent.name (some (stat_from_bft_ent ent)) ctx

  -- The part behind the two entries that every directory has.
  readdir_level : Fs → Option (ℕ × Level) → S → Option (Fs × Outcome S)
  unfolding bft_readdir_iter give_back
  readdir_level fs none ctx = some (fs, ok ctx)
  readdir_level fs (some (at, level)) ctx =
      and_then
        (λ taken. some (
          give_back fs at (record level { metadata_lock = taken }),
          bft_iter_table_entries level.bft bft_readdir_iter ctx,
        ))
        (lock system.edeadlk false level.metadata_lock)

  readdir_dots : Fs → Option (ℕ × Level) → S → Option (Fs × Outcome S)
  unfolding readdir_level
  readdir_dots fs level ctx =
      let dot = iter (46 ∷ []) none ctx in
      let dots = iter (46 ∷ 46 ∷ []) none dot.1 in
      if dot.0
      then (if dots.0 then readdir_level fs level dots.1 else some (fs, ok dots.1))
      else some (fs, ok dot.1)

  readdir_found : S → Fs × Outcome (ℕ × Level) → Option (Fs × Outcome S)
  unfolding readdir_dots
  readdir_found ctx (fs, err e) = some (fs, err e)
  readdir_found ctx (fs, ok found) = readdir_dots fs (some found) ctx

  readdir_named : Fs → S → Outcome Text → Option (Fs × Outcome S)
  unfolding readdir_found
  readdir_named fs ctx (err e) = some (fs, err e)
  readdir_named fs ctx (ok []) = readdir_dots fs none ctx
  readdir_named fs ctx (ok (x ∷ pass)) = readdir_found ctx (bs_level_get system fs (x ∷ pass))

  -- The context of the user after the call.
  unfoldable pub bsfs_readdir : Fs → Text → S → Option (Fs × Outcome S)
  unfolding readdir_named
  bsfs_readdir fs path ctx = readdir_named fs ctx (bs_get_dirname system.host path)
