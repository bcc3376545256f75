-- ===== src/Bsfs/Levels.antt =====
-- The table of open levels of src/bsfs.c and src/bsfs_priv.h, with the state of each level's
-- metadata lock. An operation that waits for ever for a lock has no result. The lock of the table
-- is given back on every path, and so is free in a sequential run.
use bsfs.Base.{
  ℕ, zero, suc, ◌+◌, ◌-◌, Bool, true, false, ◌&&◌, ◌||◌, ltb, ◌==◌, if◌then◌else◌, Bytes, Text,
  length, text_eq, Option, none, some, Errno, Outcome, ok, err, ◌>>=◌, enomem, enoent, enospc,
}
use bsfs.Bft.{bft_find_table_entry, bft_read_table, bft_write_table}
use bsfs.Bsfs.Path.{bs_split_path}
use bsfs.Cipher.{Cipher, AuthCipher}
use bsfs.Cluster.{bft_size, fs_compute_bitmap_size_from_disk, fs_read_bitmap, fs_write_bitmap}
use bsfs.Disk.{Disk}
use bsfs.Keytab.{keytab_lookup}
use bsfs.Oft.{Oft, Refcounts, bs_oft_init}
use bsfs.Stego.{StegoKey, Host, stego_user_level_count}

-- `pthread_rwlock_t`: how many hold it to read, and whether one holds it to write.
pub record Lock : Type 0 where
  pub readers : ℕ
  pub writer : Bool

abbrev pub unlocked : Lock
unlocked = record { readers = 0; writer = false }

-- In a sequential run, one that holds the lock is the caller. POSIX lets a call that would then wait
-- for ever answer EDEADLK in its place, and leave the lock as it is: glibc does so where the caller
-- holds it to write. The answer is not looked at in src/bsfs.c. `edeadlk` says where it is given, of
-- the call and the lock, and `none` stands for waiting.
unfoldable pub lock : (Bool → Lock → Bool) → Bool → Lock → Option Lock
lock edeadlk write l =
    if l.writer || write && ltb 0 l.readers
    then if edeadlk write l then some l else none
    else if write
    then some (record l { writer = true })
    else some (record l { readers = l.readers + 1 })

unfoldable pub unlock : Lock → Lock
unlock l = if l.writer then record l { writer = false } else record l { readers = l.readers - 1 }

-- The counts of the open files are kept beside the table, as in src/oft.c's model.
pub record Level : Type 0 where
  pub key : StegoKey
  pub pass : Text
  pub bft : Bytes
  pub bitmap : Bytes
  pub open_files : Oft
  pub refcounts : Refcounts
  pub metadata_lock : Lock

-- A level that is not in use has neither `fs` nor `pass`.
pub record Fs : Type 0 where
  pub levels : ℕ → Option Level
  pub disk : Disk

unfoldable pub set_level : Fs → ℕ → Option Level → Fs
set_level fs index level = record fs { levels = λ i. if i == index then level else fs.levels i }

-- What a level's opening asks of the system: OpenSSL, memory, a mutex and a lock.
pub record System : Type 0 where
  pub cipher : Cipher
  pub auth : AuthCipher
  pub host : Host
  pub calloc : Bool
  pub mutex_init : Option Errno
  pub rwlock_init : Option Errno
  -- whether `pthread_rwlock_rdlock` or, where the first argument is true, `pthread_rwlock_wrlock`
  -- answers EDEADLK where it would wait for its caller
  pub edeadlk : Bool → Lock → Bool

-- The test of an allocation's answer.
abbrev pub allocated : Bool → Outcome (Unit {0})
allocated true = ok tt
allocated false = err enomem

-- The result of `pthread_rwlock_init`.
abbrev pub checked : Option Errno → Outcome Lock
checked none = ok unlocked
checked (some e) = err e

-- How the search for a level ends.
pub data Search : Type 0 where
  found : ℕ → Level → Search
  -- with `free_idx`, where `none` stands for -1
  searched : Option ℕ → Search

unfoldable pub search_loop : ℕ → ℕ → (ℕ → Option Level) → Text → Option ℕ → Search
search_loop zero i levels pass free_idx = searched free_idx
search_loop (suc left) i levels pass free_idx = elim (levels i) [
  | none ↦ search_loop left (i + 1) levels pass (some i)
  | some level ↦ elim (text_eq level.pass pass) [
    | true ↦ found i level
    | false ↦ search_loop left (i + 1) levels pass free_idx
  ]
]

-- The level that an operation holds locked, its place, and the file's place in its table.
pub record Held : Type 0 where
  pub at : ℕ
  pub level : Level
  pub index : ℕ

module _ (system : System) where
  unfoldable pub level_init : Disk → StegoKey → Text → Outcome Level
  level_init disk key pass = do
    memory ← allocated (system.host.malloc bft_size)
    bft ← bft_read_table system.cipher system.host key disk
    more ← allocated (system.host.malloc (fs_compute_bitmap_size_from_disk disk))
    bitmap ← fs_read_bitmap system.cipher system.host key disk
    open_files ← bs_oft_init system.calloc system.mutex_init
    metadata_lock ← checked system.rwlock_init
    copied ← allocated (system.host.malloc (length pass + 1))
    ok (record {
      key = key;
      pass = pass;
      bft = bft;
      bitmap = bitmap;
      open_files = open_files;
      refcounts = λ address. 0;
      metadata_lock = metadata_lock;
    })

  unfoldable pub level_open : Fs → Text → Outcome Level
  level_open fs pass = do
    key ← keytab_lookup system.cipher system.auth fs.disk pass
    level_init fs.disk key pass

  unfoldable pub open_free : Fs → Text → Option ℕ → Fs × Outcome (ℕ × Level)
  open_free fs pass none = (fs, err enoent)
  open_free fs pass (some index) = elim (level_open fs pass) [
    | err e ↦ (fs, err e)
    | ok level ↦ (set_level fs index (some level), ok (index, level))
  ]

  unfoldable pub after_search : Fs → Text → Search → Fs × Outcome (ℕ × Level)
  unfolding open_free
  after_search fs pass (found index level) = (fs, ok (index, level))
  after_search fs pass (searched free_idx) = open_free fs pass free_idx

  -- The level with its place in the table.
  unfoldable pub bs_level_get : Fs → Text → Fs × Outcome (ℕ × Level)
  unfolding after_search search_loop
  bs_level_get fs pass =
      after_search fs pass (search_loop stego_user_level_count 0 fs.levels pass none)

  -- The lock stays taken where the name is found.
  unfoldable pub find_locked : Fs → ℕ → Level → Text → Option Lock → Option (Fs × Outcome Held)
  find_locked fs at level name none = none
  find_locked fs at level name (some taken) =
      let locked = record level { metadata_lock = taken } in
      elim (bft_find_table_entry level.bft name) [
        | ok index ↦
            some (
              set_level fs at (some locked),
              ok (record { at = at; level = locked; index = index }),
            )
        | err e ↦
            some (set_level fs at (some (record level { metadata_lock = unlock taken })), err e)
      ]

  unfoldable pub find_in_level : Bool → Text → Fs × Outcome (ℕ × Level) → Option (Fs × Outcome Held)
  unfolding find_locked
  find_in_level write name (fs, err e) = some (fs, err e)
  find_in_level write name (fs, ok (at, level)) =
      find_locked fs at level name (lock system.edeadlk write level.metadata_lock)

  unfoldable pub get_locked_level_and_index : Fs → Text → Bool → Option (Fs × Outcome Held)
  unfolding find_in_level
  get_locked_level_and_index fs path write = elim (bs_split_path system.host path) [
    | err e ↦ some (fs, err e)
    | ok (pass, name) ↦ find_in_level write name (bs_level_get fs pass)
  ]

  -- The table is written if the bitmap was. The lock is given back at the end.
  unfoldable pub level_flush_metadata : Disk → Level → Option (Lock × Disk × Option Errno)
  level_flush_metadata disk level = elim (lock system.edeadlk false level.metadata_lock) [
    | none ↦ none
    | some taken ↦ elim (fs_write_bitmap system.cipher system.host level.key disk level.bitmap) [
      | err e ↦ some (unlock taken, disk, some e)
      | ok half ↦ elim (bft_write_table system.cipher system.host level.key half level.bft) [
        | err e ↦ some (unlock taken, half, some e)
        | ok done ↦ some (unlock taken, done, none)
      ]
    ]
  ]

  -- The disk after the levels from `i` on are destroyed. What a flush answers is not looked at.
  unfoldable pub destroy_loop : ℕ → ℕ → (ℕ → Option Level) → Disk → Option Disk
  destroy_loop zero i levels disk = some disk
  destroy_loop (suc left) i levels disk = elim (levels i) [
    | none ↦ destroy_loop left (i + 1) levels disk
    | some level ↦ elim (level_flush_metadata disk level) [
      | none ↦ none
      | some (given_back, flushed, ret) ↦ destroy_loop left (i + 1) levels flushed
    ]
  ]

  unfoldable pub bsfs_destroy : Fs → Option Disk
  unfolding destroy_loop
  bsfs_destroy fs = destroy_loop stego_user_level_count 0 fs.levels fs.disk

-- The arguments are the answers of `calloc`, `pthread_mutex_init` and `disk_create`.
unfoldable pub bsfs_init : Bool → Option Errno → Outcome Disk → Outcome Fs
bsfs_init calloc mutex_init disk = do
  memory ← allocated calloc
  level_lock ← checked mutex_init
  created ← disk
  if fs_compute_bitmap_size_from_disk created == 0
      then err enospc
      else ok (record { levels = λ i. none; disk = created })
