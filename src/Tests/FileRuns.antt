-- ===== src/Tests/FileRuns.antt =====
-- A level with one file, under the path "/a/c".
use bsfs.Bsfs.Distinct.{IsDistinct, bs_level_get-IsDistinct}
use bsfs.Bsfs.Opened.{bs_level_get-again}
use bsfs.Base.{
  Bool-cases, inl, inr, ℕ, ◌-◌, ◌%◌, ◌^◌, ◌<◌, ◌≡◌, ◌≢◌, refl, arith, Bool, true, false, ◌==◌,
  if◌then◌else◌, bit_and, bit_or, Bytes, Text, c_string, text_eq, [], ◌∷◌, none, some, ok, err,
  enoent, eio, ebusy,
}
use bsfs.Bft.{
  BftEntry, bft_find_table_entry, bft_read_table_entry, bft_entry_init, do_read_entry,
  find_entry_iter, bft_iter_table_entries,
}
use bsfs.BitUtil.{read_be32, read_be64}
use bsfs.Bsfs.Attributes.{IsUpdate, commit_write_to_bft_lem, do_utimens_lem}
use bsfs.Bsfs.Exchange.{do_exchange_lem}
use bsfs.Bsfs.Files.{bsfs_chmod, bsfs_getattr, bsfs_unlink}
use bsfs.Bsfs.Levels.{
  set_level, Level, Fs, System, unlocked, bs_level_get, get_locked_level_and_index, after_search,
  search_loop,
}
use bsfs.Bsfs.Metadata.{
  Timespec, get_timestamp, commit_write_to_bft, do_utimens, do_exchange, stat_from_bft_ent, s_ifreg,
}
use bsfs.Bsfs.Named.{taken, IsNamed, bsfs_getattr-chmod}
use bsfs.Bsfs.Names.{rename_locked}
use bsfs.Bsfs.Path.{bs_split_path, until_slash, after_slash, split_at}
use bsfs.Bsfs.Renamed.{rename_locked_free, rename_locked_self}
use bsfs.Bsfs.Waiting.{Relocked, bsfs_unlink_keeps}
use bsfs.Cipher.{AuthCipher}
use bsfs.Oft.{Oft, bs_oft_has, oft_find, find_loop}
use bsfs.Tests.Setting.{plain_cipher, roomy_host, alice, small_disk}

abbrev no_auth : AuthCipher
no_auth = record {
  aes_encrypt_auth = λ key iv plain size tag_size. err eio;
  aes_decrypt_auth = λ key iv enc size tag tag_size. err eio;
}

abbrev system : System
system = record {
  cipher = plain_cipher;
  auth = no_auth;
  host = roomy_host;
  calloc = true;
  mutex_init = none;
  rwlock_init = none;
  edeadlk = λ write held. held.writer;
}

-- The first entry has the name "c" and the mode 0x8001, the second the name "d".
abbrev table : Bytes
table a =
    if a == 0
    then 99
    else if a == 74
    then 128
    else if a == 75
    then 1
    else if a == 92
    then 100
    else 0

abbrev c_entry : BftEntry
c_entry = record { name = 99 ∷ []; initial_cluster = 0; size = 0; mode = 32769; atim = 0; mtim = 0 }

abbrev d_entry : BftEntry
d_entry = record c_entry { name = 100 ∷ []; mode = 0 }

abbrev no_files : Oft
no_files = record { buckets = λ b. []; bucket_count = 8; size = 0 }

abbrev one_file : Oft
one_file = record no_files { buckets = λ b. record { address = 40; index = 0 } ∷ [] }

abbrev level_of : Oft → Level
level_of open_files = record {
  key = alice;
  pass = 97 ∷ [];
  bft = table;
  bitmap = λ a. 0;
  open_files = open_files;
  refcounts = λ a. 1;
  metadata_lock = unlocked;
}

abbrev fs_of : Oft → Fs
fs_of open_files = record {
  levels = λ i. if i == 0 then some (level_of open_files) else none;
  disk = small_disk;
}

abbrev path : Text
path = 47 ∷ 97 ∷ 47 ∷ 99 ∷ []

reads_c : bft_read_table_entry roomy_host table 0 ≡ ok c_entry
unfolding bft_read_table_entry bft_entry_init do_read_entry read_be32 read_be64 c_string
reads_c = refl

reads_d : bft_read_table_entry roomy_host table 1 ≡ ok d_entry
unfolding bft_read_table_entry bft_entry_init do_read_entry read_be32 read_be64 c_string
reads_d = refl

finds_c : bft_find_table_entry table (99 ∷ []) ≡ ok 0
unfolding bft_find_table_entry bft_iter_table_entries find_entry_iter do_read_entry text_eq c_string
finds_c = refl

misses_e : bft_find_table_entry table (101 ∷ []) ≡ err enoent
unfolding bft_find_table_entry bft_iter_table_entries find_entry_iter do_read_entry text_eq c_string
misses_e = refl

path-IsNamed :
    (t : Oft) → IsNamed system (fs_of t) path (97 ∷ []) (99 ∷ []) (fs_of t) 0 (level_of t) 0
unfolding bs_split_path split_at until_slash after_slash bs_level_get after_search search_loop
    text_eq
path-IsNamed t = record { split = refl; opens = refl; free = refl; finds = finds_c }

table-IsBytes : (a : ℕ) → table a < 256
table-IsBytes a = ground arith

commit_write_to_bft_lem_example :
    IsUpdate roomy_host table 0
      (record c_entry { mode = bit_and 32769 (2 ^ 32 - 1 - 3072); size = 70 % 2 ^ 32 })
      (commit_write_to_bft roomy_host table 0 70 true)
commit_write_to_bft_lem_example =
    commit_write_to_bft_lem roomy_host table 0 c_entry table-IsBytes reads_c 70 true

-- The time of access is left, that of modification is set.
abbrev times : ℕ → Timespec
times i =
    if i == 0
    then record { tv_sec = 5; tv_nsec = 0x3ffffffe }
    else record { tv_sec = 6; tv_nsec = 0 }

do_utimens_lem_example :
    IsUpdate roomy_host table 0
      (record c_entry { atim = 0; mtim = 6 % 2 ^ 64 })
      (do_utimens roomy_host table 0 (some times) 9 9)
unfolding get_timestamp
do_utimens_lem_example =
    do_utimens_lem roomy_host table 0 c_entry table-IsBytes reads_c (some times) 9 9

do_exchange_lem_example :
    (b : Bytes) × (do_exchange roomy_host table 0 1 ≡ (b, none))
    × (bft_read_table_entry roomy_host b 0 ≡ ok (record c_entry { name = 100 ∷ [] }))
    × (bft_read_table_entry roomy_host b 1 ≡ ok (record d_entry { name = 99 ∷ [] }))
    × ((j : ℕ)
        → 0 ≢ j
        → 1 ≢ j
        → bft_read_table_entry roomy_host b j ≡ bft_read_table_entry roomy_host table j)
do_exchange_lem_example =
    do_exchange_lem roomy_host table 0 1 c_entry d_entry table-IsBytes (omega arith) reads_c reads_d

bsfs_getattr-chmod_example :
    (after : Fs) × (bsfs_chmod system (fs_of no_files) path 511 ≡ some (after, ok tt))
    × (bsfs_getattr system after path
        ≡ some (
          after,
          ok (
              stat_from_bft_ent
                (record c_entry { mode = bit_or (bit_and 511 4095) s_ifreg % 2 ^ 32 })),
        ))
bsfs_getattr-chmod_example =
    bsfs_getattr-chmod system (fs_of no_files) path (97 ∷ []) (99 ∷ []) (fs_of no_files) 0
      (level_of no_files) 0 (path-IsNamed no_files) c_entry 511 table-IsBytes reads_c

in_use : bs_oft_has one_file 0 ≡ true
unfolding bs_oft_has oft_find find_loop
in_use = refl

bsfs_unlink_keeps_example :
    (after : Fs) × (bsfs_unlink system 5 (fs_of one_file) path ≡ some (after, err ebusy))
    × (after
        ≡ set_level
            (fs_of one_file)
            0
            (some (record (level_of one_file) { metadata_lock = taken true })))
    × ((other_path other_name : Text) (write : Bool)
        → bs_split_path roomy_host other_path ≡ ok (97 ∷ [], other_name)
        → Relocked system after 0
            (level_of one_file)
            other_name
            write
            (get_locked_level_and_index system after other_path write))
bsfs_unlink_keeps_example =
    bsfs_unlink_keeps system (fs_of one_file) path (97 ∷ []) (99 ∷ []) (fs_of one_file) 0
      (level_of one_file) 0 5 (path-IsNamed one_file) in_use

rename_locked_free_example :
    (b : Bytes) × (rename_locked roomy_host no_files 0 table (99 ∷ []) (101 ∷ [])
      ≡ record { bft = b; answer = none; replaced = none })
    × (bft_find_table_entry b (101 ∷ []) ≡ ok 0)
    × (bft_read_table_entry roomy_host b 0 ≡ ok (record c_entry { name = 101 ∷ [] }))
    × ((j : ℕ)
        → 0 ≢ j
        → bft_read_table_entry roomy_host b j ≡ bft_read_table_entry roomy_host table j)
rename_locked_free_example =
    rename_locked_free roomy_host no_files table (99 ∷ []) (101 ∷ []) 0 0 c_entry table-IsBytes refl
      finds_c misses_e reads_c ((omega arith, omega arith, tt), omega arith) (omega arith) refl

closed : bs_oft_has no_files 0 ≡ false
unfolding bs_oft_has oft_find find_loop
closed = refl

rename_locked_self_example :
    (b : Bytes) × (rename_locked roomy_host no_files 0 table (99 ∷ []) (99 ∷ [])
      ≡ record { bft = b; answer = none; replaced = some 0 })
    × (bft_read_table_entry roomy_host b 0
        ≡ ok (record {
          name = 99 ∷ [];
          initial_cluster = 0;
          size = 0;
          mode = 0;
          atim = 0;
          mtim = 0;
        }))
rename_locked_self_example =
    rename_locked_self roomy_host no_files table (99 ∷ []) 0 c_entry table-IsBytes refl closed
      finds_c reads_c

-- The only level.
one-IsDistinct : IsDistinct (fs_of no_files).levels
one-IsDistinct i j a b hi hj ha hb same = elim (Bool-cases (i == 0)) [
  | inr other ↦ let wrong = rw other at ha in cc
  | inl first ↦ elim (Bool-cases (j == 0)) [
    | inr other ↦ let wrong = rw other at hb in cc
    | inl again ↦ ground arith
  ]
]

bs_level_get-IsDistinct_example :
    IsDistinct (bs_level_get system (fs_of no_files) (98 ∷ [])).0.levels
bs_level_get-IsDistinct_example =
    bs_level_get-IsDistinct system (fs_of no_files) (98 ∷ []) one-IsDistinct

bs_level_get-again_example :
    bs_level_get system (fs_of no_files) (97 ∷ []) ≡ (fs_of no_files, ok (0, level_of no_files))
bs_level_get-again_example =
    bs_level_get-again system (fs_of no_files) (fs_of no_files) (97 ∷ []) 0 (level_of no_files)
      (path-IsNamed no_files).opens
