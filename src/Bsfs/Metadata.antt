-- ===== src/Bsfs/Metadata.antt =====
-- The operations of src/bsfs.c on one or two entries of a level's table, without their locks.
use bsfs.Base.{
  ℕ, ◌+◌, ◌-◌, ◌^◌, Bool, if◌then◌else◌, ◌==◌, bit_and, bit_or, Bytes, Text, Option, none, some,
  Errno, Outcome, ok, err, ◌>>=◌, ebusy,
}
use bsfs.Bft.{BftEntry, bft_read_table_entry, bft_write_table_entry, bft_remove_table_entry}
use bsfs.Oft.{Oft, bs_oft_has}
use bsfs.Stego.{Host}

-- `S_IFREG`, `S_IFDIR` and `S_ISUID | S_ISGID`
abbrev pub s_ifreg : ℕ
s_ifreg = 32768

abbrev pub s_ifdir : ℕ
s_ifdir = 16384

abbrev pub s_isuid_isgid : ℕ
s_isuid_isgid = 2048 + 1024

-- `struct stat`, as far as it is set.
pub record Stat : Type 0 where
  pub st_nlink : ℕ
  pub st_mode : ℕ
  pub st_size : ℕ
  pub st_atim : ℕ
  pub st_mtim : ℕ

unfoldable pub stat_from_bft_ent : BftEntry → Stat
stat_from_bft_ent ent = record {
  st_nlink = 1;
  st_mode = ent.mode;
  st_size = ent.size;
  st_atim = ent.atim;
  st_mtim = ent.mtim;
}

-- `struct timespec`, and the two special values of its nanoseconds.
pub record Timespec : Type 0 where
  pub tv_sec : ℕ
  pub tv_nsec : ℕ

abbrev pub utime_now : ℕ
utime_now = 0x3fffffff

abbrev pub utime_omit : ℕ
utime_omit = 0x3ffffffe

-- `times` is a null pointer or has two elements; `now` is what `time` answers.
unfoldable pub get_timestamp : Option (ℕ → Timespec) → ℕ → ℕ → Option ℕ
get_timestamp none index now = some now
get_timestamp (some times) index now =
    if (times index).tv_nsec == utime_omit
    then none
    else if (times index).tv_nsec == utime_now
    then some now
    else some (times index).tv_sec

-- The value that is stored if there is one to store.
abbrev pub or_else : Option ℕ → ℕ → ℕ
or_else none old = old
or_else (some new) old = new

module _ (host : Host) (bft : Bytes) (index : ℕ) where
  unfoldable pub do_getattr : Outcome Stat
  do_getattr = do ent ← bft_read_table_entry host bft index; ok (stat_from_bft_ent ent)

  -- The table after the call.
  unfoldable pub do_chmod : ℕ → Outcome Bytes
  do_chmod mode = do
    ent ← bft_read_table_entry host bft index
    let changed = record ent { mode = bit_or (bit_and mode 4095) s_ifreg }
    bft_write_table_entry bft changed index

  -- The complement of the two bits is one of 32 bits.
  unfoldable pub commit_write_to_bft : ℕ → Bool → Outcome Bytes
  commit_write_to_bft new_size killpriv = do
    ent ← bft_read_table_entry host bft index
    let mode = if killpriv then bit_and ent.mode (2 ^ 32 - 1 - s_isuid_isgid) else ent.mode
    let changed = record ent { mode = mode; size = new_size }
    bft_write_table_entry bft changed index

  unfoldable pub write_times : Option ℕ → Option ℕ → Outcome Bytes
  write_times none none = ok bft
  write_times atim mtim = do
    ent ← bft_read_table_entry host bft index
    let changed = record ent { atim = or_else atim ent.atim; mtim = or_else mtim ent.mtim }
    bft_write_table_entry bft changed index

  -- The clock is asked twice.
  unfoldable pub do_utimens : Option (ℕ → Timespec) → ℕ → ℕ → Outcome Bytes
  unfolding write_times
  do_utimens times now₀ now₁ = write_times (get_timestamp times 0 now₀) (get_timestamp times 1 now₁)

  unfoldable pub do_rename : Text → Outcome Bytes
  do_rename new_name = do
    ent ← bft_read_table_entry host bft index
    let changed = record ent { name = new_name }
    bft_write_table_entry bft changed index

  -- The first cluster of the file is stored before the entry is removed.
  unfoldable pub do_unlink_metadata : Oft → Outcome (Bytes × ℕ)
  do_unlink_metadata open_files = if bs_oft_has open_files index then err ebusy else do
    ent ← bft_read_table_entry host bft index
    removed ← bft_remove_table_entry bft index
    ok (removed, ent.initial_cluster)

-- The second write of an exchange. Where it fails, the first one stays.
unfoldable pub second_write : Bytes → BftEntry → ℕ → Bytes × Option Errno
second_write bft ent index = elim (bft_write_table_entry bft ent index) [
  | err e ↦ (bft, some e)
  | ok written ↦ (written, none)
]

-- The table after the call, and the error if there is one.
unfoldable pub do_exchange : Host → Bytes → ℕ → ℕ → Bytes × Option Errno
unfolding second_write
do_exchange host bft src dest = elim (bft_read_table_entry host bft src) [
  | err e ↦ (bft, some e)
  | ok src_entry ↦ elim (bft_read_table_entry host bft dest) [
    | err e ↦ (bft, some e)
    | ok dest_entry ↦
        elim (bft_write_table_entry bft (record src_entry { name = dest_entry.name }) src) [
          | err e ↦ (bft, some e)
          | ok written ↦ second_write written (record dest_entry { name = src_entry.name }) dest
        ]
  ]
]
