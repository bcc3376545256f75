-- ===== src/Tests/BftRuns.antt =====
-- Entries and searches in small tables.
use bsfs.Base.{◌+◌, ◌*◌, ◌^◌, ◌≡◌, inl, refl, arith, Bytes, [], ◌∷◌, ok}
use bsfs.Bft.{
  BftEntry, bft_entry_size, bft_find_table_entry, bft_read_table_entry, bft_write_table_entry,
}
use bsfs.Bft.Entries.{IsName, stored, bft_write_table_entry_other, bft_read_table_entry-write}
use bsfs.Bft.Search.{FindResult, bft_find_table_entry-FindResult, bft_find_table_entry-write}
use bsfs.Tests.Setting.{roomy_host}

abbrev empty : Bytes
empty a = 0

abbrev notes : BftEntry
notes = record {
  name = b'n' ∷ b'o' ∷ b't' ∷ b'e' ∷ [];
  initial_cluster = 3;
  size = 2 ^ 32 + 5;
  mode = 0x81a4;
  atim = 1;
  mtim = 2;
}

notes-IsName : IsName notes.name
notes-IsName = omega arith

bft_read_table_entry-write_example :
    (b : Bytes) × (bft_write_table_entry empty notes 2 ≡ ok b)
    × (bft_read_table_entry roomy_host b 2 ≡ ok (stored notes))
bft_read_table_entry-write_example =
    bft_read_table_entry-write roomy_host empty notes 2 (omega arith) notes-IsName refl

-- A table with the entry.
table_made :
    (b : Bytes) × (bft_write_table_entry empty notes 2 ≡ ok b)
    × (bft_read_table_entry roomy_host b 2 ≡ ok (stored notes))
table_made = bft_read_table_entry-write roomy_host empty notes 2 (omega arith) notes-IsName refl

abbrev table : Bytes
table = table_made.0

bft_write_table_entry_other_example :
    (bft_read_table_entry roomy_host table 1 ≡ bft_read_table_entry roomy_host empty 1)
    × (table (1 * bft_entry_size) ≡ empty (1 * bft_entry_size))
bft_write_table_entry_other_example =
    bft_write_table_entry_other roomy_host empty table notes 2 1 (omega arith) table_made.1

bft_find_table_entry-FindResult_example :
    FindResult empty notes.name (bft_find_table_entry empty notes.name)
bft_find_table_entry-FindResult_example = bft_find_table_entry-FindResult empty notes.name

bft_find_table_entry-write_example :
    (b : Bytes) × (bft_write_table_entry empty notes 2 ≡ ok b)
    × (bft_find_table_entry b notes.name ≡ ok 2)
bft_find_table_entry-write_example =
    bft_find_table_entry-write empty notes 2 (omega arith) notes-IsName (omega arith)
      (λ j ne h. inl refl)
