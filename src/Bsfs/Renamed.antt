-- ===== src/Bsfs/Renamed.antt =====
-- What `bsfs_rename` of src/bsfs.c does to the table of its level.
use bsfs.Base.{
  ℕ, ◌+◌, ◌*◌, ◌<◌, ◌≡◌, ◌≢◌, refl, sym, ap, subst, ◌∙◌, arith, true, false, ◌==◌, Bytes, IsBytes,
  memset, Text, length, c_string, [], none, some, Errno, ok, err, enoent, le→leb_false, Bool-cases,
  inl, inr, eio,
}
use bsfs.Bft.{
  BftEntry, bft_entry_size, bft_max_entries, bft_entry_init, do_read_entry, bft_read_table_entry,
  bft_remove_table_entry, bft_find_table_entry,
}
use bsfs.Bft.Entries.{IsName, do_read_entry_congr}
use bsfs.Bft.Found.{bft_find_table_entry-IsFound}
use bsfs.Bft.Search.{
  FindResult, not_found, found_at, unreadable, IsPassed, bft_find_table_entry-FindResult,
  bft_find_table_entry-write,
}
use bsfs.Bsfs.Attributes.{readable, do_rename_lem}
use bsfs.Bsfs.Metadata.{do_rename, do_unlink_metadata}
use bsfs.Bsfs.Named.{read-name}
use bsfs.Bsfs.Names.{Renaming, is_enoent, rename_entry, replace_entry, rename_to, rename_locked}
use bsfs.Oft.{Oft, bs_oft_has}
use bsfs.BitUtil.{read_be32, read_be64}
use bsfs.Stego.{Host}

-- A search that answers ENOENT passed every entry, if no entry's own error is ENOENT.
do_read_entry-err :
    (bft : Bytes) (at : ℕ) (e : Errno) → do_read_entry bft at ≡ err e → is_enoent e ≡ false
unfolding do_read_entry is_enoent
do_read_entry-err bft at e h = elim (Bool-cases (bft (at + 63) == 0)) [
  | inl null ↦ let wrong = rw null at h in cc
  | inr other ↦ let q = rw other at h in let same : eio ≡ e = cc in ap is_enoent (sym same)
]

pub missing :
    (bft : Bytes) (name : Text)
    → bft_find_table_entry bft name ≡ err enoent
    → (j : ℕ) → j < bft_max_entries
    → IsPassed bft name j
unfolding is_enoent
missing bft name h = by_result (bft_find_table_entry-FindResult bft name)
  where
    by_result :
        FindResult bft name (bft_find_table_entry bft name)
        → (j : ℕ) → j < bft_max_entries
        → IsPassed bft name j
    by_result (not_found e all) j lt = all j (omega arith) lt
    by_result (found_at s ent p q e) j lt = cc (h, e)
    by_result (unreadable s x p e) j lt =
        let same : x ≡ enoent = cc (h, e) in
        let no = do_read_entry-err bft (s.off * bft_entry_size) x p in
        let wrong : true ≡ false = ap is_enoent (sym same) ∙ no in cc

-- For a table of bytes with a readable entry under the old name and none under the new, a new name
-- that fits and is not empty, memory for it, and flags other than RENAME_EXCHANGE, the part of
-- bsfs_rename under the lock succeeds and replaces nothing: the new name is found at the entry's
-- place, with its other fields, and the other entries are as they were.
pub rename_locked_free :
    (host : Host) (open_files : Oft) (bft : Bytes) (old_name new_name : Text) (index flags : ℕ)
    (ent : BftEntry)
    → IsBytes bft
    → ((flags == 2) ≡ false)
    → bft_find_table_entry bft old_name ≡ ok index
    → bft_find_table_entry bft new_name ≡ err enoent
    → bft_read_table_entry host bft index ≡ ok ent
    → IsName new_name
    → 0 < length new_name
    → host.malloc (length new_name + 1) ≡ true
    → (b : Bytes) × (rename_locked host open_files flags bft old_name new_name
        ≡ record { bft = b; answer = none; replaced = none })
      × (bft_find_table_entry b new_name ≡ ok index)
      × (bft_read_table_entry host b index ≡ ok (record ent { name = new_name }))
      × ((j : ℕ) → index ≢ j → bft_read_table_entry host b j ≡ bft_read_table_entry host bft j)
unfolding rename_locked rename_to rename_entry is_enoent do_rename
rename_locked_free host open_files bft old_name new_name index flags ent h plain finds absent e name
      filled memory =
    let (b, done, reads, others) = do_rename_lem host bft index ent h e new_name name memory in
    let new = record ent { name = new_name } in
    let f = bft_find_table_entry-IsFound bft old_name index finds in
    let (c, written, found) =
      bft_find_table_entry-write bft new index f.within name filled
        (λ j ne lt. missing bft new_name absent j lt) in
    let same : c ≡ b = cc (written, rw (do_rename, e) at done) in
    (
      b,
      rw (rename_locked, finds, absent, rename_to, plain, rename_entry, done) refl,
      ap (λ m. bft_find_table_entry m new_name) (sym same) ∙ found,
      reads,
      others,
    )

-- The entry without a name, of a file without bytes.
abbrev empty_entry : BftEntry
empty_entry = record { name = []; initial_cluster = 0; size = 0; mode = 0; atim = 0; mtim = 0 }

zeros_entry : (at : ℕ) → do_read_entry (λ a. 0) at ≡ ok empty_entry
unfolding do_read_entry c_string read_be32 read_be64
zeros_entry at = refl

-- The entry that is removed reads as the empty one.
read-removed :
    (host : Host) (bft : Bytes) (index : ℕ)
    → index < bft_max_entries
    → host.malloc 1 ≡ true
    → bft_read_table_entry host (memset bft (index * bft_entry_size) 0 bft_entry_size) index
      ≡ ok empty_entry
unfolding bft_read_table_entry bft_entry_init
read-removed host bft index within memory =
    let at = index * bft_entry_size in
    let reads : do_read_entry (memset bft at 0 bft_entry_size) at ≡ ok empty_entry =
      do_read_entry_congr (memset bft at 0 bft_entry_size) (λ a. 0) at (λ a p. rw p refl)
      ∙ zeros_entry at in
    rw (le→leb_false index bft_max_entries within, reads, memory) refl

-- For a table of bytes with a readable entry of a file that is not open, the part of bsfs_rename
-- under the lock, with flags 0 and the same name twice, succeeds, leaves the name on an entry of
-- the cluster 0 without bytes, mode and times, and hands the file's first cluster on to be freed.
pub rename_locked_self :
    (host : Host) (open_files : Oft) (bft : Bytes) (name : Text) (index : ℕ) (ent : BftEntry)
    → IsBytes bft
    → host.malloc 1 ≡ true
    → bs_oft_has open_files index ≡ false
    → bft_find_table_entry bft name ≡ ok index
    → bft_read_table_entry host bft index ≡ ok ent
    → (b : Bytes) × (rename_locked host open_files 0 bft name name
        ≡ record { bft = b; answer = none; replaced = some ent.initial_cluster })
      × (bft_read_table_entry host b index
          ≡ ok
              (record { name = name; initial_cluster = 0; size = 0; mode = 0; atim = 0; mtim = 0 }))
unfolding rename_locked rename_to rename_entry replace_entry do_unlink_metadata
    bft_remove_table_entry
rename_locked_self host open_files bft name index ent h memory closed finds e =
    let r = readable host bft index ent h e in
    let same = read-name host bft index ent name e finds in
    let removed = memset bft (index * bft_entry_size) 0 bft_entry_size in
    let bytes : IsBytes removed = λ a. let q = h a in ground (arith, q) in
    let empty = read-removed host bft index r.within memory in
    let (b, done, reads, others) =
      do_rename_lem host removed index empty_entry bytes empty name (subst IsName same r.is_name)
        (subst (λ (s : Text). host.malloc (length s + 1) ≡ true) same r.memory) in
    let result : Renaming = record {
      bft = b;
      answer = none;
      replaced = some ent.initial_cluster;
    } in
    let replaces : rename_to host open_files 0 bft index name (ok index) ≡ result =
      rw
        (
          rename_to,
          replace_entry,
          do_unlink_metadata,
          closed,
          e,
          bft_remove_table_entry,
          le→leb_false index bft_max_entries r.within,
          rename_entry,
          done,
        )
        refl in
    (
      b,
      rw (rename_locked, finds) (ap (rename_to host open_files 0 bft index name) finds ∙ replaces),
      reads,
    )
