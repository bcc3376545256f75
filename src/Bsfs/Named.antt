-- ===== src/Bsfs/Named.antt =====
-- The files that paths name in src/bsfs.c, and the operations on them from end to end.
use bsfs.Base.{
  ℕ, ◌+◌, ◌%◌, ◌^◌, ◌<◌, ◌≡◌, refl, sym, ap, subst, ◌∙◌, arith, Bool, true, false, bit_and, bit_or,
  Bytes, IsBytes, Text, length, [], ◌∷◌, Option, none, some, Bool-cases, inl, inr, le→leb_false, ok,
  err, enotdir, fun_ext,
}
use bsfs.Bft.{BftEntry, bft_max_entries, bft_entry_init, bft_find_table_entry, bft_read_table_entry}
use bsfs.Bft.Found.{bft_find_table_entry-IsFound, bft_find_table_entry-rewrite}
use bsfs.Bsfs.Attributes.{readable, do_chmod_lem}
use bsfs.Bsfs.Files.{
  give_back, store_table, edit_held, bsfs_chmod, bsfs_getattr, getattr_held, getattr_named,
}
use bsfs.Bsfs.Levels.{
  Lock, unlocked, lock, unlock, Level, Fs, System, set_level, find_locked, find_in_level,
  bs_level_get, get_locked_level_and_index,
}
use bsfs.Bsfs.Metadata.{stat_from_bft_ent, do_getattr, do_chmod, s_ifreg}
use bsfs.Bsfs.Opened.{bs_level_get-IsFirst, bs_level_get-found}
use bsfs.Bsfs.Path.{
  bs_split_path, split_at, bs_get_dirname, dirname_of, after_slash, strip, until_slash,
  bs_split_path-ok,
}
use bsfs.Stego.{Host}

-- The path names a file of a level that is open or can be opened, and whose lock is free.
pub record IsNamed (system : System) (fs : Fs) (path pass name : Text) (fs' : Fs) (at : ℕ)
    (level : Level) (index : ℕ) : Type 0 where
  pub split : bs_split_path system.host path ≡ ok (pass, name)
  pub opens : bs_level_get system fs pass ≡ (fs', ok (at, level))
  pub free : level.metadata_lock ≡ unlocked
  pub finds : bft_find_table_entry level.bft name ≡ ok index

-- The lock as it is held to read or to write.
abbrev pub taken : Bool → Lock
taken true = record { readers = 0; writer = true }
taken false = record { readers = 1; writer = false }

pub lock-unlocked :
    (edeadlk : Bool → Lock → Bool) (write : Bool) → lock edeadlk write unlocked ≡ some (taken write)
unfolding lock
lock-unlocked edeadlk true = refl
lock-unlocked edeadlk false = refl

pub unlock-taken : (write : Bool) → unlock (taken write) ≡ unlocked
unfolding unlock
unlock-taken true = refl
unlock-taken false = refl

pub set_level_twice :
    (fs : Fs) (at : ℕ) (a b : Option Level) → set_level (set_level fs at a) at b ≡ set_level fs at b
unfolding set_level
set_level_twice fs at a b =
    ap (λ (f : ℕ → Option Level). record fs { levels = f }) (fun_ext (λ i. ground arith))

-- A path that is split names no directory.
bs_get_dirname-split :
    (host : Host) (path pass name : Text)
    → bs_split_path host path ≡ ok (pass, name)
    → bs_get_dirname host path ≡ err enotdir
unfolding bs_split_path bs_get_dirname split_at dirname_of
bs_get_dirname-split host path pass name h = by_slash (after_slash (strip path)) h
  where
    by_slash :
        (o : Option Text)
        → split_at host (until_slash (strip path)) o ≡ ok (pass, name)
        → dirname_of host (strip path) o ≡ err enotdir
    by_slash none q = cc q
    by_slash (some []) q = cc q
    by_slash (some (x ∷ xs)) q = refl

module _ (system : System) (fs : Fs) (path pass name : Text) (fs' : Fs) (at : ℕ) (level : Level)
    (index : ℕ) (n : IsNamed system fs path pass name fs' at level index) where
  -- The level that is held.
  abbrev held_level : Bool → Level
  held_level write = record level { metadata_lock = taken write }

  pub get_locked_level_and_index_lem :
      (write : Bool)
      → get_locked_level_and_index system fs path write
        ≡ some (
          set_level fs' at (some (held_level write)),
          ok (record { at = at; level = held_level write; index = index }),
        )
  unfolding get_locked_level_and_index find_in_level find_locked
  get_locked_level_and_index_lem write =
      let found_locked : find_in_level system write name (fs', ok (at, level))
          ≡ some (
            set_level fs' at (some (held_level write)),
            ok (record { at = at; level = held_level write; index = index }),
          ) =
        rw (find_in_level, n.free, lock-unlocked system.edeadlk write, find_locked, n.finds) refl in
      rw (get_locked_level_and_index, n.split)
        (ap (find_in_level system write name) n.opens ∙ found_locked)

  -- The file is still named after its level has changed, if the search finds it in the table.
  pub still_IsNamed :
      (changed : Level)
      → changed.pass ≡ level.pass
      → changed.metadata_lock ≡ unlocked
      → bft_find_table_entry changed.bft name ≡ ok index
      → IsNamed system
          (set_level fs' at (some changed))
          path
          pass
          name
          (set_level fs' at (some changed))
          at
          changed
          index
  still_IsNamed changed same free finds =
      let first = bs_level_get-IsFirst system fs pass fs' at level n.opens in
      record {
        split = n.split;
        opens = bs_level_get-found system fs' pass at level changed first (same ∙ first.has_pass);
        free = free;
        finds = finds;
      }

  getattr_lem :
      (ent : BftEntry)
      → bft_read_table_entry system.host level.bft index ≡ ok ent
      → bsfs_getattr system fs path
        ≡ some (set_level fs' at (some level), ok (stat_from_bft_ent ent))
  unfolding bsfs_getattr getattr_named getattr_held do_getattr give_back
  getattr_lem ent e =
      rw
        (
          bsfs_getattr,
          bs_get_dirname-split system.host path pass name n.split,
          getattr_named,
          get_locked_level_and_index_lem false,
          do_getattr,
          e,
          unlock-taken false,
          set_level_twice fs' at (some (held_level false))
              (some (record level { metadata_lock = unlocked })),
          sym n.free,
        )
        refl

-- The entry that a search finds is read with the name.
pub read-name :
    (host : Host) (bft : Bytes) (index : ℕ) (ent : BftEntry) (name : Text)
    → bft_read_table_entry host bft index ≡ ok ent
    → bft_find_table_entry bft name ≡ ok index
    → ent.name ≡ name
unfolding bft_read_table_entry bft_entry_init
read-name host bft index ent name e finds =
    let f = bft_find_table_entry-IsFound bft name index finds in
    let inside = le→leb_false index bft_max_entries f.within in
    elim (Bool-cases (host.malloc (length f.ent.name + 1))) [
      | inl given ↦
          let q = rw (inside, f.entry, given) at e in
          let same : f.ent ≡ ent = cc in ap (λ (x : BftEntry). x.name) (sym same) ∙ f.has_name
      | inr refused ↦ let wrong = rw (inside, f.entry, refused) at e in cc
    ]

do_chmod-finds :
    (host : Host) (bft b : Bytes) (index : ℕ) (ent : BftEntry) (mode : ℕ) (name : Text)
    → IsBytes bft
    → 0 < length name
    → ent.name ≡ name
    → bft_read_table_entry host bft index ≡ ok ent
    → do_chmod host bft index mode ≡ ok b
    → bft_find_table_entry bft name ≡ ok index
    → bft_find_table_entry b name ≡ ok index
unfolding do_chmod
do_chmod-finds host bft b index ent mode name h filled same e done finds =
    let r = readable host bft index ent h e in
    let new = record ent { mode = bit_or (bit_and mode 4095) s_ifreg } in
    subst (λ s. bft_find_table_entry b s ≡ ok index) same
      (bft_find_table_entry-rewrite bft b new index r.is_name
        (subst (λ (s : Text). 0 < length s) (sym same) filled)
        (subst (λ s. bft_find_table_entry bft s ≡ ok index) (sym same) finds) (rw e at done))

module _ (system : System) (fs : Fs) (path pass name : Text) (fs' : Fs) (at : ℕ) (level : Level)
    (index : ℕ) (n : IsNamed system fs path pass name fs' at level index) where
  -- For a path to a readable entry of a level that is open or can be opened, with a free lock and a
  -- table of bytes, bsfs_chmod succeeds, and bsfs_getattr of the path then succeeds with the
  -- entry's attributes and the new mode: the low 12 bits of the argument and the mark of a regular
  -- file, cut to 32 bits; it leaves the file system as it is.
  pub bsfs_getattr-chmod :
      (ent : BftEntry) (mode : ℕ)
      → IsBytes level.bft
      → bft_read_table_entry system.host level.bft index ≡ ok ent
      → (after : Fs) × (bsfs_chmod system fs path mode ≡ some (after, ok tt))
        × (bsfs_getattr system after path
            ≡ some (
              after,
              ok (
                  stat_from_bft_ent
                    (record ent { mode = bit_or (bit_and mode 4095) s_ifreg % 2 ^ 32 })),
            ))
  unfolding bsfs_chmod edit_held store_table give_back
  bsfs_getattr-chmod ent mode h e =
      let filled = (bs_split_path-ok system.host path pass name n.split).3 in
      let same = read-name system.host level.bft index ent name e n.finds in
      let (b, done, reads, others) = do_chmod_lem system.host level.bft index ent h e mode in
      let held = record level { metadata_lock = taken true } in
      let changed = record level { bft = b; metadata_lock = unlocked } in
      let after = set_level fs' at (some changed) in
      let finds : bft_find_table_entry b name ≡ ok index =
        do_chmod-finds system.host level.bft b index ent mode name h filled same e done n.finds in
      let runs : edit_held system (λ bft i. do_chmod system.host bft i mode)
            (set_level fs' at (some held), ok (record { at = at; level = held; index = index }))
          ≡ some (after, ok tt) =
        rw
          (
            edit_held,
            done,
            store_table,
            unlock-taken true,
            set_level_twice fs' at (some held) (some changed),
          )
          refl in
      (
        after,
        rw
            (
              bsfs_chmod,
              get_locked_level_and_index_lem system fs path pass name fs' at level index n true,
            )
            runs,
        getattr_lem system after path pass name after at changed index
              (still_IsNamed system fs path pass name fs' at level index n changed refl refl finds)
              _ reads
            ∙ ap
                (λ f. some (
                  f,
                  ok (
                      stat_from_bft_ent
                        (record ent { mode = bit_or (bit_and mode 4095) s_ifreg % 2 ^ 32 })),
                ))
                (set_level_twice fs' at (some changed) (some changed)),
      )
