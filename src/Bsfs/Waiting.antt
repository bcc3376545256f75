-- ===== src/Bsfs/Waiting.antt =====
-- A deletion in src/bsfs.c that fails on an open file keeps the lock of its level.
use bsfs.Base.{
  ℕ, ◌≡◌, refl, ap, ◌∙◌, Bool, true, false, if◌then◌else◌, Text, Option, none, some, Outcome, Errno,
  ok, err, ebusy,
}
use bsfs.Bft.{bft_find_table_entry}
use bsfs.Bsfs.Files.{bsfs_unlink, unlink_held}
use bsfs.Bsfs.Levels.{
  Lock, unlocked, unlock, Held, bs_level_get, lock, Level, Fs, System, set_level, find_in_level,
  find_locked, get_locked_level_and_index,
}
use bsfs.Bsfs.Metadata.{do_unlink_metadata}
use bsfs.Bsfs.Named.{set_level_twice, IsNamed, taken, get_locked_level_and_index_lem}
use bsfs.Bsfs.Opened.{bs_level_get-IsFirst, bs_level_get-found}
use bsfs.Bsfs.Path.{bs_split_path}
use bsfs.Oft.{bs_oft_has}

-- What a call answers to the thread that holds the lock to write.
lock-written :
    (edeadlk : Bool → Lock → Bool) (write : Bool)
    → lock edeadlk write (taken true)
      ≡ (if edeadlk write (taken true) then some (taken true) else none)
unfolding lock
lock-written edeadlk write = refl

-- What get_locked_level_and_index gives of a level whose lock the caller holds to write: it waits
-- for ever, or, where pthread answers EDEADLK, goes on as if it had taken the lock, which it keeps
-- where it finds the name and gives back where it does not.
abbrev pub Relocked : System → Fs → ℕ → Level → Text → Bool → Option (Fs × Outcome Held) → Type 0
Relocked system after at level name write result =
    (system.edeadlk write (taken true) ≡ false → result ≡ none)
    × (system.edeadlk write (taken true) ≡ true
        → ((index : ℕ)
            → bft_find_table_entry level.bft name ≡ ok index
            → result
              ≡ some (
                after,
                ok (record {
                  at = at;
                  level = record level { metadata_lock = taken true };
                  index = index;
                }),
              ))
          × ((e : Errno)
              → bft_find_table_entry level.bft name ≡ err e
              → result
                ≡ some
                    (set_level after at (some (record level { metadata_lock = unlocked })), err e)))

relocked :
    (system : System) (fs' : Fs) (pass : Text) (at : ℕ) (level : Level)
    (other_path other_name : Text) (write : Bool)
    → bs_split_path system.host other_path ≡ ok (pass, other_name)
    → bs_level_get system
        (set_level fs' at (some (record level { metadata_lock = taken true })))
        pass
      ≡ (
        set_level fs' at (some (record level { metadata_lock = taken true })),
        ok (at, record level { metadata_lock = taken true }),
      )
    → Relocked system
        (set_level fs' at (some (record level { metadata_lock = taken true })))
        at
        level
        other_name
        write
        (get_locked_level_and_index system
          (set_level fs' at (some (record level { metadata_lock = taken true })))
          other_path
          write)
unfolding get_locked_level_and_index find_in_level find_locked unlock
relocked system fs' pass at level other_path other_name write split gets =
    let held = record level { metadata_lock = taken true } in
    let after = set_level fs' at (some held) in
    let same : get_locked_level_and_index system after other_path write
        ≡ find_locked system after at held other_name (lock system.edeadlk write (taken true)) =
      rw (get_locked_level_and_index, split) (ap (find_in_level system write other_name) gets) in
    let answers = lock-written system.edeadlk write in
    (
      λ waits. same ∙ rw (answers, waits, find_locked) refl,
      λ goes_on. (
        λ index finds.
            same
            ∙ (rw (answers, goes_on, find_locked, finds) refl
                ∙ ap (λ f. some (f, ok (record { at = at; level = held; index = index })))
                    (set_level_twice fs' at (some held) (some held))),
        λ e misses. same ∙ rw (answers, goes_on, find_locked, misses) refl,
      ),
    )

-- For a path to an open file of a level whose lock is free, bsfs_unlink answers EBUSY, and what it
-- leaves is the file system after bs_level_get but for the level's lock, which stays held to write;
-- a get_locked_level_and_index of any path into the level by the same thread then waits for ever if
-- pthread does not answer EDEADLK, and if it does goes on: where the name is found the lock stays
-- held, and where the search fails the lock is given back.
pub bsfs_unlink_keeps :
    (system : System) (fs : Fs) (path pass name : Text) (fs' : Fs) (at : ℕ) (level : Level)
    (index fuel : ℕ)
    → IsNamed system fs path pass name fs' at level index
    → bs_oft_has level.open_files index ≡ true
    → (after : Fs) × (bsfs_unlink system fuel fs path ≡ some (after, err ebusy))
      × (after ≡ set_level fs' at (some (record level { metadata_lock = taken true })))
      × ((other_path other_name : Text) (write : Bool)
          → bs_split_path system.host other_path ≡ ok (pass, other_name)
          → Relocked system after at level other_name write
              (get_locked_level_and_index system after other_path write))
unfolding bsfs_unlink unlink_held do_unlink_metadata
bsfs_unlink_keeps system fs path pass name fs' at level index fuel n busy =
    let held = record level { metadata_lock = taken true } in
    let after = set_level fs' at (some held) in
    let first = bs_level_get-IsFirst system fs pass fs' at level n.opens in
    let finds = get_locked_level_and_index_lem system fs path pass name fs' at level index n true in
    (
      after,
      rw (bsfs_unlink, finds, unlink_held, do_unlink_metadata, busy) refl,
      refl,
      λ other_path other_name write split.
          relocked system fs' pass at level other_path other_name write split
            (bs_level_get-found system fs' pass at level held first first.has_pass),
    )
