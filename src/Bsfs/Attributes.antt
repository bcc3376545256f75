-- ===== src/Bsfs/Attributes.antt =====
-- What the operations of src/bsfs.c on an entry change, and what they leave alone.
use bsfs.Base.{
  ℕ, zero, suc, ◌+◌, ◌-◌, ◌*◌, ◌%◌, ◌^◌, ◌≤◌, ◌<◌, ◌≡◌, ◌≢◌, refl, sym, ap, subst, ◌∙◌, arith, Bool,
  true, false, if◌then◌else◌, ◌==◌, leb, bit_and, bit_or, Bytes, IsBytes, Text, IsText, length,
  c_string, Option, none, some, Outcome, ok, Bool-cases, inl, inr,
}
use native.Mathlib.Nat.{mod-eq_of_lt}
use bsfs.BitUtil.{read_be32, read_be64}
use bsfs.BitUtil.Endian.{read_be32-lt, read_be64-lt}
use bsfs.Oft.Chains.{bit_and-le_below}
use bsfs.Bft.{
  BftEntry, bft_entry_size, bft_max_entries, bft_entry_init, do_read_entry, bft_read_table_entry,
  bft_write_table_entry,
}
use bsfs.Bft.Entries.{IsName, stored, bft_write_table_entry_other, bft_read_table_entry-write}
use bsfs.Bsfs.Metadata.{
  Timespec, get_timestamp, do_chmod, commit_write_to_bft, write_times, do_utimens, do_rename,
  s_ifreg, s_isuid_isgid,
}
use bsfs.Stego.{Host}

c_string-IsText : (n : ℕ) (buf : Bytes) (off : ℕ) → IsBytes buf → IsText (c_string n buf off)
unfolding c_string
c_string-IsText zero buf off h = tt
c_string-IsText (suc n) buf off h = elim (Bool-cases (buf off == 0)) [
  | inl end ↦ rw end tt
  | inr more ↦ rw more (ground arith, h off, c_string-IsText n buf (off + 1) h)
]

-- A null bounds the length of the string.
c_string-length :
    (n k : ℕ) (buf : Bytes) (off : ℕ) → buf (off + k) ≡ 0 → length (c_string n buf off) ≤ k
unfolding c_string
c_string-length zero k buf off h = omega arith
c_string-length (suc n) zero buf off h =
    let here : buf off ≡ 0 = ap buf (omega arith) ∙ h in rw here (omega arith)
c_string-length (suc n) (suc k) buf off h = elim (Bool-cases (buf off == 0)) [
  | inl end ↦ rw end (omega arith)
  | inr more ↦
      let rest = c_string-length n k buf (off + 1) (ap buf (omega arith) ∙ h) in
      rw more (omega arith)
]

-- An entry as it is in memory: its numbers fit their widths.
entry_at : Bytes → ℕ → BftEntry
entry_at bft at = record {
  name = c_string 64 bft at;
  initial_cluster = read_be32 bft (at + 64);
  size = read_be32 bft (at + 68);
  mode = read_be32 bft (at + 72);
  atim = read_be64 bft (at + 76);
  mtim = read_be64 bft (at + 84);
}

entry_at-stored : (bft : Bytes) (at : ℕ) → IsBytes bft → stored (entry_at bft at) ≡ entry_at bft at
unfolding entry_at
entry_at-stored bft at h =
    rw
      (
        mod-eq_of_lt (read_be32-lt bft (at + 64) h),
        mod-eq_of_lt (read_be32-lt bft (at + 68) h),
        mod-eq_of_lt (read_be32-lt bft (at + 72) h),
        mod-eq_of_lt (read_be64-lt bft (at + 76) h),
        mod-eq_of_lt (read_be64-lt bft (at + 84) h),
      )
      refl

-- An entry that can be read has a place in the table, a name that fits, memory for it, and numbers
-- that fit their widths.
pub record IsReadable (host : Host) (off : ℕ) (ent : BftEntry) : Type 0 where
  pub within : off < bft_max_entries
  pub is_name : IsName ent.name
  pub memory : host.malloc (length ent.name + 1) ≡ true
  pub fits : stored ent ≡ ent

pub readable :
    (host : Host) (bft : Bytes) (off : ℕ) (ent : BftEntry)
    → IsBytes bft
    → bft_read_table_entry host bft off ≡ ok ent
    → IsReadable host off ent
unfolding bft_read_table_entry do_read_entry bft_entry_init entry_at
readable host bft off ent h e = elim (Bool-cases (leb bft_max_entries off)) [
  | inl out ↦ let wrong = rw out at e in cc
  | inr inside ↦ elim (Bool-cases (bft (off * bft_entry_size + 63) == 0)) [
    | inr unterminated ↦ let wrong = rw (inside, unterminated) at e in cc
    | inl null ↦
        let at = off * bft_entry_size in
        let name = c_string 64 bft at in
        elim (Bool-cases (host.malloc (length name + 1))) [
          | inr refused ↦ let wrong = rw (inside, null, refused) at e in cc
          | inl given ↦
              let q = rw (inside, null, given) at e in
              let same : entry_at bft at ≡ ent = cc in
              let bound = c_string-length 64 63 bft at (ground arith) in
              subst (IsReadable host off) same (record {
                within = ground arith;
                is_name = (c_string-IsText 64 bft at h, omega arith);
                memory = given;
                fits = entry_at-stored bft at h;
              })
        ]
  ]
]

-- The table after a write of an entry: its place holds the new entry, the other places what they
-- held.
abbrev pub IsUpdate : Host → Bytes → ℕ → BftEntry → Outcome Bytes → Type 0
IsUpdate host bft off ent o =
    (b : Bytes) × (o ≡ ok b)
    × (bft_read_table_entry host b off ≡ ok ent)
    × ((j : ℕ) → off ≢ j → bft_read_table_entry host b j ≡ bft_read_table_entry host bft j)

pub write-IsUpdate :
    (host : Host) (bft : Bytes) (off : ℕ) (ent : BftEntry)
    → off < bft_max_entries
    → IsName ent.name
    → host.malloc (length ent.name + 1) ≡ true
    → IsUpdate host bft off (stored ent) (bft_write_table_entry bft ent off)
write-IsUpdate host bft off ent within name memory =
    let (b, written, reads) = bft_read_table_entry-write host bft ent off within name memory in
    (b, written, reads, λ j ne. (bft_write_table_entry_other host bft b ent off j ne written).0)

module _ (host : Host) (bft : Bytes) (index : ℕ) (ent : BftEntry) (h : IsBytes bft)
    (e : bft_read_table_entry host bft index ≡ ok ent) where
  -- The entry is written with other numbers under the same name.
  rewrite-IsUpdate :
      (new : BftEntry)
      → new.name ≡ ent.name
      → IsUpdate host bft index (stored new) (bft_write_table_entry bft new index)
  rewrite-IsUpdate new same =
      let r = readable host bft index ent h e in
      write-IsUpdate host bft index new r.within (subst IsName (sym same) r.is_name)
        (ap (λ (s : Text). host.malloc (length s + 1)) same ∙ r.memory)

  -- The entry has the new mode.
  pub do_chmod_lem :
      (mode : ℕ)
      → IsUpdate host bft index
          (record ent { mode = bit_or (bit_and mode 4095) s_ifreg % 2 ^ 32 })
          (do_chmod host bft index mode)
  unfolding do_chmod
  do_chmod_lem mode =
      let r = readable host bft index ent h e in
      let m = bit_or (bit_and mode 4095) s_ifreg in
      let same : stored (record ent { mode = m }) ≡ record ent { mode = m % 2 ^ 32 } =
        ap (λ (x : BftEntry). record x { mode = m % 2 ^ 32 }) r.fits in
      rw e (
        subst
          (λ x.
            IsUpdate host bft index x (bft_write_table_entry bft (record ent { mode = m }) index))
          same (rewrite-IsUpdate (record ent { mode = m }) refl))

  kept_mode :
      (mask : ℕ) (killpriv : Bool)
      → mask < 2 ^ 32
      → (if killpriv then bit_and ent.mode mask else ent.mode) < 2 ^ 32
  kept_mode mask true small = omega (arith, bit_and-le_below ent.mode ent.mode mask (omega arith))
  kept_mode mask false small =
      let r = readable host bft index ent h e in
      let same = ap (λ (x : BftEntry). x.mode) r.fits in omega (arith, same)

  -- commit_write_to_bft of a readable entry of a table of bytes succeeds, stores the size cut to 32
  -- bits, takes S_ISUID and S_ISGID off the mode if it is told to, and changes neither another
  -- field nor what is read of another entry.
  pub commit_write_to_bft_lem :
      (new_size : ℕ) (killpriv : Bool)
      → IsUpdate host bft index
          (record ent {
            mode = if killpriv then bit_and ent.mode (2 ^ 32 - 1 - s_isuid_isgid) else ent.mode;
            size = new_size % 2 ^ 32;
          })
          (commit_write_to_bft host bft index new_size killpriv)
  unfolding commit_write_to_bft
  commit_write_to_bft_lem new_size killpriv =
      let r = readable host bft index ent h e in
      let m = if killpriv then bit_and ent.mode (2 ^ 32 - 1 - s_isuid_isgid) else ent.mode in
      let new = record ent { mode = m; size = new_size } in
      let small : m % 2 ^ 32 ≡ m =
        mod-eq_of_lt (kept_mode (2 ^ 32 - 1 - s_isuid_isgid) killpriv (omega arith)) in
      let same : stored new ≡ record ent { mode = m; size = new_size % 2 ^ 32 } =
        ap (λ (x : BftEntry). record x { mode = m % 2 ^ 32; size = new_size % 2 ^ 32 }) r.fits
        ∙ ap (λ k. record ent { mode = k; size = new_size % 2 ^ 32 }) small in
      rw e (
        subst (λ x. IsUpdate host bft index x (bft_write_table_entry bft new index)) same
          (rewrite-IsUpdate new refl))

  -- The time that an entry has after `do_utimens`.
  abbrev pub new_time : Option ℕ → ℕ → ℕ
  new_time none old = old
  new_time (some time) old = time % 2 ^ 64

  -- do_utimens of a readable entry of a table of bytes succeeds, stores those of the two times that
  -- get_timestamp gives, cut to 64 bits, and changes neither another field nor what is read of
  -- another entry.
  pub do_utimens_lem :
      (times : Option (ℕ → Timespec)) (now₀ now₁ : ℕ)
      → IsUpdate host bft index
          (record ent {
            atim = new_time (get_timestamp times 0 now₀) ent.atim;
            mtim = new_time (get_timestamp times 1 now₁) ent.mtim;
          })
          (do_utimens host bft index times now₀ now₁)
  unfolding do_utimens write_times
  do_utimens_lem times now₀ now₁ =
      by_times (get_timestamp times 0 now₀) (get_timestamp times 1 now₁)
    where
      fits : stored ent ≡ ent
      fits = (readable host bft index ent h e).fits

      atim_fits : ent.atim % 2 ^ 64 ≡ ent.atim
      atim_fits = ap (λ (x : BftEntry). x.atim) fits

      mtim_fits : ent.mtim % 2 ^ 64 ≡ ent.mtim
      mtim_fits = ap (λ (x : BftEntry). x.mtim) fits

      rest :
          (a m : ℕ)
          → stored (record ent { atim = a; mtim = m })
            ≡ record ent { atim = a % 2 ^ 64; mtim = m % 2 ^ 64 }
      rest a m = ap (λ (x : BftEntry). record x { atim = a % 2 ^ 64; mtim = m % 2 ^ 64 }) fits

      changed :
          (a m a' m' : ℕ)
          → a % 2 ^ 64 ≡ a'
          → m % 2 ^ 64 ≡ m'
          → IsUpdate host bft index
              (record ent { atim = a'; mtim = m' })
              (bft_write_table_entry bft (record ent { atim = a; mtim = m }) index)
      changed a m a' m' p q =
          subst
            (λ x.
              IsUpdate host bft index x
                (bft_write_table_entry bft (record ent { atim = a; mtim = m }) index))
            (rest a m ∙ rw (p, q) refl) (rewrite-IsUpdate (record ent { atim = a; mtim = m }) refl)

      by_times :
          (atim mtim : Option ℕ)
          → IsUpdate host bft index
              (record ent { atim = new_time atim ent.atim; mtim = new_time mtim ent.mtim })
              (write_times host bft index atim mtim)
      by_times none none = (bft, refl, e, λ j ne. refl)
      by_times none (some m) = rw e (changed ent.atim m _ _ atim_fits refl)
      by_times (some a) none = rw e (changed a ent.mtim _ _ refl mtim_fits)
      by_times (some a) (some m) = rw e (changed a m _ _ refl refl)

  -- The entry has the new name.
  pub do_rename_lem :
      (new_name : Text)
      → IsName new_name
      → host.malloc (length new_name + 1) ≡ true
      → IsUpdate host bft index (record ent { name = new_name }) (do_rename host bft index new_name)
  unfolding do_rename
  do_rename_lem new_name name memory =
      let r = readable host bft index ent h e in
      let new = record ent { name = new_name } in
      let same : stored new ≡ new = ap (λ (x : BftEntry). record x { name = new_name }) r.fits in
      rw e (
        subst (λ x. IsUpdate host bft index x (bft_write_table_entry bft new index)) same
          (write-IsUpdate host bft index new r.within name memory))
