-- ===== src/Bft/Entries.antt =====
-- Entries of the table of src/bft.c: what is written is read back, cut to the widths on disk, and
-- entries do not touch one another.
use native.Mathlib.Decide.{dec_lt}
use bsfs.Base.{
  ℕ, ◌+◌, ◌*◌, ◌%◌, ◌^◌, ◌≤◌, ◌<◌, ◌≡◌, ◌≢◌, sym, ap, ◌∙◌, arith, true, false, leb, Bytes, memset,
  in_range, Text, IsText, length, char_at, char_at-length, le→leb_false, c_string, c_string-char_at,
  c_string_congr, strncpy, ok,
}
use bsfs.BitUtil.{read_be32, write_be32, read_be64, write_be64}
use bsfs.BitUtil.Endian.{
  read_be32-write_be32, write_be32_outside, read_be64-write_be64, write_be64_outside,
  read_be32_congr, read_be64_congr,
}
use bsfs.Bft.{
  BftEntry, bft_max_filename, bft_entry_size, bft_max_entries, bft_entry_init, do_read_entry,
  do_write_entry, bft_read_table_entry, bft_write_table_entry, bft_remove_table_entry,
}
use bsfs.Stego.{Host}

-- A name that fits an entry.
abbrev pub IsName : Text → Type 0
IsName s = IsText s × (length s < bft_max_filename)

-- What an entry keeps on disk: 32 bits of the cluster, the size and the mode, 64 of the times.
abbrev pub stored : BftEntry → BftEntry
stored ent = record ent {
  initial_cluster = ent.initial_cluster % 2 ^ 32;
  size = ent.size % 2 ^ 32;
  mode = ent.mode % 2 ^ 32;
  atim = ent.atim % 2 ^ 64;
  mtim = ent.mtim % 2 ^ 64;
}

-- The memory after each of the six writes of an entry. A byte below the start of the next write
-- keeps what it got.
module _ (bft : Bytes) (at : ℕ) (ent : BftEntry) where
  abbrev w₀ : Bytes
  w₀ = strncpy bft at ent.name 64

  abbrev w₁ : Bytes
  w₁ = write_be32 w₀ (at + 64) ent.initial_cluster

  abbrev w₂ : Bytes
  w₂ = write_be32 w₁ (at + 68) ent.size

  abbrev w₃ : Bytes
  w₃ = write_be32 w₂ (at + 72) ent.mode

  abbrev w₄ : Bytes
  w₄ = write_be64 w₃ (at + 76) ent.atim

  abbrev w₅ : Bytes
  w₅ = write_be64 w₄ (at + 84) ent.mtim

  keeps₄ : (a : ℕ) → a < at + 84 → w₅ a ≡ w₄ a
  keeps₄ a h = write_be64_outside w₄ (at + 84) ent.mtim a (ground arith)

  keeps₃ : (a : ℕ) → a < at + 76 → w₅ a ≡ w₃ a
  keeps₃ a h = keeps₄ a (omega arith) ∙ write_be64_outside w₃ (at + 76) ent.atim a (ground arith)

  keeps₂ : (a : ℕ) → a < at + 72 → w₅ a ≡ w₂ a
  keeps₂ a h = keeps₃ a (omega arith) ∙ write_be32_outside w₂ (at + 72) ent.mode a (ground arith)

  keeps₁ : (a : ℕ) → a < at + 68 → w₅ a ≡ w₁ a
  keeps₁ a h = keeps₂ a (omega arith) ∙ write_be32_outside w₁ (at + 68) ent.size a (ground arith)

  keeps₀ : (a : ℕ) → a < at + 64 → w₅ a ≡ w₀ a
  keeps₀ a h =
      keeps₁ a (omega arith) ∙ write_be32_outside w₀ (at + 64) ent.initial_cluster a (ground arith)

  above : (a : ℕ) → at + 92 ≤ a → w₅ a ≡ bft a
  above a h =
      write_be64_outside w₄ (at + 84) ent.mtim a (ground arith)
      ∙ (write_be64_outside w₃ (at + 76) ent.atim a (ground arith)
          ∙ (write_be32_outside w₂ (at + 72) ent.mode a (ground arith)
              ∙ (write_be32_outside w₁ (at + 68) ent.size a (ground arith)
                  ∙ (write_be32_outside w₀ (at + 64) ent.initial_cluster a (ground arith)
                      ∙ ground arith))))

  -- Only the bytes of the entry are written.
  pub do_write_entry_outside :
      (b : Bytes) (a : ℕ)
      → do_write_entry bft at ent ≡ ok b
      → in_range at bft_entry_size a ≡ false
      → b a ≡ bft a
  unfolding do_write_entry
  do_write_entry_outside b a e h =
      let fits : leb 64 (length ent.name) ≡ false = ground arith in
      let same : w₅ ≡ b = cc (e, fits) in
      ap (λ (t : Bytes). t a) (sym same) ∙ elim (dec_lt a at) [
        | yes p ↦ keeps₀ a (omega arith) ∙ ground arith
        | no p ↦ above a (ground arith)
      ]

  name_at : IsName ent.name → c_string 64 w₅ at ≡ ent.name
  name_at name =
      c_string-char_at 64 ent.name w₅ at name.0 name.1
        (λ i p. keeps₀ (at + i) (omega arith) ∙ ground (arith, ap (char_at ent.name)))

  null_at : IsName ent.name → w₅ (at + 63) ≡ 0
  null_at name =
      keeps₀ (at + 63) (omega arith)
      ∙ ground (arith, char_at-length ent.name 63 (omega (arith, name.1)), ap (char_at ent.name))

  cluster_at : read_be32 w₅ (at + 64) ≡ ent.initial_cluster % 2 ^ 32
  cluster_at =
      read_be32_congr w₅ w₁ (at + 64) (λ a p. keeps₁ a (ground arith))
      ∙ read_be32-write_be32 w₀ (at + 64) ent.initial_cluster

  size_at : read_be32 w₅ (at + 68) ≡ ent.size % 2 ^ 32
  size_at =
      read_be32_congr w₅ w₂ (at + 68) (λ a p. keeps₂ a (ground arith))
      ∙ read_be32-write_be32 w₁ (at + 68) ent.size

  mode_at : read_be32 w₅ (at + 72) ≡ ent.mode % 2 ^ 32
  mode_at =
      read_be32_congr w₅ w₃ (at + 72) (λ a p. keeps₃ a (ground arith))
      ∙ read_be32-write_be32 w₂ (at + 72) ent.mode

  atim_at : read_be64 w₅ (at + 76) ≡ ent.atim % 2 ^ 64
  atim_at =
      read_be64_congr w₅ w₄ (at + 76) (λ a p. keeps₄ a (ground arith))
      ∙ read_be64-write_be64 w₃ (at + 76) ent.atim

  -- An entry with a fitting name is written, and read back as far as the widths reach.
  pub do_read_entry-write :
      IsName ent.name
      → (b : Bytes) × (do_write_entry bft at ent ≡ ok b)
        × (do_read_entry b at ≡ ok (stored ent))
        × (b at ≡ char_at ent.name 0)
  unfolding do_write_entry do_read_entry
  do_read_entry-write name = (
    w₅,
    rw (le→leb_false (length ent.name) 64 name.1),
    rw (null_at name) (λ i. ok (record {
      name = name_at name i;
      initial_cluster = cluster_at i;
      size = size_at i;
      mode = mode_at i;
      atim = atim_at i;
      mtim = read_be64-write_be64 w₄ (at + 84) ent.mtim i;
    })),
    keeps₀ at (omega arith) ∙ ground (arith, ap (char_at ent.name)),
  )

-- A read depends on the bytes of the entry only.
pub do_read_entry_congr :
    (x y : Bytes) (at : ℕ)
    → ((a : ℕ) → in_range at bft_entry_size a ≡ true → x a ≡ y a)
    → do_read_entry x at ≡ do_read_entry y at
unfolding do_read_entry
do_read_entry_congr x y at h = rw (
  h (at + 63) (ground arith),
  c_string_congr 64 x y at (λ a p. h a (ground arith)),
  read_be32_congr x y (at + 64) (λ a p. h a (ground arith)),
  read_be32_congr x y (at + 68) (λ a p. h a (ground arith)),
  read_be32_congr x y (at + 72) (λ a p. h a (ground arith)),
  read_be64_congr x y (at + 76) (λ a p. h a (ground arith)),
  read_be64_congr x y (at + 84) (λ a p. h a (ground arith)),
)

-- Slots of different entries lie apart.
pub slots_apart :
    (i j a : ℕ)
    → i ≢ j
    → in_range (j * bft_entry_size) bft_entry_size a ≡ true
    → in_range (i * bft_entry_size) bft_entry_size a ≡ false
slots_apart i j a ne h = ground arith

pub raw_entry_other :
    (bft b : Bytes) (ent : BftEntry) (i j : ℕ)
    → i ≢ j
    → bft_write_table_entry bft ent i ≡ ok b
    → (do_read_entry b (j * bft_entry_size) ≡ do_read_entry bft (j * bft_entry_size))
      × (b (j * bft_entry_size) ≡ bft (j * bft_entry_size))
unfolding bft_write_table_entry
raw_entry_other bft b ent i j ne h =
    let w : do_write_entry bft (i * bft_entry_size) ent ≡ ok b = ground arith in
    let same : (a : ℕ) → in_range (j * bft_entry_size) bft_entry_size a ≡ true → b a ≡ bft a =
      λ a p. do_write_entry_outside bft (i * bft_entry_size) ent b a w (slots_apart i j a ne p) in
    (do_read_entry_congr b bft (j * bft_entry_size) same, same (j * bft_entry_size) (ground arith))

-- A successful bft_write_table_entry changes neither what bft_read_table_entry gives for another
-- entry nor whether that entry is free.
pub bft_write_table_entry_other :
    (host : Host) (bft b : Bytes) (ent : BftEntry) (i j : ℕ)
    → i ≢ j
    → bft_write_table_entry bft ent i ≡ ok b
    → (bft_read_table_entry host b j ≡ bft_read_table_entry host bft j)
      × (b (j * bft_entry_size) ≡ bft (j * bft_entry_size))
unfolding bft_read_table_entry
bft_write_table_entry_other host bft b ent i j ne h =
    let raw = raw_entry_other bft b ent i j ne h in (rw raw.0, raw.1)

-- An entry with a name that fits, written in range, is read back by bft_read_table_entry if there
-- is memory for its name, with the cluster, size and mode cut to 32 bits and the times to 64.
pub bft_read_table_entry-write :
    (host : Host) (bft : Bytes) (ent : BftEntry) (off : ℕ)
    → off < bft_max_entries
    → IsName ent.name
    → host.malloc (length ent.name + 1) ≡ true
    → (b : Bytes) × (bft_write_table_entry bft ent off ≡ ok b)
      × (bft_read_table_entry host b off ≡ ok (stored ent))
unfolding bft_write_table_entry bft_read_table_entry bft_entry_init
bft_read_table_entry-write host bft ent off lt name memory =
    let (b, w, r, first) = do_read_entry-write bft (off * bft_entry_size) ent name in
    (
      b,
      rw (le→leb_false off bft_max_entries lt) w,
      rw (le→leb_false off bft_max_entries lt, r, memory),
    )

-- bft_remove_table_entry in range succeeds, makes the entry free, and changes neither what is read
-- of another entry nor whether that entry is free.
pub bft_remove_table_entry_lem :
    (host : Host) (bft : Bytes) (off : ℕ)
    → off < bft_max_entries
    → (b : Bytes) × (bft_remove_table_entry bft off ≡ ok b)
      × (b (off * bft_entry_size) ≡ 0)
      × ((j : ℕ)
          → off ≢ j
          → (bft_read_table_entry host b j ≡ bft_read_table_entry host bft j)
            × (b (j * bft_entry_size) ≡ bft (j * bft_entry_size)))
unfolding bft_remove_table_entry bft_read_table_entry
bft_remove_table_entry_lem host bft off lt =
    let b = memset bft (off * bft_entry_size) 0 bft_entry_size in
    let same : (j a : ℕ)
        → off ≢ j
        → in_range (j * bft_entry_size) bft_entry_size a ≡ true
        → b a ≡ bft a =
      λ j a ne p. rw (slots_apart off j a ne p) in
    (
      b,
      ground arith,
      ground arith,
      λ j ne. (
        rw (do_read_entry_congr b bft (j * bft_entry_size) (λ a p. same j a ne p)),
        same j (j * bft_entry_size) ne (ground arith),
      ),
    )
