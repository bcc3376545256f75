-- ===== src/Bft.antt =====
-- src/bft.c: the table of files of a level, 8192 entries of 92 bytes.
pub mod Entries
pub mod Search
pub mod Found
use bsfs.Base.{
  ℕ, zero, suc, ◌+◌, ◌-◌, ◌*◌, Bool, true, false, not, ltb, leb, ◌==◌, if◌then◌else◌, Bytes, memset,
  Text, length, c_string, text_eq, strncpy, Outcome, ok, err, ◌>>=◌, einval, enospc, eio, enomem,
  enoent, enametoolong,
}
use bsfs.BitUtil.{read_be32, write_be32, read_be64, write_be64}
use bsfs.Cipher.{Cipher}
use bsfs.Cluster.{bft_size}
use bsfs.Disk.{Disk}
use bsfs.Stego.{StegoKey, Host, stego_read_level, stego_write_level}

abbrev pub bft_max_filename : ℕ
bft_max_filename = 64

abbrev pub bft_entry_size : ℕ
bft_entry_size = bft_max_filename + 4 + 2 * 4 + 2 * 8

abbrev pub bft_max_entries : ℕ
bft_max_entries = 8192

pub record BftEntry : Type 0 where
  pub name : Text
  pub initial_cluster : ℕ
  pub size : ℕ
  pub mode : ℕ
  pub atim : ℕ
  pub mtim : ℕ

-- `strdup` asks for the string and its null.
unfoldable pub bft_entry_init : Host → Text → ℕ → ℕ → ℕ → ℕ → ℕ → Outcome BftEntry
bft_entry_init host name size mode initial_cluster atim mtim =
    if host.malloc (length name + 1)
    then ok (record {
      name = name;
      initial_cluster = initial_cluster;
      size = size;
      mode = mode;
      atim = atim;
      mtim = mtim;
    })
    else err enomem

free_loop : ℕ → Bytes → ℕ → Outcome ℕ
free_loop zero bft i = err enospc
free_loop (suc left) bft i =
    if bft (i * bft_entry_size) == 0 then ok i else free_loop left bft (i + 1)

unfoldable pub bft_find_free_table_entry : Bytes → Outcome ℕ
unfolding free_loop
bft_find_free_table_entry bft = free_loop bft_max_entries bft 0

-- The raw entry is `bft + at`.
unfoldable pub do_read_entry : Bytes → ℕ → Outcome BftEntry
do_read_entry bft at =
    if not (bft (at + (bft_max_filename - 1)) == 0)
    then err eio
    else ok (record {
      name = c_string bft_max_filename bft at;
      initial_cluster = read_be32 bft (at + bft_max_filename);
      size = read_be32 bft (at + (bft_max_filename + 4));
      mode = read_be32 bft (at + (bft_max_filename + 4 + 4));
      atim = read_be64 bft (at + (bft_max_filename + 4 + 4 + 4));
      mtim = read_be64 bft (at + (bft_max_filename + 4 + 4 + 4 + 8));
    })

unfoldable pub do_write_entry : Bytes → ℕ → BftEntry → Outcome Bytes
do_write_entry bft at ent =
    if leb bft_max_filename (length ent.name)
    then err enametoolong
    else (let b₀ = strncpy bft at ent.name bft_max_filename in
        let b₁ = write_be32 b₀ (at + bft_max_filename) ent.initial_cluster in
        let b₂ = write_be32 b₁ (at + (bft_max_filename + 4)) ent.size in
        let b₃ = write_be32 b₂ (at + (bft_max_filename + 4 + 4)) ent.mode in
        let b₄ = write_be64 b₃ (at + (bft_max_filename + 4 + 4 + 4)) ent.atim in
        ok (write_be64 b₄ (at + (bft_max_filename + 4 + 4 + 4 + 8)) ent.mtim))

-- An offset is an `int16_t`; the functions are called with offsets that are not negative.
unfoldable pub bft_read_table_entry : Host → Bytes → ℕ → Outcome BftEntry
bft_read_table_entry host bft off = if leb bft_max_entries off then err einval else do
  ent ← do_read_entry bft (off * bft_entry_size)
  bft_entry_init host ent.name ent.size ent.mode ent.initial_cluster ent.atim ent.mtim

unfoldable pub bft_write_table_entry : Bytes → BftEntry → ℕ → Outcome Bytes
bft_write_table_entry bft ent off =
    if leb bft_max_entries off then err einval else do_write_entry bft (off * bft_entry_size) ent

unfoldable pub bft_remove_table_entry : Bytes → ℕ → Outcome Bytes
bft_remove_table_entry bft off =
    if leb bft_max_entries off
    then err einval
    else ok (memset bft (off * bft_entry_size) 0 bft_entry_size)

-- `bft_entry_iter_t`: whether to go on, and the context after the call.
module _ {ℓ} {S : Type ℓ} (bft : Bytes) (iter : ℕ → BftEntry → S → Bool × S) where
  -- The callback's answer decides, or the entry's error.
  iter_step : ℕ → S → (S → Outcome S) → Outcome S
  iter_step off ctx continue = if bft (off * bft_entry_size) == 0 then continue ctx else do
    ent ← do_read_entry bft (off * bft_entry_size)
    let answer = iter off ent ctx
    if answer.0 then continue answer.1 else ok answer.1

  iter_loop : ℕ → ℕ → S → Outcome S
  unfolding iter_step
  iter_loop zero off ctx = ok ctx
  iter_loop (suc left) off ctx = iter_step off ctx (λ c. iter_loop left (off + 1) c)

  -- The context after the iteration; an error stands for it where an entry is damaged.
  unfoldable pub bft_iter_table_entries : S → Outcome S
  unfolding iter_loop
  bft_iter_table_entries ctx = iter_loop bft_max_entries 0 ctx

pub record FindEntryCtx : Type 0 where
  pub off : ℕ
  pub found : Bool

unfoldable pub find_entry_iter : Text → ℕ → BftEntry → FindEntryCtx → Bool × FindEntryCtx
find_entry_iter name off ent ctx =
    if text_eq ent.name name then (false, record { off = off; found = true }) else (true, ctx)

unfoldable pub bft_find_table_entry : Bytes → Text → Outcome ℕ
unfolding bft_iter_table_entries
bft_find_table_entry bft filename = do
  ctx ← bft_iter_table_entries bft (find_entry_iter filename) (record { off = 0; found = false })
  if ctx.found then ok ctx.off else err enoent

module _ (cipher : Cipher) (host : Host) (key : StegoKey) (disk : Disk) where
  unfoldable pub bft_read_table : Outcome Bytes
  bft_read_table = stego_read_level cipher host key disk 0 bft_size

  unfoldable pub bft_write_table : Bytes → Outcome Disk
  bft_write_table bft = stego_write_level cipher host key disk bft 0 bft_size
