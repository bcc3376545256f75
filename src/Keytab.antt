-- ===== src/Keytab.antt =====
-- src/keytab.c: the table at the start of the disk that holds the encrypted key of each user.
pub mod Entry
pub mod Lookup
pub mod Secured
use bsfs.Base.{
  ℕ, zero, suc, ◌+◌, ◌-◌, ◌*◌, ◌/◌, ◌%◌, Bool, true, false, leb, if◌then◌else◌, Bytes, shift,
  memcpy, Text, length, char_at, Outcome, ok, err, Errno, ◌>>=◌, einval, enospc, eio, enomem,
  enoent, ebadmsg, enametoolong, enotsup, enotdir, eexist, ebusy, exdev,
}
use bsfs.Cipher.{Cipher, AuthCipher, enc_key_size}
use bsfs.Disk.{Disk}
use bsfs.Stego.{
  StegoKey, stego_key_size, stego_levels_per_password, stego_user_level_count, keytab_size,
}

abbrev pub keytab_tag_size : ℕ
keytab_tag_size = 16

abbrev pub keytab_entry_size : ℕ
keytab_entry_size = enc_key_size + stego_levels_per_password * stego_key_size * 2 + keytab_tag_size

abbrev pub keytab_salt_size : ℕ
keytab_salt_size = 16

abbrev pub keytab_key_entry_size : ℕ
keytab_key_entry_size = keytab_entry_size - keytab_tag_size

abbrev pub enc_auth_key_size : ℕ
enc_auth_key_size = 16

-- The key and the vector of 12 bytes.
abbrev pub keytab_key_iv_size : ℕ
keytab_key_iv_size = enc_auth_key_size + 12

-- The size in bytes of `read_keys` and of `write_keys`, arrays of 4 keys of 32 bytes.
abbrev pub keys_size : ℕ
keys_size = stego_levels_per_password * stego_key_size

-- The memory of an array of keys, and an array in memory.
abbrev pub flatten : (ℕ → Bytes) → Bytes
flatten keys a = keys (a / stego_key_size) (a % stego_key_size)

abbrev pub keys_at : Bytes → ℕ → ℕ → Bytes
keys_at ent at i = shift ent (at + i * stego_key_size)

unfoldable pub deserialize : Bytes → StegoKey
deserialize ent = record {
  aes_key = ent;
  read_keys = keys_at ent enc_key_size;
  write_keys = keys_at ent (enc_key_size + keys_size);
}

-- The three copies into `ent`, whose bytes are indeterminate before.
unfoldable pub serialize : Bytes → StegoKey → Bytes
serialize ent key =
    let e₁ = memcpy ent 0 key.aes_key enc_key_size in
    let e₂ = memcpy e₁ enc_key_size (flatten key.read_keys) keys_size in
    memcpy e₂ (enc_key_size + keys_size) (flatten key.write_keys) keys_size

-- `keytab_data + i * KEYTAB_ENTRY_SIZE`, from the start of the table.
abbrev pub entry_at : ℕ → ℕ
entry_at i = keytab_salt_size + i * keytab_entry_size

-- What `keytab_lookup` does with the result of a decryption: `ok` and every error but EBADMSG end
-- the search.
unfoldable pub lookup_step : Outcome Bytes → Outcome StegoKey → Outcome StegoKey
lookup_step (ok ent) rest = ok (deserialize ent)
lookup_step (err ebadmsg) rest = rest
lookup_step (err einval) rest = err einval
lookup_step (err enospc) rest = err enospc
lookup_step (err eio) rest = err eio
lookup_step (err enomem) rest = err enomem
lookup_step (err enoent) rest = err enoent
lookup_step (err enametoolong) rest = err enametoolong
lookup_step (err enotsup) rest = err enotsup
lookup_step (err enotdir) rest = err enotdir
lookup_step (err eexist) rest = err eexist
lookup_step (err ebusy) rest = err ebusy
lookup_step (err exdev) rest = err exdev

-- The buffer after a call that may fail: it holds what it held before if the call does.
abbrev pub stored_or : Bytes → Outcome Bytes → Bytes
stored_or old (ok new) = new
stored_or old (err e) = old

module _ (cipher : Cipher) (auth : AuthCipher) where
  unfoldable pub gen_key_iv : Text → Bytes → Outcome Bytes
  gen_key_iv password salt =
      cipher.enc_key_from_bytes (char_at password) (length password) salt keytab_salt_size 10000
        keytab_key_iv_size

  -- The decryption of an entry of the table.
  unfoldable pub open_entry : Bytes → Bytes → ℕ → Outcome Bytes
  open_entry key_iv keytab i =
      auth.aes_decrypt_auth key_iv (shift key_iv enc_auth_key_size) (shift keytab (entry_at i))
        keytab_key_entry_size (shift keytab (entry_at i + keytab_key_entry_size)) keytab_tag_size

  lookup_loop : ℕ → ℕ → Text → Bytes → Outcome StegoKey
  unfolding open_entry lookup_step gen_key_iv
  lookup_loop zero i password keytab = err enoent
  lookup_loop (suc left) i password keytab =
      let rest = lookup_loop left (i + 1) password keytab in
      gen_key_iv password keytab >>= λ key_iv. lookup_step (open_entry key_iv keytab i) rest

  unfoldable pub keytab_lookup : Disk → Text → Outcome StegoKey
  unfolding lookup_loop
  keytab_lookup disk password =
      lookup_loop stego_user_level_count 0 password (memcpy (λ a. 0) 0 disk.contents keytab_size)

  -- `ent`, `key_iv` and `encrypted_ent` are local arrays, whose bytes before the first store are
  -- those of `ent₀`, `key_iv₀` and `encrypted₀`. The result of `gen_key_iv` is overwritten before
  -- it is tested. An index is an `off_t`; the function is called with indices that are not
  -- negative.
  unfoldable pub keytab_store : Bytes → Bytes → Bytes → Disk → ℕ → Text → StegoKey → Outcome Disk
  keytab_store ent₀ key_iv₀ encrypted₀ disk index password key =
      if leb stego_user_level_count index then err einval else do
        let ent = serialize ent₀ key
        let key_iv = stored_or key_iv₀ (gen_key_iv password disk.contents)
        encrypted ←
            auth.aes_encrypt_auth key_iv (shift key_iv enc_auth_key_size) ent keytab_key_entry_size
              keytab_tag_size
        let body = memcpy encrypted₀ 0 encrypted.0 keytab_key_entry_size
        let entry = memcpy body keytab_key_entry_size encrypted.1 keytab_tag_size
        ok (record disk {
          contents = memcpy disk.contents (entry_at index) entry keytab_entry_size;
        })
