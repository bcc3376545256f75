-- ===== src/Keytab/Lookup.antt =====
-- `keytab_lookup` of src/keytab.c after `keytab_store`.
use bsfs.Base.{
  ℕ, zero, suc, ◌+◌, ◌-◌, ◌≤◌, ◌<◌, ◌≡◌, ◌≢◌, refl, sym, ap, subst, ◌∙◌, arith, false, Bytes, Agree,
  shift, memcpy, in_range, Text, length, char_at, Outcome, ok, err, einval, ebadmsg, Errno,
  Bool-cases, Outcome-cases, inl, inr, ◌==◌,
}
use bsfs.Cipher.{Cipher, AuthCipher, AuthCipherLaws, IsSaltLocal}
use bsfs.Disk.{Disk}
use bsfs.Stego.{StegoKey, stego_user_level_count, keytab_size}
use bsfs.Keytab.{
  enc_auth_key_size, keytab_salt_size, keytab_entry_size, keytab_key_entry_size, keytab_tag_size,
  entry_at, serialize, deserialize, gen_key_iv, open_entry, lookup_step, lookup_loop, stored_or,
  keytab_lookup, keytab_store,
}
use bsfs.Keytab.Entry.{
  SameKey, SameEntry, IsStored, deserialize-serialize, open_entry_congr, keytab_store-IsStored,
}

-- The entries `i` and `j` do not share a byte.
entry_apart :
    (old new : Bytes) (i j : ℕ)
    → i ≢ j
    → SameEntry j (memcpy old (entry_at i) new keytab_entry_size) old
entry_apart old new i j h a lt = ground arith

entry_within :
    (old new : Bytes) (i : ℕ)
    → Agree keytab_entry_size
        (shift (memcpy old (entry_at i) new keytab_entry_size) (entry_at i))
        new
entry_within old new i a lt =
    let back : entry_at i + a - entry_at i ≡ a = omega arith in ground (arith, ap new back)

-- The copy of the table that is searched.
abbrev table_of : Disk → Bytes
table_of disk = memcpy (λ a. 0) 0 disk.contents keytab_size

table_entry : (disk : Disk) (i : ℕ) → i < 16 → SameEntry i (table_of disk) disk.contents
table_entry disk i h a lt = ground arith

table_salt : (disk : Disk) → Agree keytab_salt_size (table_of disk) disk.contents
table_salt disk a h = ground arith

module _ (cipher : Cipher) (auth : AuthCipher) where
  abbrev key_iv_of : Text → Bytes → Outcome Bytes
  key_iv_of = gen_key_iv cipher auth

  gen_key_iv_congr :
      IsSaltLocal cipher
      → (password : Text) (x y : Bytes) → Agree keytab_salt_size x y
      → key_iv_of password x ≡ key_iv_of password y
  unfolding gen_key_iv
  gen_key_iv_congr local password x y h =
      local (char_at password) x y (length password) keytab_salt_size 10000 _ h

  -- The search stops at the first entry that opens.
  lookup_loop-finds :
      (left i target : ℕ) (password : Text) (table key_iv ent : Bytes)
      → key_iv_of password table ≡ ok key_iv
      → i ≤ target
      → target < i + left
      → ((j : ℕ) → i ≤ j → j < target → open_entry cipher auth key_iv table j ≡ err ebadmsg)
      → open_entry cipher auth key_iv table target ≡ ok ent
      → lookup_loop cipher auth left i password table ≡ ok (deserialize ent)
  unfolding lookup_loop lookup_step
  lookup_loop-finds zero i target password table key_iv ent k h₁ h₂ before found =
      absurd (omega arith)
  lookup_loop-finds (suc left) i target password table key_iv ent k h₁ h₂ before found =
      elim (Bool-cases (i == target)) [
        | inl here ↦ let e : i ≡ target = ground arith in rw (k, e, found)
        | inr later ↦
            rw (k, before i (omega arith) (ground arith))
              (lookup_loop-finds left (i + 1) target password table key_iv ent k (ground arith)
                (omega arith) (λ j p q. before j (omega arith) q) found)
      ]

  -- The result depends on the salt and on what the entries open to.
  lookup_loop_congr :
      (left i : ℕ) (password : Text) (x y : Bytes)
      → key_iv_of password x ≡ key_iv_of password y
      → ((key_iv : Bytes) (j : ℕ)
          → key_iv_of password x ≡ ok key_iv
          → i ≤ j
          → j < i + left
          → open_entry cipher auth key_iv x j ≡ open_entry cipher auth key_iv y j)
      → lookup_loop cipher auth left i password x ≡ lookup_loop cipher auth left i password y
  unfolding lookup_loop
  lookup_loop_congr zero i password x y k h = refl
  lookup_loop_congr (suc left) i password x y k h =
      let rest =
        lookup_loop_congr left (i + 1) password x y k
          (λ key_iv j d p q. h key_iv j d (omega arith) (omega arith)) in
      elim (Outcome-cases (key_iv_of password x)) [
        | inl (key_iv, e) ↦ rw (sym k, e, rest, h key_iv i e (omega arith) (omega arith))
        | inr (cause, e) ↦ rw (sym k, e)
      ]

  module _ (local : IsSaltLocal cipher) (laws : AuthCipherLaws auth) where
    table_key_iv :
        (disk : Disk) (password : Text)
        → key_iv_of password (table_of disk) ≡ key_iv_of password disk.contents
    table_key_iv disk password = gen_key_iv_congr local password _ _ (table_salt disk)

    table_open :
        (disk : Disk) (key_iv : Bytes) (i : ℕ)
        → i < 16
        → open_entry cipher auth key_iv (table_of disk) i
          ≡ open_entry cipher auth key_iv disk.contents i
    table_open disk key_iv i h =
        open_entry_congr cipher auth laws key_iv _ _ i (table_entry disk i h)

    module _ (ent₀ key_iv₀ encrypted₀ : Bytes) where
      stored_key_iv :
          (disk disk' : Disk) (index : ℕ) (key_iv : Bytes) (key : StegoKey) (password : Text)
          → IsStored cipher auth ent₀ key_iv₀ encrypted₀ disk disk' index key_iv key
          → key_iv_of password disk'.contents ≡ key_iv_of password disk.contents
      stored_key_iv disk disk' index key_iv key password s =
          rw s.is_written (gen_key_iv_congr local password _ _ (λ a h. ground arith))

      stored_open_other :
          (disk disk' : Disk) (index : ℕ) (key_iv : Bytes) (key : StegoKey) (key_iv' : Bytes)
          (j : ℕ)
          → IsStored cipher auth ent₀ key_iv₀ encrypted₀ disk disk' index key_iv key
          → index ≢ j
          → open_entry cipher auth key_iv' disk'.contents j
            ≡ open_entry cipher auth key_iv' disk.contents j
      stored_open_other disk disk' index key_iv key key_iv' j s h = rw s.is_written (
          open_entry_congr cipher auth laws key_iv' _ _ j
            (entry_apart disk.contents s.entry index j h))

      stored_open :
          (disk disk' : Disk) (index : ℕ) (key_iv : Bytes) (key : StegoKey)
          → IsStored cipher auth ent₀ key_iv₀ encrypted₀ disk disk' index key_iv key
          → (ent : Bytes) × (open_entry cipher auth key_iv disk'.contents index ≡ ok ent)
            × Agree keytab_key_entry_size ent (serialize ent₀ key)
      unfolding open_entry
      stored_open disk disk' index key_iv key s =
          let (out, opens, same) = laws.aes_decrypt_auth-encrypt _ _ _ _ _ _ _ s.encrypts in
          let within = entry_within disk.contents s.entry index in
          let new = memcpy disk.contents (entry_at index) s.entry keytab_entry_size in
          let reads =
            laws.aes_decrypt_auth_congr key_iv (shift key_iv enc_auth_key_size)
              (shift new (entry_at index)) s.enc
              (shift new (entry_at index + keytab_key_entry_size)) s.tag keytab_key_entry_size
              keytab_tag_size (λ a h. within a (omega arith) ∙ s.has_enc a h)
              (λ a h. ap new (omega arith) ∙ (within (272 + a) (omega arith) ∙ s.has_tag a h)) in
          (out, rw s.is_written (reads ∙ opens), same)

      -- For a cipher with the laws of AuthCipherLaws and a derivation that reads the salt's bytes
      -- alone, a key that a successful keytab_store put under a password is found by keytab_lookup
      -- under that password, with the same bytes, where a key is derived from the password and no
      -- earlier entry of the table opens under it.
      pub keytab_lookup-store :
          (disk disk' : Disk) (index : ℕ) (password : Text) (key : StegoKey) (key_iv : Bytes)
          → key_iv_of password disk.contents ≡ ok key_iv
          → ((j : ℕ) → j < index → open_entry cipher auth key_iv disk.contents j ≡ err ebadmsg)
          → keytab_store cipher auth ent₀ key_iv₀ encrypted₀ disk index password key ≡ ok disk'
          → (found : StegoKey) × (keytab_lookup cipher auth disk' password ≡ ok found)
            × SameKey found key
      unfolding keytab_lookup
      keytab_lookup-store disk disk' index password key key_iv derived before h =
          let s : IsStored cipher auth ent₀ key_iv₀ encrypted₀ disk disk' index key_iv key =
            subst
              (λ o.
                IsStored cipher auth ent₀ key_iv₀ encrypted₀ disk disk' index (stored_or key_iv₀ o)
                  key)
              derived
              (keytab_store-IsStored cipher auth ent₀ key_iv₀ encrypted₀ disk disk' index password
                key h) in
          let (ent, opens, same) = stored_open disk disk' index key_iv key s in
          let k =
            table_key_iv disk' password
            ∙ (stored_key_iv disk disk' index key_iv key password s ∙ derived) in
          let at_index = table_open disk' key_iv index s.in_table ∙ opens in
          let in_table = s.in_table in
          let others : (j : ℕ)
              → 0 ≤ j
              → j < index
              → open_entry cipher auth key_iv (table_of disk') j ≡ err ebadmsg =
            λ j lo lt.
              table_open disk' key_iv j (omega arith)
              ∙ (stored_open_other disk disk' index key_iv key key_iv j s (omega arith)
                  ∙ before j lt) in
          (
            deserialize ent,
            lookup_loop-finds 16 0 index password (table_of disk') key_iv ent k (omega arith)
                (omega arith) others at_index,
            deserialize-serialize ent₀ ent key same,
          )

      -- For a cipher with the laws of AuthCipherLaws and a derivation that reads the salt's bytes
      -- alone, a successful keytab_store changes nothing of what keytab_lookup gives under a
      -- password that opens neither the old nor the new entry.
      pub keytab_lookup-store_other :
          (disk disk' : Disk) (index : ℕ) (password other : Text) (key : StegoKey)
          → ((key_iv : Bytes)
              → key_iv_of other disk.contents ≡ ok key_iv
              → (open_entry cipher auth key_iv disk.contents index ≡ err ebadmsg)
                × (open_entry cipher auth key_iv disk'.contents index ≡ err ebadmsg))
          → keytab_store cipher auth ent₀ key_iv₀ encrypted₀ disk index password key ≡ ok disk'
          → keytab_lookup cipher auth disk' other ≡ keytab_lookup cipher auth disk other
      unfolding keytab_lookup
      keytab_lookup-store_other disk disk' index password other key shut h =
          let s =
            keytab_store-IsStored cipher auth ent₀ key_iv₀ encrypted₀ disk disk' index password key
              h in
          let kept = stored_key_iv disk disk' index _ key other s in
          lookup_loop_congr 16 0 other (table_of disk') (table_of disk)
            (table_key_iv disk' other ∙ (kept ∙ sym (table_key_iv disk other)))
            (λ key_iv j derived lo hi.
              let known = sym kept ∙ (sym (table_key_iv disk' other) ∙ derived) in
              table_open disk' key_iv j (omega arith)
              ∙ (elim (Bool-cases (index == j)) [
                | inl here ↦
                    let e : index ≡ j = ground arith in
                    let (old, new) = shut key_iv known in rw (sym e) (new ∙ sym old)
                | inr apart ↦ stored_open_other disk disk' index _ key key_iv j s (ground arith)
              ]
                  ∙ sym (table_open disk key_iv j (omega arith))))

  module _ (ent₀ key_iv₀ encrypted₀ : Bytes) where
    -- keytab_store refuses an index of 16 or more with EINVAL, and where it succeeds it keeps the
    -- size of the disk and every byte outside the entry at its index.
    pub keytab_store_lem :
        (disk disk' : Disk) (index : ℕ) (password : Text) (key : StegoKey)
        → (stego_user_level_count ≤ index
            → keytab_store cipher auth ent₀ key_iv₀ encrypted₀ disk index password key ≡ err einval)
          × (keytab_store cipher auth ent₀ key_iv₀ encrypted₀ disk index password key ≡ ok disk'
              → (index < stego_user_level_count)
                × (disk'.data_size ≡ disk.data_size)
                × ((a : ℕ)
                    → in_range (entry_at index) keytab_entry_size a ≡ false
                    → disk'.contents a ≡ disk.contents a))
    unfolding keytab_store
    keytab_store_lem disk disk' index password key = (
      λ h. ground arith,
      λ h.
          let s =
            keytab_store-IsStored cipher auth ent₀ key_iv₀ encrypted₀ disk disk' index password key
              h in
          (
            s.in_table,
            ap (λ (d : Disk). d.data_size) s.is_written,
            λ a out. rw (s.is_written, out),
          ),
    )

    -- Where no key can be derived from the password, keytab_store does what it does with a
    -- derivation that gives the indeterminate bytes of its local array.
    pub keytab_store_underived :
        (derives : Cipher) (disk : Disk) (index : ℕ) (password : Text) (key : StegoKey)
        (cause : Errno)
        → key_iv_of password disk.contents ≡ err cause
        → gen_key_iv derives auth password disk.contents ≡ ok key_iv₀
        → keytab_store cipher auth ent₀ key_iv₀ encrypted₀ disk index password key
          ≡ keytab_store derives auth ent₀ key_iv₀ encrypted₀ disk index password key
    unfolding keytab_store
    keytab_store_underived derives disk index password key cause fails gives = rw (fails, gives)
