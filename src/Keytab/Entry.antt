-- ===== src/Keytab/Entry.antt =====
-- The entries of src/keytab.c: a key is serialized and read back, and a store of one entry leaves
-- the salt and the others alone.
use bsfs.Base.{
  ℕ, ◌+◌, ◌-◌, ◌*◌, ◌/◌, ◌%◌, ◌<◌, ◌≡◌, ap, ap₂, ◌∙◌, arith, Bool-cases, inl, inr, leb, Bytes,
  Agree, shift, memcpy, Text, ok, >>=-ok_inv,
}
use bsfs.Cipher.{Cipher, AuthCipher, AuthCipherLaws, enc_key_size}
use bsfs.Disk.{Disk}
use bsfs.Stego.{StegoKey, stego_user_level_count, stego_key_size}
use bsfs.Keytab.{
  keytab_entry_size, keytab_key_entry_size, keytab_tag_size, enc_auth_key_size, flatten, entry_at,
  serialize, deserialize, gen_key_iv, open_entry, stored_or, keytab_store,
}

-- Two keys with the same bytes.
pub record SameKey (x y : StegoKey) : Type 0 where
  pub same_aes : Agree enc_key_size x.aes_key y.aes_key
  pub same_read : (i : ℕ) → i < 4 → Agree stego_key_size (x.read_keys i) (y.read_keys i)
  pub same_write : (i : ℕ) → i < 4 → Agree stego_key_size (x.write_keys i) (y.write_keys i)

flatten_at : (keys : ℕ → Bytes) (i a : ℕ) → a < 32 → flatten keys (i * 32 + a) ≡ keys i a
flatten_at keys i a h =
    let row : (i * 32 + a) / 32 ≡ i = omega arith in
    let col : (i * 32 + a) % 32 ≡ a = omega arith in ap₂ keys row col

serialize-aes : (e : Bytes) (key : StegoKey) (a : ℕ) → a < 16 → serialize e key a ≡ key.aes_key a
unfolding serialize
serialize-aes e key a h = ground arith

serialize-read :
    (e : Bytes) (key : StegoKey) (a : ℕ)
    → a < 128
    → serialize e key (16 + a) ≡ flatten key.read_keys a
unfolding serialize
serialize-read e key a h =
    let back : 16 + a - 16 ≡ a = omega arith in ground (arith, ap (flatten key.read_keys) back)

serialize-write :
    (e : Bytes) (key : StegoKey) (a : ℕ)
    → a < 128
    → serialize e key (144 + a) ≡ flatten key.write_keys a
unfolding serialize
serialize-write e key a h =
    let back : 144 + a - 144 ≡ a = omega arith in ground (arith, ap (flatten key.write_keys) back)

pub deserialize-serialize :
    (e out : Bytes) (key : StegoKey)
    → Agree keytab_key_entry_size out (serialize e key)
    → SameKey (deserialize out) key
unfolding deserialize
deserialize-serialize e out key h = record {
  same_aes = λ a lt. h a (omega arith) ∙ serialize-aes e key a lt;
  same_read = λ i hi a lt.
      ap out (omega arith)
      ∙ (h (16 + (i * 32 + a)) (omega arith)
          ∙ (serialize-read e key (i * 32 + a) (omega arith) ∙ flatten_at key.read_keys i a lt));
  same_write = λ i hi a lt.
      ap out (omega arith)
      ∙ (h (144 + (i * 32 + a)) (omega arith)
          ∙ (serialize-write e key (i * 32 + a) (omega arith) ∙ flatten_at key.write_keys i a lt));
}

-- The bytes of the entry `i` are the same in two memories.
abbrev pub SameEntry : ℕ → Bytes → Bytes → Type 0
SameEntry i x y = Agree keytab_entry_size (shift x (entry_at i)) (shift y (entry_at i))

module _ (cipher : Cipher) (auth : AuthCipher) (laws : AuthCipherLaws auth) where
  pub open_entry_congr :
      (key_iv x y : Bytes) (i : ℕ)
      → SameEntry i x y
      → open_entry cipher auth key_iv x i ≡ open_entry cipher auth key_iv y i
  unfolding open_entry
  open_entry_congr key_iv x y i h =
      laws.aes_decrypt_auth_congr key_iv (shift key_iv enc_auth_key_size) _ _ _ _ _ _
        (λ a lt. h a (omega arith))
        (λ a lt. ap x (omega arith) ∙ (h (272 + a) (omega arith) ∙ ap y (omega arith)))

-- What a successful store did.
module _ (cipher : Cipher) (auth : AuthCipher) (ent₀ key_iv₀ encrypted₀ : Bytes) where
  -- The entry that is encrypted, under the derived key and vector.
  pub record IsStored (disk disk' : Disk) (index : ℕ) (key_iv : Bytes) (key : StegoKey)
      : Type 0 where
    pub in_table : index < stego_user_level_count
    pub entry : Bytes
    pub enc : Bytes
    pub tag : Bytes
    pub encrypts :
        auth.aes_encrypt_auth key_iv
          (shift key_iv enc_auth_key_size)
          (serialize ent₀ key)
          keytab_key_entry_size
          keytab_tag_size
        ≡ ok (enc, tag)
    pub has_enc : Agree keytab_key_entry_size entry enc
    pub has_tag : Agree keytab_tag_size (shift entry keytab_key_entry_size) tag
    pub is_written :
        disk'
        ≡ record disk { contents = memcpy disk.contents (entry_at index) entry keytab_entry_size }

  pub keytab_store-IsStored :
      (disk disk' : Disk) (index : ℕ) (password : Text) (key : StegoKey)
      → keytab_store cipher auth ent₀ key_iv₀ encrypted₀ disk index password key ≡ ok disk'
      → IsStored disk disk' index
          (stored_or key_iv₀ (gen_key_iv cipher auth password disk.contents))
          key
  unfolding keytab_store
  keytab_store-IsStored disk disk' index password key h = elim (Bool-cases (leb 16 index)) [
    | inl out ↦ absurd (ground arith)
    | inr within ↦
        let h' = rw within at h in
        let key_iv = stored_or key_iv₀ (gen_key_iv cipher auth password disk.contents) in
        let ((enc, tag), encrypts, h₁) =
          >>=-ok_inv
            (auth.aes_encrypt_auth key_iv (shift key_iv enc_auth_key_size) (serialize ent₀ key)
              keytab_key_entry_size keytab_tag_size)
            _ h' in
        record {
          in_table = ground arith;
          entry = memcpy (memcpy encrypted₀ 0 enc 272) 272 tag 16;
          enc = enc;
          tag = tag;
          encrypts = encrypts;
          has_enc = λ a lt. ground arith;
          has_tag =
              λ a lt. let back : 272 + a - 272 ≡ a = omega arith in ground (arith, ap tag back);
          is_written = cc h₁;
        }
  ]
