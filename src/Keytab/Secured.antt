-- ===== src/Keytab/Secured.antt =====
-- src/keytab.c over the functions of src/enc.c, with OpenSSL as a parameter.
use bsfs.Base.{ℕ, ◌<◌, ◌≡◌, Bytes, Text, ok, err, ebadmsg}
use bsfs.Disk.{Disk}
use bsfs.Enc.{OpenSsl, cipher_of, auth_cipher_of}
use bsfs.Enc.Auth.{GcmLaws, Pbkdf2Laws, cipher_of-IsSaltLocal, auth_cipher_of-AuthCipherLaws}
use bsfs.Keytab.{gen_key_iv, open_entry, keytab_lookup, keytab_store}
use bsfs.Keytab.Entry.{SameKey}
use bsfs.Keytab.Lookup.{keytab_lookup-store, keytab_lookup-store_other}
use bsfs.Stego.{StegoKey}

module _ (ssl : OpenSsl) (pbkdf2 : Pbkdf2Laws ssl) (gcm : GcmLaws ssl)
    (ent₀ key_iv₀ encrypted₀ : Bytes) (disk disk' : Disk) (index : ℕ) (password : Text)
    (key : StegoKey)
    (stores : keytab_store
        (cipher_of ssl)
        (auth_cipher_of ssl)
        ent₀
        key_iv₀
        encrypted₀
        disk
        index
        password
        key
      ≡ ok disk') where
  -- Over the functions of src/enc.c, where OpenSSL behaves as GcmLaws states of GCM and Pbkdf2Laws
  -- of PBKDF2, a key that a successful keytab_store put under a password is found by keytab_lookup
  -- under that password, with the same bytes, where a key is derived from the password and no
  -- earlier entry of the table opens under it.
  pub keytab_lookup-store_secured :
      (key_iv : Bytes)
      → gen_key_iv (cipher_of ssl) (auth_cipher_of ssl) password disk.contents ≡ ok key_iv
      → ((j : ℕ)
          → j < index
          → open_entry (cipher_of ssl) (auth_cipher_of ssl) key_iv disk.contents j ≡ err ebadmsg)
      → (found : StegoKey) × (keytab_lookup (cipher_of ssl) (auth_cipher_of ssl) disk' password
          ≡ ok found)
        × SameKey found key
  keytab_lookup-store_secured key_iv derived before =
      keytab_lookup-store (cipher_of ssl) (auth_cipher_of ssl) (cipher_of-IsSaltLocal ssl pbkdf2)
        (auth_cipher_of-AuthCipherLaws ssl gcm) ent₀ key_iv₀ encrypted₀ disk disk' index password
        key key_iv derived before stores

  -- Over the functions of src/enc.c, where OpenSSL behaves as GcmLaws states of GCM and Pbkdf2Laws
  -- of PBKDF2, a successful keytab_store changes nothing of what keytab_lookup gives under a
  -- password that opens neither the old nor the new entry.
  pub keytab_lookup-store_secured_other :
      (other : Text)
      → ((key_iv : Bytes)
          → gen_key_iv (cipher_of ssl) (auth_cipher_of ssl) other disk.contents ≡ ok key_iv
          → (open_entry (cipher_of ssl) (auth_cipher_of ssl) key_iv disk.contents index
              ≡ err ebadmsg)
            × (open_entry (cipher_of ssl) (auth_cipher_of ssl) key_iv disk'.contents index
                ≡ err ebadmsg))
      → keytab_lookup (cipher_of ssl) (auth_cipher_of ssl) disk' other
        ≡ keytab_lookup (cipher_of ssl) (auth_cipher_of ssl) disk other
  keytab_lookup-store_secured_other other shut =
      keytab_lookup-store_other (cipher_of ssl) (auth_cipher_of ssl)
        (cipher_of-IsSaltLocal ssl pbkdf2) (auth_cipher_of-AuthCipherLaws ssl gcm) ent₀ key_iv₀
        encrypted₀ disk disk' index password other key shut stores
