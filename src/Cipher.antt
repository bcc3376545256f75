-- ===== src/Cipher.antt =====
-- The operations of src/enc.h that the other components call, as an interface, and what they
-- rely on: a decryption undoes the encryption under the same key and vector.
use bsfs.Base.{ℕ, ◌≡◌, Bytes, Agree, Outcome, ok}

abbrev pub enc_block_size : ℕ
enc_block_size = 16

abbrev pub enc_key_size : ℕ
enc_key_size = 16

abbrev pub enc_iv_size : ℕ
enc_iv_size = 16

pub record Cipher : Type 0 where
  -- password, its size, salt, its size, rounds, size of the key
  pub enc_key_from_bytes : Bytes → ℕ → Bytes → ℕ → ℕ → ℕ → Outcome Bytes
  -- key, vector, input, size
  pub aes_encrypt : Bytes → Bytes → Bytes → ℕ → Outcome Bytes
  pub aes_decrypt : Bytes → Bytes → Bytes → ℕ → Outcome Bytes

pub record CipherLaws (c : Cipher) : Type 0 where
  pub aes_decrypt-encrypt :
      (key iv plain enc : Bytes) (size : ℕ)
      → c.aes_encrypt key iv plain size ≡ ok enc
      → (out : Bytes) × (c.aes_decrypt key iv enc size ≡ ok out) × Agree size out plain
  pub aes_decrypt_congr :
      (key iv x y : Bytes) (size : ℕ)
      → Agree size x y
      → c.aes_decrypt key iv x size ≡ c.aes_decrypt key iv y size

-- The authenticated operations, with AES-GCM: the encryption gives the bytes and their tag.
pub record AuthCipher : Type 0 where
  -- key, vector, input, size, size of the tag
  pub aes_encrypt_auth : Bytes → Bytes → Bytes → ℕ → ℕ → Outcome (Bytes × Bytes)
  -- key, vector, input, size, tag, size of the tag
  pub aes_decrypt_auth : Bytes → Bytes → Bytes → ℕ → Bytes → ℕ → Outcome Bytes

pub record AuthCipherLaws (c : AuthCipher) : Type 0 where
  pub aes_decrypt_auth-encrypt :
      (key iv plain enc tag : Bytes) (size tag_size : ℕ)
      → c.aes_encrypt_auth key iv plain size tag_size ≡ ok (enc, tag)
      → (out : Bytes) × (c.aes_decrypt_auth key iv enc size tag tag_size ≡ ok out)
        × Agree size out plain
  pub aes_decrypt_auth_congr :
      (key iv x y t u : Bytes) (size tag_size : ℕ)
      → Agree size x y
      → Agree tag_size t u
      → c.aes_decrypt_auth key iv x size t tag_size ≡ c.aes_decrypt_auth key iv y size u tag_size

-- The derived key depends on the salt's bytes alone.
abbrev pub IsSaltLocal : Cipher → Type 0
IsSaltLocal c =
    (password x y : Bytes) (password_size salt_size rounds key_size : ℕ)
    → Agree salt_size x y
    → c.enc_key_from_bytes password password_size x salt_size rounds key_size
      ≡ c.enc_key_from_bytes password password_size y salt_size rounds key_size
