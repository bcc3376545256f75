-- ===== src/Enc.antt =====
-- src/enc.c: the operations of src/enc.h as calls of OpenSSL, which is a parameter. Sizes are below
-- 2^31, so they stay the same as an `int`.
pub mod Steps
pub mod Laws
pub mod Auth
use bsfs.Base.{
  ℕ, ◌+◌, ◌%◌, Bool, true, false, ◌==◌, Bytes, memcpy, Option, none, some, Outcome, ok, err, ◌>>=◌,
  einval, eio, enomem, ebadmsg,
}
use bsfs.Cipher.{Cipher, AuthCipher, enc_block_size}

-- `EVP_aes_128_cbc` and `EVP_aes_128_gcm`
pub data Mode : Type 0 where
  cbc gcm : Mode

-- The functions of OpenSSL that are called. `none` stands for an answer that reports a failure. The
-- updates and the final calls give the context after them, and bytes with their number.
pub record OpenSsl : Type 1 where
  pub Ctx : Type 0
  -- whether EVP_CIPHER_CTX_new has memory
  pub has_memory : Bool
  -- cipher, key, vector
  pub encrypt_init : Mode → Bytes → Bytes → Option Ctx
  pub decrypt_init : Mode → Bytes → Bytes → Option Ctx
  pub set_padding : Ctx → ℕ → Ctx
  -- context, input, size
  pub encrypt_update : Ctx → Bytes → ℕ → Option (Ctx × Bytes × ℕ)
  pub decrypt_update : Ctx → Bytes → ℕ → Option (Ctx × Bytes × ℕ)
  pub encrypt_final : Ctx → Option (Ctx × Bytes × ℕ)
  pub decrypt_final : Ctx → Option (Ctx × Bytes × ℕ)
  -- context, size of the tag
  pub get_tag : Ctx → ℕ → Option Bytes
  -- context, tag, size of the tag
  pub set_tag : Ctx → Bytes → ℕ → Option Ctx
  -- PKCS5_PBKDF2_HMAC with SHA-256: password, size, salt, size, rounds, size of the key
  pub pbkdf2 : Bytes → ℕ → Bytes → ℕ → ℕ → ℕ → Option Bytes

-- The answer of a call whose failure is the error.
abbrev pub or_eio {ℓ} : {A : Type ℓ} → Option A → Outcome A
or_eio none = err eio
or_eio (some a) = ok a

module _ (ssl : OpenSsl) where
  -- The function that initialises is an argument.
  unfoldable pub init_cipher_ctx :
      Mode → Bytes → Bytes → (Mode → Bytes → Bytes → Option ssl.Ctx) → Outcome ssl.Ctx
  init_cipher_ctx mode key iv init_func = elim ssl.has_memory [
    | false ↦ err enomem
    | true ↦ elim (init_func mode key iv) [ none ↦ err eio | some ctx ↦ ok (ssl.set_padding ctx 0) ]
  ]

  unfoldable pub enc_key_from_bytes : Bytes → ℕ → Bytes → ℕ → ℕ → ℕ → Outcome Bytes
  enc_key_from_bytes password password_size salt salt_size iter key_size =
      or_eio (ssl.pbkdf2 password password_size salt salt_size iter key_size)

  -- The output buffer `out` after a call that stores `n` bytes behind the first `done` ones.
  abbrev stored : Bytes → ℕ → Bytes → ℕ → Bytes
  stored out done bytes n = memcpy out done bytes n

  -- The test at the end, and the buffer.
  unfoldable pub check_size : ℕ → ℕ → Bytes → Outcome Bytes
  check_size total size out = elim (total == size) [ false ↦ err eio | true ↦ ok out ]

  unfoldable pub finish_encrypt : Bytes → ℕ → ssl.Ctx × Bytes × ℕ → Outcome (ssl.Ctx × Bytes)
  unfolding check_size
  finish_encrypt enc size (ctx, content, content_size) = do
    final ← or_eio (ssl.encrypt_final ctx)
    out ←
        check_size (content_size + final.2) size
          (stored (stored enc 0 content content_size) content_size final.1 final.2)
    ok (final.0, out)

  -- The buffer `enc` after the call, and the context.
  unfoldable pub run_encrypt : Mode → Bytes → Bytes → Bytes → Bytes → ℕ → Outcome (ssl.Ctx × Bytes)
  unfolding init_cipher_ctx finish_encrypt
  run_encrypt mode key iv plain enc size = do
    e_ctx ← init_cipher_ctx mode key iv ssl.encrypt_init
    updated ← or_eio (ssl.encrypt_update e_ctx plain size)
    finish_encrypt enc size updated

  unfoldable pub aes_encrypt : Bytes → Bytes → Bytes → Bytes → ℕ → Outcome Bytes
  unfolding run_encrypt
  aes_encrypt key iv plain enc size = elim (size % enc_block_size == 0) [
    | false ↦ err einval
    | true ↦ run_encrypt cbc key iv plain enc size >>= λ done. ok done.1
  ]

  unfoldable pub finish_decrypt : Bytes → ℕ → ssl.Ctx × Bytes × ℕ → Outcome Bytes
  unfolding check_size
  finish_decrypt plain size (ctx, content, content_size) = do
    final ← or_eio (ssl.decrypt_final ctx)
    check_size (content_size + final.2) size
        (stored (stored plain 0 content content_size) content_size final.1 final.2)

  unfoldable pub run_decrypt : Bytes → Bytes → Bytes → Bytes → ℕ → Outcome Bytes
  unfolding init_cipher_ctx finish_decrypt
  run_decrypt key iv enc plain size = do
    d_ctx ← init_cipher_ctx cbc key iv ssl.decrypt_init
    updated ← or_eio (ssl.decrypt_update d_ctx enc size)
    finish_decrypt plain size updated

  unfoldable pub aes_decrypt : Bytes → Bytes → Bytes → Bytes → ℕ → Outcome Bytes
  unfolding run_decrypt
  aes_decrypt key iv enc plain size = elim (size % enc_block_size == 0) [
    | false ↦ err einval
    | true ↦ run_decrypt key iv enc plain size
  ]

  -- The buffer and the tag.
  unfoldable pub aes_encrypt_auth : Bytes → Bytes → Bytes → Bytes → ℕ → ℕ → Outcome (Bytes × Bytes)
  unfolding run_encrypt
  aes_encrypt_auth key iv plain enc size tag_size = do
    done ← run_encrypt gcm key iv plain enc size
    tag ← or_eio (ssl.get_tag done.0 tag_size)
    ok (done.1, tag)

  -- A final call that fails is a tag that does not fit.
  unfoldable pub authenticated : Option (ssl.Ctx × Bytes × ℕ) → Outcome (ssl.Ctx × Bytes × ℕ)
  authenticated none = err ebadmsg
  authenticated (some final) = ok final

  unfoldable pub finish_auth : Bytes → ℕ → Bytes → ℕ → ssl.Ctx × Bytes × ℕ → Outcome Bytes
  unfolding check_size authenticated
  finish_auth plain size tag tag_size (ctx, content, content_size) = do
    tagged ← or_eio (ssl.set_tag ctx tag tag_size)
    final ← authenticated (ssl.decrypt_final tagged)
    check_size (content_size + final.2) size
        (stored (stored plain 0 content content_size) content_size final.1 final.2)

  unfoldable pub aes_decrypt_auth : Bytes → Bytes → Bytes → Bytes → ℕ → Bytes → ℕ → Outcome Bytes
  unfolding init_cipher_ctx finish_auth
  aes_decrypt_auth key iv enc plain size tag tag_size = do
    d_ctx ← init_cipher_ctx gcm key iv ssl.decrypt_init
    updated ← or_eio (ssl.decrypt_update d_ctx enc size)
    finish_auth plain size tag tag_size updated

  -- The interfaces that the other parts use, on buffers of zeros.
  abbrev pub cipher_of : Cipher
  cipher_of = record {
    enc_key_from_bytes = enc_key_from_bytes;
    aes_encrypt = λ key iv plain size. aes_encrypt key iv plain (λ a. 0) size;
    aes_decrypt = λ key iv enc size. aes_decrypt key iv enc (λ a. 0) size;
  }

  abbrev pub auth_cipher_of : AuthCipher
  auth_cipher_of = record {
    aes_encrypt_auth =
        λ key iv plain size tag_size. aes_encrypt_auth key iv plain (λ a. 0) size tag_size;
    aes_decrypt_auth =
        λ key iv enc size tag tag_size. aes_decrypt_auth key iv enc (λ a. 0) size tag tag_size;
  }
