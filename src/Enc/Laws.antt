-- ===== src/Enc/Laws.antt =====
-- The cipher of src/enc.c has the laws that the other parts ask for, where OpenSSL behaves as it is
-- documented.
use bsfs.Base.{
  ℕ, ◌+◌, ◌%◌, ◌≡◌, refl, sym, ap, subst, ◌∙◌, arith, true, ◌==◌, Bytes, Agree, memcpy, some,
  Bool-cases, inl, inr, ok, >>=-ok_inv, Outcome-cases,
}
use bsfs.Cipher.{CipherLaws, enc_block_size}
use bsfs.Enc.Steps.{run_encrypt-Encrypted}
use bsfs.Enc.{
  cbc, OpenSsl, init_cipher_ctx, check_size, finish_encrypt, run_encrypt, aes_encrypt,
  finish_decrypt, run_decrypt, aes_decrypt, cipher_of,
}

-- What is documented of CBC without padding on inputs of whole blocks: an update gives as many bytes
-- as it reads, a final call gives none, the bytes of a decryption are those that were encrypted,
-- and an update reads no byte behind the size.
pub record CbcLaws (ssl : OpenSsl) : Type 0 where
  pub decrypts_too :
      (key iv : Bytes) (e : ssl.Ctx)
      → ssl.encrypt_init cbc key iv ≡ some e
      → (d : ssl.Ctx) × (ssl.decrypt_init cbc key iv ≡ some d)
  pub ends :
      (key iv plain : Bytes) (size n k : ℕ) (e c c' : ssl.Ctx) (content last : Bytes)
      → ssl.encrypt_init cbc key iv ≡ some e
      → ssl.encrypt_update (ssl.set_padding e 0) plain size ≡ some (c, content, n)
      → ssl.encrypt_final c ≡ some (c', last, k)
      → k ≡ 0
  pub undoes :
      (key iv plain enc : Bytes) (size n : ℕ) (e c d : ssl.Ctx) (content : Bytes)
      → ssl.encrypt_init cbc key iv ≡ some e
      → ssl.decrypt_init cbc key iv ≡ some d
      → ssl.encrypt_update (ssl.set_padding e 0) plain size ≡ some (c, content, n)
      → size % enc_block_size ≡ 0
      → Agree size enc content
      → (c' : ssl.Ctx) × (out : Bytes) × (ssl.decrypt_update (ssl.set_padding d 0) enc size
          ≡ some (c', out, size))
        × Agree size out plain
        × (c'' : ssl.Ctx) × (last : Bytes) × (ssl.decrypt_final c' ≡ some (c'', last, 0))
  pub reads :
      (ctx : ssl.Ctx) (x y : Bytes) (size : ℕ)
      → Agree size x y
      → ssl.decrypt_update ctx x size ≡ ssl.decrypt_update ctx y size

module _ (ssl : OpenSsl) (laws : CbcLaws ssl) where
  -- The steps of an encryption that succeeds.
  record Encryption (key iv plain enc₀ : Bytes) (size : ℕ) (enc : Bytes) : Type 0 where
    blocks : size % enc_block_size ≡ 0
    memory : ssl.has_memory ≡ true
    e : ssl.Ctx
    starts : ssl.encrypt_init cbc key iv ≡ some e
    c : ssl.Ctx
    content : Bytes
    updates : ssl.encrypt_update (ssl.set_padding e 0) plain size ≡ some (c, content, size)
    agrees : Agree size enc content

  aes_encrypt-Encryption :
      (key iv plain enc₀ : Bytes) (size : ℕ) (enc : Bytes)
      → aes_encrypt ssl key iv plain enc₀ size ≡ ok enc
      → Encryption key iv plain enc₀ size enc
  unfolding aes_encrypt run_encrypt init_cipher_ctx finish_encrypt check_size
  aes_encrypt-Encryption key iv plain enc₀ size enc h =
      elim (Bool-cases (size % enc_block_size == 0)) [
        | inr part ↦ let wrong = rw (aes_encrypt, part) at h in cc
        | inl whole ↦
            let (done, ran, e₁) =
              >>=-ok_inv (run_encrypt ssl cbc key iv plain enc₀ size) _
                (rw (aes_encrypt, whole) at h) in
            let r = run_encrypt-Encrypted ssl cbc key iv plain enc₀ size done ran in
            let none_left =
              laws.ends key iv plain size r.n r.k r.e r.c done.0 r.content r.last r.starts r.updates
                r.finishes in
            let all : r.n ≡ size = omega (arith, r.total, none_left) in
            let done_enc : done.1 ≡ enc = cc e₁ in
            let same : memcpy (memcpy enc₀ 0 r.content r.n) r.n r.last r.k ≡ enc =
              r.buffer ∙ done_enc in
            record {
              blocks = ground arith;
              memory = r.memory;
              e = r.e;
              starts = r.starts;
              c = r.c;
              content = r.content;
              updates =
                  subst
                    (λ m.
                      ssl.encrypt_update (ssl.set_padding r.e 0) plain size
                      ≡ some (r.c, r.content, m))
                    all r.updates;
              agrees = λ a lt. ap (λ (b : Bytes). b a) (sym same) ∙ ground arith;
            }
      ]

  -- Where OpenSSL behaves as CbcLaws states of CBC, the functions of src/enc.c fill the interface
  -- Cipher with its laws: aes_decrypt undoes a successful aes_encrypt under the same key and
  -- vector, and reads no byte behind the size.
  pub cipher_of-CipherLaws : CipherLaws (cipher_of ssl)
  unfolding aes_decrypt run_decrypt init_cipher_ctx finish_decrypt check_size
  cipher_of-CipherLaws = record {
    aes_decrypt-encrypt = λ key iv plain enc size h. decrypts key iv plain enc size h;
    aes_decrypt_congr = λ key iv x y size h. same_bytes key iv x y size h;
  }
    where
      decrypts :
          (key iv plain enc : Bytes) (size : ℕ)
          → aes_encrypt ssl key iv plain (λ a. 0) size ≡ ok enc
          → (out : Bytes) × (aes_decrypt ssl key iv enc (λ a. 0) size ≡ ok out)
            × Agree size out plain
      decrypts key iv plain enc size h =
          let s = aes_encrypt-Encryption key iv plain (λ a. 0) size enc h in
          let (d, starts) = laws.decrypts_too key iv s.e s.starts in
          let (c', out, updates, agrees, c'', last, ends) =
            laws.undoes key iv plain enc size size s.e s.c d s.content s.starts starts s.updates
              s.blocks s.agrees in
          let whole : (size % enc_block_size == 0) ≡ true = let b = s.blocks in ground (arith, b) in
          let total : (size + 0 == size) ≡ true = ground arith in
          (
            memcpy (memcpy (λ a. 0) 0 out size) size last 0,
            rw
                (
                  aes_decrypt, whole, run_decrypt, init_cipher_ctx, s.memory, starts, updates,
                  finish_decrypt, ends, check_size, total,
                )
                refl,
            λ a lt. let q = agrees a lt in ground (arith, q),
          )

      same_bytes :
          (key iv x y : Bytes) (size : ℕ)
          → Agree size x y
          → aes_decrypt ssl key iv x (λ a. 0) size ≡ aes_decrypt ssl key iv y (λ a. 0) size
      same_bytes key iv x y size h = elim (Bool-cases (size % enc_block_size == 0)) [
        | inr part ↦ rw (aes_decrypt, part) refl
        | inl whole ↦ elim (Outcome-cases (init_cipher_ctx ssl cbc key iv ssl.decrypt_init)) [
          | inr (e, fails) ↦ rw (aes_decrypt, whole, run_decrypt, fails) refl
          | inl (ctx, inits) ↦
              rw (aes_decrypt, whole, run_decrypt, inits, laws.reads ctx x y size h) refl
        ]
      ]
