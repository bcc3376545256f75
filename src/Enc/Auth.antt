-- ===== src/Enc/Auth.antt =====
-- The authenticated functions of src/enc.c, and its derivation of keys, have what src/keytab.c relies
-- on, where OpenSSL behaves as it is documented.
use bsfs.Base.{
  ℕ, ◌+◌, ◌≡◌, refl, sym, ap, ◌∙◌, arith, true, ◌==◌, Bytes, Agree, memcpy, some, ok, >>=-ok_inv,
  Outcome-cases, inl, inr, Option-cases,
}
use bsfs.Cipher.{AuthCipherLaws, IsSaltLocal}
use bsfs.Enc.{
  gcm, OpenSsl, or_eio, init_cipher_ctx, check_size, run_encrypt, aes_encrypt_auth, authenticated,
  finish_auth, aes_decrypt_auth, enc_key_from_bytes, cipher_of, auth_cipher_of,
}
use bsfs.Enc.Steps.{or_eio-ok, run_encrypt-Encrypted}

-- What is documented of GCM: a final call of an encryption gives no bytes, a decryption gives the
-- bytes that were encrypted, its final call accepts the tag of the encryption, and an update and a
-- tag's setting read no byte behind the size.
pub record GcmLaws (ssl : OpenSsl) : Type 0 where
  pub decrypts_too :
      (key iv : Bytes) (e : ssl.Ctx)
      → ssl.encrypt_init gcm key iv ≡ some e
      → (d : ssl.Ctx) × (ssl.decrypt_init gcm key iv ≡ some d)
  pub ends :
      (key iv plain : Bytes) (size n k : ℕ) (e c c' : ssl.Ctx) (content last : Bytes)
      → ssl.encrypt_init gcm key iv ≡ some e
      → ssl.encrypt_update (ssl.set_padding e 0) plain size ≡ some (c, content, n)
      → ssl.encrypt_final c ≡ some (c', last, k)
      → k ≡ 0
  pub undoes :
      (key iv plain enc : Bytes) (size n : ℕ) (e c d : ssl.Ctx) (content : Bytes)
      → ssl.encrypt_init gcm key iv ≡ some e
      → ssl.decrypt_init gcm key iv ≡ some d
      → ssl.encrypt_update (ssl.set_padding e 0) plain size ≡ some (c, content, n)
      → Agree size enc content
      → (d' : ssl.Ctx) × (out : Bytes) × (ssl.decrypt_update (ssl.set_padding d 0) enc size
          ≡ some (d', out, size))
        × Agree size out plain
  pub accepts :
      (key iv plain enc : Bytes) (size n k tag_size : ℕ) (e c c' d d' : ssl.Ctx)
      (content last out tag : Bytes)
      → ssl.encrypt_init gcm key iv ≡ some e
      → ssl.decrypt_init gcm key iv ≡ some d
      → ssl.encrypt_update (ssl.set_padding e 0) plain size ≡ some (c, content, n)
      → ssl.encrypt_final c ≡ some (c', last, k)
      → ssl.get_tag c' tag_size ≡ some tag
      → Agree size enc content
      → ssl.decrypt_update (ssl.set_padding d 0) enc size ≡ some (d', out, size)
      → (t : ssl.Ctx) × (ssl.set_tag d' tag tag_size ≡ some t)
        × (t' : ssl.Ctx) × (rest : Bytes) × (ssl.decrypt_final t ≡ some (t', rest, 0))
  pub reads :
      (ctx : ssl.Ctx) (x y : Bytes) (size : ℕ)
      → Agree size x y
      → ssl.decrypt_update ctx x size ≡ ssl.decrypt_update ctx y size
  pub reads_tag :
      (ctx : ssl.Ctx) (x y : Bytes) (tag_size : ℕ)
      → Agree tag_size x y
      → ssl.set_tag ctx x tag_size ≡ ssl.set_tag ctx y tag_size

-- What is documented of PBKDF2: it reads the salt's bytes alone.
pub record Pbkdf2Laws (ssl : OpenSsl) : Type 0 where
  pub reads_salt :
      (password x y : Bytes) (password_size salt_size rounds key_size : ℕ)
      → Agree salt_size x y
      → ssl.pbkdf2 password password_size x salt_size rounds key_size
        ≡ ssl.pbkdf2 password password_size y salt_size rounds key_size

pub cipher_of-IsSaltLocal : (ssl : OpenSsl) → Pbkdf2Laws ssl → IsSaltLocal (cipher_of ssl)
unfolding enc_key_from_bytes
cipher_of-IsSaltLocal ssl laws password x y password_size salt_size rounds key_size h =
    ap or_eio (laws.reads_salt password x y password_size salt_size rounds key_size h)

-- A decryption whose calls all succeed.
aes_decrypt_auth-runs :
    (ssl : OpenSsl) (key iv enc out rest tag : Bytes) (size tag_size : ℕ) (d d' t t' : ssl.Ctx)
    → ssl.has_memory ≡ true
    → ssl.decrypt_init gcm key iv ≡ some d
    → ssl.decrypt_update (ssl.set_padding d 0) enc size ≡ some (d', out, size)
    → ssl.set_tag d' tag tag_size ≡ some t
    → ssl.decrypt_final t ≡ some (t', rest, 0)
    → aes_decrypt_auth ssl key iv enc (λ a. 0) size tag tag_size
      ≡ ok (memcpy (memcpy (λ a. 0) 0 out size) size rest 0)
unfolding aes_decrypt_auth init_cipher_ctx finish_auth check_size authenticated
aes_decrypt_auth-runs ssl key iv enc out rest tag size tag_size d d' t t' memory starts updates sets
      finishes =
    let whole : (size + 0 == size) ≡ true = ground arith in
    rw
      (
        aes_decrypt_auth, init_cipher_ctx, memory, starts, updates, finish_auth, sets, finishes,
        check_size, whole,
      )
      refl

-- Where OpenSSL behaves as GcmLaws states of GCM, the functions of src/enc.c fill the interface
-- AuthCipher with its laws: aes_decrypt_auth with the tag undoes a successful aes_encrypt_auth
-- under the same key and vector, and reads no byte behind the two sizes.
pub auth_cipher_of-AuthCipherLaws :
    (ssl : OpenSsl) → GcmLaws ssl → AuthCipherLaws (auth_cipher_of ssl)
unfolding aes_encrypt_auth aes_decrypt_auth init_cipher_ctx finish_auth check_size authenticated
auth_cipher_of-AuthCipherLaws ssl laws = record {
  aes_decrypt_auth-encrypt =
      λ key iv plain enc tag size tag_size h. decrypts key iv plain enc tag size tag_size h;
  aes_decrypt_auth_congr =
      λ key iv x y t u size tag_size hx ht. same_bytes key iv x y t u size tag_size hx ht;
}
  where
    decrypts :
        (key iv plain enc tag : Bytes) (size tag_size : ℕ)
        → aes_encrypt_auth ssl key iv plain (λ a. 0) size tag_size ≡ ok (enc, tag)
        → (out : Bytes) × (aes_decrypt_auth ssl key iv enc (λ a. 0) size tag tag_size ≡ ok out)
          × Agree size out plain
    decrypts key iv plain enc tag size tag_size h =
        let (done, ran, h₁) = >>=-ok_inv (run_encrypt ssl gcm key iv plain (λ a. 0) size) _ h in
        let (tag', gets, h₂) = >>=-ok_inv (or_eio (ssl.get_tag done.0 tag_size)) _ h₁ in
        let same : (done.1, tag') ≡ (enc, tag) = cc h₂ in
        let r = run_encrypt-Encrypted ssl gcm key iv plain (λ a. 0) size done ran in
        let none_left =
          laws.ends key iv plain size r.n r.k r.e r.c done.0 r.content r.last r.starts r.updates
            r.finishes in
        let buffer = r.buffer ∙ ap (λ (p : Bytes × Bytes). p.0) same in
        let total = r.total in
        let agrees : Agree size enc r.content =
          λ a lt. ap (λ (b : Bytes). b a) (sym buffer) ∙ ground arith in
        let tags =
          or_eio-ok (ssl.get_tag done.0 tag_size) tag' gets
          ∙ ap (λ (p : Bytes × Bytes). some (p.1)) same in
        let (d, starts) = laws.decrypts_too key iv r.e r.starts in
        let (d', out, updates, plain_again) =
          laws.undoes key iv plain enc size r.n r.e r.c d r.content r.starts starts r.updates
            agrees in
        let (t, sets, t', rest, finishes) =
          laws.accepts key iv plain enc size r.n r.k tag_size r.e r.c done.0 d d' r.content r.last
            out tag r.starts starts r.updates r.finishes tags agrees updates in
        (
          memcpy (memcpy (λ a. 0) 0 out size) size rest 0,
          aes_decrypt_auth-runs ssl key iv enc out rest tag size tag_size d d' t t' r.memory starts
              updates sets finishes,
          λ a lt. let q = plain_again a lt in ground (arith, q),
        )

    same_bytes :
        (key iv x y t u : Bytes) (size tag_size : ℕ)
        → Agree size x y
        → Agree tag_size t u
        → aes_decrypt_auth ssl key iv x (λ a. 0) size t tag_size
          ≡ aes_decrypt_auth ssl key iv y (λ a. 0) size u tag_size
    same_bytes key iv x y t u size tag_size hx ht =
        elim (Outcome-cases (init_cipher_ctx ssl gcm key iv ssl.decrypt_init)) [
          | inr (e, fails) ↦ rw (aes_decrypt_auth, fails) refl
          | inl (ctx, inits) ↦ elim (Option-cases (ssl.decrypt_update ctx y size)) [
            | inl stops ↦ rw (aes_decrypt_auth, inits, laws.reads ctx x y size hx, stops) refl
            | inr ((c, content, n), updates) ↦
                rw
                  (
                    aes_decrypt_auth,
                    inits,
                    laws.reads ctx x y size hx,
                    updates,
                    finish_auth,
                    laws.reads_tag c t u tag_size ht,
                  )
                  refl
          ]
        ]
