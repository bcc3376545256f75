-- ===== src/Enc/Steps.antt =====
-- The calls of OpenSSL that an encryption of src/enc.c makes where it succeeds.
use bsfs.Base.{
  ℕ, ◌+◌, ◌≡◌, ap, ◌∙◌, arith, true, ◌==◌, Bytes, memcpy, Option, none, some, Option-cases,
  Bool-cases, inl, inr, ok, >>=-ok_inv,
}
use bsfs.Enc.{Mode, OpenSsl, or_eio, init_cipher_ctx, check_size, finish_encrypt, run_encrypt}

pub or_eio-ok {ℓ} : {A : Type ℓ} (o : Option A) (a : A) → or_eio o ≡ ok a → o ≡ some a
or_eio-ok none a h = cc h
or_eio-ok (some b) a h = ap some (cc h)

module _ (ssl : OpenSsl) where
  init_cipher_ctx-ok :
      (mode : Mode) (key iv : Bytes) (init_func : Mode → Bytes → Bytes → Option ssl.Ctx)
      (ctx : ssl.Ctx)
      → init_cipher_ctx ssl mode key iv init_func ≡ ok ctx
      → (ssl.has_memory ≡ true)
        × (e : ssl.Ctx) × (init_func mode key iv ≡ some e)
        × (ssl.set_padding e 0 ≡ ctx)
  unfolding init_cipher_ctx
  init_cipher_ctx-ok mode key iv init_func ctx h = elim (Bool-cases ssl.has_memory) [
    | inr short ↦ let wrong = rw (init_cipher_ctx, short) at h in cc
    | inl memory ↦ elim (Option-cases (init_func mode key iv)) [
      | inl fails ↦ let wrong = rw (init_cipher_ctx, memory, fails) at h in cc
      | inr (e, starts) ↦ (memory, e, starts, cc (rw (init_cipher_ctx, memory, starts) at h))
    ]
  ]

  check_size-ok :
      (total size : ℕ) (bytes out : Bytes)
      → check_size ssl total size bytes ≡ ok out
      → (total ≡ size) × (bytes ≡ out)
  unfolding check_size
  check_size-ok total size bytes out h = elim (Bool-cases (total == size)) [
    | inr other ↦ let wrong = rw (check_size, other) at h in cc
    | inl same ↦ (ground arith, cc (rw (check_size, same) at h))
  ]

  -- The calls of `run_encrypt`, and how the buffer comes from what they give.
  pub record Encrypted (mode : Mode) (key iv plain enc₀ : Bytes) (size : ℕ) (done : ssl.Ctx × Bytes)
      : Type 0 where
    pub memory : ssl.has_memory ≡ true
    pub e : ssl.Ctx
    pub starts : ssl.encrypt_init mode key iv ≡ some e
    pub c : ssl.Ctx
    pub content : Bytes
    pub n : ℕ
    pub updates : ssl.encrypt_update (ssl.set_padding e 0) plain size ≡ some (c, content, n)
    pub last : Bytes
    pub k : ℕ
    pub finishes : ssl.encrypt_final c ≡ some (done.0, last, k)
    pub total : n + k ≡ size
    pub buffer : memcpy (memcpy enc₀ 0 content n) n last k ≡ done.1

  pub run_encrypt-Encrypted :
      (mode : Mode) (key iv plain enc₀ : Bytes) (size : ℕ) (done : ssl.Ctx × Bytes)
      → run_encrypt ssl mode key iv plain enc₀ size ≡ ok done
      → Encrypted mode key iv plain enc₀ size done
  unfolding run_encrypt finish_encrypt
  run_encrypt-Encrypted mode key iv plain enc₀ size done ran =
      let (ctx, inits, ran₁) =
        >>=-ok_inv (init_cipher_ctx ssl mode key iv ssl.encrypt_init) _ ran in
      let ((c, content, n), updates, ran₂) =
        >>=-ok_inv (or_eio (ssl.encrypt_update ctx plain size)) _ ran₁ in
      let ((c', last, k), finishes, ran₃) = >>=-ok_inv (or_eio (ssl.encrypt_final c)) _ ran₂ in
      let whole_out = memcpy (memcpy enc₀ 0 content n) n last k in
      let (out, checks, e₂) = >>=-ok_inv (check_size ssl (n + k) size whole_out) _ ran₃ in
      let (memory, e, starts, padded) = init_cipher_ctx-ok mode key iv ssl.encrypt_init ctx inits in
      let (total, is_out) = check_size-ok (n + k) size whole_out out checks in
      let done_eq : (c', out) ≡ done = cc e₂ in
      record {
        memory = memory;
        e = e;
        starts = starts;
        c = c;
        content = content;
        n = n;
        updates =
            ap (λ x. ssl.encrypt_update x plain size) padded
            ∙ or_eio-ok (ssl.encrypt_update ctx plain size) (c, content, n) updates;
        last = last;
        k = k;
        finishes =
            or_eio-ok (ssl.encrypt_final c) (c', last, k) finishes
            ∙ ap (λ (x : ssl.Ctx × Bytes). some (x.0, last, k)) done_eq;
        total = total;
        buffer = is_out ∙ ap (λ (x : ssl.Ctx × Bytes). x.1) done_eq;
      }
