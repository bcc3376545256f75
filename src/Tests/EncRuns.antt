-- ===== src/Tests/EncRuns.antt =====
-- A library that adds the first byte of the key to each byte.
use bsfs.Base.{
  ℕ, ◌+◌, ◌-◌, ◌≡◌, refl, ap, fun_ext, arith, true, ltb, if◌then◌else◌, Bytes, Agree, Option, none,
  some,
}
use bsfs.Cipher.{CipherLaws}
use bsfs.Enc.{OpenSsl, cbc, cipher_of}
use bsfs.Enc.Laws.{CbcLaws, cipher_of-CipherLaws}

abbrev taken_off : ℕ → Bytes → ℕ → Bytes
taken_off k x size a = if ltb a size then x a - k else 0

-- A context is the byte of the key.
abbrev adding : OpenSsl
adding = record {
  Ctx = ℕ;
  has_memory = true;
  encrypt_init = λ mode key iv. some (key 0);
  decrypt_init = λ mode key iv. some (key 0);
  set_padding = λ ctx padding. ctx;
  encrypt_update = λ ctx plain size. some (ctx, (λ a. plain a + ctx), size);
  decrypt_update = λ ctx enc size. some (ctx, taken_off ctx enc size, size);
  encrypt_final = λ ctx. some (ctx, (λ a. 0), 0);
  decrypt_final = λ ctx. some (ctx, (λ a. 0), 0);
  get_tag = λ ctx size. none;
  set_tag = λ ctx tag size. none;
  pbkdf2 = λ password n salt m rounds size. some salt;
}

taken_off_congr :
    (ctx size : ℕ) (x y : Bytes) → Agree size x y → taken_off ctx x size ≡ taken_off ctx y size
taken_off_congr ctx size x y h = fun_ext (λ a. ground (arith, h a))

abbrev content_of : Option (ℕ × Bytes × ℕ) → Bytes
content_of none = λ a. 0
content_of (some (ctx, content, n)) = content

undone :
    (key plain enc content : Bytes) (size e d c n : ℕ)
    → adding.encrypt_init cbc key plain ≡ some e
    → adding.decrypt_init cbc key plain ≡ some d
    → adding.encrypt_update e plain size ≡ some (c, content, n)
    → Agree size enc content
    → Agree size (taken_off d enc size) plain
undone key plain enc content size e d c n h₁ h₂ h₃ agree a lt =
    let ke : key 0 ≡ e = cc h₁ in
    let kd : key 0 ≡ d = cc h₂ in
    let shown = ap (λ o. content_of o a) h₃ in let q = agree a lt in ground (arith, q, shown)

adding-CbcLaws : CbcLaws adding
adding-CbcLaws = record {
  decrypts_too = λ key iv e h. (key 0, refl);
  ends = λ key iv plain size n k e c c' content last h₁ h₂ h₃. cc h₃;
  undoes = λ key iv plain enc size n e c d content h₁ h₂ h₃ blocks agree. (
    d,
    taken_off d enc size,
    refl,
    λ a lt. undone key plain enc content size e d c n h₁ h₂ h₃ agree a lt,
    d,
    (λ a. 0),
    refl,
  );
  reads =
      λ ctx x y size h. ap (λ (b : Bytes). some (ctx, b, size)) (taken_off_congr ctx size x y h);
}

cipher_of-CipherLaws_example : CipherLaws (cipher_of adding)
cipher_of-CipherLaws_example = cipher_of-CipherLaws adding adding-CbcLaws
