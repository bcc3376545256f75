-- ===== src/Tests/KeytabRuns.antt =====
-- The key table: a library whose tag is the key, and two users.
use bsfs.Base.{
  ℕ, zero, suc, ◌+◌, ◌<◌, ◌≡◌, refl, sym, ap, fun_ext, arith, Bool, true, false, ltb, ◌==◌,
  if◌then◌else◌, all_below, Bytes, Agree, Text, [], ◌∷◌, Option, none, some, Outcome, ok, err,
  ebadmsg,
}
use bsfs.Cipher.{Cipher, AuthCipher, AuthCipherLaws}
use bsfs.Disk.{Disk}
use bsfs.Enc.{
  OpenSsl, init_cipher_ctx, check_size, finish_encrypt, run_encrypt, aes_encrypt_auth,
  authenticated, finish_auth, aes_decrypt_auth, enc_key_from_bytes, cipher_of, auth_cipher_of,
}
use bsfs.Enc.Auth.{GcmLaws, Pbkdf2Laws, auth_cipher_of-AuthCipherLaws}
use bsfs.Stego.{StegoKey}
use bsfs.Keytab.{gen_key_iv, open_entry, keytab_lookup, keytab_store}
use bsfs.Keytab.Entry.{SameKey}
use bsfs.Keytab.Secured.{keytab_lookup-store_secured, keytab_lookup-store_secured_other}
use bsfs.Tests.Setting.{byte_of, alice, small_disk}

-- A context is the key, and whether the tag that was set is the key.
abbrev zeros : Bytes
zeros a = 0

abbrev kept : Bytes → ℕ → Bytes
kept x size a = if ltb a size then x a else 0

abbrev fits : ℕ → Bytes → Bytes → Bool
fits n tag key = all_below n (λ a. tag a == key a)

abbrev closed : Bytes × Bool → Option ((Bytes × Bool) × Bytes × ℕ)
closed (key, true) = some ((key, true), zeros, 0)
closed (key, false) = none

abbrev tagging : OpenSsl
tagging = record {
  Ctx = Bytes × Bool;
  has_memory = true;
  encrypt_init = λ mode key iv. some (key, true);
  decrypt_init = λ mode key iv. some (key, true);
  set_padding = λ ctx padding. ctx;
  encrypt_update = λ ctx plain size. some (ctx, plain, size);
  decrypt_update = λ ctx enc size. some (ctx, kept enc size, size);
  encrypt_final = λ ctx. some (ctx, zeros, 0);
  decrypt_final = closed;
  get_tag = λ ctx size. some (ctx.0);
  set_tag = λ ctx tag size. some (ctx.0, fits size tag ctx.0);
  pbkdf2 =
      λ password n salt m rounds size. some (λ a. password 0 + (if ltb a m then salt a else 0));
}

tagging-Pbkdf2Laws : Pbkdf2Laws tagging
tagging-Pbkdf2Laws = record {
  reads_salt = λ password x y n m rounds size h. ap some (fun_ext (λ a. ground (arith, h a)));
}

kept_congr : (size : ℕ) (x y : Bytes) → Agree size x y → kept x size ≡ kept y size
kept_congr size x y h = fun_ext (λ a. ground (arith, h a))

all_below_refl : (n : ℕ) (key : Bytes) → all_below n (λ a. key a == key a) ≡ true
unfolding all_below
all_below_refl zero key = refl
all_below_refl (suc n) key = ground (arith, all_below_refl n key)

all_below_congr :
    (n : ℕ) (t u key : Bytes)
    → Agree n t u
    → all_below n (λ a. t a == key a) ≡ all_below n (λ a. u a == key a)
unfolding all_below
all_below_congr zero t u key h = refl
all_below_congr (suc n) t u key h =
    rw (h n (omega arith), all_below_congr n t u key (λ a lt. h a (omega arith)))

abbrev Ctx : Type 0
Ctx = Bytes × Bool

abbrev ctx_of : Option Ctx → Ctx
ctx_of none = (zeros, true)
ctx_of (some c) = c

abbrev update_of : Option (Ctx × Bytes × ℕ) → Ctx × Bytes × ℕ
update_of none = ((zeros, true), zeros, 0)
update_of (some c) = c

opens :
    (key tag : Bytes) (d : Ctx) (tag_size : ℕ)
    → key ≡ d.0
    → key ≡ tag
    → (t' : Ctx) × (rest : Bytes) × (closed (d.0, fits tag_size tag d.0) ≡ some (t', rest, 0))
opens key tag d tag_size h h' =
    let fit : fits tag_size tag d.0 ≡ true = rw (sym h, sym h') (all_below_refl tag_size key) in
    ((d.0, true), zeros, ap (λ b. closed (d.0, b)) fit)

tagging-GcmLaws : GcmLaws tagging
tagging-GcmLaws = record {
  decrypts_too = λ key iv e h. ((key, true), refl);
  ends = λ key iv plain size n k e c c' content last h₁ h₂ h₃. cc h₃;
  undoes = λ key iv plain enc size n e c d content h₁ h₂ h₃ agree. (
    d,
    kept enc size,
    refl,
    λ a lt.
        let same = ap (λ o. (update_of o).1 a) h₃ in let q = agree a lt in ground (arith, q, same),
  );
  accepts =
      λ key iv plain enc size n k tag_size e c c' d d' content last out tag h₁ h₂ h₃ h₄ h₅ agree h₆.
        let ke = ap (λ o. (ctx_of o).0) h₁ in
        let kd = ap (λ o. (ctx_of o).0) h₂ in
        let kc = ap (λ o. (update_of o).0.0) h₃ in
        let kc' = ap (λ o. (update_of o).0.0) h₄ in
        let kd' = ap (λ o. (update_of o).0.0) h₆ in
        let kt : c'.0 ≡ tag = cc h₅ in
        let same_key : key ≡ d'.0 = cc in
        let same_tag : key ≡ tag = cc in
        let (t', rest, accepted) = opens key tag d' tag_size same_key same_tag in
        ((d'.0, fits tag_size tag d'.0), refl, t', rest, accepted);
  reads = λ ctx x y size h. ap (λ (b : Bytes). some (ctx, b, size)) (kept_congr size x y h);
  reads_tag = λ ctx x y size h. ap (λ b. some (ctx.0, b)) (all_below_congr size x y ctx.0 h);
}

auth_cipher_of-AuthCipherLaws_example : AuthCipherLaws (auth_cipher_of tagging)
auth_cipher_of-AuthCipherLaws_example = auth_cipher_of-AuthCipherLaws tagging tagging-GcmLaws

abbrev cipher : Cipher
cipher = cipher_of tagging

abbrev auth : AuthCipher
auth = auth_cipher_of tagging

abbrev alice_password : Text
alice_password = 5 ∷ []

abbrev bob_password : Text
bob_password = 6 ∷ 7 ∷ []

abbrev storing : Outcome Disk
storing = keytab_store cipher auth zeros zeros zeros small_disk 1 alice_password alice

abbrev disk_of : Outcome Disk → Disk
disk_of (ok disk) = disk
disk_of (err e) = small_disk

abbrev stored_disk : Disk
stored_disk = disk_of storing

storing_ok : storing ≡ ok stored_disk
unfolding keytab_store gen_key_iv enc_key_from_bytes aes_encrypt_auth run_encrypt finish_encrypt
    init_cipher_ctx check_size
storing_ok = refl

abbrev alice_key_iv : Bytes
alice_key_iv a = 5 + (if ltb a 16 then a else 0)

shut_before :
    (j : ℕ) → j < 1 → open_entry cipher auth alice_key_iv small_disk.contents j ≡ err ebadmsg
unfolding open_entry all_below aes_decrypt_auth finish_auth authenticated init_cipher_ctx
shut_before zero h = refl
shut_before (suc j) h = absurd (omega arith)

keytab_lookup-store_secured_example :
    (found : StegoKey) × (keytab_lookup cipher auth stored_disk alice_password ≡ ok found)
    × SameKey found alice
unfolding gen_key_iv enc_key_from_bytes
keytab_lookup-store_secured_example =
    keytab_lookup-store_secured tagging tagging-Pbkdf2Laws tagging-GcmLaws zeros zeros zeros
      small_disk stored_disk 1 alice_password alice storing_ok alice_key_iv refl shut_before

-- The key that the other password gives.
abbrev bob_key_iv : Bytes
bob_key_iv a = 6 + (if ltb a 16 then a else 0)

old_shut : open_entry cipher auth bob_key_iv small_disk.contents 1 ≡ err ebadmsg
unfolding open_entry all_below aes_decrypt_auth finish_auth authenticated init_cipher_ctx
old_shut = refl

new_shut : open_entry cipher auth bob_key_iv stored_disk.contents 1 ≡ err ebadmsg
unfolding open_entry all_below aes_decrypt_auth finish_auth authenticated init_cipher_ctx
    keytab_store gen_key_iv enc_key_from_bytes aes_encrypt_auth run_encrypt finish_encrypt
    check_size
new_shut = refl

shut_to_bob :
    (key_iv : Bytes)
    → gen_key_iv cipher auth bob_password small_disk.contents ≡ ok key_iv
    → (open_entry cipher auth key_iv small_disk.contents 1 ≡ err ebadmsg)
      × (open_entry cipher auth key_iv stored_disk.contents 1 ≡ err ebadmsg)
unfolding gen_key_iv enc_key_from_bytes
shut_to_bob key_iv h =
    let same : bob_key_iv ≡ key_iv = ap byte_of h in rw (sym same) (old_shut, new_shut)

keytab_lookup-store_secured_other_example :
    keytab_lookup cipher auth stored_disk bob_password
    ≡ keytab_lookup cipher auth small_disk bob_password
keytab_lookup-store_secured_other_example =
    keytab_lookup-store_secured_other tagging tagging-Pbkdf2Laws tagging-GcmLaws zeros zeros zeros
      small_disk stored_disk 1 alice_password alice storing_ok bob_password shut_to_bob
