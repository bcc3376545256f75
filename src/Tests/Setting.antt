-- ===== src/Tests/Setting.antt =====
-- A cipher that changes nothing, keys that select one cover each, and small disks.
use bsfs.Base.{
  ℕ, ◌+◌, ◌-◌, ◌*◌, ◌^◌, ◌≡◌, refl, arith, true, false, ◌==◌, if◌then◌else◌, all_below,
  all_below_sound, beq, beq→eq, Bytes, Agree, Outcome, ok, err, ltb, lt→ltb, ap, sym, fun_ext,
}
use bsfs.BitUtil.{bit_of}
use bsfs.Cipher.{Cipher, CipherLaws}
use bsfs.Disk.{Disk}
use bsfs.Stego.{StegoKey, Host}
use bsfs.Stego.Written.{IsDual, IsForeign}
use bsfs.Vector.{vector_scalar_product, xor_bits}

abbrev pub plain_cipher : Cipher
plain_cipher = record {
  enc_key_from_bytes = λ password n salt m rounds size. ok (λ a. salt a);
  aes_encrypt = λ key iv plain size. ok plain;
  aes_decrypt = λ key iv enc size. ok (λ a. if ltb a size then enc a else 0);
}

plain_decrypt_congr :
    (x y : Bytes) (size : ℕ)
    → Agree size x y
    → ◌≡◌ {A = Outcome Bytes}
        (ok (λ a. if ltb a size then x a else 0))
        (ok (λ a. if ltb a size then y a else 0))
plain_decrypt_congr x y size h = ap ok (fun_ext (λ a. ground (arith, h a)))

abbrev pub byte_of : Outcome Bytes → Bytes
byte_of (ok b) = b
byte_of (err e) = λ a. 0

pub plain_laws : CipherLaws plain_cipher
plain_laws = record {
  aes_decrypt-encrypt = λ key iv plain enc size e.
      (_, refl, λ a lt. rw (lt→ltb a size lt) (sym (ap (λ (o : Outcome Bytes). byte_of o a) e)));
  aes_decrypt_congr = λ key iv x y size h. plain_decrypt_congr x y size h;
}

abbrev pub roomy_host : Host
roomy_host = record { malloc = λ n. true; u64_bytes = λ v a. if a == 0 then v else 0 }

-- The key that selects cover `i` alone, for `i < 8`.
abbrev pub unit_key : ℕ → Bytes
unit_key i a = if a == 0 then 2 ^ (7 - i) else 0

abbrev pub alice : StegoKey
alice = record { aes_key = λ a. 7; read_keys = unit_key; write_keys = unit_key }

abbrev pub bob : StegoKey
bob = record {
  aes_key = λ a. 9;
  read_keys = λ i. unit_key (i + 4);
  write_keys = λ i. unit_key (i + 4);
}

own_table :
    all_below 4
      (λ i. all_below 4 (λ l. beq (vector_scalar_product (unit_key i) (unit_key l) 32) (i == l)))
    ≡ true
unfolding all_below beq vector_scalar_product xor_bits bit_of
own_table = refl

foreign_table :
    all_below 4
      (λ i. all_below 4 (λ l. beq (vector_scalar_product (unit_key (i + 4)) (unit_key l) 32) false))
    ≡ true
unfolding all_below beq vector_scalar_product xor_bits bit_of
foreign_table = refl

pub alice-IsDual : IsDual alice.read_keys alice.write_keys
alice-IsDual i l hi hl = beq→eq _ _ (all_below_sound 4 _ l (all_below_sound 4 _ i own_table hi) hl)

pub bob_alice-IsForeign : IsForeign bob.read_keys alice.write_keys
bob_alice-IsForeign i l hi hl =
    beq→eq _ _ (all_below_sound 4 _ l (all_below_sound 4 _ i foreign_table hi) hl)

-- Covers of 64 bytes, which make user levels of 256.
abbrev pub small_disk : Disk
small_disk = record { data_size = 4624 + 256 * 64; contents = λ a. a }

abbrev pub message : Bytes
message a = 100 + a
