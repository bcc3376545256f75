-- ===== src/BitUtil/Bits.antt =====
-- The single bits of src/bit_util.c: `set_bit` changes the bit that it names and no other.
use bsfs.Base.{
  ℕ, ◌-◌, ◌/◌, ◌%◌, ◌<◌, ◌≡◌, ◌≢◌, refl, arith, Bool, true, false, ◌&&◌, ◌==◌, if◌then◌else◌,
  all_below, all_below_sound, beq, beq→eq, Bytes, IsBytes,
}
use bsfs.BitUtil.{bit_of, with_bit, get_bit, set_bit}

-- Every byte, position to set, position to read and flag.
sets : ℕ → ℕ → ℕ → Bool → Bool
unfolding bit_of with_bit beq
sets byte k j val = beq (bit_of (with_bit byte k val) j) (if k == j then val else bit_of byte j)

sets_table :
    all_below 256
      (λ byte. all_below 8 (λ k. all_below 8 (λ j. sets byte k j true && sets byte k j false)))
    ≡ true
unfolding all_below sets
sets_table = refl

sets_all :
    (byte k j : ℕ) (val : Bool)
    → byte < 256
    → k < 8
    → j < 8
    → bit_of (with_bit byte k val) j ≡ (if k == j then val else bit_of byte j)
unfolding sets
sets_all byte k j val hb hk hj =
    let at_byte = all_below_sound 256 _ byte sets_table hb in
    let at_k = all_below_sound 8 _ k at_byte hk in
    let both = all_below_sound 8 _ j at_k hj in beq→eq _ _ (by_flag val both)
  where
    by_flag :
        (v : Bool) → (sets byte k j true && sets byte k j false) ≡ true → sets byte k j v ≡ true
    by_flag true h = ground arith
    by_flag false h = ground arith

-- In a buffer of bytes, set_bit stores the flag at its bit, and get_bit reads every other bit as
-- before.
pub get_bit-set_bit :
    (buf : Bytes) (i j : ℕ) (val : Bool)
    → IsBytes buf
    → get_bit (set_bit buf i val) j ≡ (if i == j then val else get_bit buf j)
unfolding get_bit set_bit
get_bit-set_bit buf i j val h = ground (
  arith,
  sets_all (buf (i / 8)) (8 - 1 - i % 8) (8 - 1 - j % 8) val (h (i / 8)) (omega arith)
      (omega arith),
)

pub set_bit-IsBytes : (buf : Bytes) (i : ℕ) (val : Bool) → IsBytes buf → IsBytes (set_bit buf i val)
unfolding set_bit
set_bit-IsBytes buf i val h a = ground (arith, h a)

-- Only the byte that holds the bit is written.
pub set_bit_outside : (buf : Bytes) (i a : ℕ) (val : Bool) → a ≢ i / 8 → set_bit buf i val a ≡ buf a
unfolding set_bit
set_bit_outside buf i a val h = ground arith

pub get_bit_congr : (x y : Bytes) (i : ℕ) → x (i / 8) ≡ y (i / 8) → get_bit x i ≡ get_bit y i
unfolding get_bit
get_bit_congr x y i e = rw e
