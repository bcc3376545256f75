-- ===== src/Vector/Product.antt =====
-- The scalar product of src/vector.c against the sum over the single bits.
use native.Mathlib.Nat.{pow-suc, div-one, div-div-eq-div-mul}
use bsfs.Base.{
  ℕ, zero, suc, ◌+◌, ◌-◌, ◌*◌, ◌/◌, ◌%◌, ◌^◌, ◌≤◌, ◌<◌, ◌≡◌, refl, sym, ap, arith, Bool, ◌&&◌, ◌⊕◌,
  bit_and, Bytes,
}
use bsfs.Base.Xor.{bit_and_step, zero-bit_and}
use bsfs.BitUtil.{bit_of, get_bit}
use bsfs.Vector.{xor_bits, parity, scalar_loop, vector_scalar_product}

pub ⊕_assoc : (a b c : Bool) → a ⊕ b ⊕ c ≡ a ⊕ (b ⊕ c)
⊕_assoc a b c = ground arith

pub xor_bits_congr :
    (n : ℕ) (f g : ℕ → Bool) → ((i : ℕ) → i < n → f i ≡ g i) → xor_bits n f ≡ xor_bits n g
unfolding xor_bits
xor_bits_congr zero f g h = refl
xor_bits_congr (suc n) f g h =
    rw (xor_bits_congr n f g (λ i p. h i (omega arith)), h n (omega arith))

xor_bits-add :
    (n m : ℕ) (f : ℕ → Bool) → xor_bits (n + m) f ≡ xor_bits n f ⊕ xor_bits m (λ j. f (n + j))
unfolding xor_bits
xor_bits-add n zero f = ground arith
xor_bits-add n (suc m) f =
    let e : n + suc m ≡ suc (n + m) = omega arith in
    rw (e, xor_bits-add n m f) (⊕_assoc (xor_bits n f) _ (f (n + m)))

half-pow : (x k : ℕ) → x / 2 ^ suc k ≡ x / 2 ^ k / 2
half-pow x k = rw (pow-suc 2 k) (sym (div-div-eq-div-mul x (2 ^ k) 2))

and-shift : (k x y : ℕ) → bit_and (x / 2 ^ k) (y / 2 ^ k) ≡ bit_and x y / 2 ^ k
and-shift zero x y = rw (div-one x, div-one y, div-one (bit_and x y))
and-shift (suc k) x y =
    rw (half-pow x k, half-pow y k, half-pow (bit_and x y) k)
      (omega (arith, bit_and_step (x / 2 ^ k) (y / 2 ^ k), and-shift k x y))

bit_and-zero : (bound x : ℕ) → x ≤ bound → bit_and x 0 ≡ 0
bit_and-zero bound zero h = zero-bit_and 0
bit_and-zero zero (suc x) h = absurd (omega arith)
bit_and-zero (suc bound) (suc x) h =
    omega (arith, bit_and_step (suc x) 0, bit_and-zero bound (suc x / 2) (omega arith))

bit_and-one : (x : ℕ) → bit_and x 1 ≡ x % 2
bit_and-one x = omega (arith, bit_and-zero x (x / 2) (omega arith), bit_and_step x 1)

-- `&` works bit by bit.
pub bit_of-and : (x y k : ℕ) → bit_of (bit_and x y) k ≡ bit_of x k && bit_of y k
unfolding bit_of
bit_of-and x y k = ground (
  arith,
  bit_and-one (bit_and x y / 2 ^ k),
  bit_and-one (x / 2 ^ k),
  bit_and-one (y / 2 ^ k),
  and-shift k x y,
  bit_and_step (x / 2 ^ k) (y / 2 ^ k),
)

-- The product of the bits at an index.
abbrev pub common_bit : Bytes → Bytes → ℕ → Bool
common_bit a b i = get_bit a i && get_bit b i

common_bit-byte :
    (a b : Bytes) (i k : ℕ)
    → k < 8
    → common_bit a b (8 * i + k) ≡ bit_of (bit_and (a i) (b i)) (8 - 1 - k)
unfolding get_bit
common_bit-byte a b i k h =
    let quotient : (8 * i + k) / 8 ≡ i = omega arith in
    let remainder : (8 * i + k) % 8 ≡ k = omega arith in
    rw (quotient, remainder) (sym (bit_of-and (a i) (b i) (8 - 1 - k)))

parity-byte :
    (a b : Bytes) (i : ℕ)
    → xor_bits (8 * suc i) (common_bit a b)
      ≡ xor_bits (8 * i) (common_bit a b) ⊕ parity (bit_and (a i) (b i))
unfolding parity
parity-byte a b i =
    let e : 8 * suc i ≡ 8 * i + 8 = omega arith in
    rw (e, xor_bits-add (8 * i) 8 (common_bit a b))
      (ap (λ t. xor_bits (8 * i) (common_bit a b) ⊕ t)
        (xor_bits_congr 8 _ _ (λ k h. common_bit-byte a b i k h)))

scalar_loop_lem :
    (a b : Bytes) (left i n : ℕ)
    → i + left ≡ n
    → scalar_loop a b left i (xor_bits (8 * i) (common_bit a b)) ≡ xor_bits (8 * n) (common_bit a b)
unfolding scalar_loop
scalar_loop_lem a b zero i n e = let e' : i ≡ n = omega arith in rw e'
scalar_loop_lem a b (suc left) i n e =
    let e' : i + 1 ≡ suc i = omega arith in
    rw (e', ← parity-byte a b i) (scalar_loop_lem a b left (suc i) n (omega arith))

-- vector_scalar_product of two vectors is the sum modulo 2 of the products of their bits, as
-- get_bit reads them.
pub vector_scalar_product_lem :
    (a b : Bytes) (size : ℕ) → vector_scalar_product a b size ≡ xor_bits (8 * size) (common_bit a b)
unfolding vector_scalar_product xor_bits
vector_scalar_product_lem a b size = scalar_loop_lem a b size 0 size (omega arith)
