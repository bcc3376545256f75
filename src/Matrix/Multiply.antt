-- ===== src/Matrix/Multiply.antt =====
-- `matrix_multiply` and `matrix_set_identity` of src/matrix.c, entry by entry.
use bsfs.Base.{
  ℕ, zero, suc, ◌+◌, ◌-◌, ◌*◌, ◌/◌, ◌%◌, ◌^◌, ◌≤◌, ◌<◌, ◌≡◌, refl, ap, ap₂, ◌∙◌, arith, Bool, true,
  false, ◌&&◌, ◌==◌, if◌then◌else◌, Bytes, IsBytes, in_range, memset, Bool-cases, inl, inr,
}
use native.Mathlib.Nat.{mul-le-mul_right, suc-mul}
use bsfs.Base.{all_below, all_below_sound, not}
use bsfs.BitUtil.{round_to_bytes, get_bit, bit_of}
use bsfs.Matrix.{
  matrix_get, product_loop, multiply_cols, multiply_rows, matrix_multiply, identity_loop,
  matrix_set_identity,
}
use bsfs.Matrix.View.{Entries, IsView, IsView-congr, matrix_set-IsView}
use bsfs.Vector.{xor_bits}
use bsfs.Vector.Product.{xor_bits_congr}

-- The product of two matrices at an entry.
unfoldable pub product_of : ℕ → Entries → Entries → Entries
product_of dim v w r c = xor_bits dim (λ k. v r k && w k c)

product_loop-sum :
    (left k dim : ℕ) (a b : Bytes) (row col : ℕ) (value : Bool)
    → k + left ≡ dim
    → value ≡ xor_bits k (λ l. matrix_get a row l dim && matrix_get b l col dim)
    → product_loop dim left k a b row col value
      ≡ xor_bits dim (λ l. matrix_get a row l dim && matrix_get b l col dim)
unfolding product_loop xor_bits
product_loop-sum zero k dim a b row col value e h =
    let all : k ≡ dim = omega arith in
    h ∙ ap (λ n. xor_bits n (λ l. matrix_get a row l dim && matrix_get b l col dim)) all
product_loop-sum (suc left) k dim a b row col value e h =
    let one_more : k + 1 ≡ suc k = omega arith in
    product_loop-sum left (k + 1) dim a b row col _ (omega arith) (rw (one_more, h) refl)

module _ (dim : ℕ) (a b : Bytes) (v w : Entries) (ha : IsView dim a v) (hb : IsView dim b w) where
  product_loop_lem :
      (row col : ℕ)
      → row < dim
      → col < dim
      → product_loop dim dim 0 a b row col false ≡ product_of dim v w row col
  unfolding product_of xor_bits
  product_loop_lem row col hr hc =
      product_loop-sum dim 0 dim a b row col false (omega arith) refl
      ∙ xor_bits_congr dim _ _ (λ k hk. ap₂ ◌&&◌ (ha.reads row k hr hk) (hb.reads k col hk hc))

  multiply_cols-IsView :
      (left col row : ℕ) (dest : Bytes) (d : Entries)
      → IsView dim dest d
      → col + left ≤ dim
      → row < dim
      → IsView dim
          (multiply_cols dim left col a b row dest)
          (λ r c. if r == row && in_range col left c then product_of dim v w r c else d r c)
  unfolding multiply_cols
  multiply_cols-IsView zero col row dest d h within hr =
      IsView-congr dim dest d _ h (λ r c _ _. ground arith)
  multiply_cols-IsView (suc left) col row dest d h within hr =
      let x = product_loop dim dim 0 a b row col false in
      let set = matrix_set-IsView dim dest d row col x h (omega arith) in
      IsView-congr dim _ _ _ (multiply_cols-IsView left (col + 1) row _ _ set (omega arith) hr)
        (λ r c _ hc. elim (Bool-cases (row == r && col == c)) [
          | inl here ↦
              let er : row ≡ r = ground arith in
              let ec : col ≡ c = ground arith in
              let q : x ≡ product_of dim v w r c =
                product_loop_lem row col hr (omega arith) ∙ ap₂ (product_of dim v w) er ec in
              ground arith
          | inr apart ↦ ground arith
        ])

  multiply_rows-IsView :
      (left row : ℕ) (dest : Bytes) (d : Entries)
      → IsView dim dest d
      → row + left ≤ dim
      → IsView dim
          (multiply_rows dim left row a b dest)
          (λ r c. if in_range row left r then product_of dim v w r c else d r c)
  unfolding multiply_rows
  multiply_rows-IsView zero row dest d h within =
      IsView-congr dim dest d _ h (λ r c _ _. ground arith)
  multiply_rows-IsView (suc left) row dest d h within =
      let cols = multiply_cols-IsView dim 0 row dest d h (omega arith) (omega arith) in
      IsView-congr dim _ _ _ (multiply_rows-IsView left (row + 1) _ _ cols (omega arith))
        (λ r c _ hc. ground arith)

  -- For factors of bytes that hold two matrices and a destination of bytes, matrix_multiply gives a
  -- buffer that holds their product over the bits.
  pub matrix_multiply-IsView :
      (dest : Bytes) (d : Entries)
      → IsView dim dest d
      → IsView dim (matrix_multiply dim dest a b) (product_of dim v w)
  unfolding matrix_multiply
  matrix_multiply-IsView dest d h =
      IsView-congr dim _ _ _ (multiply_rows-IsView dim 0 dest d h (omega arith))
        (λ r c hr hc. ground arith)

identity_loop-IsView :
    (dim left i : ℕ) (matrix : Bytes) (v : Entries)
    → IsView dim matrix v
    → i + left ≤ dim
    → IsView dim
        (identity_loop dim left i matrix)
        (λ r c. if r == c && in_range i left r then true else v r c)
unfolding identity_loop
identity_loop-IsView dim zero i matrix v h within =
    IsView-congr dim matrix v _ h (λ r c _ _. ground arith)
identity_loop-IsView dim (suc left) i matrix v h within =
    let set = matrix_set-IsView dim matrix v i i true h (omega arith) in
    IsView-congr dim _ _ _ (identity_loop-IsView dim left (i + 1) _ _ set (omega arith))
      (λ r c _ _. ground arith)

zero_table : all_below 8 (λ k. not (bit_of 0 k)) ≡ true
unfolding all_below bit_of
zero_table = refl

zero_bit : (k : ℕ) → k < 8 → bit_of 0 k ≡ false
zero_bit k h =
    let off : not (bit_of 0 k) ≡ true = all_below_sound 8 _ k zero_table h in ground arith

-- The places of the entries are below the number of bits.
pub place-lt : (dim r c : ℕ) → r < dim → c < dim → r * dim + c < dim * dim
place-lt dim r c hr hc =
    let rows : suc r * dim ≤ dim * dim = mul-le-mul_right dim hr in
    let row = suc-mul r dim in omega arith

pub byte-lt : (p n : ℕ) → p < n → n + 8 ≤ 2 ^ 64 → p / 8 < (n + 8 - 1) % 2 ^ 64 / 8
byte-lt p n h small = omega arith

-- The buffer is one of bytes, and its size does not wrap.
pub matrix_set_identity-IsView :
    (dim : ℕ) (matrix : Bytes)
    → IsBytes matrix
    → dim * dim + 8 ≤ 2 ^ 64
    → IsView dim (matrix_set_identity dim matrix) (λ r c. r == c)
unfolding matrix_set_identity matrix_get get_bit round_to_bytes
matrix_set_identity-IsView dim matrix h small =
    let blank : IsView dim (memset matrix 0 0 (round_to_bytes (dim * dim))) (λ r c. false) =
      record {
        bytes = λ a. ground (arith, h a);
        reads = λ r c hr hc.
            let p = r * dim + c in
            let inside = byte-lt p (dim * dim) (place-lt dim r c hr hc) small in
            let cleared : memset matrix 0 0 (round_to_bytes (dim * dim)) (p / 8) ≡ 0 =
              ground arith in
            rw cleared (zero_bit (8 - 1 - p % 8) (omega arith));
      } in
    IsView-congr dim _ _ _ (identity_loop-IsView dim dim 0 _ _ blank (omega arith))
      (λ r c hr hc. ground arith)
