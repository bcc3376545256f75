-- ===== src/Matrix/View.antt =====
-- The matrices of src/matrix.c as functions from rows and columns to bits.
use native.Mathlib.Nat.{mul-add-div_right, mul-add-mod_self_right, div-eq_of_lt, mod-eq_of_lt}
use bsfs.Base.{
  ℕ, ◌+◌, ◌*◌, ◌/◌, ◌%◌, ◌<◌, ◌≡◌, sym, ap, ap₂, ◌∙◌, arith, Bool, true, ◌&&◌, ◌==◌, if◌then◌else◌,
  Bytes, IsBytes, Bool-cases, inl, inr,
}
use bsfs.BitUtil.Bits.{get_bit-set_bit, set_bit-IsBytes}
use bsfs.Matrix.{matrix_get, matrix_set}

-- The entry that is read at a row and a column.
abbrev pub Entries : Type 0
Entries = ℕ → ℕ → Bool

-- The buffer holds the entries of a matrix with `dim` rows.
pub record IsView (dim : ℕ) (matrix : Bytes) (v : Entries) : Type 0 where
  pub bytes : IsBytes matrix
  pub reads : (r c : ℕ) → r < dim → c < dim → matrix_get matrix r c dim ≡ v r c

pub IsView-congr :
    (dim : ℕ) (matrix : Bytes) (v w : Entries)
    → IsView dim matrix v
    → ((r c : ℕ) → r < dim → c < dim → v r c ≡ w r c)
    → IsView dim matrix w
IsView-congr dim matrix v w h e = record {
  bytes = h.bytes;
  reads = λ r c hr hc. h.reads r c hr hc ∙ e r c hr hc;
}

-- An entry's place tells its row and its column.
place_row : (dim r c : ℕ) → c < dim → (r * dim + c) / dim ≡ r
place_row dim r c h = mul-add-div_right (omega arith) r c ∙ omega (arith, div-eq_of_lt h)

place_col : (dim r c : ℕ) → c < dim → (r * dim + c) % dim ≡ c
place_col dim r c h = mul-add-mod_self_right r dim c ∙ mod-eq_of_lt h

pub place_eq :
    (dim r c i j : ℕ) → c < dim → j < dim → (i * dim + j == r * dim + c) ≡ (i == r && j == c)
place_eq dim r c i j hc hj = elim (Bool-cases (i * dim + j == r * dim + c)) [
  | inl same ↦
      let e : i * dim + j ≡ r * dim + c = ground arith in
      let row : i ≡ r = sym (place_row dim i j hj) ∙ (ap (λ x. x / dim) e ∙ place_row dim r c hc) in
      let col : j ≡ c = sym (place_col dim i j hj) ∙ (ap (λ x. x % dim) e ∙ place_col dim r c hc) in
      let both : (i == r && j == c) ≡ true = ground arith in same ∙ sym both
  | inr other ↦ elim (Bool-cases (i == r && j == c)) [
    | inl equal ↦
        let row : i ≡ r = ground arith in
        let col : j ≡ c = ground arith in
        let e : i * dim + j ≡ r * dim + c = ap₂ (λ x y. x * dim + y) row col in
        absurd (ground arith)
    | inr distinct ↦ other ∙ sym distinct
  ]
]

-- To set an entry changes that entry.
pub matrix_set-IsView :
    (dim : ℕ) (matrix : Bytes) (v : Entries) (i j : ℕ) (val : Bool)
    → IsView dim matrix v
    → j < dim
    → IsView dim (matrix_set matrix i j val dim) (λ r c. if i == r && j == c then val else v r c)
unfolding matrix_set matrix_get
matrix_set-IsView dim matrix v i j val h hj = record {
  bytes = set_bit-IsBytes matrix (i * dim + j) val h.bytes;
  reads = λ r c hr hc.
      get_bit-set_bit matrix (i * dim + j) (r * dim + c) val h.bytes
      ∙ rw (place_eq dim r c i j hc hj)
          (ap (λ b. if i == r && j == c then val else b) (h.reads r c hr hc));
}
