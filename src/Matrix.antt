-- ===== src/Matrix.antt =====
-- src/matrix.c: square matrices of bits, packed row after row. A matrix that a function writes is
-- its result.
pub mod View
pub mod Rows
pub mod Transpose
pub mod Multiply
pub mod Span
pub mod Eliminate
pub mod Inverse
pub mod Kernel
pub mod Random
use bsfs.Base.{
  ℕ, zero, suc, ◌+◌, ◌-◌, ◌*◌, Bool, true, false, not, ◌&&◌, ◌⊕◌, ◌==◌, if◌then◌else◌, Bytes,
  memset, memcpy, List, [], ◌∷◌, Option, none, some, Outcome, ok, err, ◌>>=◌, eio, enomem, einval,
}
use bsfs.BitUtil.{get_bit, set_bit, round_to_bytes}
use bsfs.Stego.{Host}
use bsfs.Vector.{gen_nonzero_vector}

unfoldable pub matrix_get : Bytes → ℕ → ℕ → ℕ → Bool
matrix_get matrix row col dim = get_bit matrix (row * dim + col)

unfoldable pub matrix_set : Bytes → ℕ → ℕ → Bool → ℕ → Bytes
matrix_set matrix row col val dim = set_bit matrix (row * dim + col) val

unfoldable pub matrix_elem_add : Bytes → ℕ → ℕ → Bool → ℕ → Bytes
matrix_elem_add matrix row col added_val dim =
    if added_val
    then matrix_set matrix row col (not (matrix_get matrix row col dim)) dim
    else matrix

-- The loops count the rounds that are left, beside the counter of the code.
module _ (dim : ℕ) where
  add_row_loop : ℕ → ℕ → ℕ → ℕ → Bytes → Bytes
  add_row_loop zero i to from matrix = matrix
  add_row_loop (suc left) i to from matrix =
      add_row_loop left (i + 1) to from
        (matrix_set matrix to i (matrix_get matrix to i dim ⊕ matrix_get matrix from i dim) dim)

  unfoldable pub matrix_add_row : Bytes → ℕ → ℕ → Bytes
  unfolding add_row_loop
  matrix_add_row matrix to from = add_row_loop dim 0 to from matrix

  swap_loop : ℕ → ℕ → ℕ → ℕ → Bytes → Bytes
  swap_loop zero i r1 r2 matrix = matrix
  swap_loop (suc left) i r1 r2 matrix =
      let tmp = matrix_get matrix r1 i dim in
      let copied = matrix_set matrix r1 i (matrix_get matrix r2 i dim) dim in
      swap_loop left (i + 1) r1 r2 (matrix_set copied r2 i tmp dim)

  unfoldable pub matrix_swap_rows : Bytes → ℕ → ℕ → Bytes
  unfolding swap_loop
  matrix_swap_rows matrix r1 r2 = swap_loop dim 0 r1 r2 matrix

  -- `dest` and `matrix` are the same buffer here, as they are where the function is called.
  swap_entries : ℕ → ℕ → ℕ → Bytes → Bytes
  swap_entries zero j i matrix = matrix
  swap_entries (suc left) j i matrix =
      let i_j = matrix_get matrix i j dim in
      let j_i = matrix_get matrix j i dim in
      swap_entries left (j + 1) i (matrix_set (matrix_set matrix i j j_i dim) j i i_j dim)

  transpose_loop : ℕ → ℕ → Bytes → Bytes
  unfolding swap_entries
  transpose_loop zero i matrix = matrix
  transpose_loop (suc left) i matrix =
      let swapped = swap_entries i 0 i matrix in
      transpose_loop left (i + 1) (matrix_set swapped i i (matrix_get swapped i i dim) dim)

  unfoldable pub matrix_transpose : Bytes → Bytes
  unfolding transpose_loop
  matrix_transpose matrix = transpose_loop dim 0 matrix

  product_loop : ℕ → ℕ → Bytes → Bytes → ℕ → ℕ → Bool → Bool
  product_loop zero k a b row col value = value
  product_loop (suc left) k a b row col value =
      product_loop left (k + 1) a b row col
        (value ⊕ (matrix_get a row k dim && matrix_get b k col dim))

  multiply_cols : ℕ → ℕ → Bytes → Bytes → ℕ → Bytes → Bytes
  unfolding product_loop
  multiply_cols zero col a b row dest = dest
  multiply_cols (suc left) col a b row dest =
      multiply_cols left (col + 1) a b row
        (matrix_set dest row col (product_loop dim 0 a b row col false) dim)

  multiply_rows : ℕ → ℕ → Bytes → Bytes → Bytes → Bytes
  unfolding multiply_cols
  multiply_rows zero row a b dest = dest
  multiply_rows (suc left) row a b dest =
      multiply_rows left (row + 1) a b (multiply_cols dim 0 a b row dest)

  -- The destination overlaps neither factor.
  unfoldable pub matrix_multiply : Bytes → Bytes → Bytes → Bytes
  unfolding multiply_rows
  matrix_multiply dest a b = multiply_rows dim 0 a b dest

  identity_loop : ℕ → ℕ → Bytes → Bytes
  identity_loop zero i matrix = matrix
  identity_loop (suc left) i matrix = identity_loop left (i + 1) (matrix_set matrix i i true dim)

  unfoldable pub matrix_set_identity : Bytes → Bytes
  unfolding identity_loop
  matrix_set_identity matrix = identity_loop dim 0 (memset matrix 0 0 (round_to_bytes (dim * dim)))

  unfoldable pub pivot_loop : ℕ → ℕ → Bytes → ℕ → Option ℕ
  pivot_loop zero row matrix col = none
  pivot_loop (suc left) row matrix col =
      if matrix_get matrix row col dim then some row else pivot_loop left (row + 1) matrix col

  -- `none` stands for -1.
  unfoldable pub find_pivot : Bytes → ℕ → Option ℕ
  unfolding pivot_loop
  find_pivot matrix col = pivot_loop (dim - col) col matrix col

  -- The two matrices of `matrix_invert`: `tmp` and `inverse`.
  unfoldable pub clear_loop : ℕ → ℕ → ℕ → Bytes × Bytes → Bytes × Bytes
  clear_loop zero i j m = m
  clear_loop (suc left) i j m = clear_loop left (i + 1) j (
      if not (i == j) && matrix_get m.0 i j dim
      then (matrix_add_row m.0 i j, matrix_add_row m.1 i j)
      else m)

  unfoldable pub eliminate_column : ℕ → Option ℕ → Bytes × Bytes → Outcome (Bytes × Bytes)
  unfolding clear_loop
  eliminate_column j none m = err einval
  eliminate_column j (some pivot) m =
      ok (clear_loop dim 0 j (matrix_swap_rows m.0 j pivot, matrix_swap_rows m.1 j pivot))

  unfoldable pub eliminate_loop : ℕ → ℕ → Bytes × Bytes → Outcome (Bytes × Bytes)
  unfolding eliminate_column
  eliminate_loop zero j m = ok m
  eliminate_loop (suc left) j m =
      eliminate_column j (find_pivot m.0 j) m >>= eliminate_loop left (j + 1)

  -- The bytes of `tmp` before it is written are those of `tmp₀`.
  unfoldable pub matrix_invert : Host → Bytes → Bytes → Bytes → Outcome Bytes
  unfolding eliminate_loop
  matrix_invert host tmp₀ inverse matrix =
      let byte_size = round_to_bytes (dim * dim) in
      if not (host.malloc byte_size) then err enomem else do
        done ← eliminate_loop dim 0 (memcpy tmp₀ 0 matrix byte_size, matrix_set_identity inverse)
        ok done.1
