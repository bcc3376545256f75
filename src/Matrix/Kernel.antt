-- ===== src/Matrix/Kernel.antt =====
-- Where `matrix_invert` of src/matrix.c finds no pivot, the matrix is singular.
use bsfs.Base.{
  ℕ, zero, suc, ◌+◌, ◌-◌, ◌*◌, ◌^◌, ◌≤◌, ◌<◌, ◌≡◌, refl, sym, ap, subst, ◌∙◌, arith, Bool, true,
  false, ◌&&◌, ◌⊕◌, ltb, ◌==◌, if◌then◌else◌, Bytes, IsBytes, none, some, Outcome, ok, err, Errno,
  einval, Outcome-cases, Option-cases, Bool-cases, inl, inr,
}
use bsfs.BitUtil.{round_to_bytes}
use bsfs.Matrix.{
  matrix_get, matrix_swap_rows, clear_loop, pivot_loop, find_pivot, eliminate_column,
  eliminate_loop, matrix_invert,
}
use bsfs.Matrix.Eliminate.{Reduced}
use bsfs.Matrix.Inverse.{
  eliminate_column-Reduced, start_of, start_of-Reduced, matrix_invert-inverse,
}
use bsfs.Matrix.Multiply.{product_of}
use bsfs.Matrix.Span.{selected, xor_bits-change}
use bsfs.Matrix.View.{Entries, IsView}
use bsfs.Stego.{Host}
use bsfs.Vector.{xor_bits}
use bsfs.Vector.Product.{xor_bits_congr}

pub xor_bits-false : (n : ℕ) → xor_bits n (λ k. false) ≡ false
unfolding xor_bits
xor_bits-false zero = refl
xor_bits-false (suc n) = ground (arith, xor_bits-false n)

xor_bits-xor : (n : ℕ) (f g : ℕ → Bool) → xor_bits n (λ k. f k ⊕ g k) ≡ xor_bits n f ⊕ xor_bits n g
unfolding xor_bits
xor_bits-xor zero f g = refl
xor_bits-xor (suc n) f g = ground (arith, xor_bits-xor n f g)

and-xor_bits : (n : ℕ) (b : Bool) (f : ℕ → Bool) → (b && xor_bits n f) ≡ xor_bits n (λ k. b && f k)
and-xor_bits n true f = refl
and-xor_bits n false f = sym (xor_bits-false n)

-- Sums over rows and columns may be exchanged.
xor_bits_comm :
    (n k : ℕ) (f : ℕ → ℕ → Bool)
    → xor_bits n (λ i. xor_bits k (λ j. f i j)) ≡ xor_bits k (λ j. xor_bits n (λ i. f i j))
unfolding xor_bits
xor_bits_comm zero k f = sym (xor_bits-false k)
xor_bits_comm (suc n) k f =
    rw (xor_bits_comm n k f) (sym (xor_bits-xor k (λ j. xor_bits n (λ i. f i j)) (f n)))

-- Sums of rows that are all orthogonal to a vector are orthogonal to it.
selected_orthogonal :
    (n : ℕ) (m x : ℕ → Bool) (t : Entries)
    → ((k : ℕ) → k < n → xor_bits n (λ c. t k c && x c) ≡ false)
    → xor_bits n (λ c. selected n m (λ k. t k c) && x c) ≡ false
selected_orthogonal n m x t h =
    xor_bits_congr n _ (λ c. xor_bits n (λ k. m k && (t k c && x c)))
      (λ c hc.
        let d = and-xor_bits n (x c) (λ k. m k && t k c) in
        let e : (selected n m (λ k. t k c) && x c) ≡ (x c && selected n m (λ k. t k c)) =
          ground arith in
        e ∙ (d ∙ xor_bits_congr n _ _ (λ k hk. ground arith)))
    ∙ (xor_bits_comm n n (λ c k. m k && (t k c && x c))
        ∙ (xor_bits_congr n _ (λ k. false)
              (λ k hk.
                sym (and-xor_bits n (m k) (λ c. t k c && x c)) ∙ (let o = h k hk in ground arith))
            ∙ xor_bits-false n))

-- A vector that is not zero and that every row is orthogonal to.
pub record IsSingular (dim : ℕ) (a : Entries) : Type 0 where
  pub x : ℕ → Bool
  pub at : ℕ
  pub in_dim : at < dim
  pub nonzero : x at ≡ true
  pub orthogonal : (r : ℕ) → r < dim → xor_bits dim (λ k. a r k && x k) ≡ false

pivot_loop-none :
    (dim left row col : ℕ) (matrix : Bytes)
    → pivot_loop dim left row matrix col ≡ none
    → (r : ℕ) → row ≤ r
    → r < row + left
    → matrix_get matrix r col dim ≡ false
unfolding pivot_loop
pivot_loop-none dim zero row col matrix h r lo hi = absurd (omega arith)
pivot_loop-none dim (suc left) row col matrix h r lo hi =
    elim (Bool-cases (matrix_get matrix row col dim)) [
      | inl here ↦ let wrong = rw here at h in cc
      | inr other ↦ elim (Bool-cases (row == r)) [
        | inl same ↦
            let e : row ≡ r = ground arith in ap (λ k. matrix_get matrix k col dim) (sym e) ∙ other
        | inr apart ↦
            pivot_loop-none dim left (row + 1) col matrix (rw other at h) r (ground arith)
              (omega arith)
      ]
    ]

module _ (dim : ℕ) (a : Entries) where
  -- The vector that a column without a pivot gives: its entries above the diagonal, and a one.
  kernel_vector : Entries → ℕ → ℕ → Bool
  kernel_vector t j k = if k == j then true else if ltb k j then t k j else false

  kernel_row :
      (t : Entries) (j r : ℕ)
      → j < dim
      → r < dim
      → ((c : ℕ) → c < dim → c < j → t r c ≡ (r == c))
      → (j ≤ r → t r j ≡ false)
      → xor_bits dim (λ k. t r k && kernel_vector t j k) ≡ false
  unfolding kernel_vector
  kernel_row t j r hj hr cleared below =
      let own : ℕ → Bool =
        λ k. if k == r then false ⊕ (if ltb r j then t r j else false) else false in
      let all : ℕ → Bool = λ k. if k == j then own k ⊕ t r j else own k in
      xor_bits_congr dim _ all (λ k hk. elim (Bool-cases (k == j)) [
        | inl here ↦ let e : k ≡ j = ground arith in let q = ap (t r) e in ground arith
        | inr other ↦ elim (Bool-cases (ltb k j)) [
          | inr behind ↦ ground arith
          | inl before ↦
              let q = cleared k hk (ground arith) in
              elim (Bool-cases (k == r)) [
                | inl diagonal ↦
                    let e : k ≡ r = ground arith in let w = ap (λ y. t y j) e in ground arith
                | inr off ↦ ground arith
              ]
        ]
      ])
      ∙ (xor_bits-change dim j own (t r j) ∙ (elim (Bool-cases (ltb r j)) [
        | inl above ↦
            let q =
              xor_bits-change dim r (λ k. false) (false ⊕ (if ltb r j then t r j else false)) in
            let z = xor_bits-false dim in ground arith
        | inr under ↦
            let q =
              xor_bits-change dim r (λ k. false) (false ⊕ (if ltb r j then t r j else false)) in
            let z = xor_bits-false dim in let b = below (ground arith) in ground arith
      ]))

  no_pivot :
      (j : ℕ) (m : Bytes × Bytes)
      → j < dim
      → Reduced dim a j m
      → find_pivot dim m.0 j ≡ none
      → IsSingular dim a
  unfolding find_pivot kernel_vector
  no_pivot j m hj s h = record {
    x = kernel_vector s.t j;
    at = j;
    in_dim = hj;
    nonzero = ground arith;
    orthogonal = λ r hr.
        let (f, gives, identity) = s.spans r hr in
        xor_bits_congr dim _ (λ c. selected dim f (λ k. s.t k c) && kernel_vector s.t j c)
          (λ c hc. let q = gives c hc in ground arith)
        ∙ selected_orthogonal dim f (kernel_vector s.t j) s.t (λ k hk.
          kernel_row s.t j k hj hk (λ c hc lt. s.cleared k c hk hc lt)
            (λ le.
              sym (s.view_t.reads k j hk hj)
              ∙ pivot_loop-none dim (dim - j) j j m.0 h k le (omega arith)));
  }

  eliminate_loop-err :
      (left j : ℕ) (m : Bytes × Bytes) (e : Errno)
      → j + left ≡ dim
      → Reduced dim a j m
      → eliminate_loop dim left j m ≡ err e
      → IsSingular dim a × (e ≡ einval)
  unfolding eliminate_loop eliminate_column
  eliminate_loop-err zero j m e q s h = cc
  eliminate_loop-err (suc left) j m e q s h = elim (Option-cases (find_pivot dim m.0 j)) [
    | inl missing ↦ let h' = rw missing at h in (no_pivot j m (omega arith) s missing, cc h')
    | inr (p, found) ↦
        let next : Bytes × Bytes =
          clear_loop dim dim 0 j (matrix_swap_rows dim m.0 j p, matrix_swap_rows dim m.1 j p) in
        let h' = rw found at h in
        let reduced = eliminate_column-Reduced dim a j (some p) m next (omega arith) found s refl in
        let one_more : suc j ≡ j + 1 = omega arith in
        eliminate_loop-err left (j + 1) next e (omega arith)
          (subst (λ k. Reduced dim a k next) one_more reduced) h'
  ]

-- The two outcomes of `matrix_invert`.
pub data InvertResult (dim : ℕ) (a : Entries) : Outcome Bytes → Type 0 where
  inverted :
      {out : Bytes} (n : Entries)
      → IsView dim out n
      → ((r c : ℕ) → r < dim → c < dim → product_of dim a n r c ≡ (r == c))
      → InvertResult dim a (ok out)
  singular : IsSingular dim a → InvertResult dim a (err einval)

-- With memory for the copy, and on buffers of bytes for a dimension whose square does not wrap,
-- matrix_invert either succeeds with a right inverse of the matrix, entry by entry over the bits,
-- or answers EINVAL for a matrix that is singular: a vector that is not zero is orthogonal to each
-- of its rows.
pub matrix_invert-InvertResult :
    (dim : ℕ) (host : Host) (tmp₀ inverse matrix : Bytes) (a : Entries)
    → IsBytes tmp₀
    → IsBytes inverse
    → dim * dim + 8 ≤ 2 ^ 64
    → host.malloc (round_to_bytes (dim * dim)) ≡ true
    → IsView dim matrix a
    → InvertResult dim a (matrix_invert dim host tmp₀ inverse matrix)
unfolding matrix_invert
matrix_invert-InvertResult dim host tmp₀ inverse matrix a ht hi small memory s =
    elim (Outcome-cases (matrix_invert dim host tmp₀ inverse matrix)) [
      | inl (out, e) ↦
          let (n, view, product) =
            matrix_invert-inverse dim host tmp₀ inverse matrix out a ht hi small s e in
          subst (InvertResult dim a) (sym e) (inverted n view product)
      | inr (cause, e) ↦
          let start = start_of dim tmp₀ inverse matrix in
          let h = rw memory at e in
          elim (Outcome-cases (eliminate_loop dim dim 0 start)) [
            | inl (done, runs) ↦ let wrong = rw runs at h in cc
            | inr (stop, fails) ↦
                let same : stop ≡ cause = cc (rw fails at h) in
                let (is_singular, is_einval) =
                  eliminate_loop-err dim a dim 0 start stop (omega arith)
                    (start_of-Reduced dim tmp₀ inverse matrix a ht hi small s) fails in
                subst (InvertResult dim a) (sym (e ∙ ap err (sym same ∙ is_einval)))
                  (singular is_singular)
          ]
    ]
