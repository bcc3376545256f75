-- ===== src/Matrix/Rows.antt =====
-- The row operations of src/matrix.c, entry by entry.
use bsfs.Base.{
  ℕ, zero, suc, ◌+◌, ◌≤◌, ◌<◌, ◌≡◌, ap, ap₂, ◌∙◌, arith, Bool, ◌&&◌, ◌⊕◌, ◌==◌, if◌then◌else◌,
  Bytes, in_range, Bool-cases, inl, inr,
}
use bsfs.Matrix.{matrix_get, add_row_loop, matrix_add_row, swap_loop, matrix_swap_rows}
use bsfs.Matrix.View.{Entries, IsView, IsView-congr, matrix_set-IsView}

-- The entries after a row was added to another in the columns from `i` on.
abbrev pub added : Entries → ℕ → ℕ → ℕ → ℕ → Entries
added v to from i left r c = if r == to && in_range i left c then v to c ⊕ v from c else v r c

added_step :
    (v : Entries) (to from i left r c : ℕ) (x : Bool)
    → x ≡ v to i ⊕ v from i
    → added (λ r c. if to == r && i == c then x else v r c) to from (i + 1) left r c
      ≡ added v to from i (suc left) r c
added_step v to from i left r c x h = elim (Bool-cases (r == to)) [
  | inr other ↦ ground arith
  | inl same ↦
      let e : r ≡ to = ground arith in
      elim (Bool-cases (i == c)) [
        | inl here ↦
            let k : i ≡ c = ground arith in
            let sum : x ≡ v to c ⊕ v from c = h ∙ ap (λ y. v to y ⊕ v from y) k in ground arith
        | inr there ↦ let row : v r c ≡ v to c = ap (λ y. v y c) e in ground arith
      ]
]

module _ (dim : ℕ) where
  add_row_loop-IsView :
      (left i to from : ℕ) (matrix : Bytes) (v : Entries)
      → IsView dim matrix v
      → i + left ≤ dim
      → to < dim
      → from < dim
      → IsView dim (add_row_loop dim left i to from matrix) (added v to from i left)
  unfolding add_row_loop
  add_row_loop-IsView zero i to from matrix v h within ht hf =
      IsView-congr dim matrix v _ h (λ r c hr hc. ground arith)
  add_row_loop-IsView (suc left) i to from matrix v h within ht hf =
      let x = matrix_get matrix to i dim ⊕ matrix_get matrix from i dim in
      let sum : x ≡ v to i ⊕ v from i =
        ap₂ ◌⊕◌ (h.reads to i ht (omega arith)) (h.reads from i hf (omega arith)) in
      let set = matrix_set-IsView dim matrix v to i x h (omega arith) in
      IsView-congr dim _ _ _ (add_row_loop-IsView left (i + 1) to from _ _ set (omega arith) ht hf)
        (λ r c hr hc. added_step v to from i left r c x sum)

  pub matrix_add_row-IsView :
      (to from : ℕ) (matrix : Bytes) (v : Entries)
      → IsView dim matrix v
      → to < dim
      → from < dim
      → IsView dim
          (matrix_add_row dim matrix to from)
          (λ r c. if r == to then v to c ⊕ v from c else v r c)
  unfolding matrix_add_row
  matrix_add_row-IsView to from matrix v h ht hf =
      IsView-congr dim _ _ _ (add_row_loop-IsView dim 0 to from matrix v h (omega arith) ht hf)
        (λ r c hr hc. ground arith)

-- The entries after two rows were exchanged in the columns from `i` on.
abbrev pub swapped : Entries → ℕ → ℕ → ℕ → ℕ → Entries
swapped v r1 r2 i left r c =
    if in_range i left c
    then (if r == r2 then v r1 c else if r == r1 then v r2 c else v r c)
    else v r c

swapped_step :
    (v : Entries) (r1 r2 i left r c : ℕ) (x y : Bool)
    → x ≡ v r2 i
    → y ≡ v r1 i
    → swapped
        (λ r c. if r2 == r && i == c then y else if r1 == r && i == c then x else v r c)
        r1
        r2
        (i + 1)
        left
        r
        c
      ≡ swapped v r1 r2 i (suc left) r c
swapped_step v r1 r2 i left r c x y hx hy = elim (Bool-cases (i == c)) [
  | inl here ↦
      let k : i ≡ c = ground arith in
      let ex : x ≡ v r2 c = hx ∙ ap (v r2) k in
      let ey : y ≡ v r1 c = hy ∙ ap (v r1) k in ground arith
  | inr there ↦ ground arith
]

module _ (dim : ℕ) where
  swap_loop-IsView :
      (left i r1 r2 : ℕ) (matrix : Bytes) (v : Entries)
      → IsView dim matrix v
      → i + left ≤ dim
      → r1 < dim
      → r2 < dim
      → IsView dim (swap_loop dim left i r1 r2 matrix) (swapped v r1 r2 i left)
  unfolding swap_loop
  swap_loop-IsView zero i r1 r2 matrix v h within h1 h2 =
      IsView-congr dim matrix v _ h (λ r c hr hc. ground arith)
  swap_loop-IsView (suc left) i r1 r2 matrix v h within h1 h2 =
      let y = matrix_get matrix r1 i dim in
      let x = matrix_get matrix r2 i dim in
      let first = matrix_set-IsView dim matrix v r1 i x h (omega arith) in
      let second = matrix_set-IsView dim _ _ r2 i y first (omega arith) in
      IsView-congr dim _ _ _ (swap_loop-IsView left (i + 1) r1 r2 _ _ second (omega arith) h1 h2)
        (λ r c hr hc.
          swapped_step v r1 r2 i left r c x y (h.reads r2 i h2 (omega arith))
            (h.reads r1 i h1 (omega arith)))

  pub matrix_swap_rows-IsView :
      (r1 r2 : ℕ) (matrix : Bytes) (v : Entries)
      → IsView dim matrix v
      → r1 < dim
      → r2 < dim
      → IsView dim
          (matrix_swap_rows dim matrix r1 r2)
          (λ r c. if r == r2 then v r1 c else if r == r1 then v r2 c else v r c)
  unfolding matrix_swap_rows
  matrix_swap_rows-IsView r1 r2 matrix v h h1 h2 =
      IsView-congr dim _ _ _ (swap_loop-IsView dim 0 r1 r2 matrix v h (omega arith) h1 h2)
        (λ r c hr hc. ground arith)
