-- ===== src/Matrix/Transpose.antt =====
-- `matrix_transpose` of src/matrix.c in place.
use bsfs.Base.{
  ℕ, zero, suc, ◌+◌, ◌≤◌, ◌<◌, ◌≡◌, ap₂, ◌∙◌, arith, Bool, ◌&&◌, ◌||◌, ltb, leb, ◌==◌,
  if◌then◌else◌, Bytes, in_range, Bool-cases, inl, inr,
}
use bsfs.Matrix.{matrix_get, swap_entries, transpose_loop, matrix_transpose}
use bsfs.Matrix.View.{Entries, IsView, IsView-congr, matrix_set-IsView}

-- The entries of the row and of the column `i` exchanged, from `j` on.
abbrev crossed : Entries → ℕ → ℕ → ℕ → Entries
crossed v i j left r c =
    if (r == i && in_range j left c) || (c == i && in_range j left r) then v c r else v r c

crossed_step :
    (v : Entries) (i j left r c : ℕ) (x y : Bool)
    → j + suc left ≤ i
    → x ≡ v i j
    → y ≡ v j i
    → crossed
        (λ r' c'. if j == r' && i == c' then x else if i == r' && j == c' then y else v r' c')
        i
        (j + 1)
        left
        r
        c
      ≡ crossed v i j (suc left) r c
crossed_step v i j left r c x y within hx hy = elim (Bool-cases (i == r && j == c)) [
  | inl here ↦
      let er : i ≡ r = ground arith in
      let ec : j ≡ c = ground arith in let q : y ≡ v c r = hy ∙ ap₂ v ec er in ground arith
  | inr apart ↦ elim (Bool-cases (j == r && i == c)) [
    | inl there ↦
        let er : j ≡ r = ground arith in
        let ec : i ≡ c = ground arith in let q : x ≡ v c r = hx ∙ ap₂ v ec er in ground arith
    | inr elsewhere ↦ ground arith
  ]
]

-- The entries transposed in the rows and columns from `i` on.
abbrev turned : Entries → ℕ → ℕ → Entries
turned v i left r c =
    if (leb i r || leb i c) && ltb r (i + left) && ltb c (i + left) then v c r else v r c

turned_step :
    (v : Entries) (i left r c : ℕ) (x : Bool)
    → x ≡ v i i
    → turned (λ r' c'. if i == r' && i == c' then x else crossed v i 0 i r' c') (i + 1) left r c
      ≡ turned v i (suc left) r c
turned_step v i left r c x h = elim (Bool-cases (i == r && i == c)) [
  | inl here ↦
      let er : i ≡ r = ground arith in
      let ec : i ≡ c = ground arith in let q : x ≡ v c r = h ∙ ap₂ v ec er in ground arith
  | inr apart ↦ ground arith
]

module _ (dim : ℕ) where
  swap_entries-IsView :
      (left j i : ℕ) (matrix : Bytes) (v : Entries)
      → IsView dim matrix v
      → j + left ≤ i
      → i < dim
      → IsView dim (swap_entries dim left j i matrix) (crossed v i j left)
  unfolding swap_entries
  swap_entries-IsView zero j i matrix v h within hi =
      IsView-congr dim matrix v _ h (λ r c hr hc. ground arith)
  swap_entries-IsView (suc left) j i matrix v h within hi =
      let x = matrix_get matrix i j dim in
      let y = matrix_get matrix j i dim in
      let first = matrix_set-IsView dim matrix v i j y h (omega arith) in
      let second = matrix_set-IsView dim _ _ j i x first hi in
      IsView-congr dim _ _ _ (swap_entries-IsView left (j + 1) i _ _ second (omega arith) hi)
        (λ r c hr hc.
          crossed_step v i j left r c x y within (h.reads i j hi (omega arith))
            (h.reads j i (omega arith) hi))

  transpose_loop-IsView :
      (left i : ℕ) (matrix : Bytes) (v : Entries)
      → IsView dim matrix v
      → i + left ≤ dim
      → IsView dim (transpose_loop dim left i matrix) (turned v i left)
  unfolding transpose_loop
  transpose_loop-IsView zero i matrix v h within =
      IsView-congr dim matrix v _ h (λ r c hr hc. ground arith)
  transpose_loop-IsView (suc left) i matrix v h within =
      let crossing = swap_entries-IsView i 0 i matrix v h (omega arith) (omega arith) in
      let x = matrix_get (swap_entries dim i 0 i matrix) i i dim in
      let same : x ≡ v i i = crossing.reads i i (omega arith) (omega arith) ∙ ground arith in
      let diagonal = matrix_set-IsView dim _ _ i i x crossing (omega arith) in
      IsView-congr dim _ _ _ (transpose_loop-IsView left (i + 1) _ _ diagonal (omega arith))
        (λ r c hr hc. turned_step v i left r c x same)

  -- matrix_transpose of a buffer of bytes in place gives a buffer that holds the transposed matrix.
  pub matrix_transpose-IsView :
      (matrix : Bytes) (v : Entries)
      → IsView dim matrix v
      → IsView dim (matrix_transpose dim matrix) (λ r c. v c r)
  unfolding matrix_transpose
  matrix_transpose-IsView matrix v h =
      IsView-congr dim _ _ _ (transpose_loop-IsView dim 0 matrix v h (omega arith))
        (λ r c hr hc. ground arith)
