-- ===== src/Matrix/Eliminate.antt =====
-- The column steps of `matrix_invert` of src/matrix.c.
use bsfs.Base.{
  ℕ, zero, suc, ◌+◌, ◌≤◌, ◌<◌, ◌≡◌, ◌≢◌, sym, ap, ◌∙◌, arith, Bool, true, false, not, ◌&&◌, ◌⊕◌,
  ◌==◌, if◌then◌else◌, Bytes, some, Bool-cases, inl, inr,
}
use bsfs.Matrix.{matrix_get, matrix_add_row, pivot_loop, clear_loop}
use bsfs.Matrix.Rows.{matrix_add_row-IsView}
use bsfs.Matrix.Span.{selected, moved, exchanged, selected-add, selected-swap}
use bsfs.Matrix.View.{Entries, IsView}

abbrev add_rows : ℕ → ℕ → Entries → Entries
add_rows to from v r c = if r == to then v to c ⊕ v from c else v r c

abbrev pub swap_rows : ℕ → ℕ → Entries → Entries
swap_rows r1 r2 v r c = if r == r2 then v r1 c else if r == r1 then v r2 c else v r c

module _ (dim : ℕ) (a : Entries) where
  -- Each row of the matrix is a sum of rows of `t`, and the same sum of rows of `n` is the row of
  -- the identity.
  abbrev pub Spans : Entries → Entries → Type 0
  Spans t n =
      (r : ℕ)
      → r < dim
      → (m : ℕ → Bool) × ((c : ℕ) → c < dim → selected dim m (λ k. t k c) ≡ a r c)
        × ((c : ℕ) → c < dim → selected dim m (λ k. n k c) ≡ (r == c))

  Spans-add :
      (t n : Entries) (to from : ℕ)
      → to < dim
      → from < dim
      → to ≢ from
      → Spans t n
      → Spans (add_rows to from t) (add_rows to from n)
  Spans-add t n to from ht hf apart s r hr =
      let (m, gives, identity) = s r hr in
      (
        moved m to from,
        λ c hc. selected-add dim to from m (λ k. t k c) ht hf apart ∙ gives c hc,
        λ c hc. selected-add dim to from m (λ k. n k c) ht hf apart ∙ identity c hc,
      )

  pub Spans-swap :
      (t n : Entries) (p q : ℕ)
      → p < dim
      → q < dim
      → Spans t n
      → Spans (swap_rows p q t) (swap_rows p q n)
  Spans-swap t n p q hp hq s r hr =
      let (m, gives, identity) = s r hr in
      (
        exchanged m p q,
        λ c hc. selected-swap dim p q m (λ k. t k c) hp hq ∙ gives c hc,
        λ c hc. selected-swap dim p q m (λ k. n k c) hp hq ∙ identity c hc,
      )

  -- The columns before `j` are those of the identity.
  abbrev pub IsCleared : ℕ → Entries → Type 0
  IsCleared j t = (r c : ℕ) → r < dim → c < dim → c < j → t r c ≡ (r == c)

  pub record Reduced (j : ℕ) (m : Bytes × Bytes) : Type 0 where
    pub t : Entries
    pub n : Entries
    pub view_t : IsView dim m.0 t
    pub view_n : IsView dim m.1 n
    pub spans : Spans t n
    pub cleared : IsCleared j t

  -- Within the column `j`, whose rows before `i` are clear.
  pub record Clearing (i j : ℕ) (m : Bytes × Bytes) : Type 0 where
    pub reduced : Reduced j m
    pub pivot : reduced.t j j ≡ true
    pub clear : (r : ℕ) → r < dim → r < i → r ≢ j → reduced.t r j ≡ false

  clear_add :
      (i j : ℕ) (m : Bytes × Bytes)
      → j < dim
      → i < dim
      → i ≢ j
      → (s : Clearing i j m) → s.reduced.t i j ≡ true
      → Clearing (i + 1) j (matrix_add_row dim m.0 i j, matrix_add_row dim m.1 i j)
  clear_add i j m hj hi apart s one =
      let t = s.reduced.t in
      record {
        reduced = record {
          t = add_rows i j t;
          n = add_rows i j s.reduced.n;
          view_t = matrix_add_row-IsView dim i j m.0 t s.reduced.view_t hi hj;
          view_n = matrix_add_row-IsView dim i j m.1 _ s.reduced.view_n hi hj;
          spans = Spans-add t s.reduced.n i j hi hj apart s.reduced.spans;
          cleared = λ r c hr hc lt. ground (
            arith,
            s.reduced.cleared r c hr hc lt,
            s.reduced.cleared i c hi hc lt,
            s.reduced.cleared j c hj hc lt,
          );
        };
        pivot = let p = s.pivot in ground arith;
        clear = λ r hr lt ne. elim (Bool-cases (r == i)) [
          | inl here ↦ let p = s.pivot in ground arith
          | inr other ↦ rw other (s.clear r hr (ground arith) ne)
        ];
      }

  clear_keep :
      (i j : ℕ) (m : Bytes × Bytes) (s : Clearing i j m)
      → (i ≢ j → s.reduced.t i j ≡ false)
      → Clearing (i + 1) j m
  clear_keep i j m s off = record {
    reduced = s.reduced;
    pivot = s.pivot;
    clear = λ r hr lt ne. elim (Bool-cases (r == i)) [
      | inl here ↦
          let e : r ≡ i = ground arith in ap (λ k. s.reduced.t k j) e ∙ off (λ q. ne (e ∙ q))
      | inr other ↦ s.clear r hr (ground arith) ne
    ];
  }

  pub clear_loop-Reduced :
      (left i j : ℕ) (m : Bytes × Bytes)
      → i + left ≡ dim
      → j < dim
      → Clearing i j m
      → Reduced (suc j) (clear_loop dim left i j m)
  unfolding clear_loop
  clear_loop-Reduced zero i j m e hj s = record {
    t = s.reduced.t;
    n = s.reduced.n;
    view_t = s.reduced.view_t;
    view_n = s.reduced.view_n;
    spans = s.reduced.spans;
    cleared = λ r c hr hc lt. elim (Bool-cases (c == j)) [
      | inr before ↦ s.reduced.cleared r c hr hc (ground arith)
      | inl here ↦
          let q : c ≡ j = ground arith in
          ap (s.reduced.t r) q ∙ (elim (Bool-cases (r == j)) [
            | inl diagonal ↦
                let d : r ≡ j = ground arith in
                ap (λ k. s.reduced.t k j) d ∙ (s.pivot ∙ ground arith)
            | inr off ↦ s.clear r hr (omega arith) (ground arith) ∙ ground arith
          ])
    ];
  }
  clear_loop-Reduced (suc left) i j m e hj s =
      let hi : i < dim = omega arith in
      let read = s.reduced.view_t.reads i j hi hj in
      elim (Bool-cases (not (i == j) && matrix_get m.0 i j dim)) [
        | inl unclear ↦ rw unclear (
            clear_loop-Reduced left (i + 1) j _ (omega arith) hj
              (clear_add i j m hj hi (ground arith) s (ground arith)))
        | inr clear ↦ rw clear (
            clear_loop-Reduced left (i + 1) j m (omega arith) hj
              (clear_keep i j m s (λ ne. ground arith)))
      ]

  pub pivot_loop-finds :
      (left row col : ℕ) (matrix : Bytes) (p : ℕ)
      → pivot_loop dim left row matrix col ≡ some p
      → (row ≤ p) × (p < row + left) × (matrix_get matrix p col dim ≡ true)
  unfolding pivot_loop
  pivot_loop-finds zero row col matrix p h = cc
  pivot_loop-finds (suc left) row col matrix p h =
      elim (Bool-cases (matrix_get matrix row col dim)) [
        | inl here ↦
            let h' = rw here at h in
            let e : row ≡ p = cc h' in
            (omega arith, omega arith, ap (λ k. matrix_get matrix k col dim) (sym e) ∙ here)
        | inr other ↦
            let (lo, hi, one) = pivot_loop-finds left (row + 1) col matrix p (rw other at h) in
            (omega arith, omega arith, one)
      ]
