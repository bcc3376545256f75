-- ===== src/Matrix/Random.antt =====
-- `matrix_gen_nonsing` of src/matrix.c. The answers of `RAND_bytes` are a list, as in Vector.
pub mod Units
use bsfs.Base.{
  ℕ, zero, suc, ◌+◌, ◌-◌, ◌*◌, ◌≡◌, subst, arith, Bool, true, false, if◌then◌else◌, Bytes, IsBytes,
  memset, memcpy, List, [], ◌∷◌, Option, none, some, Outcome, ok, err, eio, enomem, Bool-cases, inl,
  inr,
}
use bsfs.BitUtil.{get_bit, set_bit, round_to_bytes}
use bsfs.BitUtil.Bits.{set_bit-IsBytes}
use bsfs.Matrix.{matrix_set, matrix_elem_add}
use bsfs.Stego.{Host}
use bsfs.Vector.{gen_nonzero_vector}

-- The `while` loop on fuel: the bits from `dim` on are clear, so `dim` rounds are enough.
skip_selected : ℕ → Bytes → ℕ → ℕ
skip_selected zero bmp idx = idx
skip_selected (suc fuel) bmp idx =
    let rest = skip_selected fuel bmp (idx + 1) in if get_bit bmp idx then rest else idx

-- A result beside the answers left, or the end of the list.
abbrev pub Drawn : Type 0
Drawn = Option (Outcome Bytes × List (Option Bytes))

abbrev and_then : Drawn → (Bytes → List (Option Bytes) → Drawn) → Drawn
and_then none next = none
and_then (some (err e, rest)) next = some (err e, rest)
and_then (some (ok c, rest)) next = next c rest

module _ (dim : ℕ) where
  -- `b` added to the row behind the column `curr_dim`.
  add_b : ℕ → ℕ → Bytes → ℕ → ℕ → Bytes → Bytes
  add_b zero i b row curr_dim matrix = matrix
  add_b (suc left) i b row curr_dim matrix =
      add_b left (i + 1) b row curr_dim
        (matrix_elem_add matrix row (curr_dim + i + 1) (get_bit b i) dim)

  pub record Minor : Type 0 where
    matrix : Bytes
    bmp : Bytes
    found_nonzero_bit : Bool

  -- One round of the loop, at the row `idx_in_mat`.
  minor_step : Bytes → Bytes → ℕ → ℕ → ℕ → Minor → Minor
  unfolding add_b
  minor_step b c curr_dim idx_in_minor idx_in_mat s =
      if get_bit c idx_in_minor
      then record {
        matrix =
            add_b (dim - curr_dim - 1) 0 b idx_in_mat curr_dim
              (matrix_elem_add s.matrix idx_in_mat curr_dim true dim);
        bmp = if s.found_nonzero_bit then s.bmp else set_bit s.bmp idx_in_mat true;
        found_nonzero_bit = true;
      }
      else s

  minor_loop : ℕ → ℕ → ℕ → Bytes → Bytes → ℕ → Minor → Minor
  unfolding minor_step skip_selected
  minor_loop zero idx_in_minor idx_in_mat b c curr_dim s = s
  minor_loop (suc left) idx_in_minor idx_in_mat b c curr_dim s =
      let row = skip_selected dim s.bmp idx_in_mat in
      minor_loop left (idx_in_minor + 1) (row + 1) b c curr_dim
        (minor_step b c curr_dim idx_in_minor row s)

  -- The matrix and the bitmap after the call.
  gen_nonsing_dim : Bytes → Bytes → Bytes → ℕ → Bytes → Bytes × Bytes
  unfolding minor_loop
  gen_nonsing_dim matrix b c curr_dim bmp =
      let start : Minor = record { matrix = matrix; bmp = bmp; found_nonzero_bit = false } in
      let s = minor_loop (dim - curr_dim) 0 0 b c curr_dim start in (s.matrix, s.bmp)

  -- The state of the loop over the columns: the matrix, the bitmap, `b` and `c`.
  pub record Columns : Type 0 where
    matrix : Bytes
    bmp : Bytes
    b : Bytes
    c : Bytes

  gen_column : ℕ → Bytes → Bytes → Columns → Columns
  unfolding gen_nonsing_dim
  gen_column j b c s =
      let done = gen_nonsing_dim s.matrix b c j s.bmp in
      record { matrix = done.0; bmp = done.1; b = b; c = c }

  gen_loop : ℕ → ℕ → List (Option Bytes) → Columns → Drawn
  unfolding gen_column
  gen_loop zero j draws s = some (ok s.matrix, draws)
  gen_loop (suc left) j [] s = none
  gen_loop (suc left) j (none ∷ draws) s = some (err eio, draws)
  gen_loop (suc left) j (some drawn ∷ draws) s =
      let b = memcpy s.b 0 drawn (round_to_bytes (dim - j - 1)) in
      and_then (gen_nonzero_vector draws s.c (dim - j))
        (λ c rest. gen_loop left (j + 1) rest (gen_column j b c s))

  -- `b₀` and `c₀` are the bytes of `b` and `c` before they are written. The result is `none` where
  -- the list of answers ends before the code does.
  unfoldable pub matrix_gen_nonsing : Host → Bytes → Bytes → List (Option Bytes) → Bytes → Drawn
  unfolding gen_loop
  matrix_gen_nonsing host b₀ c₀ draws matrix =
      let blank = memset matrix 0 0 (round_to_bytes (dim * dim)) in
      if host.malloc (round_to_bytes dim)
      then gen_loop dim 0 draws (record { matrix = blank; bmp = λ a. 0; b = b₀; c = c₀ })
      else some (err enomem, draws)

  elem_add-IsBytes :
      (matrix : Bytes) (row col : ℕ) (v : Bool)
      → IsBytes matrix
      → IsBytes (matrix_elem_add matrix row col v dim)
  unfolding matrix_elem_add matrix_set
  elem_add-IsBytes matrix row col true h = set_bit-IsBytes matrix _ _ h
  elem_add-IsBytes matrix row col false h = h

  add_b-IsBytes :
      (left i : ℕ) (b : Bytes) (row curr_dim : ℕ) (matrix : Bytes)
      → IsBytes matrix
      → IsBytes (add_b left i b row curr_dim matrix)
  unfolding add_b
  add_b-IsBytes zero i b row curr_dim matrix h = h
  add_b-IsBytes (suc left) i b row curr_dim matrix h =
      add_b-IsBytes left (i + 1) b row curr_dim _ (elem_add-IsBytes matrix row _ _ h)

  minor_loop-IsBytes :
      (left idx row : ℕ) (b c : Bytes) (curr_dim : ℕ) (s : Minor)
      → IsBytes s.matrix
      → IsBytes (minor_loop left idx row b c curr_dim s).matrix
  unfolding minor_loop minor_step
  minor_loop-IsBytes zero idx row b c curr_dim s h = h
  minor_loop-IsBytes (suc left) idx row b c curr_dim s h =
      let at = skip_selected dim s.bmp row in
      minor_loop-IsBytes left (idx + 1) (at + 1) b c curr_dim _ (elim (Bool-cases (get_bit c idx)) [
        | inl one ↦ rw one (
            add_b-IsBytes (dim - curr_dim - 1) 0 b at curr_dim _
              (elem_add-IsBytes s.matrix at curr_dim true h))
        | inr no_one ↦ rw no_one h
      ])

  -- A matrix that is given is one of bytes.
  abbrev Ensures : Drawn → Type 0
  Ensures none = Unit {0}
  Ensures (some (err e, rest)) = Unit {0}
  Ensures (some (ok out, rest)) = IsBytes out

  and_then-Ensures :
      (o : Drawn) (next : Bytes → List (Option Bytes) → Drawn)
      → ((c : Bytes) (rest : List (Option Bytes)) → Ensures (next c rest))
      → Ensures (and_then o next)
  and_then-Ensures none next h = tt
  and_then-Ensures (some (err e, rest)) next h = tt
  and_then-Ensures (some (ok c, rest)) next h = h c rest

  gen_loop-Ensures :
      (left j : ℕ) (draws : List (Option Bytes)) (s : Columns)
      → IsBytes s.matrix
      → Ensures (gen_loop left j draws s)
  unfolding gen_loop gen_column gen_nonsing_dim
  gen_loop-Ensures zero j draws s h = h
  gen_loop-Ensures (suc left) j [] s h = tt
  gen_loop-Ensures (suc left) j (none ∷ draws) s h = tt
  gen_loop-Ensures (suc left) j (some drawn ∷ draws) s h =
      let b = memcpy s.b 0 drawn (round_to_bytes (dim - j - 1)) in
      and_then-Ensures (gen_nonzero_vector draws s.c (dim - j)) _ (λ c rest.
        gen_loop-Ensures left (j + 1) rest (gen_column j b c s)
          (minor_loop-IsBytes (dim - j) 0 0 b c j _ h))

  pub matrix_gen_nonsing-IsBytes :
      (host : Host) (b₀ c₀ : Bytes) (draws rest : List (Option Bytes)) (matrix out : Bytes)
      → IsBytes matrix
      → matrix_gen_nonsing host b₀ c₀ draws matrix ≡ some (ok out, rest)
      → IsBytes out
  unfolding matrix_gen_nonsing
  matrix_gen_nonsing-IsBytes host b₀ c₀ draws rest matrix out h e =
      elim (Bool-cases (host.malloc (round_to_bytes dim))) [
        | inr full ↦ let wrong = rw full at e in cc
        | inl memory ↦
            let e' = rw memory at e in
            subst Ensures e' (
              gen_loop-Ensures dim 0 draws
                (record {
                  matrix = memset matrix 0 0 (round_to_bytes (dim * dim));
                  bmp = λ a. 0;
                  b = b₀;
                  c = c₀;
                })
                (λ a. ground (arith, h a)))
      ]
