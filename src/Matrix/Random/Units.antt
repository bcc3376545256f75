-- ===== src/Matrix/Random/Units.antt =====
-- `matrix_gen_nonsing` of src/matrix.c where RAND_bytes answers zeros for every `b` and the first
-- unit vector for every `c`.
use bsfs.Base.{
  ℕ, zero, suc, ◌+◌, ◌-◌, ◌*◌, ◌/◌, ◌%◌, ◌^◌, ◌≤◌, ◌<◌, ◌≡◌, refl, ap, subst, ◌∙◌, arith, true,
  false, ◌&&◌, ltb, ◌==◌, all_below, all_below_sound, beq, beq→eq, Bytes, IsBytes, memset, memcpy,
  List, ◌∷◌, Option, some, ok, Bool-cases, inl, inr,
}
use bsfs.BitUtil.{bit_of, get_bit, set_bit, round_to_bytes}
use bsfs.BitUtil.Bits.{get_bit-set_bit, set_bit-IsBytes}
use bsfs.Matrix.{matrix_get, matrix_set, matrix_elem_add}
use bsfs.Matrix.Multiply.{place-lt}
use bsfs.Matrix.View.{Entries, IsView, IsView-congr, matrix_set-IsView}
use bsfs.Matrix.Random.{
  skip_selected, add_b, Minor, minor_step, minor_loop, gen_nonsing_dim, Columns, gen_column,
  gen_loop, matrix_gen_nonsing,
}
use bsfs.Stego.{Host}
use bsfs.Vector.{has_nonzero, gen_nonzero_vector}

abbrev pub no_bits : Bytes
no_bits a = 0

abbrev pub first_bit : Bytes
first_bit = set_bit no_bits 0 true

-- The answers for so many columns, and those behind them.
pub answers : ℕ → List (Option Bytes) → List (Option Bytes)
answers zero rest = rest
answers (suc n) rest = some no_bits ∷ (some first_bit ∷ answers n rest)

zero_bits_table : all_below 8 (λ r. beq (bit_of 0 r) false) ≡ true
unfolding all_below beq bit_of
zero_bits_table = refl

get_bit-no_bits : (k : ℕ) → get_bit no_bits k ≡ false
unfolding get_bit
get_bit-no_bits k =
    beq→eq _ _ (
      all_below_sound 8 (λ r. beq (bit_of 0 r) false) (8 - 1 - k % 8) zero_bits_table (omega arith))

get_bit_congr : (x y : Bytes) → ((a : ℕ) → x a ≡ y a) → (k : ℕ) → get_bit x k ≡ get_bit y k
unfolding get_bit
get_bit_congr x y h k = ap (λ byte. bit_of byte (8 - 1 - k % 8)) (h (k / 8))

get_bit-first_bit : (k : ℕ) → get_bit first_bit k ≡ (0 == k)
get_bit-first_bit k =
    get_bit-set_bit no_bits 0 k true (λ a. omega arith)
    ∙ (let none_else = get_bit-no_bits k in ground arith)

skip_selected-first :
    (fuel : ℕ) (bmp : Bytes) (idx j : ℕ)
    → idx ≤ j
    → j ≤ idx + fuel
    → ((k : ℕ) → k < j → get_bit bmp k ≡ true)
    → get_bit bmp j ≡ false
    → skip_selected fuel bmp idx ≡ j
unfolding skip_selected
skip_selected-first zero bmp idx j le enough before here = omega arith
skip_selected-first (suc fuel) bmp idx j le enough before here = elim (Bool-cases (idx == j)) [
  | inl same ↦
      let e : idx ≡ j = ground arith in
      let clear : get_bit bmp idx ≡ false = ap (get_bit bmp) e ∙ here in rw (skip_selected, clear) e
  | inr other ↦
      let lt : idx < j = ground arith in
      rw (skip_selected, before idx lt)
        (skip_selected-first fuel bmp (idx + 1) j (omega arith) (omega arith) before here)
]

has_nonzero-first : (v : Bytes) (n : ℕ) → 0 < n → get_bit v 0 ≡ true → has_nonzero v n ≡ true
unfolding has_nonzero
has_nonzero-first v zero h e = absurd (omega arith)
has_nonzero-first v (suc n) h e = rw e refl

module _ (dim : ℕ) where
  add_b-idle :
      (left i : ℕ) (b : Bytes) (row j : ℕ) (matrix : Bytes)
      → ((k : ℕ) → get_bit b k ≡ false)
      → add_b dim left i b row j matrix ≡ matrix
  unfolding add_b matrix_elem_add
  add_b-idle zero i b row j matrix h = refl
  add_b-idle (suc left) i b row j matrix h =
      rw (add_b, h i) (add_b-idle left (i + 1) b row j matrix h)

  minor_loop-idle :
      (left idx row : ℕ) (b c : Bytes) (j : ℕ) (s : Minor dim)
      → ((k : ℕ) → idx ≤ k → get_bit c k ≡ false)
      → minor_loop dim left idx row b c j s ≡ s
  unfolding minor_loop minor_step
  minor_loop-idle zero idx row b c j s h = refl
  minor_loop-idle (suc left) idx row b c j s h =
      rw (minor_loop, h idx (omega arith))
        (minor_loop-idle left (idx + 1) (skip_selected dim s.bmp row + 1) b c j s
          (λ k le. h k (omega arith)))

  -- Ones on the diagonal, in the columns before `j`.
  abbrev diagonal : ℕ → Entries
  diagonal j r c = r == c && ltb c j

  -- The state of the loop before the column `j`.
  record Unital (j : ℕ) (s : Columns dim) : Type 0 where
    view : IsView dim s.matrix (diagonal j)
    bmp_bytes : IsBytes s.bmp
    selected : (k : ℕ) → get_bit s.bmp k ≡ ltb k j
    b_zero : (a : ℕ) → s.b a ≡ 0
    c_zero : (a : ℕ) → 0 < a → s.c a ≡ 0

  gen_nonsing_dim-units :
      (matrix b c bmp : Bytes) (j : ℕ)
      → j < dim
      → ((k : ℕ) → get_bit b k ≡ false)
      → ((k : ℕ) → get_bit c k ≡ (0 == k))
      → ((k : ℕ) → get_bit bmp k ≡ ltb k j)
      → gen_nonsing_dim dim matrix b c j bmp
        ≡ (matrix_elem_add matrix j j true dim, set_bit bmp j true)
  unfolding gen_nonsing_dim minor_loop minor_step
  gen_nonsing_dim-units matrix b c bmp j lt hb hc hbmp =
      let start : Minor dim = record { matrix = matrix; bmp = bmp; found_nonzero_bit = false } in
      let m = dim - j - 1 in
      let more : dim - j ≡ suc m = omega arith in
      let row : skip_selected dim bmp 0 ≡ j =
        skip_selected-first dim bmp 0 j (omega arith) (omega arith)
          (λ k below. hbmp k ∙ ground arith) (hbmp j ∙ ground arith) in
      let one : get_bit c 0 ≡ true = hc 0 ∙ ground arith in
      let s : Minor dim = record {
        matrix = add_b dim m 0 b j j (matrix_elem_add matrix j j true dim);
        bmp = set_bit bmp j true;
        found_nonzero_bit = true;
      } in
      let steps : minor_loop dim (dim - j) 0 0 b c j start ≡ minor_loop dim m 1 (j + 1) b c j s =
        ap (λ left. minor_loop dim left 0 0 b c j start) more
        ∙ rw (minor_loop, row, minor_step, one) refl in
      let done : minor_loop dim (dim - j) 0 0 b c j start ≡ s =
        steps ∙ minor_loop-idle m 1 (j + 1) b c j s (λ k le. hc k ∙ ground arith) in
      ap (λ (t : Minor dim). (t.matrix, t.bmp)) done
      ∙ ap (λ x. (x, set_bit bmp j true))
          (add_b-idle m 0 b j j (matrix_elem_add matrix j j true dim) hb)

  gen_column-Unital :
      (j : ℕ) (b c : Bytes) (s : Columns dim)
      → j < dim
      → ((a : ℕ) → b a ≡ 0)
      → ((a : ℕ) → c a ≡ first_bit a)
      → Unital j s
      → Unital (j + 1) (gen_column dim j b c s)
  unfolding gen_column matrix_elem_add set_bit
  gen_column-Unital j b c s lt hb hc u =
      let done =
        gen_nonsing_dim-units s.matrix b c s.bmp j lt
          (λ k. get_bit_congr b no_bits hb k ∙ get_bit-no_bits k)
          (λ k. get_bit_congr c first_bit hc k ∙ get_bit-first_bit k) u.selected in
      let clear : matrix_get s.matrix j j dim ≡ false = u.view.reads j j lt lt ∙ ground arith in
      let view = matrix_set-IsView dim s.matrix (diagonal j) j j true u.view lt in
      let sets : matrix_elem_add s.matrix j j true dim ≡ matrix_set s.matrix j j true dim =
        rw (matrix_elem_add, clear) refl in
      let matrix_is : (gen_nonsing_dim dim s.matrix b c j s.bmp).0
          ≡ matrix_set s.matrix j j true dim =
        ap (λ (p : Bytes × Bytes). p.0) done ∙ sets in
      let bmp_is : (gen_nonsing_dim dim s.matrix b c j s.bmp).1 ≡ set_bit s.bmp j true =
        ap (λ (p : Bytes × Bytes). p.1) done in
      record {
        view =
            rw matrix_is
              (IsView-congr dim _ _ (diagonal (j + 1)) view (λ r col hr hcol. ground arith));
        bmp_bytes = rw bmp_is (set_bit-IsBytes s.bmp j true u.bmp_bytes);
        selected = λ k.
            ap (λ m. get_bit m k) bmp_is
            ∙ get_bit-set_bit s.bmp j k true u.bmp_bytes
            ∙ (let q = u.selected k in ground arith);
        b_zero = hb;
        c_zero = λ a pos. hc a ∙ ground arith;
      }

  -- What the draw of a column's vectors gives.
  draws_b : (s : Columns dim) (n a : ℕ) → s.b a ≡ 0 → memcpy s.b 0 no_bits n a ≡ 0
  draws_b s n a h = ground arith

  draws_c :
      (s : Columns dim) (n a : ℕ)
      → 0 < n
      → (0 < a → s.c a ≡ 0)
      → memcpy s.c 0 first_bit n a ≡ first_bit a
  unfolding set_bit
  draws_c s n a pos h = ground arith

  gen_loop-units :
      (left j : ℕ) (rest : List (Option Bytes)) (s : Columns dim)
      → j + left ≡ dim
      → dim ≤ 2 ^ 32
      → Unital j s
      → (out : Bytes) × (gen_loop dim left j (answers left rest) s ≡ some (ok out, rest))
        × IsView dim out (diagonal dim)
  unfolding gen_loop answers gen_nonzero_vector
  gen_loop-units zero j rest s e small u =
      let same : j ≡ dim = omega arith in
      (s.matrix, refl, subst (λ k. IsView dim s.matrix (diagonal k)) same u.view)
  gen_loop-units (suc left) j rest s e small u =
      let lt : j < dim = omega arith in
      let n = round_to_bytes (dim - j) in
      let b = memcpy s.b 0 no_bits (round_to_bytes (dim - j - 1)) in
      let c = memcpy s.c 0 first_bit n in
      let pos : 0 < n = unfold round_to_bytes in omega arith in
      let c_is : (a : ℕ) → c a ≡ first_bit a = λ a. draws_c s n a pos (u.c_zero a) in
      let one : get_bit c 0 ≡ true =
        get_bit_congr c first_bit c_is 0 ∙ (get_bit-first_bit 0 ∙ ground arith) in
      let nonzero : has_nonzero c (dim - j) ≡ true =
        has_nonzero-first c (dim - j) (omega arith) one in
      let next = gen_column-Unital j b c s lt (λ a. draws_b s _ a (u.b_zero a)) c_is u in
      let (out, runs, view) =
        gen_loop-units left (j + 1) rest (gen_column dim j b c s) (omega arith) small next in
      (out, rw (gen_loop, nonzero) runs, view)

  blank_clear :
      (r c : ℕ) (matrix : Bytes)
      → dim * dim ≤ 2 ^ 32
      → r < dim
      → c < dim
      → matrix_get (memset matrix 0 0 (round_to_bytes (dim * dim))) r c dim ≡ diagonal 0 r c
  unfolding matrix_get get_bit round_to_bytes
  blank_clear r c matrix small hr hc =
      let place : r * dim + c < dim * dim = place-lt dim r c hr hc in
      let clear : memset matrix 0 0 (round_to_bytes (dim * dim)) ((r * dim + c) / 8) ≡ 0 =
        ground arith in
      ap (λ byte. bit_of byte (8 - 1 - (r * dim + c) % 8)) clear
      ∙ (get_bit-no_bits (r * dim + c) ∙ ground arith)

  -- With these answers the matrix is the identity.
  pub matrix_gen_nonsing-units :
      (host : Host) (rest : List (Option Bytes)) (matrix : Bytes)
      → IsBytes matrix
      → dim * dim ≤ 2 ^ 32
      → dim ≤ 2 ^ 32
      → host.malloc (round_to_bytes dim) ≡ true
      → (out : Bytes) × (matrix_gen_nonsing dim host no_bits no_bits (answers dim rest) matrix
          ≡ some (ok out, rest))
        × IsView dim out (λ r c. r == c)
  unfolding matrix_gen_nonsing
  matrix_gen_nonsing-units host rest matrix bytes small small' memory =
      let blank = memset matrix 0 0 (round_to_bytes (dim * dim)) in
      let start : Columns dim = record {
        matrix = blank;
        bmp = no_bits;
        b = no_bits;
        c = no_bits;
      } in
      let blank_bytes : IsBytes blank = λ a. ground (arith, bytes a) in
      let unital : Unital 0 start = record {
        view = record {
          bytes = blank_bytes;
          reads = λ r c hr hc. blank_clear r c matrix small hr hc;
        };
        bmp_bytes = λ a. omega arith;
        selected = λ k. get_bit-no_bits k ∙ ground arith;
        b_zero = λ a. refl;
        c_zero = λ a pos. refl;
      } in
      let (out, runs, view) = gen_loop-units dim 0 rest start (omega arith) small' unital in
      (
        out,
        rw (matrix_gen_nonsing, memory) runs,
        IsView-congr dim out _ _ view (λ r c hr hc. ground arith),
      )
