-- ===== src/Matrix/Inverse.antt =====
-- `matrix_invert` of src/matrix.c: Gaussian elimination gives the inverse.
use bsfs.Base.{
  ℕ, zero, suc, ◌+◌, ◌-◌, ◌*◌, ◌/◌, ◌^◌, ◌≤◌, ◌<◌, ◌≡◌, refl, sym, ap, subst, ◌∙◌, arith, true,
  ◌&&◌, ◌==◌, Bytes, IsBytes, memcpy, Option, none, some, ok, >>=-ok_inv, Bool-cases, inl, inr,
}
use bsfs.BitUtil.{round_to_bytes}
use bsfs.BitUtil.Bits.{get_bit_congr}
use bsfs.Matrix.{
  matrix_get, matrix_swap_rows, matrix_set_identity, find_pivot, clear_loop, eliminate_column,
  eliminate_loop, matrix_invert,
}
use bsfs.Matrix.Eliminate.{
  Reduced, Clearing, Spans-swap, swap_rows, pivot_loop-finds, clear_loop-Reduced,
}
use bsfs.Matrix.Multiply.{product_of, matrix_set_identity-IsView, place-lt, byte-lt}
use bsfs.Matrix.Rows.{matrix_swap_rows-IsView}
use bsfs.Matrix.Span.{selected_one}
use bsfs.Matrix.View.{Entries, IsView}
use bsfs.Stego.{Host}
use bsfs.Vector.Product.{xor_bits_congr}

module _ (dim : ℕ) (a : Entries) where
  pivot_Clearing :
      (j p : ℕ) (m : Bytes × Bytes)
      → j < dim
      → j ≤ p
      → p < dim
      → matrix_get m.0 p j dim ≡ true
      → Reduced dim a j m
      → Clearing dim a 0 j (matrix_swap_rows dim m.0 j p, matrix_swap_rows dim m.1 j p)
  pivot_Clearing j p m hj lo hp one s =
      let read = s.view_t.reads p j hp hj in
      record {
        reduced = record {
          t = swap_rows j p s.t;
          n = swap_rows j p s.n;
          view_t = matrix_swap_rows-IsView dim j p m.0 s.t s.view_t hj hp;
          view_n = matrix_swap_rows-IsView dim j p m.1 s.n s.view_n hj hp;
          spans = Spans-swap dim a s.t s.n j p hj hp s.spans;
          cleared = λ r c hr hc lt.
              ground
                (arith, s.cleared r c hr hc lt, s.cleared j c hj hc lt, s.cleared p c hp hc lt);
        };
        pivot = elim (Bool-cases (j == p)) [
          | inl same ↦ let e : j ≡ p = ground arith in let q = ap (λ k. s.t k j) e in ground arith
          | inr other ↦ ground arith
        ];
        clear = λ r hr lt. absurd (omega arith);
      }

  pub eliminate_column-Reduced :
      (j : ℕ) (o : Option ℕ) (m done : Bytes × Bytes)
      → j < dim
      → find_pivot dim m.0 j ≡ o
      → Reduced dim a j m
      → eliminate_column dim j o m ≡ ok done
      → Reduced dim a (suc j) done
  unfolding eliminate_column find_pivot
  eliminate_column-Reduced j none m done hj found s h = cc
  eliminate_column-Reduced j (some p) m done hj found s h =
      let (lo, hi, one) = pivot_loop-finds dim a (dim - j) j j m.0 p found in
      let start = pivot_Clearing j p m hj lo (omega arith) one s in
      let e : clear_loop dim dim 0 j (matrix_swap_rows dim m.0 j p, matrix_swap_rows dim m.1 j p)
          ≡ done =
        cc h in
      subst (Reduced dim a (suc j)) e (clear_loop-Reduced dim a dim 0 j _ (omega arith) hj start)

  eliminate_loop-Reduced :
      (left j : ℕ) (m done : Bytes × Bytes)
      → j + left ≡ dim
      → Reduced dim a j m
      → eliminate_loop dim left j m ≡ ok done
      → Reduced dim a dim done
  unfolding eliminate_loop
  eliminate_loop-Reduced zero j m done e s h =
      let q : j ≡ dim = omega arith in
      let same : m ≡ done = cc h in
      subst (λ k. Reduced dim a k done) q (subst (Reduced dim a j) same s)
  eliminate_loop-Reduced (suc left) j m done e s h =
      let (next, step, rest) = >>=-ok_inv (eliminate_column dim j (find_pivot dim m.0 j) m) _ h in
      let one_more : j + 1 ≡ suc j = omega arith in
      let reduced =
        eliminate_column-Reduced j (find_pivot dim m.0 j) m next (omega arith) refl s step in
      eliminate_loop-Reduced left (j + 1) next done (omega arith)
        (subst (λ k. Reduced dim a k next) (sym one_more) reduced) rest

  -- The rows of a reduced matrix are those of the identity, so the sums are the rows of `a`.
  Reduced-inverse :
      (m : Bytes × Bytes) (s : Reduced dim a dim m) (r c : ℕ)
      → r < dim
      → c < dim
      → product_of dim a s.n r c ≡ (r == c)
  unfolding product_of
  Reduced-inverse m s r c hr hc =
      let (f, gives, identity) = s.spans r hr in
      let chosen : (k : ℕ) → k < dim → f k ≡ a r k = λ k hk.
        sym (selected_one dim k f hk)
        ∙ (xor_bits_congr dim (λ l. (k == l) && f l) (λ l. f l && s.t l k)
              (λ l hl. let q = s.cleared l k hl hk hk in ground arith)
            ∙ gives k hk) in
      xor_bits_congr dim (λ k. a r k && s.n k c) (λ k. f k && s.n k c)
        (λ k hk. let q = chosen k hk in ground arith)
      ∙ identity c hc

-- The copy of a matrix holds its entries.
copy-IsView :
    (dim : ℕ) (old matrix : Bytes) (a : Entries)
    → IsBytes old
    → dim * dim + 8 ≤ 2 ^ 64
    → IsView dim matrix a
    → IsView dim (memcpy old 0 matrix (round_to_bytes (dim * dim))) a
unfolding matrix_get round_to_bytes
copy-IsView dim old matrix a h small s = record {
  bytes = λ i. ground (arith, h i, s.bytes (i - 0));
  reads = λ r c hr hc.
      let p = r * dim + c in
      let inside = byte-lt p (dim * dim) (place-lt dim r c hr hc) small in
      let back : p / 8 - 0 ≡ p / 8 = omega arith in
      let copied : memcpy old 0 matrix (round_to_bytes (dim * dim)) (p / 8) ≡ matrix (p / 8) =
        ground (arith, ap matrix back) in
      get_bit_congr _ _ p copied ∙ s.reads r c hr hc;
}

-- The two matrices with which the elimination starts.
abbrev pub start_of : ℕ → Bytes → Bytes → Bytes → Bytes × Bytes
start_of dim tmp₀ inverse matrix =
    (memcpy tmp₀ 0 matrix (round_to_bytes (dim * dim)), matrix_set_identity dim inverse)

pub start_of-Reduced :
    (dim : ℕ) (tmp₀ inverse matrix : Bytes) (a : Entries)
    → IsBytes tmp₀
    → IsBytes inverse
    → dim * dim + 8 ≤ 2 ^ 64
    → IsView dim matrix a
    → Reduced dim a 0 (start_of dim tmp₀ inverse matrix)
start_of-Reduced dim tmp₀ inverse matrix a ht hi small s = record {
  t = a;
  n = λ r c. r == c;
  view_t = copy-IsView dim tmp₀ matrix a ht small s;
  view_n = matrix_set_identity-IsView dim inverse hi small;
  spans = λ r hr. (
    λ k. r == k,
    λ c hc. selected_one dim r (λ k. a k c) hr,
    λ c hc. selected_one dim r (λ k. k == c) hr,
  );
  cleared = λ r c hr hc lt. absurd (omega arith);
}

-- Where `matrix_invert` succeeds, the product of the matrix and the result is the identity.
pub matrix_invert-inverse :
    (dim : ℕ) (host : Host) (tmp₀ inverse matrix out : Bytes) (a : Entries)
    → IsBytes tmp₀
    → IsBytes inverse
    → dim * dim + 8 ≤ 2 ^ 64
    → IsView dim matrix a
    → matrix_invert dim host tmp₀ inverse matrix ≡ ok out
    → (n : Entries) × IsView dim out n
      × ((r c : ℕ) → r < dim → c < dim → product_of dim a n r c ≡ (r == c))
unfolding matrix_invert
matrix_invert-inverse dim host tmp₀ inverse matrix out a ht hi small s h =
    elim (Bool-cases (host.malloc (round_to_bytes (dim * dim)))) [
      | inr full ↦ absurd (ground arith)
      | inl memory ↦
          let h' = rw memory at h in
          let start = start_of dim tmp₀ inverse matrix in
          let (done, runs, last) = >>=-ok_inv (eliminate_loop dim dim 0 start) _ h' in
          let first = start_of-Reduced dim tmp₀ inverse matrix a ht hi small s in
          let reduced = eliminate_loop-Reduced dim a dim 0 start done (omega arith) first runs in
          let e : done.1 ≡ out = cc last in
          (
            reduced.n,
            subst (λ x. IsView dim x reduced.n) e reduced.view_n,
            Reduced-inverse dim a done reduced,
          )
    ]
