-- ===== src/Matrix/Span.antt =====
-- Sums of rows over the field of two elements: an elementary row operation keeps what the rows span.
use bsfs.Base.{
  ℕ, zero, suc, ◌<◌, ◌≡◌, ◌≢◌, ap, ◌∙◌, arith, Bool, false, ◌&&◌, ◌⊕◌, ltb, ◌==◌, if◌then◌else◌,
  Bool-cases, inl, inr,
}
use bsfs.Vector.{xor_bits}
use bsfs.Vector.Product.{xor_bits_congr}

-- The sum of the entries of a column that `m` selects.
abbrev pub selected : ℕ → (ℕ → Bool) → (ℕ → Bool) → Bool
selected n m g = xor_bits n (λ k. m k && g k)

-- A sum with one term changed by `d`.
pub xor_bits-change :
    (n p : ℕ) (f : ℕ → Bool) (d : Bool)
    → xor_bits n (λ k. if k == p then f k ⊕ d else f k)
      ≡ xor_bits n f ⊕ (if ltb p n then d else false)
unfolding xor_bits
xor_bits-change zero p f d = ground arith
xor_bits-change (suc n) p f d = ground (arith, xor_bits-change n p f d)

-- With two terms changed by the same, it stays.
pub xor_bits-change_two :
    (n p q : ℕ) (f g : ℕ → Bool) (d : Bool)
    → p < n
    → q < n
    → p ≢ q
    → ((k : ℕ) → g k ≡ (if k == p then f k ⊕ d else if k == q then f k ⊕ d else f k))
    → xor_bits n g ≡ xor_bits n f
xor_bits-change_two n p q f g d hp hq apart h =
    let once : ℕ → Bool = λ k. if k == q then f k ⊕ d else f k in
    let first : xor_bits n g ≡ xor_bits n (λ k. if k == p then once k ⊕ d else once k) =
      xor_bits_congr n _ _ (λ k hk. h k ∙ ground arith) in
    let second = xor_bits-change n p once d in
    let third : xor_bits n once ≡ xor_bits n f ⊕ d = xor_bits-change n q f d ∙ ground arith in
    first ∙ (second ∙ rw third (ground arith))

-- A row `from` added to the row `to`: what was selected by `m` is selected by `m` with `from` as
-- often as before and once more for `to`.
abbrev pub moved : (ℕ → Bool) → ℕ → ℕ → ℕ → Bool
moved m to from k = if k == from then m from ⊕ m to else m k

pub selected-add :
    (n to from : ℕ) (m g : ℕ → Bool)
    → to < n
    → from < n
    → to ≢ from
    → selected n (moved m to from) (λ k. if k == to then g to ⊕ g from else g k) ≡ selected n m g
selected-add n to from m g ht hf apart =
    xor_bits-change_two n to from (λ k. m k && g k) _ (m to && g from) ht hf apart
      (λ k. elim (Bool-cases (k == to)) [
        | inl here ↦
            let e : k ≡ to = ground arith in let a = ap m e in let b = ap g e in ground arith
        | inr other ↦ elim (Bool-cases (k == from)) [
          | inl here ↦
              let e : k ≡ from = ground arith in let a = ap m e in let b = ap g e in ground arith
          | inr neither ↦ ground arith
        ]
      ])

-- Two rows exchanged.
abbrev pub exchanged : (ℕ → Bool) → ℕ → ℕ → ℕ → Bool
exchanged m p q k = if k == q then m p else if k == p then m q else m k

pub selected-swap :
    (n p q : ℕ) (m g : ℕ → Bool)
    → p < n
    → q < n
    → selected n (exchanged m p q) (exchanged g p q) ≡ selected n m g
selected-swap n p q m g hp hq = elim (Bool-cases (p == q)) [
  | inl same ↦
      let e : p ≡ q = ground arith in
      xor_bits_congr n _ _ (λ k hk. elim (Bool-cases (k == q)) [
        | inl here ↦
            let f : k ≡ p = ground arith in let a = ap m f in let b = ap g f in ground arith
        | inr there ↦ ground arith
      ])
  | inr apart ↦
      xor_bits-change_two n p q (λ k. m k && g k) _ ((m p && g p) ⊕ (m q && g q)) hp hq
        (ground arith)
        (λ k. elim (Bool-cases (k == q)) [
          | inl here ↦
              let e : k ≡ q = ground arith in let a = ap m e in let b = ap g e in ground arith
          | inr other ↦ elim (Bool-cases (k == p)) [
            | inl here ↦
                let e : k ≡ p = ground arith in let a = ap m e in let b = ap g e in ground arith
            | inr neither ↦ ground arith
          ]
        ])
]

-- The row `p` alone.
selected_one_below :
    (n p : ℕ) (g : ℕ → Bool) → selected n (λ k. p == k) g ≡ (if ltb p n then g p else false)
unfolding xor_bits
selected_one_below zero p g = ground arith
selected_one_below (suc n) p g = elim (Bool-cases (p == n)) [
  | inl here ↦
      let e : n ≡ p = ground arith in
      let a = ap g e in let ih = selected_one_below n p g in ground arith
  | inr other ↦ let ih = selected_one_below n p g in ground arith
]

pub selected_one : (n p : ℕ) (g : ℕ → Bool) → p < n → selected n (λ k. p == k) g ≡ g p
selected_one n p g h = selected_one_below n p g ∙ ground arith
