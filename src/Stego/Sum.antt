-- ===== src/Stego/Sum.antt =====
-- Exclusive-or sums of bytes over a range of covers, and their linearity in the covers.
use bsfs.Base.{
  ℕ, zero, suc, ◌+◌, ◌<◌, ◌≡◌, refl, sym, ap, ◌∙◌, arith, Bool, true, false, ◌&&◌, ◌⊕◌, bit_xor,
  if◌then◌else◌,
}
use bsfs.Base.Xor.{xor_assoc, xor-zero, xor_swap, xor_self}
use bsfs.Vector.{xor_bits}
use bsfs.Vector.Product.{⊕_assoc}

-- `f i ^ … ^ f (i + left - 1)`
unfoldable pub xor_from : ℕ → ℕ → (ℕ → ℕ) → ℕ
xor_from zero i f = 0
xor_from (suc left) i f = bit_xor (f i) (xor_from left (i + 1) f)

unfoldable pub bits_from : ℕ → ℕ → (ℕ → Bool) → Bool
bits_from zero i f = false
bits_from (suc left) i f = f i ⊕ bits_from left (i + 1) f

xor_bits-bits_from :
    (left i n : ℕ) (f : ℕ → Bool) → i + left ≡ n → xor_bits i f ⊕ bits_from left i f ≡ xor_bits n f
unfolding xor_bits bits_from
xor_bits-bits_from zero i n f e = let e' : i ≡ n = omega arith in rw e' (ground arith)
xor_bits-bits_from (suc left) i n f e =
    let e' : i + 1 ≡ suc i = omega arith in
    sym (⊕_assoc (xor_bits i f) (f i) (bits_from left (i + 1) f))
    ∙ rw e' (xor_bits-bits_from left (suc i) n f (omega arith))

pub bits_from-xor_bits : (n : ℕ) (f : ℕ → Bool) → bits_from n 0 f ≡ xor_bits n f
unfolding xor_bits
bits_from-xor_bits n f = xor_bits-bits_from n 0 n f (omega arith)

pub xor_from_congr :
    (left i : ℕ) (f g : ℕ → ℕ)
    → ((j : ℕ) → j < i + left → f j ≡ g j)
    → xor_from left i f ≡ xor_from left i g
unfolding xor_from
xor_from_congr zero i f g h = refl
xor_from_congr (suc left) i f g h =
    rw (h i (omega arith), xor_from_congr left (i + 1) f g (λ j p. h j (omega arith)))

xor_regroup :
    (a b c d : ℕ) → bit_xor (bit_xor a b) (bit_xor c d) ≡ bit_xor (bit_xor a c) (bit_xor b d)
xor_regroup a b c d =
    sym (xor_assoc (bit_xor a b) c d)
    ∙ (ap (λ t. bit_xor t d) (xor_swap a b c) ∙ xor_assoc (bit_xor a c) b d)

-- One term: a cover that is read if `r`, and to which `v` was added if `w`.
add_term :
    (r w b : Bool) (c v s t : ℕ)
    → t ≡ bit_xor s (if b then v else 0)
    → bit_xor (if r then (bit_xor c (if w then v else 0)) else 0) t
      ≡ bit_xor (bit_xor (if r then c else 0) s) (if (r && w) ⊕ b then v else 0)
add_term false w b c v s t e = rw e (sym (xor_assoc 0 s (if b then v else 0)))
add_term true false b c v s t e = rw (e, xor-zero c) (sym (xor_assoc c s (if b then v else 0)))
add_term true true false c v s t e = rw (e, xor_regroup c v s 0, xor-zero v)
add_term true true true c v s t e = rw (e, xor_regroup c v s v, xor_self v)

-- Adding `v` to the covers that `w` selects adds it to the sum of those that `r` selects as often
-- as both select a cover.
pub xor_from-add :
    (left i : ℕ) (r w : ℕ → Bool) (c : ℕ → ℕ) (v : ℕ)
    → xor_from left i (λ j. if r j then bit_xor (c j) (if w j then v else 0) else 0)
      ≡ bit_xor
          (xor_from left i (λ j. if r j then c j else 0))
          (if bits_from left i (λ j. r j && w j) then v else 0)
unfolding xor_from bits_from
xor_from-add zero i r w c v = sym (xor-zero 0)
xor_from-add (suc left) i r w c v =
    add_term (r i) (w i) (bits_from left (i + 1) (λ j. r j && w j)) (c i) v _ _
      (xor_from-add left (i + 1) r w c v)
