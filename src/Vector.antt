-- ===== src/Vector.antt =====
-- src/vector.c: vectors of bits packed in bytes.
pub mod Product
pub mod Combination
use bsfs.Base.{
  ℕ, zero, suc, ◌+◌, ◌-◌, Bool, true, false, ◌⊕◌, bit_and, bit_xor, Bytes, store, memcpy,
  if◌then◌else◌, List, [], ◌∷◌, Option, none, some, Outcome, ok, err, eio,
}
use bsfs.BitUtil.{bit_of, get_bit, round_to_bytes}

-- The exclusive or of `f 0`, …, `f (n - 1)`.
unfoldable pub xor_bits : ℕ → (ℕ → Bool) → Bool
xor_bits zero f = false
xor_bits (suc n) f = xor_bits n f ⊕ f n

-- `__builtin_parity`: the number of ones modulo 2.
unfoldable pub parity : ℕ → Bool
unfolding xor_bits bit_of
parity a = xor_bits 8 (λ k. bit_of a (8 - 1 - k))

scalar_loop : Bytes → Bytes → ℕ → ℕ → Bool → Bool
scalar_loop a b zero i ret = ret
scalar_loop a b (suc left) i ret = scalar_loop a b left (i + 1) (ret ⊕ parity (bit_and (a i) (b i)))

unfoldable pub vector_scalar_product : Bytes → Bytes → ℕ → Bool
unfolding scalar_loop parity
vector_scalar_product a b size = scalar_loop a b size 0 false

unfoldable pub vector_norm : Bytes → ℕ → Bool
unfolding vector_scalar_product
vector_norm a size = vector_scalar_product a a size

-- The first operand is the destination itself or another buffer.
pub data Operand : Type 0 where
  aliased : Operand
  separate : Bytes → Operand

-- What is read at index `i` of the operand, when the destination is `m + d`.
abbrev pub operand_at : Operand → Bytes → ℕ → ℕ → ℕ
operand_at aliased m d i = m (d + i)
operand_at (separate b) m d i = b i

-- One round: `linear_combination[i] = first_vector[i]`, and the second vector's byte added.
abbrev combine_step : ℕ → Operand → Bytes → Bool → ℕ → Bytes → Bytes
combine_step d first second coefficient i m =
    let copied = store m (d + i) (operand_at first m d i) in
    if coefficient then store copied (d + i) (bit_xor (copied (d + i)) (second i)) else copied

combine_loop : ℕ → Operand → Bytes → Bool → ℕ → ℕ → Bytes → Bytes
combine_loop d first second coefficient zero i m = m
combine_loop d first second coefficient (suc left) i m =
    combine_loop d first second coefficient left (i + 1)
      (combine_step d first second coefficient i m)

-- The destination is `m + d`; the memory after the call is the result.
unfoldable pub vector_linear_combination : Bytes → ℕ → Operand → Bytes → ℕ → Bool → Bytes
unfolding combine_loop
vector_linear_combination m d first second vector_size coefficient =
    combine_loop d first second coefficient vector_size 0 m

nonzero_loop : Bytes → ℕ → ℕ → Bool
nonzero_loop vector zero i = false
nonzero_loop vector (suc left) i =
    if get_bit vector i then true else nonzero_loop vector left (i + 1)

unfoldable pub has_nonzero : Bytes → ℕ → Bool
unfolding nonzero_loop
has_nonzero vector dim = nonzero_loop vector dim 0

-- The answers of `RAND_bytes`, in order: the bytes that it gives, or `none` where it fails. The
-- loop has not ended where they run out; otherwise its result stands beside the answers left.
unfoldable pub gen_nonzero_vector :
    List (Option Bytes) → Bytes → ℕ → Option (Outcome Bytes × List (Option Bytes))
gen_nonzero_vector [] vector dim = none
gen_nonzero_vector (none ∷ draws) vector dim = some (err eio, draws)
gen_nonzero_vector (some drawn ∷ draws) vector dim =
    let drawn_into = memcpy vector 0 drawn (round_to_bytes dim) in
    let again = gen_nonzero_vector draws drawn_into dim in
    if has_nonzero drawn_into dim then some (ok drawn_into, draws) else again
