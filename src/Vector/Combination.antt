-- ===== src/Vector/Combination.antt =====
-- What `vector_linear_combination` and `gen_nonzero_vector` of src/vector.c compute.
use bsfs.Base.{ℕ, zero, suc, ◌+◌, ◌-◌, ◌≡◌, arith, Bool, bit_xor, Bytes, in_range, if◌then◌else◌}
use bsfs.Vector.{
  Operand, aliased, separate, operand_at, combine_step, combine_loop, vector_linear_combination,
}

-- The byte that index `i` of the destination gets.
abbrev pub combined : ℕ → Operand → Bytes → Bool → Bytes → ℕ → ℕ
combined d first second coefficient m i =
    if coefficient then bit_xor (operand_at first m d i) (second i) else operand_at first m d i

combine_loop_at :
    (d : ℕ) (first : Operand) (second : Bytes) (c : Bool) (left i : ℕ) (m : Bytes) (a : ℕ)
    → combine_loop d first second c left i m a
      ≡ (if in_range (d + i) left a then combined d first second c m (a - d) else m a)
unfolding combine_loop
combine_loop_at d first second c zero i m a = ground arith
combine_loop_at d aliased second c (suc left) i m a =
    ground (
      arith,
      combine_loop_at d aliased second c left (i + 1) (combine_step d aliased second c i m) a,
    )
combine_loop_at d (separate b) second c (suc left) i m a = ground (
  arith,
  combine_loop_at d (separate b) second c left (i + 1) (combine_step d (separate b) second c i m) a,
)

-- The destination's bytes become the combination, also where the first operand is the
-- destination, and no other byte changes.
pub vector_linear_combination_at :
    (m : Bytes) (d : ℕ) (first : Operand) (second : Bytes) (size : ℕ) (c : Bool) (a : ℕ)
    → vector_linear_combination m d first second size c a
      ≡ (if in_range d size a then combined d first second c m (a - d) else m a)
unfolding vector_linear_combination
vector_linear_combination_at m d first second size c a =
    ground (arith, combine_loop_at d first second c size 0 m a)
