-- ===== src/Stego/Covers.antt =====
-- One level of src/stego.c: what `read_cover_file_delta` and `write_cover_file_delta` do to it.
use bsfs.Base.{
  ℕ, zero, suc, ◌+◌, ◌-◌, ◌*◌, ◌≤◌, ◌<◌, ◌≡◌, refl, ap, ◌∙◌, arith, Bool, ◌&&◌, bit_xor, ◌==◌,
  if◌then◌else◌, Bytes, shift, in_range, lt→ltb,
}
use bsfs.Base.Xor.{xor_assoc, xor-zero, zero-bit_xor}
use bsfs.BitUtil.{get_bit}
use bsfs.Stego.{
  keytab_size, cover_offset, read_loop, read_cover_file_delta, write_loop, write_cover_file_delta,
  stego_cover_file_count,
}
use bsfs.Stego.Sum.{xor_from, bits_from-xor_bits, xor_from-add, xor_from_congr}
use bsfs.Vector.{aliased, vector_linear_combination, xor_bits}
use bsfs.Vector.Combination.{vector_linear_combination_at}
use bsfs.Vector.Product.{common_bit}

-- The byte at offset `p` of the level that `key` selects.
pub level_view : Bytes → Bytes → ℕ → ℕ → ℕ
level_view key disk level_size p =
    xor_from stego_cover_file_count 0
      (λ i. if get_bit key i then disk (cover_offset level_size i p) else 0)

read_loop_at :
    (key disk : Bytes) (L off at size left i : ℕ) (buf : Bytes) (a : ℕ)
    → read_loop key disk L off at size left i buf a ≡ (
        if in_range at size a
        then bit_xor (buf a) (
            xor_from left i
              (λ j. if get_bit key j then disk (cover_offset L j (off + (a - at))) else 0))
        else buf a)
unfolding read_loop xor_from
read_loop_at key disk L off at size zero i buf a = ground (arith, xor-zero (buf a))
read_loop_at key disk L off at size (suc left) i buf a =
    let c = shift disk (cover_offset L i off) in
    let bit = get_bit key i in
    let sum =
      xor_from left (i + 1)
        (λ j. if get_bit key j then disk (cover_offset L j (off + (a - at))) else 0) in
    let e : c (a - at) ≡ disk (cover_offset L i (off + (a - at))) = ap disk (omega arith) in
    ground (
      arith,
      read_loop_at key disk L off at size left (i + 1)
          (vector_linear_combination buf at aliased c size bit) a,
      vector_linear_combination_at buf at aliased c size bit a,
      xor_assoc (buf a) (disk (cover_offset L i (off + (a - at)))) sum,
      zero-bit_xor sum,
    )

-- The buffer's bytes get the level's bytes added, and nothing else of its memory changes.
pub read_cover_file_delta_at :
    (key disk : Bytes) (L off at size : ℕ) (buf : Bytes) (a : ℕ)
    → read_cover_file_delta key disk L off at size buf a ≡ (
        if in_range at size a
        then bit_xor (buf a) (level_view key disk L (off + (a - at)))
        else buf a)
unfolding read_cover_file_delta level_view
read_cover_file_delta_at key disk L off at size buf a =
    read_loop_at key disk L off at size stego_cover_file_count 0 buf a

pub next_cover : (L i j : ℕ) → i < j → i * L + L ≤ j * L
next_cover L i j h = grind arith

-- Covers do not overlap: a position of cover `j` lies in the range of cover `i` only if `i` is `j`.
pub cover_position :
    (L i j off size p : ℕ)
    → off + size ≤ L
    → p < L
    → in_range (cover_offset L i off) size (cover_offset L j p) ≡ (i == j && in_range off size p)
cover_position L i j off size p h q = ground (arith, next_cover L i j, next_cover L j i)

write_loop_at :
    (key buf : Bytes) (L off at size left i : ℕ) (disk : Bytes) (j p : ℕ)
    → off + size ≤ L
    → p < L
    → write_loop key buf L off at size left i disk (cover_offset L j p) ≡ (
        if in_range i left j && (in_range off size p && get_bit key j)
        then bit_xor (disk (cover_offset L j p)) (buf (at + (p - off)))
        else disk (cover_offset L j p))
unfolding write_loop
write_loop_at key buf L off at size zero i disk j p h q = ground arith
write_loop_at key buf L off at size (suc left) i disk j p h q =
    let b = shift buf at in
    let bit = get_bit key i in
    let d = cover_offset L i off in
    let a = cover_offset L j p in
    let e : (i ≡ j) → a - d ≡ p - off = λ e. rw e (omega arith) in
    ground (
      arith,
      write_loop_at key buf L off at size left (i + 1)
          (vector_linear_combination disk d aliased b size bit) j p h q,
      vector_linear_combination_at disk d aliased b size bit a,
      cover_position L i j off size p h q,
      e,
    )

-- The covers that the key selects get the buffer added, in the range that is written.
pub write_cover_file_delta_at :
    (key buf disk : Bytes) (L off at size j p : ℕ)
    → j < stego_cover_file_count
    → off + size ≤ L
    → p < L
    → write_cover_file_delta key buf L off at size disk (cover_offset L j p) ≡ (
        if in_range off size p && get_bit key j
        then bit_xor (disk (cover_offset L j p)) (buf (at + (p - off)))
        else disk (cover_offset L j p))
unfolding write_cover_file_delta
write_cover_file_delta_at key buf disk L off at size j p hj h q =
    write_loop_at key buf L off at size stego_cover_file_count 0 disk j p h q
    ∙ rw (lt→ltb j stego_cover_file_count hj) (ground arith)

-- Both keys select the cover an odd number of times.
abbrev pub product : Bytes → Bytes → Bool
product r w = xor_bits stego_cover_file_count (common_bit r w)

written_term :
    (r w inside : Bool) (x y : ℕ)
    → (if r then (if inside && w then bit_xor x y else x) else 0)
      ≡ (if r then bit_xor x (if w then (if inside then y else 0) else 0) else 0)
written_term r w inside x y = ground (arith, xor-zero x)

product_term :
    (b inside : Bool) (y : ℕ)
    → (if b then (if inside then y else 0) else 0) ≡ (if b && inside then y else 0)
product_term b inside y = ground arith

-- write_cover_file_delta within a level adds the buffer, byte by byte, to what a read key selects
-- if the read key and the write key share an odd number of covers, in the written range only, and
-- otherwise leaves it alone.
pub write_cover_file_delta-level_view :
    (r w buf disk : Bytes) (L off at size p : ℕ)
    → off + size ≤ L
    → p < L
    → level_view r (write_cover_file_delta w buf L off at size disk) L p
      ≡ bit_xor
          (level_view r disk L p)
          (if product r w && in_range off size p then buf (at + (p - off)) else 0)
unfolding level_view
write_cover_file_delta-level_view r w buf disk L off at size p h q =
    let inside : Bool = in_range off size p in
    let y : ℕ = buf (at + (p - off)) in
    let c : ℕ → ℕ = λ j. disk (cover_offset L j p) in
    xor_from_congr stego_cover_file_count 0
      (λ j.
        if get_bit r j
        then write_cover_file_delta w buf L off at size disk (cover_offset L j p)
        else 0)
      (λ j.
        if get_bit r j
        then bit_xor (c j) (if get_bit w j then (if inside then y else 0) else 0)
        else 0)
      (λ j lt.
        ap (λ t. if get_bit r j then t else 0)
          (write_cover_file_delta_at w buf disk L off at size j p lt h q)
        ∙ written_term (get_bit r j) (get_bit w j) inside (c j) y)
    ∙ (xor_from-add stego_cover_file_count 0 (get_bit r) (get_bit w) c (if inside then y else 0)
        ∙ rw (
          bits_from-xor_bits stego_cover_file_count (common_bit r w),
          product_term (product r w) inside y,
        ))

write_loop_keytab :
    (key buf : Bytes) (L off at size left i : ℕ) (disk : Bytes) (a : ℕ)
    → a < keytab_size
    → write_loop key buf L off at size left i disk a ≡ disk a
unfolding write_loop
write_loop_keytab key buf L off at size zero i disk a h = refl
write_loop_keytab key buf L off at size (suc left) i disk a h = ground (
  arith,
  write_loop_keytab key buf L off at size left (i + 1)
      (vector_linear_combination disk (cover_offset L i off) aliased (shift buf at) size
        (get_bit key i))
      a h,
  vector_linear_combination_at disk (cover_offset L i off) aliased (shift buf at) size
      (get_bit key i) a,
)

-- The key table in front of the covers is never written.
pub write_cover_file_delta_keytab :
    (key buf disk : Bytes) (L off at size a : ℕ)
    → a < keytab_size
    → write_cover_file_delta key buf L off at size disk a ≡ disk a
unfolding write_cover_file_delta
write_cover_file_delta_keytab key buf disk L off at size a h =
    write_loop_keytab key buf L off at size stego_cover_file_count 0 disk a h
