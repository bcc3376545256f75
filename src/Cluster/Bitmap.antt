-- ===== src/Cluster/Bitmap.antt =====
-- Allocation in the bitmap of src/cluster.c: first fit.
use native.Mathlib.Decide.{dec_lt, ℕ_discrete}
use bsfs.Base.{
  ℕ, zero, suc, ◌+◌, ◌%◌, ◌^◌, ◌≤◌, ◌<◌, ◌≡◌, ◌⊎◌, inl, inr, refl, ap, ◌∙◌, arith, true, false,
  ◌==◌, if◌then◌else◌, ltb, Option, none, some, Bytes, IsBytes, Outcome, ok, err, enospc, einval,
  Bool-cases,
}
use bsfs.BitUtil.{get_bit, set_bit}
use bsfs.BitUtil.Bits.{get_bit-set_bit, set_bit-IsBytes}
use bsfs.Cluster.{alloc_loop, fs_alloc_cluster, fs_dealloc_cluster}

abbrev pub IsUsed : Bytes → ℕ → Type 0
IsUsed bitmap cluster = get_bit bitmap cluster ≡ true

-- What an allocation answers: there is no free cluster, or the first free one is now in use and
-- the bit of no other cluster has changed, or the counter wraps for ever.
pub record Allocated (bitmap : Bytes) (bits : ℕ) (result : Option (Outcome (Bytes × ℕ)))
    : Type 0 where
  pub cluster : ℕ
  pub after : Bytes
  pub returns : result ≡ some (ok (after, cluster))
  pub below : cluster < bits
  pub was_free : get_bit bitmap cluster ≡ false
  pub first : (j : ℕ) → j < cluster → IsUsed bitmap j
  pub changed : (j : ℕ) → get_bit after j ≡ (if cluster == j then true else get_bit bitmap j)
  pub bytes : IsBytes after

pub data AllocResult (bitmap : Bytes) (bits : ℕ) (result : Option (Outcome (Bytes × ℕ)))
    : Type 0 where
  full :
      bits < 2 ^ 32
      → ((j : ℕ) → j < bits → IsUsed bitmap j)
      → result ≡ some (err enospc)
      → AllocResult bitmap bits result
  allocated : Allocated bitmap bits result → AllocResult bitmap bits result
  endless :
      2 ^ 32 ≤ bits
      → ((j : ℕ) → j < 2 ^ 32 → IsUsed bitmap j)
      → result ≡ none
      → ((fuel : ℕ) → alloc_loop fuel bitmap bits 0 ≡ none)
      → AllocResult bitmap bits result

-- Where every number of 32 bits is that of a used cluster, no round is the last.
alloc_loop-none :
    (fuel : ℕ) (bitmap : Bytes) (bits cluster : ℕ)
    → 2 ^ 32 ≤ bits
    → ((j : ℕ) → j < 2 ^ 32 → IsUsed bitmap j)
    → cluster < 2 ^ 32
    → alloc_loop fuel bitmap bits cluster ≡ none
unfolding alloc_loop
alloc_loop-none zero bitmap bits cluster h used lt = refl
alloc_loop-none (suc fuel) bitmap bits cluster h used lt =
    let inside : ltb cluster bits ≡ true = ground arith in
    rw (alloc_loop, inside, used cluster lt)
      (alloc_loop-none fuel bitmap bits ((cluster + 1) % 2 ^ 32) h used (omega arith))

IsUsed-next :
    (bitmap : Bytes) (cluster : ℕ)
    → ((j : ℕ) → j < cluster → IsUsed bitmap j)
    → IsUsed bitmap cluster
    → (j : ℕ) → j < cluster + 1
    → IsUsed bitmap j
IsUsed-next bitmap cluster before here j lt = elim (ℕ_discrete cluster j) [
  | yes e ↦ rw (← e) here
  | no ne ↦ before j (omega arith)
]

alloc_loop-AllocResult :
    (fuel : ℕ) (bitmap : Bytes) (bits cluster : ℕ)
    → bits + 1 ≤ cluster + fuel
    → cluster ≤ bits
    → cluster < 2 ^ 32
    → IsBytes bitmap
    → ((j : ℕ) → j < cluster → IsUsed bitmap j)
    → AllocResult bitmap bits (alloc_loop fuel bitmap bits cluster)
unfolding alloc_loop
alloc_loop-AllocResult zero bitmap bits cluster enough le lt h before = absurd (omega arith)
alloc_loop-AllocResult (suc fuel) bitmap bits cluster enough le lt h before =
    elim (Bool-cases (ltb cluster bits)) [
      | inr over ↦ rw (alloc_loop, over) (full (ground arith) (λ j p. before j (ground arith)) refl)
      | inl inside ↦ elim (Bool-cases (get_bit bitmap cluster)) [
        | inr free ↦
            rw (alloc_loop, inside, free)
              (allocated (record {
                cluster = cluster;
                after = set_bit bitmap cluster true;
                returns = refl;
                below = ground arith;
                was_free = free;
                first = before;
                changed = λ j. get_bit-set_bit bitmap cluster j true h;
                bytes = set_bit-IsBytes bitmap cluster true h;
              }))
        | inl used ↦ elim (dec_lt (cluster + 1) (2 ^ 32)) [
          | yes more ↦
              let next : (cluster + 1) % 2 ^ 32 ≡ cluster + 1 = omega arith in
              rw (alloc_loop, inside, used, next)
                (alloc_loop-AllocResult fuel bitmap bits (cluster + 1) (omega arith) (ground arith)
                  more h (IsUsed-next bitmap cluster before used))
          | no last ↦
              let next : (cluster + 1) % 2 ^ 32 ≡ 0 = omega arith in
              let all : (j : ℕ) → j < 2 ^ 32 → IsUsed bitmap j =
                λ j p. IsUsed-next bitmap cluster before used j (omega arith) in
              let many : 2 ^ 32 ≤ bits = ground arith in
              rw (alloc_loop, inside, used, next)
                (endless many all (alloc_loop-none fuel bitmap bits 0 many all (omega arith))
                  (λ rounds. alloc_loop-none rounds bitmap bits 0 many all (omega arith)))
        ]
      ]
    ]

-- On a bitmap of bytes, fs_alloc_cluster answers ENOSPC if there are fewer than 2^32 bits and all
-- are set, gives the first cluster in range that is free, whose bit alone is then set, or, if there
-- are at least 2^32 bits and the first 2^32 are set, does not return in any number of rounds.
pub fs_alloc_cluster-AllocResult :
    (bitmap : Bytes) (bitmap_bits : ℕ)
    → IsBytes bitmap
    → AllocResult bitmap bitmap_bits (fs_alloc_cluster bitmap bitmap_bits)
unfolding fs_alloc_cluster
fs_alloc_cluster-AllocResult bitmap bitmap_bits h =
    alloc_loop-AllocResult (suc bitmap_bits) bitmap bitmap_bits 0 (omega arith) (omega arith)
      (omega arith) h (λ j lt. absurd (omega arith))

dealloc_ok :
    (bitmap : Bytes) (bitmap_bits cluster : ℕ)
    → cluster < bitmap_bits
    → IsBytes bitmap
    → (after : Bytes) × (fs_dealloc_cluster bitmap bitmap_bits cluster ≡ ok after)
      × ((j : ℕ) → get_bit after j ≡ (if cluster == j then false else get_bit bitmap j))
unfolding fs_dealloc_cluster
dealloc_ok bitmap bitmap_bits cluster lt h =
    (set_bit bitmap cluster false, ground arith, λ j. get_bit-set_bit bitmap cluster j false h)

-- On a bitmap of bytes, fs_dealloc_cluster refuses a cluster out of range with EINVAL, and
-- otherwise clears the cluster's bit and no other.
pub fs_dealloc_cluster_lem :
    (bitmap : Bytes) (bitmap_bits cluster : ℕ)
    → IsBytes bitmap
    → ((bitmap_bits ≤ cluster) × (fs_dealloc_cluster bitmap bitmap_bits cluster ≡ err einval))
      ⊎ ((cluster < bitmap_bits)
          × ((after : Bytes) × (fs_dealloc_cluster bitmap bitmap_bits cluster ≡ ok after)
              × ((j : ℕ) → get_bit after j ≡ (if cluster == j then false else get_bit bitmap j))))
unfolding fs_dealloc_cluster
fs_dealloc_cluster_lem bitmap bitmap_bits cluster h = elim (dec_lt cluster bitmap_bits) [
  | yes p ↦ inr (p, dealloc_ok bitmap bitmap_bits cluster p h)
  | no p ↦ inl (omega arith, ground arith)
]

-- On a bitmap of bytes, fs_dealloc_cluster of the cluster that fs_alloc_cluster gave succeeds and
-- brings back every bit.
pub fs_dealloc_cluster-alloc :
    (bitmap after : Bytes) (bitmap_bits cluster : ℕ)
    → IsBytes bitmap
    → fs_alloc_cluster bitmap bitmap_bits ≡ some (ok (after, cluster))
    → (again : Bytes) × (fs_dealloc_cluster after bitmap_bits cluster ≡ ok again)
      × ((j : ℕ) → get_bit again j ≡ get_bit bitmap j)
fs_dealloc_cluster-alloc bitmap after bitmap_bits cluster h e =
    by_result (fs_alloc_cluster-AllocResult bitmap bitmap_bits h)
  where
    by_result :
        AllocResult bitmap bitmap_bits (fs_alloc_cluster bitmap bitmap_bits)
        → (again : Bytes) × (fs_dealloc_cluster after bitmap_bits cluster ≡ ok again)
          × ((j : ℕ) → get_bit again j ≡ get_bit bitmap j)
    by_result (full _ _ r) = cc (r, e)
    by_result (endless _ _ r _) = cc (r, e)
    by_result (allocated a) =
        let same : (a.after, a.cluster) ≡ (after, cluster) = cc (a.returns, e) in
        let same_after : a.after ≡ after = ap (λ (t : Bytes × ℕ). t.0) same in
        let same_cluster : a.cluster ≡ cluster = ap (λ (t : Bytes × ℕ). t.1) same in
        let freed =
          dealloc_ok after bitmap_bits cluster (rw (← same_cluster) a.below)
            (rw (← same_after) a.bytes) in
        (
          freed.0,
          freed.1,
          λ j.
              freed.2 j
              ∙ rw (← same_after, ← same_cluster)
                  (ground (arith, a.changed j, a.was_free, ap (get_bit bitmap))),
        )
