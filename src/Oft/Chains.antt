-- ===== src/Oft/Chains.antt =====
-- The chains of src/oft.c: what is found after a file is inserted in front, or removed.
use bsfs.Base.{
  ℕ, zero, suc, ◌-◌, ◌/◌, ◌≤◌, ◌<◌, ◌≡◌, ◌≢◌, refl, sym, ap, subst, ◌∙◌, arith, true, false, ◌==◌,
  if◌then◌else◌, bit_and, List, [], ◌∷◌, Option, none, some, Bool-cases, inl, inr,
}
use bsfs.Base.Xor.{bit_and_step, zero-bit_and}
use bsfs.Oft.{OpenFile, Buckets, bucket_of, find_loop, oft_do_insert, remove_loop}

-- A chain of the bucket `bucket`: its files belong there, no two have the same index, and a file's
-- address tells its index.
abbrev pub IsChain : (ℕ → ℕ) → ℕ → ℕ → List OpenFile → Type 0
IsChain index_at count bucket [] = Unit {0}
IsChain index_at count bucket (file ∷ next) =
    (bucket_of file.index count ≡ bucket)
    × (index_at file.address ≡ file.index)
    × (find_loop file.index next ≡ none)
    × IsChain index_at count bucket next

-- What is found of an index in buckets.
abbrev pub found_in : Buckets → ℕ → ℕ → Option OpenFile
found_in buckets count index = find_loop index (buckets (bucket_of index count))

pub found_in-insert :
    (buckets : Buckets) (count : ℕ) (file : OpenFile) (index : ℕ)
    → found_in (oft_do_insert buckets count file) count index
      ≡ (if file.index == index then some file else found_in buckets count index)
unfolding oft_do_insert find_loop
found_in-insert buckets count file index = elim (Bool-cases (file.index == index)) [
  | inl same ↦
      let e : file.index ≡ index = ground arith in ground (arith, ap (λ i. bucket_of i count) e)
  | inr other ↦ elim (Bool-cases (bucket_of index count == bucket_of file.index count)) [
    | inl shared ↦
        let e : bucket_of index count ≡ bucket_of file.index count = ground arith in
        rw (shared, other, e)
    | inr apart ↦ rw (apart, other)
  ]
]

pub bit_and-le_below : (n x y : ℕ) → x ≤ n → bit_and x y ≤ y
bit_and-le_below zero zero y h = omega (arith, zero-bit_and y)
bit_and-le_below zero (suc x) y h = absurd (omega arith)
bit_and-le_below (suc n) x y h =
    omega (arith, bit_and_step x y, bit_and-le_below n (x / 2) (y / 2) (omega arith))

pub bucket_of-lt : (index count : ℕ) → 0 < count → bucket_of index count < count
unfolding bucket_of
bucket_of-lt index count h = omega (arith, bit_and-le_below index index (count - 1) (omega arith))

-- What is found has the index, and a file that is not found elsewhere is not in another bucket.
pub find_loop-elsewhere :
    (index_at : ℕ → ℕ) (count bucket index : ℕ) (chain : List OpenFile)
    → IsChain index_at count bucket chain
    → bucket ≢ bucket_of index count
    → find_loop index chain ≡ none
unfolding find_loop
find_loop-elsewhere index_at count bucket index [] h far = refl
find_loop-elsewhere index_at count bucket index (file ∷ next) h far =
    elim (Bool-cases (file.index == index)) [
      | inl same ↦
          let e : file.index ≡ index = ground arith in
          absurd (far (sym h.0 ∙ ap (λ i. bucket_of i count) e))
      | inr other ↦ rw other (find_loop-elsewhere index_at count bucket index next h.3 far)
    ]

-- A file that is found has the index that was asked for.
pub find_loop-index :
    (index : ℕ) (chain : List OpenFile) (file : OpenFile)
    → find_loop index chain ≡ some file
    → file.index ≡ index
unfolding find_loop
find_loop-index index [] file h = cc
find_loop-index index (first ∷ next) file h = elim (Bool-cases (first.index == index)) [
  | inl same ↦
      let h' = rw same at h in
      let e : first.index ≡ index = ground arith in
      let is_first : first ≡ file = cc h' in rw (sym is_first) e
  | inr other ↦ find_loop-index index next file (rw other at h)
]

-- What a chain holds of an index after the file at an address was taken out: nothing if it was
-- the file's, and otherwise what it held.
pub remove_loop-finds :
    (index_at : ℕ → ℕ) (count bucket : ℕ) (chain : List OpenFile) (file : OpenFile)
    → IsChain index_at count bucket chain
    → index_at file.address ≡ file.index
    → find_loop file.index chain ≡ some file
    → (rest : List OpenFile) × (remove_loop file.address chain ≡ some rest)
      × IsChain index_at count bucket rest
      × ((index : ℕ)
          → find_loop index rest ≡ (if file.index == index then none else find_loop index chain))
unfolding find_loop remove_loop
remove_loop-finds index_at count bucket [] file h own found = cc
remove_loop-finds index_at count bucket (first ∷ next) file h own found =
    elim (Bool-cases (first.index == file.index)) [
      | inl same ↦
          let e : first.index ≡ file.index = ground arith in
          let found' = rw same at found in
          let is_file : first ≡ file = cc found' in
          let here : (first.address == file.address) ≡ true = rw is_file (ground arith) in
          (
            next,
            rw here,
            h.3,
            λ index. elim (Bool-cases (file.index == index)) [
              | inl asked ↦
                  let q : index ≡ first.index = ground arith in
                  rw asked (ap (λ i. find_loop i next) q ∙ h.2)
              | inr unasked ↦
                  let n : (first.index == index) ≡ false = ground arith in rw (unasked, n)
            ],
          )
      | inr other ↦
          let apart : (first.address == file.address) ≡ false =
            elim (Bool-cases (first.address == file.address)) [
              | inl shared ↦
                  let a : first.address ≡ file.address = ground arith in
                  let e : first.index ≡ file.index = sym h.1 ∙ (ap index_at a ∙ own) in
                  absurd (ground arith)
              | inr distinct ↦ distinct
            ] in
          let not_first : (file.index == first.index) ≡ false = ground arith in
          let (rest, removed, chain, finds) =
            remove_loop-finds index_at count bucket next file h.3 own (rw other at found) in
          (
            first ∷ rest,
            rw (apart, removed),
            (h.0, h.1, finds first.index ∙ rw not_first h.2, chain),
            λ index. elim (Bool-cases (first.index == index)) [
              | inl asked ↦ let n : (file.index == index) ≡ false = ground arith in rw (asked, n)
              | inr unasked ↦ rw (unasked, finds index)
            ],
          )
    ]

-- The chains stay chains when a file with a new index is inserted.
pub insert-IsChain :
    (index_at : ℕ → ℕ) (new : Buckets) (count : ℕ) (file : OpenFile)
    → ((b : ℕ) → IsChain index_at count b (new b))
    → index_at file.address ≡ file.index
    → found_in new count file.index ≡ none
    → (b : ℕ) → IsChain index_at count b (oft_do_insert new count file b)
unfolding oft_do_insert
insert-IsChain index_at new count file h own free b =
    elim (Bool-cases (b == bucket_of file.index count)) [
      | inl here ↦
          let e : b ≡ bucket_of file.index count = ground arith in
          rw here (sym e, own, free, subst (λ q. IsChain index_at count b (new q)) e (h b))
      | inr there ↦ rw there (h b)
    ]
