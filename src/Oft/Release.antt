-- ===== src/Oft/Release.antt =====
-- `bs_oft_release` of src/oft.c, and its agreement with `bs_oft_get`.
use bsfs.Base.{
  ℕ, ◌+◌, ◌-◌, ◌%◌, ◌^◌, ◌≡◌, ◌≢◌, refl, sym, ap, subst, ◌∙◌, arith, true, false, ◌==◌,
  if◌then◌else◌, [], none, some, ok, Bool-cases, inl, inr,
}
use bsfs.Oft.{
  OpenFile, Oft, Refcounts, set_refcount, set_bucket, bucket_of, find_loop, oft_find, oft_remove,
  bs_oft_get, bs_oft_has, bs_oft_release, bs_oft_init, alloc_buckets,
}
use bsfs.Oft.Chains.{IsChain, remove_loop-finds}
use bsfs.Oft.Rehash.{IsTable}
use bsfs.Oft.Map.{IsFresh, owned_by, bs_oft_get_lem}

-- bs_oft_release of an open file with one reference takes it out of the table, which stays a table
-- and holds what it held at every other index; with another number of references the table stays
-- and the count goes down.
pub bs_oft_release_lem :
    (index_at : ℕ → ℕ) (table : Oft) (refcounts : Refcounts) (file : OpenFile)
    → IsTable index_at table
    → index_at file.address ≡ file.index
    → oft_find table file.index ≡ some file
    → (refcounts file.address ≢ 1
        → bs_oft_release table refcounts file
          ≡ ok (table, set_refcount refcounts file.address (refcounts file.address - 1)))
      × (refcounts file.address ≡ 1
          → (smaller : Oft) × (bs_oft_release table refcounts file
              ≡ ok (smaller, set_refcount refcounts file.address 0))
            × IsTable index_at smaller
            × ((i : ℕ) → oft_find smaller i ≡ (if file.index == i then none else oft_find table i)))
unfolding bs_oft_release oft_remove oft_find
bs_oft_release_lem index_at table refcounts file t own found =
    let bucket = bucket_of file.index table.bucket_count in
    let (rest, removed, chain, finds) =
      remove_loop-finds index_at table.bucket_count bucket (table.buckets bucket) file
        (t.chains bucket) own found in
    (
      λ many. let more : (refcounts file.address == 1) ≡ false = ground arith in rw more refl,
      λ last. (
        record table {
          buckets = set_bucket table.buckets bucket rest;
          size = (table.size + 2 ^ 64 - 1) % 2 ^ 64;
        },
        rw (last, oft_remove, removed) refl,
        record {
          is_counted = t.is_counted;
          is_power = t.is_power;
          chains = λ b. elim (Bool-cases (b == bucket)) [
            | inl here ↦
                let e : b ≡ bucket = ground arith in
                rw here (subst (λ k. IsChain index_at table.bucket_count k rest) (sym e) chain)
            | inr there ↦ rw there (t.chains b)
          ];
        },
        λ i. elim (Bool-cases (bucket_of i table.bucket_count == bucket)) [
          | inl here ↦
              let e : bucket ≡ bucket_of i table.bucket_count = ground arith in
              rw here (
                finds i
                ∙ ap (λ k. if file.index == i then none else find_loop i (table.buckets k)) e)
          | inr there ↦
              let n : (file.index == i) ≡ false = elim (Bool-cases (file.index == i)) [
                | inl asked ↦
                    let e : file.index ≡ i = ground arith in
                    let k = ap (λ x. bucket_of x table.bucket_count) e in absurd (ground arith)
                | inr unasked ↦ unasked
              ] in
              rw (there, n) refl
        ],
      ),
    )

-- A table that `bs_oft_init` made is a table, and holds no file.
pub bs_oft_init_lem :
    (index_at : ℕ → ℕ)
    → (table : Oft) × (bs_oft_init true none ≡ ok table)
      × IsTable index_at table
      × ((i : ℕ) → bs_oft_has table i ≡ false)
unfolding bs_oft_init alloc_buckets bs_oft_has oft_find find_loop
bs_oft_init_lem index_at = (
  record { buckets = λ b. []; bucket_count = 8; size = 0 },
  refl,
  record { is_counted = omega arith; is_power = refl; chains = λ b. tt },
  λ i. refl,
)

bs_oft_has_congr :
    (x y : Oft) (i : ℕ) → oft_find x i ≡ oft_find y i → bs_oft_has x i ≡ bs_oft_has y i
unfolding bs_oft_has
bs_oft_has_congr x y i e = rw (bs_oft_has, e) refl

bs_oft_has-some :
    (x : Oft) (i : ℕ) (file : OpenFile) → oft_find x i ≡ some file → bs_oft_has x i ≡ true
unfolding bs_oft_has
bs_oft_has-some x i file e = rw (bs_oft_has, e) refl

-- On a table, with memory and an address where no file of the table is, to get a file that is not
-- open with bs_oft_get and to release it with bs_oft_release leaves open what was open before, and
-- between the two the file is open as well.
pub bs_oft_release-get :
    (index_at : ℕ → ℕ) (table : Oft) (refcounts : Refcounts) (address index : ℕ)
    → IsTable index_at table
    → IsFresh table address
    → oft_find table index ≡ none
    → (larger : Oft) × (smaller : Oft) × (counted : Refcounts) × (released : Refcounts)
      × (file : OpenFile) × (bs_oft_get true (some address) none table refcounts index
          ≡ ok (larger, counted, file))
      × (bs_oft_has larger index ≡ true)
      × (bs_oft_release larger counted file ≡ ok (smaller, released))
      × ((i : ℕ) → bs_oft_has smaller i ≡ bs_oft_has table i)
bs_oft_release-get index_at table refcounts address index t fresh free =
    let file : OpenFile = record { address = address; index = index } in
    let self : (address == address) ≡ true = ground arith in
    let same : (index == index) ≡ true = ground arith in
    let got = bs_oft_get_lem index_at table refcounts address index t fresh in
    let (larger, is_got, is_larger, finds) = got.1 free in
    let at_index : oft_find larger index ≡ some file = finds index ∙ rw same refl in
    let released =
      bs_oft_release_lem (owned_by index_at address index) larger (set_refcount refcounts address 1)
        file is_larger (rw self refl) at_index in
    let (smaller, is_released, is_smaller, holds) = released.1 (rw self refl) in
    (
      larger,
      smaller,
      set_refcount refcounts address 1,
      set_refcount (set_refcount refcounts address 1) address 0,
      file,
      is_got,
      bs_oft_has-some larger index file at_index,
      is_released,
      λ i. bs_oft_has_congr smaller table i (
          holds i ∙ (elim (Bool-cases (index == i)) [
            | inl asked ↦
                let e : index ≡ i = ground arith in rw asked (sym free ∙ ap (oft_find table) e)
            | inr unasked ↦ rw unasked (finds i ∙ rw unasked refl)
          ])),
    )
