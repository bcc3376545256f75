-- ===== src/Tests/OftRuns.antt =====
-- A table without files, and one with a file.
use bsfs.Base.{
  ℕ, ◌≡◌, refl, arith, true, ◌==◌, if◌then◌else◌, [], ◌∷◌, none, some, ok, Bool-cases, inl, inr,
}
use bsfs.Oft.{
  OpenFile, Oft, Refcounts, bucket_of, find_loop, oft_find, oft_insert, bs_oft_get, bs_oft_has,
  bs_oft_release,
}
use bsfs.Oft.Rehash.{IsTable}
use bsfs.Oft.Map.{IsFresh, oft_insert-finds}
use bsfs.Oft.Release.{bs_oft_release-get}

-- Files are created at ten times their index.
abbrev index_of : ℕ → ℕ
index_of address = if address == 30 then 3 else 0

abbrev file_three : OpenFile
file_three = record { address = 30; index = 3 }

abbrev empty_table : Oft
empty_table = record { buckets = λ b. []; bucket_count = 8; size = 0 }

abbrev small_table : Oft
small_table = record {
  buckets = λ b. if b == 3 then file_three ∷ [] else [];
  bucket_count = 8;
  size = 1;
}

empty-IsTable : IsTable index_of empty_table
empty-IsTable = record { is_counted = omega arith; is_power = refl; chains = λ b. tt }

empty-IsFresh : (address : ℕ) → IsFresh empty_table address
unfolding oft_find find_loop
empty-IsFresh address index file found = cc

small-IsTable : IsTable index_of small_table
unfolding bucket_of find_loop
small-IsTable = record {
  is_counted = omega arith;
  is_power = refl;
  chains = λ b. elim (Bool-cases (b == 3)) [
    | inl here ↦ let e : 3 ≡ b = ground arith in rw here (e, refl, refl, tt)
    | inr there ↦ rw there tt
  ];
}

abbrev no_counts : Refcounts
no_counts a = 1

oft_insert-finds_example :
    (larger : Oft) × (oft_insert true empty_table file_three ≡ ok larger)
    × IsTable index_of larger
    × ((index : ℕ)
        → oft_find larger index
          ≡ (if 3 == index then some file_three else oft_find empty_table index))
unfolding oft_find find_loop
oft_insert-finds_example = oft_insert-finds index_of empty_table file_three empty-IsTable refl refl

bs_oft_release-get_example :
    (larger : Oft) × (smaller : Oft) × (counted : Refcounts) × (released : Refcounts)
    × (file : OpenFile) × (bs_oft_get true (some 50) none empty_table no_counts 5
        ≡ ok (larger, counted, file))
    × (bs_oft_has larger 5 ≡ true)
    × (bs_oft_release larger counted file ≡ ok (smaller, released))
    × ((i : ℕ) → bs_oft_has smaller i ≡ bs_oft_has empty_table i)
unfolding oft_find find_loop
bs_oft_release-get_example =
    bs_oft_release-get index_of empty_table no_counts 50 5 empty-IsTable (empty-IsFresh 50) refl
