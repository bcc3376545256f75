-- ===== src/Oft/Map.antt =====
-- The table of src/oft.c as a map from indices to files, with the reference counts.
use bsfs.Base.{
  ℕ, ◌+◌, ◌≡◌, ◌≢◌, refl, sym, ap, ◌∙◌, arith, true, false, ◌==◌, ltb, if◌then◌else◌, List, [], ◌∷◌,
  none, some, ok, Bool-cases, inl, inr,
}
use bsfs.Oft.{
  OpenFile, Oft, Refcounts, set_refcount, bucket_of, find_loop, oft_find, oft_do_insert, oft_insert,
  create_open_file, find_or_create, bs_oft_get,
}
use bsfs.Oft.Chains.{IsChain, found_in-insert, find_loop-elsewhere, insert-IsChain}
use bsfs.Oft.Rehash.{IsTable, oft_rehash-finds}

-- With memory, oft_insert of a file with a new index succeeds, rehashing where the table is full;
-- the new table is a table, and holds the file at its index and at each other what the old one
-- held.
pub oft_insert-finds :
    (index_at : ℕ → ℕ) (table : Oft) (file : OpenFile)
    → IsTable index_at table
    → index_at file.address ≡ file.index
    → oft_find table file.index ≡ none
    → (larger : Oft) × (oft_insert true table file ≡ ok larger)
      × IsTable index_at larger
      × ((index : ℕ)
          → oft_find larger index
            ≡ (if file.index == index then some file else oft_find table index))
unfolding oft_insert oft_find
oft_insert-finds index_at table file t own free =
    elim (Bool-cases (ltb table.bucket_count (table.size + 1))) [
      | inl full ↦
          let (larger, rehashed, is_table, size, finds) = oft_rehash-finds index_at table t in
          (
            record {
              buckets = oft_do_insert larger.buckets larger.bucket_count file;
              bucket_count = larger.bucket_count;
              size = larger.size + 1;
            },
            rw (full, rehashed) refl,
            record {
              is_counted = is_table.is_counted;
              is_power = is_table.is_power;
              chains =
                  insert-IsChain index_at larger.buckets larger.bucket_count file is_table.chains
                    own (finds file.index ∙ free);
            },
            λ index.
                found_in-insert larger.buckets larger.bucket_count file index
                ∙ rw (finds index) refl,
          )
      | inr roomy ↦ (
        record {
          buckets = oft_do_insert table.buckets table.bucket_count file;
          bucket_count = table.bucket_count;
          size = table.size + 1;
        },
        rw roomy refl,
        record {
          is_counted = t.is_counted;
          is_power = t.is_power;
          chains = insert-IsChain index_at table.buckets table.bucket_count file t.chains own free;
        },
        λ index. found_in-insert table.buckets table.bucket_count file index,
      )
    ]

-- No file of the table is at the address.
abbrev pub IsFresh : Oft → ℕ → Type 0
IsFresh table address =
    (index : ℕ) (file : OpenFile) → oft_find table index ≡ some file → file.address ≢ address

-- What the addresses say once a file was created at one of them.
abbrev pub owned_by : (ℕ → ℕ) → ℕ → ℕ → ℕ → ℕ
owned_by index_at address index a = if a == address then index else index_at a

IsChain-owned_by :
    (index_at : ℕ → ℕ) (count b address index : ℕ) (chain : List OpenFile)
    → IsChain index_at count b chain
    → ((i : ℕ) (file : OpenFile) → find_loop i chain ≡ some file → file.address ≢ address)
    → IsChain (owned_by index_at address index) count b chain
unfolding find_loop
IsChain-owned_by index_at count b address index [] c fresh = tt
IsChain-owned_by index_at count b address index (file ∷ next) c fresh =
    let same : (file.index == file.index) ≡ true = ground arith in
    let other = fresh file.index file (rw same refl) in
    let apart : (file.address == address) ≡ false = ground arith in
    (
      c.0,
      rw apart c.1,
      c.2,
      IsChain-owned_by index_at count b address index next c.3 (λ i f found.
          elim (Bool-cases (file.index == i)) [
            | inl asked ↦
                let e : file.index ≡ i = ground arith in
                let wrong = sym (ap (λ k. find_loop k next) (sym e) ∙ c.2) ∙ found in cc
            | inr unasked ↦ fresh i f (rw unasked found)
          ]),
    )

IsTable-owned_by :
    (index_at : ℕ → ℕ) (table : Oft) (address index : ℕ)
    → IsTable index_at table
    → IsFresh table address
    → IsTable (owned_by index_at address index) table
unfolding oft_find
IsTable-owned_by index_at table address index t fresh = record {
  is_counted = t.is_counted;
  is_power = t.is_power;
  chains = λ b.
      IsChain-owned_by index_at table.bucket_count b address index (table.buckets b) (t.chains b)
        (λ i file found. elim (Bool-cases (b == bucket_of i table.bucket_count)) [
          | inl own ↦
              let e : b ≡ bucket_of i table.bucket_count = ground arith in
              fresh i file (ap (λ k. find_loop i (table.buckets k)) (sym e) ∙ found)
          | inr far ↦
              let wrong =
                sym (
                  find_loop-elsewhere index_at table.bucket_count b i (table.buckets b) (t.chains b)
                    (ground arith))
                ∙ found in
              cc
        ]);
}

find_or_create-open :
    (table : Oft) (address index : ℕ) (file : OpenFile)
    → oft_find table index ≡ some file
    → find_or_create true (some address) none table index ≡ ok (table, file, false)
unfolding find_or_create
find_or_create-open table address index file found = rw (find_or_create, found) refl

find_or_create-new :
    (table larger : Oft) (address index : ℕ)
    → oft_find table index ≡ none
    → oft_insert true table (record { address = address; index = index }) ≡ ok larger
    → find_or_create true (some address) none table index
      ≡ ok (larger, record { address = address; index = index }, true)
unfolding find_or_create create_open_file
find_or_create-new table larger address index free inserted =
    rw (find_or_create, free, inserted) refl

pub bs_oft_get_lem :
    (index_at : ℕ → ℕ) (table : Oft) (refcounts : Refcounts) (address index : ℕ)
    → IsTable index_at table
    → IsFresh table address
    → ((file : OpenFile)
        → oft_find table index ≡ some file
        → bs_oft_get true (some address) none table refcounts index
          ≡ ok (table, set_refcount refcounts file.address (refcounts file.address + 1), file))
      × (oft_find table index ≡ none
          → (larger : Oft) × (bs_oft_get true (some address) none table refcounts index
              ≡ ok (
                larger,
                set_refcount refcounts address 1,
                record { address = address; index = index },
              ))
            × IsTable (owned_by index_at address index) larger
            × ((i : ℕ)
                → oft_find larger i ≡ (
                    if index == i
                    then some (record { address = address; index = index })
                    else oft_find table i)))
unfolding bs_oft_get
bs_oft_get_lem index_at table refcounts address index t fresh = (
  λ file found. rw (find_or_create-open table address index file found) refl,
  λ free.
      let file : OpenFile = record { address = address; index = index } in
      let self : (address == address) ≡ true = ground arith in
      let (larger, inserted, is_table, finds) =
        oft_insert-finds (owned_by index_at address index) table file
          (IsTable-owned_by index_at table address index t fresh) (rw self refl) free in
      (
        larger,
        rw (find_or_create-new table larger address index free inserted) refl,
        is_table,
        finds,
      ),
)
