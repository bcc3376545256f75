-- ===== src/Oft/Rehash.antt =====
-- `oft_rehash` of src/oft.c: the larger table holds what the old one held.
use bsfs.Base.{
  ℕ, zero, suc, ◌+◌, ◌-◌, ◌*◌, ◌/◌, ◌%◌, ◌≤◌, ◌<◌, ◌≡◌, refl, sym, ap, ◌∙◌, arith, true, false, ltb,
  leb, ◌&&◌, ◌==◌, if◌then◌else◌, List, [], ◌∷◌, Option, none, some, Bool-cases, inl, inr,
}
use bsfs.Base.{bit_and, ok}
use bsfs.Base.Xor.{bit_and_step}
use bsfs.Oft.{
  Oft, alloc_buckets, oft_find, oft_rehash, OpenFile, Buckets, bucket_of, find_loop, oft_do_insert,
  rehash_chain, rehash_loop,
}
use bsfs.Oft.Chains.{
  IsChain, found_in, found_in-insert, insert-IsChain, bucket_of-lt, find_loop-elsewhere,
}

-- The first of two answers, or the second.
abbrev pub or_else : Option OpenFile → Option OpenFile → Option OpenFile
or_else none b = b
or_else (some a) b = some a

or_else-none : (o : Option OpenFile) → or_else o none ≡ o
or_else-none none = refl
or_else-none (some file) = refl

module _ (index_at : ℕ → ℕ) (old_count new_count : ℕ) where
  rehash_chain-finds :
      (bucket : ℕ) (chain : List OpenFile) (new : Buckets) (index : ℕ)
      → IsChain index_at old_count bucket chain
      → found_in (rehash_chain chain new_count new) new_count index
        ≡ or_else (find_loop index chain) (found_in new new_count index)
  unfolding rehash_chain find_loop
  rehash_chain-finds bucket [] new index h = refl
  rehash_chain-finds bucket (file ∷ next) new index h =
      let ih = rehash_chain-finds bucket next (oft_do_insert new new_count file) index h.3 in
      let ins = found_in-insert new new_count file index in
      elim (Bool-cases (file.index == index)) [
        | inl same ↦
            let e : file.index ≡ index = ground arith in
            let none_left : find_loop index next ≡ none =
              ap (λ i. find_loop i next) (sym e) ∙ h.2 in
            rw (ih, none_left, ins, same)
        | inr other ↦ rw (ih, ins, other)
      ]

  -- The buckets from `bucket` on, of which only the index's own may hold it.
  rehash_loop-finds :
      (left bucket : ℕ) (old new : Buckets) (index : ℕ)
      → ((b : ℕ) → IsChain index_at old_count b (old b))
      → found_in (rehash_loop left bucket old new_count new) new_count index ≡ (
          if leb bucket (bucket_of index old_count)
            && ltb (bucket_of index old_count) (bucket + left)
          then or_else (found_in old old_count index) (found_in new new_count index)
          else found_in new new_count index)
  unfolding rehash_loop
  rehash_loop-finds zero bucket old new index h = ground arith
  rehash_loop-finds (suc left) bucket old new index h =
      let ih =
        rehash_loop-finds left (bucket + 1) old (rehash_chain (old bucket) new_count new) index h in
      let here = rehash_chain-finds bucket (old bucket) new index (h bucket) in
      elim (Bool-cases (bucket == bucket_of index old_count)) [
        | inl own ↦
            let e : bucket ≡ bucket_of index old_count = ground arith in
            let done : (leb (bucket + 1) (bucket_of index old_count)
                  && ltb (bucket_of index old_count) (bucket + 1 + left))
                ≡ false =
              ground arith in
            let now : (leb bucket (bucket_of index old_count)
                  && ltb (bucket_of index old_count) (bucket + suc left))
                ≡ true =
              ground arith in
            let ih' = rw done at ih in
            rw now (
              ih'
              ∙ (here
                  ∙ ap (λ b. or_else (find_loop index (old b)) (found_in new new_count index)) e))
        | inr far ↦
            let same : (leb (bucket + 1) (bucket_of index old_count)
                  && ltb (bucket_of index old_count) (bucket + 1 + left))
                ≡ (leb bucket (bucket_of index old_count)
                    && ltb (bucket_of index old_count) (bucket + suc left)) =
              ground arith in
            let away =
              find_loop-elsewhere index_at old_count bucket index (old bucket) (h bucket)
                (ground arith) in
            let ih' = rw (same, here, away) at ih in ih'
      ]

  rehash_chain-IsChain :
      (bucket : ℕ) (chain : List OpenFile) (new : Buckets)
      → IsChain index_at old_count bucket chain
      → ((b : ℕ) → IsChain index_at new_count b (new b))
      → ((index : ℕ) (file : OpenFile)
          → find_loop index chain ≡ some file
          → found_in new new_count index ≡ none)
      → (b : ℕ) → IsChain index_at new_count b (rehash_chain chain new_count new b)
  unfolding rehash_chain find_loop
  rehash_chain-IsChain bucket [] new c h free b = h b
  rehash_chain-IsChain bucket (file ∷ next) new c h free b =
      let same : (file.index == file.index) ≡ true = ground arith in
      rehash_chain-IsChain bucket next (oft_do_insert new new_count file) c.3
        (insert-IsChain index_at new new_count file h c.1 (free file.index file (rw same refl)))
        (λ index f found.
          found_in-insert new new_count file index ∙ (elim (Bool-cases (file.index == index)) [
            | inl asked ↦
                let e : file.index ≡ index = ground arith in
                let gone = ap (λ i. find_loop i next) (sym e) ∙ c.2 in
                let wrong = sym gone ∙ found in cc
            | inr unasked ↦ rw unasked (free index f (rw unasked found))
          ]))
        b

  rehash_loop-IsChain :
      (left bucket : ℕ) (old new : Buckets)
      → ((b : ℕ) → IsChain index_at old_count b (old b))
      → ((b : ℕ) → IsChain index_at new_count b (new b))
      → ((index : ℕ) → bucket ≤ bucket_of index old_count → found_in new new_count index ≡ none)
      → (b : ℕ) → IsChain index_at new_count b (rehash_loop left bucket old new_count new b)
  unfolding rehash_loop
  rehash_loop-IsChain zero bucket old new c h free b = h b
  rehash_loop-IsChain (suc left) bucket old new c h free b =
      rehash_loop-IsChain left (bucket + 1) old (rehash_chain (old bucket) new_count new) c
        (rehash_chain-IsChain bucket (old bucket) new (c bucket) h (λ index f found.
          elim (Bool-cases (bucket == bucket_of index old_count)) [
            | inl own ↦ free index (ground arith)
            | inr far ↦
                let away =
                  find_loop-elsewhere index_at old_count bucket index (old bucket) (c bucket)
                    (ground arith) in
                let wrong = sym away ∙ found in cc
          ]))
        (λ index past.
          let away =
            find_loop-elsewhere index_at old_count bucket index (old bucket) (c bucket)
              (omega arith) in
          rehash_chain-finds bucket (old bucket) new index (c bucket)
          ∙ rw away (free index (omega arith)))
        b

-- A table whose count of buckets is a power of two, in the code's test, and whose buckets are
-- chains.
pub record IsTable (index_at : ℕ → ℕ) (table : Oft) : Type 0 where
  pub is_counted : 0 < table.bucket_count
  pub is_power : bit_and table.bucket_count (table.bucket_count - 1) ≡ 0
  pub chains : (b : ℕ) → IsChain index_at table.bucket_count b (table.buckets b)

power-double : (n : ℕ) → 0 < n → bit_and n (n - 1) ≡ 0 → bit_and (2 * n) (2 * n - 1) ≡ 0
power-double n h p =
    let half : 2 * n / 2 ≡ n = omega arith in
    let below : (2 * n - 1) / 2 ≡ n - 1 = omega arith in
    let even : 2 * n % 2 ≡ 0 = omega arith in
    bit_and_step (2 * n) (2 * n - 1) ∙ rw (half, below, even, p) (omega arith)

-- With memory, oft_rehash of a table to the double count of buckets succeeds; the new table is a
-- table of the same size and holds for each index what the old one held.
pub oft_rehash-finds :
    (index_at : ℕ → ℕ) (table : Oft)
    → IsTable index_at table
    → (larger : Oft) × (oft_rehash true table (2 * table.bucket_count) ≡ ok larger)
      × IsTable index_at larger
      × (larger.size ≡ table.size)
      × ((index : ℕ) → oft_find larger index ≡ oft_find table index)
unfolding oft_rehash alloc_buckets oft_find find_loop
oft_rehash-finds index_at table t =
    let count = table.bucket_count in
    let positive = t.is_counted in
    let power = power-double count positive t.is_power in
    let some_buckets : (2 * count == 0) ≡ false = ground arith in
    let buckets = rehash_loop count 0 table.buckets (2 * count) (λ b. []) in
    (
      record { buckets = buckets; bucket_count = 2 * count; size = table.size },
      rw (some_buckets, power) refl,
      record {
        is_counted = omega arith;
        is_power = power;
        chains =
            rehash_loop-IsChain index_at count (2 * count) count 0 table.buckets (λ b. []) t.chains
              (λ b. tt) (λ index lo. refl);
      },
      refl,
      λ index.
          let lt = bucket_of-lt index count positive in
          let whole : (leb 0 (bucket_of index count) && ltb (bucket_of index count) (0 + count))
              ≡ true =
            ground arith in
          rehash_loop-finds index_at count (2 * count) count 0 table.buckets (λ b. []) index
            t.chains
          ∙ rw whole (or_else-none (found_in table.buckets count index)),
    )
