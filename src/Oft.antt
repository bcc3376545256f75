-- ===== src/Oft.antt =====
-- src/oft.c: the hash table of the open files of a level, chained, with reference counts. The
-- table's lock is free when it is asked for, as in a sequential run.
pub mod Chains
pub mod Rehash
pub mod Map
pub mod Release
use bsfs.Base.{
  ℕ, zero, suc, ◌+◌, ◌-◌, ◌*◌, ◌%◌, ◌^◌, Bool, true, false, not, ◌&&◌, ◌||◌, ltb, ◌==◌,
  if◌then◌else◌, bit_and, List, [], ◌∷◌, Option, none, some, Outcome, ok, err, Errno, ◌>>=◌, einval,
  enomem,
}

abbrev pub oft_initial_bucket_count : ℕ
oft_initial_bucket_count = 8

-- A file is known by its address. Its index does not change after its creation; its reference
-- count does, and is kept apart, by address.
pub record OpenFile : Type 0 where
  pub address : ℕ
  pub index : ℕ

-- A chain is the list of the files that `next` leads through.
abbrev pub Buckets : Type 0
Buckets = ℕ → List OpenFile

pub record Oft : Type 0 where
  pub buckets : Buckets
  pub bucket_count : ℕ
  pub size : ℕ

abbrev pub Refcounts : Type 0
Refcounts = ℕ → ℕ

-- What the system answers to `calloc` and to `pthread_rwlock_init`.
unfoldable pub create_open_file : Option ℕ → Option Errno → ℕ → Outcome OpenFile
create_open_file none init index = err enomem
create_open_file (some address) (some e) index = err e
create_open_file (some address) none index = ok (record { address = address; index = index })

-- The first argument is whether `calloc` has the memory.
unfoldable pub alloc_buckets : Bool → ℕ → Outcome Buckets
alloc_buckets calloc bucket_count =
    if bucket_count == 0 || not (bit_and bucket_count (bucket_count - 1) == 0)
    then err einval
    else if calloc
    then ok (λ b. [])
    else err enomem

unfoldable pub bucket_of : ℕ → ℕ → ℕ
bucket_of index bucket_count = bit_and index (bucket_count - 1)

unfoldable pub find_loop : ℕ → List OpenFile → Option OpenFile
find_loop index [] = none
find_loop index (file ∷ next) = if file.index == index then some file else find_loop index next

unfoldable pub oft_find : Oft → ℕ → Option OpenFile
oft_find table index = find_loop index (table.buckets (bucket_of index table.bucket_count))

-- The buckets with another chain in one place.
abbrev pub set_bucket : Buckets → ℕ → List OpenFile → Buckets
set_bucket buckets bucket chain b = if b == bucket then chain else buckets b

unfoldable pub oft_do_insert : Buckets → ℕ → OpenFile → Buckets
oft_do_insert buckets bucket_count file =
    let bucket = bucket_of file.index bucket_count in
    set_bucket buckets bucket (file ∷ buckets bucket)

-- The chain without the first file at the address, if there is one.
unfoldable pub remove_loop : ℕ → List OpenFile → Option (List OpenFile)
remove_loop address [] = none
remove_loop address (file ∷ next) =
    if file.address == address
    then some next
    else elim (remove_loop address next) [ none ↦ none | some rest ↦ some (file ∷ rest) ]

unfoldable pub oft_remove : Oft → OpenFile → Outcome Oft
oft_remove table file =
    let bucket = bucket_of file.index table.bucket_count in
    elim (remove_loop file.address (table.buckets bucket)) [
      | none ↦ err einval
      | some chain ↦ ok (record table {
        buckets = set_bucket table.buckets bucket chain;
        size = (table.size + 2 ^ 64 - 1) % 2 ^ 64;
      })
    ]

unfoldable pub rehash_chain : List OpenFile → ℕ → Buckets → Buckets
rehash_chain [] new_bucket_count new_buckets = new_buckets
rehash_chain (file ∷ next) new_bucket_count new_buckets =
    rehash_chain next new_bucket_count (oft_do_insert new_buckets new_bucket_count file)

unfoldable pub rehash_loop : ℕ → ℕ → Buckets → ℕ → Buckets → Buckets
unfolding rehash_chain
rehash_loop zero old_bucket buckets new_bucket_count new_buckets = new_buckets
rehash_loop (suc left) old_bucket buckets new_bucket_count new_buckets =
    rehash_loop left (old_bucket + 1) buckets new_bucket_count
      (rehash_chain (buckets old_bucket) new_bucket_count new_buckets)

unfoldable pub oft_rehash : Bool → Oft → ℕ → Outcome Oft
oft_rehash calloc table new_bucket_count = do
  new_buckets ← alloc_buckets calloc new_bucket_count
  ok (record table {
    buckets = rehash_loop table.bucket_count 0 table.buckets new_bucket_count new_buckets;
    bucket_count = new_bucket_count;
  })

-- The load factor is 1. The comparison is one of `float`s, which hold the numbers up to 2 ^ 24
-- exactly; a table has at most the 8192 files of a level.
unfoldable pub oft_insert : Bool → Oft → OpenFile → Outcome Oft
oft_insert calloc table file = do
  roomy ←
      if ltb table.bucket_count (table.size + 1)
      then oft_rehash calloc table (2 * table.bucket_count)
      else ok table
  ok (record roomy {
    buckets = oft_do_insert roomy.buckets roomy.bucket_count file;
    size = roomy.size + 1;
  })

-- The last argument is the answer of `pthread_mutex_init`.
unfoldable pub bs_oft_init : Bool → Option Errno → Outcome Oft
bs_oft_init calloc init = do
  buckets ← alloc_buckets calloc oft_initial_bucket_count
  elim init [
    | none ↦ ok (record { buckets = buckets; bucket_count = oft_initial_bucket_count; size = 0 })
    | some e ↦ err e
  ]

abbrev pub set_refcount : Refcounts → ℕ → ℕ → Refcounts
set_refcount refcounts address count a = if a == address then count else refcounts a

-- The file and whether it is new, with the table that holds it.
unfoldable pub find_or_create :
    Bool → Option ℕ → Option Errno → Oft → ℕ → Outcome (Oft × OpenFile × Bool)
find_or_create calloc address init table index = elim (oft_find table index) [
  | some file ↦ ok (table, file, false)
  | none ↦ do
    file ← create_open_file address init index
    larger ← oft_insert calloc table file
    ok (larger, file, true)
]

-- A new file's count is 0 before it is incremented.
unfoldable pub bs_oft_get :
    Bool → Option ℕ → Option Errno → Oft → Refcounts → ℕ → Outcome (Oft × Refcounts × OpenFile)
unfolding find_or_create
bs_oft_get calloc address init table refcounts index = do
  found ← find_or_create calloc address init table index
  let file = found.1
  let before = if found.2 then 0 else refcounts file.address
  ok (found.0, set_refcount refcounts file.address (before + 1), file)

unfoldable pub bs_oft_has : Oft → ℕ → Bool
bs_oft_has table index = elim (oft_find table index) [ none ↦ false | some file ↦ true ]

-- Without another thread the count is the same when it is read again under the lock. The function
-- is called for files that were got, whose counts are positive.
unfoldable pub bs_oft_release : Oft → Refcounts → OpenFile → Outcome (Oft × Refcounts)
bs_oft_release table refcounts file =
    let count = refcounts file.address in
    let counted = set_refcount refcounts file.address (count - 1) in
    if count == 1
    then (do smaller ← oft_remove table file; ok (smaller, counted))
    else ok (table, counted)
