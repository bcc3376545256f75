-- ===== src/Bsfs/Opened.antt =====
-- The search for open levels in src/bsfs.c: an open level is found again.
use bsfs.Base.{
  fun_ext, ℕ, zero, suc, ◌+◌, ◌≤◌, ◌<◌, ◌≡◌, refl, sym, ap, subst, ◌∙◌, arith, Bool, true, false,
  not, ◌==◌, Text, text_eq, text_eq_refl, text_eq→eq, Option, none, some, Option-cases, Bool-cases,
  inl, inr, ◌⊎◌, Outcome, ok, err, Outcome-cases, >>=-ok_inv, length,
}
use bsfs.Bft.{bft_read_table}
use bsfs.Cluster.{bft_size, fs_compute_bitmap_size_from_disk, fs_read_bitmap}
use bsfs.Keytab.{keytab_lookup}
use bsfs.Oft.{bs_oft_init}
use bsfs.Stego.{stego_user_level_count}
use bsfs.Bsfs.Levels.{
  Level, Fs, System, Search, found, searched, search_loop, set_level, open_free, after_search,
  bs_level_get, level_open, level_init, allocated, checked,
}

-- The place holds no level of the password.
abbrev pub misses : Text → Option Level → Bool
misses pass none = true
misses pass (some level) = not (text_eq level.pass pass)

-- What a search through `left` places from `i` on finds.
abbrev pub SearchResult : (ℕ → Option Level) → Text → ℕ → ℕ → Option ℕ → Search → Type 0
SearchResult levels pass left i free_idx (found at level) =
    (i ≤ at)
    × (at < i + left)
    × (levels at ≡ some level)
    × (text_eq level.pass pass ≡ true)
    × ((j : ℕ) → i ≤ j → j < at → misses pass (levels j) ≡ true)
SearchResult levels pass left i free_idx (searched last) =
    ((j : ℕ) → i ≤ j → j < i + left → misses pass (levels j) ≡ true)
    × ((k : ℕ)
        → last ≡ some k
        → (free_idx ≡ some k) ⊎ ((i ≤ k) × (k < i + left) × (levels k ≡ none)))

module _ (levels : ℕ → Option Level) (pass : Text) where
  -- A place that misses stands before those of the search.
  SearchResult-next :
      (left i : ℕ) (free_idx next : Option ℕ) (r : Search)
      → misses pass (levels i) ≡ true
      → ((k : ℕ) → next ≡ some k → (free_idx ≡ some k) ⊎ ((k ≡ i) × (levels i ≡ none)))
      → SearchResult levels pass left (i + 1) next r
      → SearchResult levels pass (suc left) i free_idx r
  SearchResult-next left i free_idx next (found at level) miss keep (lo, hi, here, match, before) =
      (
        omega arith,
        omega arith,
        here,
        match,
        λ j from below. elim (Bool-cases (i == j)) [
          | inl same ↦
              let e : i ≡ j = ground arith in ap (λ k. misses pass (levels k)) (sym e) ∙ miss
          | inr other ↦ before j (ground arith) below
        ],
      )
  SearchResult-next left i free_idx next (searched last) miss keep (all, free) = (
    λ j from below. elim (Bool-cases (i == j)) [
      | inl same ↦ let e : i ≡ j = ground arith in ap (λ k. misses pass (levels k)) (sym e) ∙ miss
      | inr other ↦ all j (ground arith) (omega arith)
    ],
    λ k e. elim (free k e) [
      | inr (lo, hi, unused) ↦ inr (omega arith, omega arith, unused)
      | inl kept ↦ elim (keep k kept) [
        | inl old ↦ inl old
        | inr (same, unused) ↦ inr (omega arith, omega arith, ap levels same ∙ unused)
      ]
    ],
  )

  pub search_loop-SearchResult :
      (left i : ℕ) (free_idx : Option ℕ)
      → SearchResult levels pass left i free_idx (search_loop left i levels pass free_idx)
  unfolding search_loop
  search_loop-SearchResult zero i free_idx = (λ j from below. absurd (omega arith), λ k e. inl e)
  search_loop-SearchResult (suc left) i free_idx = elim (Option-cases (levels i)) [
    | inl unused ↦
        rw (search_loop, unused)
          (SearchResult-next left i free_idx (some i) _ (rw unused refl) (λ k e. inr (cc, unused))
            (search_loop-SearchResult left (i + 1) (some i)))
    | inr (level, used) ↦ elim (Bool-cases (text_eq level.pass pass)) [
      | inl match ↦
          rw (search_loop, used, match)
            (omega arith, omega arith, used, match, λ j from below. absurd (omega arith))
      | inr other ↦
          rw (search_loop, used, other)
            (SearchResult-next left i free_idx free_idx _ (rw (used, other) refl) (λ k e. inl e)
              (search_loop-SearchResult left (i + 1) free_idx))
    ]
  ]

  -- A place behind places that miss is found.
  search_loop-found :
      (left i at : ℕ) (free_idx : Option ℕ) (level : Level)
      → i ≤ at
      → at < i + left
      → levels at ≡ some level
      → text_eq level.pass pass ≡ true
      → ((j : ℕ) → i ≤ j → j < at → misses pass (levels j) ≡ true)
      → search_loop left i levels pass free_idx ≡ found at level
  unfolding search_loop
  search_loop-found zero i at free_idx level lo hi used match before = absurd (omega arith)
  search_loop-found (suc left) i at free_idx level lo hi used match before =
      elim (Bool-cases (i == at)) [
        | inl here ↦
            let e : i ≡ at = ground arith in
            let used' : levels i ≡ some level = ap levels e ∙ used in
            rw (search_loop, used', match) (ap (λ k. found k level) e)
        | inr there ↦
            let next = λ (free : Option ℕ).
              search_loop-found left (i + 1) at free level (ground arith) (omega arith) used match
                (λ j from below. before j (omega arith) below) in
            elim (Option-cases (levels i)) [
              | inl unused ↦ rw (search_loop, unused) (next (some i))
              | inr (other, taken) ↦
                  let miss = before i (omega arith) (ground arith) in
                  let m : text_eq other.pass pass ≡ false =
                    let q = rw taken at miss in ground (arith, q) in
                  rw (search_loop, taken, m) (next free_idx)
            ]
      ]

-- A level that is opened has the password that it is opened with.
pub level_open-pass :
    (system : System) (fs : Fs) (pass : Text) (level : Level)
    → level_open system fs pass ≡ ok level
    → level.pass ≡ pass
unfolding level_open level_init
level_open-pass system fs pass level h =
    let (key, _, h₁) = >>=-ok_inv (keytab_lookup system.cipher system.auth fs.disk pass) _ h in
    let (_, _, h₂) = >>=-ok_inv (allocated (system.host.malloc bft_size)) _ h₁ in
    let (bft, _, h₃) = >>=-ok_inv (bft_read_table system.cipher system.host key fs.disk) _ h₂ in
    let (_, _, h₄) =
      >>=-ok_inv (allocated (system.host.malloc (fs_compute_bitmap_size_from_disk fs.disk))) _ h₃ in
    let (bitmap, _, h₅) = >>=-ok_inv (fs_read_bitmap system.cipher system.host key fs.disk) _ h₄ in
    let (open_files, _, h₆) = >>=-ok_inv (bs_oft_init system.calloc system.mutex_init) _ h₅ in
    let (metadata_lock, _, h₇) = >>=-ok_inv (checked system.rwlock_init) _ h₆ in
    let (_, _, h₈) = >>=-ok_inv (allocated (system.host.malloc (length pass + 1))) _ h₇ in
    sym (ap (λ (o : Outcome Level). pass_of o) h₈)
  where
    pass_of : Outcome Level → Text
    pass_of (ok l) = l.pass
    pass_of (err e) = pass

-- The place of a level of the password, before which no other stands.
pub record IsFirst (fs : Fs) (pass : Text) (at : ℕ) (level : Level) : Type 0 where
  pub in_table : at < stego_user_level_count
  pub here : fs.levels at ≡ some level
  pub has_pass : level.pass ≡ pass
  pub before : (j : ℕ) → j < at → misses pass (fs.levels j) ≡ true

module _ (system : System) (fs : Fs) (pass : Text) where
  after_search-IsFirst :
      (r : Search)
      → SearchResult fs.levels pass stego_user_level_count 0 none r
      → (fs' : Fs) (at : ℕ) (level : Level) → after_search system fs pass r ≡ (fs', ok (at, level))
      → IsFirst fs' pass at level
  unfolding after_search open_free set_level
  after_search-IsFirst (found place got) (lo, hi, used, match, before) fs' at level e =
      let same_fs : fs ≡ fs' = cc in
      let same_at : place ≡ at = cc in
      let same : got ≡ level = cc in
      subst (λ x. IsFirst x pass at level) same_fs
        (subst (λ x. IsFirst fs pass x level) same_at
          (subst (λ x. IsFirst fs pass place x) same
            (record {
              in_table = omega arith;
              here = used;
              has_pass = text_eq→eq got.pass pass match;
              before = λ j lt. before j (omega arith) lt;
            })))
  after_search-IsFirst (searched none) h fs' at level e = cc
  after_search-IsFirst (searched (some k)) (all, free) fs' at level e =
      elim (Outcome-cases (level_open system fs pass)) [
        | inr (cause, fails) ↦ let wrong = rw (after_search, open_free, fails) at e in cc
        | inl (got, opens) ↦
            let q = rw (after_search, open_free, opens) at e in
            let same_fs : set_level fs k (some got) ≡ fs' = cc in
            let same_at : k ≡ at = cc in
            let same : got ≡ level = cc in
            let is_pass : got.pass ≡ pass = level_open-pass system fs pass got opens in
            elim (free k refl) [
              | inl wrong ↦ cc
              | inr (lo, hi, unused) ↦
                  subst (λ x. IsFirst x pass at level) same_fs
                    (subst (λ x. IsFirst (set_level fs k (some got)) pass x level) same_at
                      (subst (λ x. IsFirst (set_level fs k (some got)) pass k x) same
                        (record {
                          in_table = hi;
                          here = ground arith;
                          has_pass = is_pass;
                          before = λ j lt.
                              let q = all j (omega arith) (omega arith) in ground (arith, q);
                        })))
            ]
      ]

  -- bs_level_get gives the first level of the password.
  pub bs_level_get-IsFirst :
      (fs' : Fs) (at : ℕ) (level : Level)
      → bs_level_get system fs pass ≡ (fs', ok (at, level))
      → IsFirst fs' pass at level
  unfolding bs_level_get
  bs_level_get-IsFirst fs' at level e =
      after_search-IsFirst _ (search_loop-SearchResult fs.levels pass 16 0 none) fs' at level e

  -- The first level of the password is found, whatever was done to it.
  pub bs_level_get-found :
      (at : ℕ) (level changed : Level)
      → IsFirst fs pass at level
      → changed.pass ≡ pass
      → bs_level_get system (set_level fs at (some changed)) pass
        ≡ (set_level fs at (some changed), ok (at, changed))
  unfolding bs_level_get after_search set_level
  bs_level_get-found at level changed first same =
      let levels = (set_level fs at (some changed)).levels in
      let finds =
        search_loop-found levels pass 16 0 at none changed (omega arith)
          (let lt = first.in_table in omega (arith, lt)) (ground arith)
          (ap (λ s. text_eq s pass) same ∙ text_eq_refl pass)
          (λ j lo lt. let b = first.before j lt in ground (arith, b)) in
      rw (search_loop, finds) refl

-- Where bs_level_get gives a level of a place, be it found or newly opened, the next bs_level_get
-- of the same password gives the same level of the same place, and leaves the file system as it is.
pub bs_level_get-again :
    (system : System) (fs fs' : Fs) (pass : Text) (at : ℕ) (level : Level)
    → bs_level_get system fs pass ≡ (fs', ok (at, level))
    → bs_level_get system fs' pass ≡ (fs', ok (at, level))
unfolding set_level
bs_level_get-again system fs fs' pass at level h =
    let first = bs_level_get-IsFirst system fs pass fs' at level h in
    let same : set_level fs' at (some level) ≡ fs' =
      ap (λ (f : ℕ → Option Level). record fs' { levels = f })
        (fun_ext (λ i. elim (Bool-cases (i == at)) [
          | inl at_it ↦ let e : at ≡ i = ground arith in rw at_it (sym first.here ∙ ap fs'.levels e)
          | inr other ↦ rw other refl
        ])) in
    subst (λ f. bs_level_get system f pass ≡ (f, ok (at, level))) same
      (bs_level_get-found system fs' pass at level level first first.has_pass)
