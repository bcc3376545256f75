-- ===== src/Bsfs/Distinct.antt =====
-- The passwords of the open levels of src/bsfs.c are distinct.
use bsfs.Base.{
  ℕ, ◌+◌, ◌≤◌, ◌<◌, ◌≡◌, sym, ap, subst, ◌∙◌, arith, true, ◌==◌, Text, text_eq, text_eq_refl,
  Option, none, some, Bool-cases, Outcome-cases, inl, inr,
}
use bsfs.Bsfs.Levels.{
  Level, Fs, System, Search, found, searched, set_level, open_free, after_search, bs_level_get,
  level_open,
}
use bsfs.Bsfs.Opened.{misses, SearchResult, search_loop-SearchResult, level_open-pass}
use bsfs.Stego.{stego_user_level_count}

-- No two places of the table hold levels of the same password.
abbrev pub IsDistinct : (ℕ → Option Level) → Type 0
IsDistinct levels =
    (i j : ℕ) (a b : Level)
    → i < stego_user_level_count
    → j < stego_user_level_count
    → levels i ≡ some a
    → levels j ≡ some b
    → a.pass ≡ b.pass
    → i ≡ j

-- A level of the password is not missed.
missed :
    (pass : Text) (o : Option Level) (a : Level)
    → o ≡ some a
    → a.pass ≡ pass
    → misses pass o ≡ true
    → ⊥
missed pass o a e same h =
    let h' = subst (λ x. misses pass x ≡ true) e h in
    let match : text_eq a.pass pass ≡ true = ap (λ s. text_eq s pass) same ∙ text_eq_refl pass in
    ground (arith, match, h')

placed-IsDistinct :
    (fs : Fs) (k : ℕ) (level : Level)
    → IsDistinct fs.levels
    → ((j : ℕ) → 0 ≤ j → j < 0 + stego_user_level_count → misses level.pass (fs.levels j) ≡ true)
    → IsDistinct (set_level fs k (some level)).levels
unfolding set_level
placed-IsDistinct fs k level distinct misses_all i j a b hi hj ha hb same =
    elim (Bool-cases (i == k)) [
      | inl new_i ↦ elim (Bool-cases (j == k)) [
        | inl new_j ↦ ground arith
        | inr old_j ↦
            let p : level ≡ a = cc (rw new_i at ha) in
            absurd (
              missed level.pass (fs.levels j) b (rw old_j at hb)
                (sym same ∙ ap (λ (l : Level). l.pass) (sym p))
                (misses_all j (omega arith) (omega arith)))
      ]
      | inr old_i ↦ elim (Bool-cases (j == k)) [
        | inl new_j ↦
            let p : level ≡ b = cc (rw new_j at hb) in
            absurd (
              missed level.pass (fs.levels i) a (rw old_i at ha)
                (same ∙ ap (λ (l : Level). l.pass) (sym p))
                (misses_all i (omega arith) (omega arith)))
        | inr old_j ↦ distinct i j a b hi hj (rw old_i at ha) (rw old_j at hb) same
      ]
    ]

after_search-IsDistinct :
    (system : System) (fs : Fs) (pass : Text) (r : Search)
    → IsDistinct fs.levels
    → SearchResult fs.levels pass stego_user_level_count 0 none r
    → IsDistinct (after_search system fs pass r).0.levels
unfolding after_search open_free
after_search-IsDistinct system fs pass (found at level) distinct h = distinct
after_search-IsDistinct system fs pass (searched none) distinct h = distinct
after_search-IsDistinct system fs pass (searched (some k)) distinct (all, free) =
    elim (Outcome-cases (level_open system fs pass)) [
      | inr (e, fails) ↦ rw (after_search, open_free, fails) distinct
      | inl (level, opens) ↦
          let same = level_open-pass system fs pass level opens in
          rw (after_search, open_free, opens)
            (placed-IsDistinct fs k level distinct
              (λ j lo hi. ap (λ s. misses s (fs.levels j)) same ∙ all j lo hi))
    ]

-- bs_level_get, whether it finds a level, opens one or fails, keeps it that no two places of the
-- table of open levels hold levels of the same password.
pub bs_level_get-IsDistinct :
    (system : System) (fs : Fs) (pass : Text)
    → IsDistinct fs.levels
    → IsDistinct (bs_level_get system fs pass).0.levels
unfolding bs_level_get
bs_level_get-IsDistinct system fs pass distinct =
    after_search-IsDistinct system fs pass _ distinct
      (search_loop-SearchResult fs.levels pass stego_user_level_count 0 none)
