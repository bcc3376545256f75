-- ===== src/Bsfs/Path.antt =====
-- The paths of src/bsfs.c: `/directory/name`, where the directory is a password. A slash is the
-- byte 47.
use bsfs.Base.{
  ℕ, ◌+◌, ◌<◌, ◌≡◌, ◌≢◌, refl, ap, ap₂, subst, ◌∙◌, arith, true, false, ◌==◌, if◌then◌else◌, Text,
  length, [], ◌∷◌, ◌++◌, Option, none, some, Bool-cases, Option-cases, inl, inr, Outcome, ok, err,
  enotdir, enotsup, enomem,
}
use bsfs.Stego.{Host}

abbrev slash : ℕ
slash = 47

-- The path without a slash in front.
abbrev pub strip : Text → Text
strip [] = []
strip (x ∷ xs) = if x == slash then xs else x ∷ xs

-- What stands before the first slash, or all, and what stands behind it, if there is one: the
-- results of `strchr`.
unfoldable pub until_slash : Text → Text
until_slash [] = []
until_slash (x ∷ xs) = if x == slash then [] else x ∷ until_slash xs

unfoldable pub after_slash : Text → Option Text
after_slash [] = none
after_slash (x ∷ xs) = if x == slash then some xs else after_slash xs

-- `strdup` and `strndup`
abbrev duplicate : Host → Text → Outcome Text
duplicate host s = if host.malloc (length s + 1) then ok s else err enomem

unfoldable pub dirname_of : Host → Text → Option Text → Outcome Text
dirname_of host path none = duplicate host path
dirname_of host path (some []) = duplicate host (until_slash path)
dirname_of host path (some (x ∷ xs)) = err enotdir

unfoldable pub bs_get_dirname : Host → Text → Outcome Text
unfolding dirname_of
bs_get_dirname host path = dirname_of host (strip path) (after_slash (strip path))

-- What is done with the part behind the first slash.
unfoldable pub split_at : Host → Text → Option Text → Outcome (Text × Text)
split_at host pass none = err enotsup
split_at host pass (some []) = err enotsup
split_at host pass (some (x ∷ xs)) = elim (after_slash (x ∷ xs)) [
  | some deeper ↦ err enotsup
  | none ↦
      if host.malloc (length pass + 1)
      then (if host.malloc (length (x ∷ xs) + 1) then ok (pass, x ∷ xs) else err enomem)
      else err enomem
]

unfoldable pub bs_split_path : Host → Text → Outcome (Text × Text)
unfolding split_at
bs_split_path host path = split_at host (until_slash (strip path)) (after_slash (strip path))

-- A part of a path has no slash in it.
abbrev pub IsPart : Text → Type 0
IsPart [] = Unit {0}
IsPart (x ∷ xs) = (x ≢ slash) × IsPart xs

IsPart-after_slash : (s : Text) → after_slash s ≡ none → IsPart s
unfolding after_slash
IsPart-after_slash [] h = tt
IsPart-after_slash (x ∷ xs) h = elim (Bool-cases (x == slash)) [
  | inl here ↦ let wrong = rw here at h in cc
  | inr there ↦ (ground arith, IsPart-after_slash xs (rw there at h))
]

after_slash-part : (s : Text) → IsPart s → after_slash s ≡ none
unfolding after_slash
after_slash-part [] h = refl
after_slash-part (x ∷ xs) h =
    let no = h.0 in let n : (x == slash) ≡ false = ground arith in rw n (after_slash-part xs h.1)

after_slash-join :
    (s rest : Text)
    → after_slash s ≡ some rest
    → (s ≡ until_slash s ++ slash ∷ rest) × IsPart (until_slash s)
unfolding after_slash until_slash
after_slash-join [] rest h = cc
after_slash-join (x ∷ xs) rest h = elim (Bool-cases (x == slash)) [
  | inl here ↦
      let e : x ≡ slash = ground arith in
      let h' = rw here at h in let q : xs ≡ rest = cc h' in rw here (ap₂ ◌∷◌ e q, tt)
  | inr there ↦
      let no : x ≢ slash = ground arith in
      let (joined, part) = after_slash-join xs rest (rw there at h) in
      rw there (ap (◌∷◌ x) joined, (no, part))
]

until_slash-join :
    (pass name : Text)
    → IsPart pass
    → (until_slash (pass ++ slash ∷ name) ≡ pass) × (after_slash (pass ++ slash ∷ name) ≡ some name)
unfolding after_slash until_slash
until_slash-join [] name h = (refl, refl)
until_slash-join (x ∷ xs) name h =
    let no = h.0 in
    let n : (x == slash) ≡ false = ground arith in
    let (before, behind) = until_slash-join xs name h.1 in rw n (ap (◌∷◌ x) before, behind)

split_at-ok :
    (host : Host) (before : Text) (o : Option Text) (pass name : Text)
    → split_at host before o ≡ ok (pass, name)
    → (o ≡ some name) × (before ≡ pass) × IsPart name × (0 < length name)
unfolding split_at
split_at-ok host before none pass name h = cc
split_at-ok host before (some []) pass name h = cc
split_at-ok host before (some (x ∷ xs)) pass name h = elim (Option-cases (after_slash (x ∷ xs))) [
  | inr (deeper, e) ↦ let wrong = rw (split_at, e) at h in cc
  | inl e ↦ elim (Bool-cases (host.malloc (length before + 1))) [
    | inr full ↦ let wrong = rw (split_at, e, full) at h in cc
    | inl memory ↦ elim (Bool-cases (host.malloc (length (x ∷ xs) + 1))) [
      | inr full ↦ let wrong = rw (split_at, e, memory, full) at h in cc
      | inl more ↦
          let positive : 0 < length (x ∷ xs) = omega arith in
          let both : ok (before, x ∷ xs) ≡ ok (pass, name) = rw (split_at, e, memory, more) at h in
          let same_name : x ∷ xs ≡ name = cc both in
          let same_pass : before ≡ pass = cc both in
          (
            ap some same_name,
            same_pass,
            subst IsPart same_name (IsPart-after_slash (x ∷ xs) e),
            subst (λ n. 0 < length n) same_name positive,
          )
    ]
  ]
]

-- Where bs_split_path succeeds, the path without a slash in front is the directory, a slash and the
-- name; neither has a slash in it, and the name is not empty.
pub bs_split_path-ok :
    (host : Host) (path pass name : Text)
    → bs_split_path host path ≡ ok (pass, name)
    → (strip path ≡ pass ++ slash ∷ name) × IsPart pass × IsPart name × (0 < length name)
unfolding bs_split_path
bs_split_path-ok host path pass name h =
    let (behind, before, part, some_name) =
      split_at-ok host (until_slash (strip path)) (after_slash (strip path)) pass name h in
    let (joined, pass_part) = after_slash-join (strip path) name behind in
    (joined ∙ ap (λ p. p ++ slash ∷ name) before, subst IsPart before pass_part, part, some_name)

-- bs_split_path takes apart a slash, a directory, a slash and a name, where neither part has a
-- slash in it, the name is not empty, and there is memory for both.
pub bs_split_path-join :
    (host : Host) (pass name : Text)
    → IsPart pass
    → IsPart name
    → 0 < length name
    → host.malloc (length pass + 1) ≡ true
    → host.malloc (length name + 1) ≡ true
    → bs_split_path host (slash ∷ pass ++ slash ∷ name) ≡ ok (pass, name)
unfolding bs_split_path split_at
bs_split_path-join host pass [] is_pass is_name some_name memory more = absurd (omega arith)
bs_split_path-join host pass (x ∷ xs) is_pass is_name some_name memory more =
    let (before, behind) = until_slash-join pass (x ∷ xs) is_pass in
    let flat = after_slash-part (x ∷ xs) is_name in
    rw (bs_split_path, before, behind) (rw (split_at, flat, memory, more) refl)
