-- ===== src/Base/Strings.antt =====
-- C strings as the lists of their bytes, without the terminating null.
use Prim.Native.Nat.{ℕ, zero, suc, ◌+◌, ◌≤◌, ◌<◌}
use mathlib.Core.Path.{◌≡◌, refl, ap, ap₂, ◌∙◌}
use mathlib.Core.Bool.{Bool, true, false, ◌&&◌}
use mathlib.Core.List.{List, [], ◌∷◌}
use native.Mathlib.Omega.{arith}
use bsfs.Base.Logic.{◌==◌, if◌then◌else◌}
use bsfs.Base.Memory.{Bytes, memcpy, in_range}

abbrev pub Text : Type 0
Text = List ℕ

-- `strlen`
abbrev pub length : Text → ℕ
length [] = 0
length (x ∷ xs) = suc (length xs)

-- The byte at an index of the string's memory: behind its end stand nulls as far as they are read.
abbrev pub char_at : Text → ℕ → ℕ
char_at [] i = 0
char_at (x ∷ xs) zero = x
char_at (x ∷ xs) (suc i) = char_at xs i

-- A string has no null in it.
abbrev pub IsText : Text → Type 0
IsText [] = Unit {0}
IsText (x ∷ xs) = (0 < x) × (x < 256) × IsText xs

-- The string at `buf + off`, whose null is among the first `n` bytes.
unfoldable pub c_string : ℕ → Bytes → ℕ → Text
c_string zero buf off = []
c_string (suc n) buf off = if buf off == 0 then [] else buf off ∷ c_string n buf (off + 1)

-- `strcmp (a, b) == 0`
unfoldable pub text_eq : Text → Text → Bool
text_eq [] [] = true
text_eq [] (y ∷ ys) = false
text_eq (x ∷ xs) [] = false
text_eq (x ∷ xs) (y ∷ ys) = x == y && text_eq xs ys

-- `strncpy (dst + d, s, n)`: the string and nulls up to `n` bytes.
abbrev pub strncpy : Bytes → ℕ → Text → ℕ → Bytes
strncpy dst d s n = memcpy dst d (char_at s) n

pub text_eq→eq : (a b : Text) → text_eq a b ≡ true → a ≡ b
unfolding text_eq
text_eq→eq [] [] h = refl
text_eq→eq [] (y ∷ ys) h = cc
text_eq→eq (x ∷ xs) [] h = cc
text_eq→eq (x ∷ xs) (y ∷ ys) h = ap₂ ◌∷◌ (ground arith) (text_eq→eq xs ys (ground arith))

pub text_eq_refl : (a : Text) → text_eq a a ≡ true
unfolding text_eq
text_eq_refl [] = refl
text_eq_refl (x ∷ xs) = ground (arith, text_eq_refl xs)

-- A string is read back from memory that holds it.
pub c_string-char_at :
    (n : ℕ) (s : Text) (buf : Bytes) (off : ℕ)
    → IsText s
    → length s < n
    → ((i : ℕ) → i < n → buf (off + i) ≡ char_at s i)
    → c_string n buf off ≡ s
unfolding c_string
c_string-char_at zero s buf off t h e = absurd (omega arith)
c_string-char_at (suc n) [] buf off t h e =
    let here : buf off ≡ 0 = ap buf (omega arith) ∙ e 0 (omega arith) in rw here
c_string-char_at (suc n) (x ∷ xs) buf off t h e =
    let here : buf off ≡ x = ap buf (omega arith) ∙ e 0 (omega arith) in
    let rest =
      c_string-char_at n xs buf (off + 1) t.2 (omega arith)
        (λ i p. ap buf (omega arith) ∙ e (suc i) (omega arith)) in
    ground (arith, t.0)

pub c_string_congr :
    (n : ℕ) (x y : Bytes) (off : ℕ)
    → ((a : ℕ) → in_range off n a ≡ true → x a ≡ y a)
    → c_string n x off ≡ c_string n y off
unfolding c_string
c_string_congr zero x y off h = refl
c_string_congr (suc n) x y off h =
    ground (arith, h off, c_string_congr n x y (off + 1) (λ a p. h a (ground arith)))

-- Behind its end a string shows its null.
pub char_at-length : (s : Text) (i : ℕ) → length s ≤ i → char_at s i ≡ 0
char_at-length [] i h = refl
char_at-length (x ∷ xs) zero h = absurd (omega arith)
char_at-length (x ∷ xs) (suc i) h = char_at-length xs i (omega arith)
