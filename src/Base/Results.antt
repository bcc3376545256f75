-- ===== src/Base/Results.antt =====
-- The result of a function that returns 0 or a negative error code: `ok` with what it stores
-- through its out-parameters, or the error.
use mathlib.Core.Path.{◌≡◌, refl}
use mathlib.Core.Logic.{◌⊎◌, inl, inr}

pub data Errno : Type 0 where
  einval enospc eio enomem enoent ebadmsg enametoolong enotsup enotdir eexist ebusy exdev : Errno

pub data Outcome {ℓ} (A : Type ℓ) : Type ℓ where
  ok : A → Outcome A
  err : Errno → Outcome A

-- The next step of a function whose earlier steps return early on an error.
infixl 5 ◌>>=◌
abbrev pub ◌>>=◌ {ℓ κ} : {A : Type ℓ} {B : Type κ} → Outcome A → (A → Outcome B) → Outcome B
err cause >>= next = err cause
ok value >>= next = next value

-- A chain that succeeds has a first step that does.
pub >>=-ok_inv {ℓ κ} :
    {A : Type ℓ} {B : Type κ} (first : Outcome A) (next : A → Outcome B) {result : B}
    → (first >>= next) ≡ ok result
    → (value : A) × (first ≡ ok value) × (next value ≡ ok result)
>>=-ok_inv (err cause) next h = cc
>>=-ok_inv (ok value) next h = (value, refl, h)

pub Outcome-cases {ℓ} :
    {A : Type ℓ} (o : Outcome A) → ((a : A) × (o ≡ ok a)) ⊎ ((e : Errno) × (o ≡ err e))
Outcome-cases (ok a) = inl (a, refl)
Outcome-cases (err e) = inr (e, refl)
