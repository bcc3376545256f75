-- ===== src/Base/Xor.antt =====
-- `^` and `&` of C on unsigned words: the laws that the libraries leave to their users, from the
-- recursion on binary digits that the native operations stand for.
use Prim.Native.Nat.{
  ℕ, zero, suc, ◌+◌, ◌*◌, ◌/◌, ◌%◌, ◌^◌, ◌≤◌, ◌<◌, min, bit_and, bit_xor, digits, differ, bitwise,
  bit_and-bitwise, bit_xor-bitwise,
}
use mathlib.Core.Path.{◌≡◌, refl, sym, ap, ◌∙◌}
use native.Mathlib.Nat.{le_refl, pow-suc}
use native.Mathlib.Omega.{arith}

module _ (base : ℕ → ℕ) (op : ℕ → ℕ → ℕ) where
  digits_fuel : (k x y : ℕ) → x ≤ k → (m : ℕ) → x ≤ m → digits base op k x y ≡ digits base op m x y
  digits_fuel zero zero y h zero h' = refl
  digits_fuel zero zero y h (suc m) h' = refl
  digits_fuel zero (suc x) y h m h' = absurd (omega arith)
  digits_fuel (suc k) zero y h zero h' = refl
  digits_fuel (suc k) zero y h (suc m) h' = refl
  digits_fuel (suc k) (suc x) y h zero h' = absurd (omega arith)
  digits_fuel (suc k) (suc x) y h (suc m) h' =
      rw (digits_fuel k (suc x / 2) (y / 2) (omega arith) m (omega arith))

  bitwise_step :
      (x y : ℕ)
      → bitwise base op (suc x) y ≡ op (suc x % 2) (y % 2) + bitwise base op (suc x / 2) (y / 2) * 2
  bitwise_step x y =
      let rest = digits_fuel x (suc x / 2) (y / 2) (omega arith) (suc x / 2) (le_refl _) in
      omega arith

-- The difference of two digits is their sum modulo 2.
differ_digits : (x y : ℕ) → x < 2 → y < 2 → differ x y ≡ (x + y) % 2
differ_digits zero y p q = omega arith
differ_digits (suc zero) zero p q = refl
differ_digits (suc zero) (suc zero) p q = refl
differ_digits (suc zero) (suc (suc y)) p q = absurd (omega arith)
differ_digits (suc (suc x)) y p q = absurd (omega arith)

pub zero-bit_xor : (b : ℕ) → bit_xor 0 b ≡ b
zero-bit_xor b = bit_xor-bitwise 0 b

pub zero-bit_and : (b : ℕ) → bit_and 0 b ≡ 0
zero-bit_and b = bit_and-bitwise 0 b

-- The lowest binary digit of `^` and of `&`, and the others.
pub bit_xor_step : (x y : ℕ) → bit_xor x y ≡ bit_xor (x / 2) (y / 2) * 2 + (x % 2 + y % 2) % 2
bit_xor_step zero y = omega (arith, zero-bit_xor (y / 2), zero-bit_xor y)
bit_xor_step (suc x) y =
    let low = differ_digits (suc x % 2) (y % 2) (omega arith) (omega arith) in
    let step = bitwise_step (λ rest. rest) differ x y in
    omega (arith, bit_xor-bitwise (suc x / 2) (y / 2), bit_xor-bitwise (suc x) y)

pub bit_and_step : (x y : ℕ) → bit_and x y ≡ min (x % 2) (y % 2) + bit_and (x / 2) (y / 2) * 2
bit_and_step zero y = omega (arith, zero-bit_and (y / 2), zero-bit_and y)
bit_and_step (suc x) y =
    let step = bitwise_step (λ rest. 0) min x y in
    omega (arith, bit_and-bitwise (suc x / 2) (y / 2), bit_and-bitwise (suc x) y)

xor_assoc_below :
    (n a b c : ℕ) → a ≤ n → b ≤ n → c ≤ n → bit_xor (bit_xor a b) c ≡ bit_xor a (bit_xor b c)
xor_assoc_below zero zero zero zero p q r = refl
xor_assoc_below zero (suc a) b c p q r = absurd (omega arith)
xor_assoc_below zero zero (suc b) c p q r = absurd (omega arith)
xor_assoc_below zero zero zero (suc c) p q r = absurd (omega arith)
xor_assoc_below (suc n) a b c p q r =
    let ab = bit_xor a b in
    let bc = bit_xor b c in
    let sab = bit_xor_step a b in
    let sbc = bit_xor_step b c in
    let hab : ab / 2 ≡ bit_xor (a / 2) (b / 2) = omega arith in
    let hbc : bc / 2 ≡ bit_xor (b / 2) (c / 2) = omega arith in
    let lab : ab % 2 ≡ (a % 2 + b % 2) % 2 = omega arith in
    let lbc : bc % 2 ≡ (b % 2 + c % 2) % 2 = omega arith in
    let left : bit_xor ab c ≡ bit_xor (bit_xor (a / 2) (b / 2)) (c / 2) * 2 + (ab % 2 + c % 2) % 2 =
      rw (bit_xor_step ab c, hab) in
    let right : bit_xor a bc
        ≡ bit_xor (a / 2) (bit_xor (b / 2) (c / 2)) * 2 + (a % 2 + bc % 2) % 2 =
      rw (bit_xor_step a bc, hbc) in
    let ih = xor_assoc_below n (a / 2) (b / 2) (c / 2) (omega arith) (omega arith) (omega arith) in
    omega arith

pub xor_assoc : (a b c : ℕ) → bit_xor (bit_xor a b) c ≡ bit_xor a (bit_xor b c)
xor_assoc a b c = xor_assoc_below (a + b + c) a b c (omega arith) (omega arith) (omega arith)

xor_comm_below : (n a b : ℕ) → a ≤ n → b ≤ n → bit_xor a b ≡ bit_xor b a
xor_comm_below zero zero zero p q = refl
xor_comm_below zero (suc a) b p q = absurd (omega arith)
xor_comm_below zero zero (suc b) p q = absurd (omega arith)
xor_comm_below (suc n) a b p q = omega (
  arith,
  bit_xor_step a b,
  bit_xor_step b a,
  xor_comm_below n (a / 2) (b / 2) (omega arith) (omega arith),
)

pub xor_comm : (a b : ℕ) → bit_xor a b ≡ bit_xor b a
xor_comm a b = xor_comm_below (a + b) a b (omega arith) (omega arith)

pub xor-zero : (a : ℕ) → bit_xor a 0 ≡ a
xor-zero a = xor_comm a 0 ∙ zero-bit_xor a

xor_self_below : (n a : ℕ) → a ≤ n → bit_xor a a ≡ 0
xor_self_below zero zero p = refl
xor_self_below zero (suc a) p = absurd (omega arith)
xor_self_below (suc n) a p = omega (arith, bit_xor_step a a, xor_self_below n (a / 2) (omega arith))

pub xor_self : (a : ℕ) → bit_xor a a ≡ 0
xor_self a = xor_self_below a a (le_refl a)

pub xor_cancel : (a b : ℕ) → bit_xor a (bit_xor a b) ≡ b
xor_cancel a b = sym (xor_assoc a a b) ∙ (ap (λ t. bit_xor t b) (xor_self a) ∙ zero-bit_xor b)

pub xor_swap : (a b c : ℕ) → bit_xor (bit_xor a b) c ≡ bit_xor (bit_xor a c) b
xor_swap a b c = xor_assoc a b c ∙ (ap (bit_xor a) (xor_comm b c) ∙ sym (xor_assoc a c b))

-- Words of `k` bits are closed under `^`.
xor-lt_pow : (k a b : ℕ) → a < 2 ^ k → b < 2 ^ k → bit_xor a b < 2 ^ k
xor-lt_pow zero a b p q =
    let ea : a ≡ 0 = omega arith in let eb : b ≡ 0 = omega arith in rw (ea, eb) (omega arith)
xor-lt_pow (suc k) a b p q =
    let e = pow-suc 2 k in
    omega (arith, bit_xor_step a b, xor-lt_pow k (a / 2) (b / 2) (omega arith) (omega arith))

pub xor-lt : (a b : ℕ) → a < 256 → b < 256 → bit_xor a b < 256
xor-lt a b p q = xor-lt_pow 8 a b p q
