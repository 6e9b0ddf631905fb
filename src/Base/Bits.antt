-- ===== src/Base/Bits.antt =====
-- `|` of fields that do not overlap and `&` with a low mask, as arithmetic.
use Prim.Native.Nat.{ℕ, zero, suc, ◌+◌, ◌*◌, ◌/◌, ◌%◌, ◌^◌, ◌≤◌, ◌<◌, min, max}
use Prim.Native.Nat.{bit_and, bit_or, digits, bit_and-bitwise, bit_or-bitwise}
use mathlib.Core.Path.{◌≡◌, refl, ap}
use native.Mathlib.Nat.{pow-suc}
use native.Mathlib.Omega.{arith}

-- The digit recursion does not depend on fuel that is enough.
module _ (rest : ℕ → ℕ) (digit : ℕ → ℕ → ℕ) where
  digits-enough : (f g a b : ℕ) → a ≤ f → a ≤ g → digits rest digit f a b ≡ digits rest digit g a b
  digits-enough zero zero a b p q = refl
  digits-enough zero (suc g) zero b p q = refl
  digits-enough zero (suc g) (suc a) b p q = absurd (omega arith)
  digits-enough (suc f) zero zero b p q = refl
  digits-enough (suc f) zero (suc a) b p q = absurd (omega arith)
  digits-enough (suc f) (suc g) zero b p q = refl
  digits-enough (suc f) (suc g) (suc a) b p q =
      omega (arith, digits-enough f g (suc a / 2) (b / 2) (omega arith) (omega arith))

or-digit : (a b : ℕ) → bit_or a b ≡ bit_or (a / 2) (b / 2) * 2 + max (a % 2) (b % 2)
or-digit zero b = omega (arith, bit_or-bitwise 0 b, bit_or-bitwise 0 (b / 2))
or-digit (suc a) b = omega (
  arith,
  bit_or-bitwise (suc a) b,
  bit_or-bitwise (suc a / 2) (b / 2),
  digits-enough (λ y. y) max a (suc a / 2) (suc a / 2) (b / 2) (omega arith) (omega arith),
)

and-digit : (a b : ℕ) → bit_and a b ≡ bit_and (a / 2) (b / 2) * 2 + min (a % 2) (b % 2)
and-digit zero b = omega (arith, bit_and-bitwise 0 b, bit_and-bitwise 0 (b / 2))
and-digit (suc a) b = omega (
  arith,
  bit_and-bitwise (suc a) b,
  bit_and-bitwise (suc a / 2) (b / 2),
  digits-enough (λ y. 0) min a (suc a / 2) (suc a / 2) (b / 2) (omega arith) (omega arith),
)

or_zero_below : (n a : ℕ) → a ≤ n → bit_or a 0 ≡ a
or_zero_below n zero h = refl
or_zero_below zero (suc a) h = absurd (omega arith)
or_zero_below (suc n) (suc a) h =
    omega (arith, or-digit (suc a) 0, or_zero_below n (suc a / 2) (omega arith))

and_zero_below : (n a : ℕ) → a ≤ n → bit_and a 0 ≡ 0
and_zero_below n zero h = refl
and_zero_below zero (suc a) h = absurd (omega arith)
and_zero_below (suc n) (suc a) h =
    omega (arith, and-digit (suc a) 0, and_zero_below n (suc a / 2) (omega arith))

pub zero-or : (b : ℕ) → bit_or 0 b ≡ b
zero-or b = bit_or-bitwise 0 b

pub or-zero : (a : ℕ) → bit_or a 0 ≡ a
or-zero a = or_zero_below a a (omega arith)

double-field : (q k : ℕ) → q * 2 ^ suc k ≡ (q * 2 ^ k) * 2
double-field q k = omega (arith, ap (λ (t : ℕ). q * t) (pow-suc 2 k))

-- A high field and a low field of `k` bits are joined by `|` as by `+`.
pub or-disjoint : (k q r : ℕ) → r < 2 ^ k → bit_or (q * 2 ^ k) r ≡ q * 2 ^ k + r
or-disjoint zero q r h = ground (arith, or-zero q)
or-disjoint (suc k) q r h = ground (
  arith,
  or-digit (q * 2 ^ suc k) r,
  double-field q k,
  pow-suc 2 k,
  or-disjoint k q (r / 2) (omega (arith, pow-suc 2 k)),
)

-- Masks of ones are remainders: one digit of the mask at a time.
pub and_one : (a : ℕ) → bit_and a 1 ≡ a % 2
and_one a = omega (arith, and-digit a 1, and_zero_below (a / 2) (a / 2) (omega arith))

and_three : (a : ℕ) → bit_and a 3 ≡ a % 4
and_three a = omega (arith, and-digit a 3, and_one (a / 2))

and_fifteen : (a : ℕ) → bit_and a 15 ≡ a % 16
and_fifteen a = omega (arith, and-digit a 15, and-digit (a / 2) 7, and_three (a / 2 / 2))

pub and_byte : (a : ℕ) → bit_and a 255 ≡ a % 256
and_byte a = omega (
  arith,
  and-digit a 255,
  and-digit (a / 2) 127,
  and-digit (a / 2 / 2) 63,
  and-digit (a / 2 / 2 / 2) 31,
  and_fifteen (a / 2 / 2 / 2 / 2),
)
