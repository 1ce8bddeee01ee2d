-- ===== src/Common/Bits.antt =====
-- Facts about exclusive or at variables, where the native operation is stuck.
use Prim.Native.Nat.{
  ℕ, zero, suc, ◌+◌, ◌-◌, ◌*◌, ◌/◌, ◌%◌, ◌^◌, ◌≤◌, ◌<◌, bit_xor, digits, differ, bit_xor-bitwise,
}
use mathlib.Core.Path.{◌≡◌, refl, sym, ◌∙◌}
use native.Mathlib.Nat.{le_refl, pow-suc}
use native.Mathlib.Omega.{arith}

abbrev xor_digits : ℕ → ℕ → ℕ → ℕ
xor_digits n a b = digits (λ y. y) differ n a b

xor_digits-zero : (n b : ℕ) → xor_digits n 0 b ≡ b
xor_digits-zero zero b = refl
xor_digits-zero (suc n) b = refl

-- Two numbers of rounds that both cover the first operand give one result.
xor_digits_rounds : (a b n m : ℕ) → a ≤ n → a ≤ m → xor_digits n a b ≡ xor_digits m a b
xor_digits_rounds zero b n m p q = xor_digits-zero n b ∙ sym (xor_digits-zero m b)
xor_digits_rounds (suc a) b zero m p q = absurd (omega arith)
xor_digits_rounds (suc a) b (suc n) zero p q = absurd (omega arith)
xor_digits_rounds (suc a) b (suc n) (suc m) p q =
    let halved = xor_digits_rounds (suc a / 2) (b / 2) n m (omega arith) (omega arith) in rw halved

pub zero-bit_xor : (b : ℕ) → bit_xor 0 b ≡ b
zero-bit_xor b = bit_xor-bitwise 0 b

-- The equation for the lowest digit.
pub bit_xor_step : (a b : ℕ) → bit_xor a b ≡ bit_xor (a / 2) (b / 2) * 2 + differ (a % 2) (b % 2)
bit_xor_step zero b = omega (arith, zero-bit_xor b, zero-bit_xor (b / 2))
bit_xor_step (suc a) b =
    simp bit_xor-bitwise
      (omega (arith, xor_digits_rounds (suc a / 2) (b / 2) a (suc a / 2) (omega arith) (le_refl _)))

-- What the lowest digit of the result can be.
digit_cases : (r s : ℕ) → r < 2 → s < 2 → differ r s ≡ (r + s) % 2
digit_cases zero zero p q = refl
digit_cases zero (suc zero) p q = refl
digit_cases (suc zero) zero p q = refl
digit_cases (suc zero) (suc zero) p q = refl
digit_cases zero (suc (suc s)) p q = absurd (omega arith)
digit_cases (suc zero) (suc (suc s)) p q = absurd (omega arith)
digit_cases (suc (suc r)) s p q = absurd (omega arith)

pub bit_xor_lowest : (a b : ℕ) → bit_xor a b ≡ bit_xor (a / 2) (b / 2) * 2 + (a % 2 + b % 2) % 2
bit_xor_lowest a b =
    omega (arith, bit_xor_step a b, digit_cases (a % 2) (b % 2) (omega arith) (omega arith))

eq_of_bit_xor_fuel : (n a b : ℕ) → a ≤ n → bit_xor a b ≡ 0 → a ≡ b
eq_of_bit_xor_fuel n zero b p e = omega (arith, zero-bit_xor b)
eq_of_bit_xor_fuel zero (suc a) b p e = absurd (omega arith)
eq_of_bit_xor_fuel (suc n) (suc a) b p e =
    let low = bit_xor_lowest (suc a) b in
    let half = eq_of_bit_xor_fuel n (suc a / 2) (b / 2) (omega arith) (omega arith) in omega arith

-- Two numbers with no differing bit are equal.
pub eq_of_bit_xor : (a b : ℕ) → bit_xor a b ≡ 0 → a ≡ b
eq_of_bit_xor a b = eq_of_bit_xor_fuel a a b (le_refl a)

bit_xor_self_fuel : (n a : ℕ) → a ≤ n → bit_xor a a ≡ 0
bit_xor_self_fuel n zero p = zero-bit_xor 0
bit_xor_self_fuel zero (suc a) p = absurd (omega arith)
bit_xor_self_fuel (suc n) (suc a) p =
    omega (arith, bit_xor_lowest (suc a) (suc a), bit_xor_self_fuel n (suc a / 2) (omega arith))

pub bit_xor_self : (a : ℕ) → bit_xor a a ≡ 0
bit_xor_self a = bit_xor_self_fuel a a (le_refl a)

bit_xor-zero_fuel : (n a : ℕ) → a ≤ n → bit_xor a 0 ≡ a
bit_xor-zero_fuel n zero p = zero-bit_xor 0
bit_xor-zero_fuel zero (suc a) p = absurd (omega arith)
bit_xor-zero_fuel (suc n) (suc a) p =
    omega (arith, bit_xor_lowest (suc a) 0, bit_xor-zero_fuel n (suc a / 2) (omega arith))

pub bit_xor-zero : (a : ℕ) → bit_xor a 0 ≡ a
bit_xor-zero a = bit_xor-zero_fuel a a (le_refl a)

-- `pos ^ 1` flips the lowest bit.
pub bit_xor-one : (a : ℕ) → bit_xor a 1 ≡ a / 2 * 2 + (1 - a % 2)
bit_xor-one a = omega (arith, bit_xor_lowest a 1, bit_xor-zero (a / 2))

-- The result has no more digits than the operands.
pub bit_xor-lt : (k a b : ℕ) → a < 2 ^ k → b < 2 ^ k → bit_xor a b < 2 ^ k
bit_xor-lt zero zero b p q = omega (arith, zero-bit_xor b)
bit_xor-lt zero (suc a) b p q = absurd (omega arith)
bit_xor-lt (suc k) a b p q =
    let two = pow-suc 2 k in
    let half = bit_xor-lt k (a / 2) (b / 2) (omega arith) (omega arith) in
    omega (arith, bit_xor_lowest a b)
