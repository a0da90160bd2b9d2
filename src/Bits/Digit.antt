-- ===== src/Bits/Digit.antt =====
-- One binary digit of `&`, `|` and `^`: what the native operations stand for, with no fuel.
use Prim.Native.Nat.{min, max, digits, bitwise, differ, bit_and, bit_or, bit_xor}
use Prim.Native.Nat.{bit_and-bitwise, bit_or-bitwise, bit_xor-bitwise}
use formlogic_rust.Common.{
  ap, arith, refl, suc, sym, zero, ℕ, ◌%◌, ◌*◌, ◌+◌, ◌-◌, ◌/◌, ◌∙◌, ◌≡◌, ◌≤◌,
}

module _ (base : ℕ → ℕ) (digit : ℕ → ℕ → ℕ) where
  spare_fuel : (f g a b : ℕ) → a ≤ f → a ≤ g → digits base digit f a b ≡ digits base digit g a b
  spare_fuel f g zero b p q = ends f ∙ sym (ends g)
    where
      ends : (h : ℕ) → digits base digit h zero b ≡ base b
      ends zero = refl
      ends (suc h) = refl
  spare_fuel zero g (suc a) b p q = absurd (omega arith)
  spare_fuel (suc f) zero (suc a) b p q = absurd (omega arith)
  spare_fuel (suc f) (suc g) (suc a) b p q =
      ap (λ (t : ℕ). t * 2 + digit (suc a % 2) (b % 2))
        (spare_fuel f g (suc a / 2) (b / 2) (omega arith) (omega arith))

  last_digit :
      (a b : ℕ)
      → bitwise base digit (suc a) b
        ≡ bitwise base digit (suc a / 2) (b / 2) * 2 + digit (suc a % 2) (b % 2)
  last_digit a b =
      ap (λ (t : ℕ). t * 2 + digit (suc a % 2) (b % 2))
        (spare_fuel a (suc a / 2) (suc a / 2) (b / 2) (omega arith) (omega arith))

pub bit_and_digit : (a b : ℕ) → bit_and a b ≡ bit_and (a / 2) (b / 2) * 2 + min (a % 2) (b % 2)
bit_and_digit zero b = rw (bit_and-bitwise, bit_and-bitwise) (omega arith)
bit_and_digit (suc a) b = rw (bit_and-bitwise, bit_and-bitwise) (last_digit (λ y. 0) min a b)

pub bit_or_digit : (a b : ℕ) → bit_or a b ≡ bit_or (a / 2) (b / 2) * 2 + max (a % 2) (b % 2)
bit_or_digit zero b = rw (bit_or-bitwise, bit_or-bitwise) (omega arith)
bit_or_digit (suc a) b = rw (bit_or-bitwise, bit_or-bitwise) (last_digit (λ y. y) max a b)

differ-sub : (x y : ℕ) → differ x y ≡ max x y - min x y
differ-sub zero y = omega arith
differ-sub (suc x) zero = omega arith
differ-sub (suc x) (suc y) = omega (arith, differ-sub x y)

pub bit_xor_digit :
    (a b : ℕ)
    → bit_xor a b ≡ bit_xor (a / 2) (b / 2) * 2 + (max (a % 2) (b % 2) - min (a % 2) (b % 2))
bit_xor_digit zero b = rw (bit_xor-bitwise, bit_xor-bitwise) (omega arith)
bit_xor_digit (suc a) b =
    rw (bit_xor-bitwise, bit_xor-bitwise, ← differ-sub (suc a % 2) (b % 2))
      (last_digit (λ y. y) differ a b)
