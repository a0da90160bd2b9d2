-- ===== src/Bits/Zero.antt =====
-- Operations with 0, and `&` over `|`.
use Prim.Native.Nat.{bit_and, bit_or, bit_xor}
use formlogic_rust.Common.{arith, refl, suc, sym, zero, ℕ, ◌/◌, ◌∙◌, ◌≡◌, ◌≤◌}
use formlogic_rust.Bits.Digit.{bit_and_digit, bit_or_digit, bit_xor_digit}

-- Induction from `n / 2` to `n`.
module _ {ℓ} (P : ℕ → Type ℓ) (base : P 0) (step : (n : ℕ) → P (suc n / 2) → P (suc n)) where
  halving_below : (bound n : ℕ) → n ≤ bound → P n
  halving_below bound zero h = base
  halving_below zero (suc n) h = absurd (omega arith)
  halving_below (suc bound) (suc n) h = step n (halving_below bound (suc n / 2) (omega arith))

  pub halving : (n : ℕ) → P n
  halving n = halving_below n n (omega arith)

pub bit_and-zero : (a : ℕ) → bit_and a 0 ≡ 0
bit_and-zero =
    halving (λ n. bit_and n 0 ≡ 0) refl (λ n ih. omega (arith, bit_and_digit (suc n) 0, ih))

pub bit_or-zero : (a : ℕ) → bit_or a 0 ≡ a
bit_or-zero = halving (λ n. bit_or n 0 ≡ n) refl (λ n ih. omega (arith, bit_or_digit (suc n) 0, ih))

pub bit_xor-zero : (a : ℕ) → bit_xor a 0 ≡ a
bit_xor-zero =
    halving (λ n. bit_xor n 0 ≡ n) refl (λ n ih. ground (arith, bit_xor_digit (suc n) 0, ih))

pub zero-bit_and : (a : ℕ) → bit_and 0 a ≡ 0
zero-bit_and =
    halving (λ n. bit_and 0 n ≡ 0) refl (λ n ih. omega (arith, bit_and_digit 0 (suc n), ih))

pub zero-bit_or : (a : ℕ) → bit_or 0 a ≡ a
zero-bit_or = halving (λ n. bit_or 0 n ≡ n) refl (λ n ih. omega (arith, bit_or_digit 0 (suc n), ih))

le-bit_or : (a b : ℕ) → (a ≤ bit_or a b) × (b ≤ bit_or a b)
le-bit_or =
    halving (λ n. (b : ℕ) → (n ≤ bit_or n b) × (b ≤ bit_or n b))
      (λ b. rw (zero-bit_or b) (omega arith, omega arith))
      (λ n ih b.
        let half = ih (b / 2) in
        (
          omega (arith, bit_or_digit (suc n) b, half.0),
          omega (arith, bit_or_digit (suc n) b, half.1),
        ))

pub bit_or-eq-zero : (a b : ℕ) → bit_or a b ≡ 0 → (a ≡ 0) × (b ≡ 0)
bit_or-eq-zero a b h = omega (arith, (le-bit_or a b).0, (le-bit_or a b).1)

bit_or_half : (a b : ℕ) → bit_or a b / 2 ≡ bit_or (a / 2) (b / 2)
bit_or_half a b = omega (arith, bit_or_digit a b)

bit_and_half : (a b : ℕ) → bit_and a b / 2 ≡ bit_and (a / 2) (b / 2)
bit_and_half a b = omega (arith, bit_and_digit a b)

pub bit_and-bit_or : (a b m : ℕ) → bit_and (bit_or a b) m ≡ bit_or (bit_and a m) (bit_and b m)
bit_and-bit_or =
    halving (λ n. (b m : ℕ) → bit_and (bit_or n b) m ≡ bit_or (bit_and n m) (bit_and b m))
      (λ b m. rw (zero-bit_or b, zero-bit_and m, zero-bit_or (bit_and b m)))
      (λ n ih b m.
        let low = bit_or_digit (suc n) b in
        let masked = bit_and_digit (bit_or (suc n) b) m in
        let left = bit_and_digit (suc n) m in
        let right = bit_and_digit b m in
        let joined = bit_or_digit (bit_and (suc n) m) (bit_and b m) in
        let rest = ih (b / 2) (m / 2) in
        omega (
          arith,
          low,
          left,
          right,
          rw (bit_or_half (suc n) b) at masked,
          rw (bit_and_half (suc n) m, bit_and_half b m) at joined,
          rest,
        ))

zero-bit_xor : (a : ℕ) → bit_xor 0 a ≡ a
zero-bit_xor =
    halving (λ n. bit_xor 0 n ≡ n) refl (λ n ih. omega (arith, bit_xor_digit 0 (suc n), ih))

pub bit_xor-eq-zero : (a b : ℕ) → bit_xor a b ≡ 0 → a ≡ b
bit_xor-eq-zero =
    halving (λ n. (b : ℕ) → bit_xor n b ≡ 0 → n ≡ b) (λ b h. sym h ∙ zero-bit_xor b)
      (λ n ih b h.
        let digit = bit_xor_digit (suc n) b in
        let half : bit_xor (suc n / 2) (b / 2) ≡ 0 = omega (arith, digit) in
        omega (arith, digit, ih (b / 2) half))

pub bit_xor_self : (a : ℕ) → bit_xor a a ≡ 0
bit_xor_self =
    halving (λ n. bit_xor n n ≡ 0) refl (λ n ih. omega (arith, bit_xor_digit (suc n) (suc n), ih))
