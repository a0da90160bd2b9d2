-- ===== src/Bits/Single.antt =====
-- Words and single bits: `w |= 1 << b` and `(w & (1 << c)) != 0`.
use Prim.Native.Nat.{bit_and, bit_or}
use formlogic_rust.Bits.Digit.{bit_and_digit}
use formlogic_rust.Bits.Zero.{
  bit_and-zero, zero-bit_and, bit_or-zero, bit_or-eq-zero, bit_and-bit_or,
}
use formlogic_rust.Common.{
  ==_iff, Bool, Bool-cases, ap, arith, false, inl, inr, not, refl, suc, sym, true, zero, ℕ, ◌/◌,
  ◌<◌, ◌==◌, ◌^◌, ◌∙◌, ◌≡◌, ◌≢◌,
}

two_pow-pos : (k : ℕ) → 0 < 2 ^ k
two_pow-pos zero = omega arith
two_pow-pos (suc k) = omega (arith, two_pow-pos k)

bit_and-pow_self : (b : ℕ) → bit_and (2 ^ b) (2 ^ b) ≡ 2 ^ b
bit_and-pow_self zero = refl
bit_and-pow_self (suc b) =
    let half : 2 ^ suc b / 2 ≡ 2 ^ b = omega arith in
    let digit = bit_and_digit (2 ^ suc b) (2 ^ suc b) in
    omega (arith, rw half at digit, bit_and-pow_self b)

bit_and-pow_ne : (b c : ℕ) → b ≢ c → bit_and (2 ^ b) (2 ^ c) ≡ 0
bit_and-pow_ne zero zero ne = absurd (ne refl)
bit_and-pow_ne zero (suc c) ne =
    let half : 2 ^ suc c / 2 ≡ 2 ^ c = omega arith in
    let digit = bit_and_digit 1 (2 ^ suc c) in omega (arith, rw half at digit, zero-bit_and (2 ^ c))
bit_and-pow_ne (suc b) zero ne =
    let half : 2 ^ suc b / 2 ≡ 2 ^ b = omega arith in
    let digit = bit_and_digit (2 ^ suc b) 1 in omega (arith, rw half at digit, bit_and-zero (2 ^ b))
bit_and-pow_ne (suc b) (suc c) ne =
    let left : 2 ^ suc b / 2 ≡ 2 ^ b = omega arith in
    let right : 2 ^ suc c / 2 ≡ 2 ^ c = omega arith in
    let digit = bit_and_digit (2 ^ suc b) (2 ^ suc c) in
    omega (arith, rw (left, right) at digit, bit_and-pow_ne b c (λ e. ne (ap suc e)))

abbrev pub test_bit : ℕ → ℕ → Bool
test_bit w c = not (bit_and w (2 ^ c) == 0)

pub test_bit-or_self : (w b : ℕ) → test_bit (bit_or w (2 ^ b)) b ≡ true
test_bit-or_self w b = elim (Bool-cases (bit_and (bit_or w (2 ^ b)) (2 ^ b) == 0)) [
  | inl e ↦
      let zero_or : bit_or (bit_and w (2 ^ b)) (bit_and (2 ^ b) (2 ^ b)) ≡ 0 =
        sym (bit_and-bit_or w (2 ^ b) (2 ^ b)) ∙ (==_iff _ 0).0 e in
      absurd (omega (arith, two_pow-pos b, bit_and-pow_self b, (bit_or-eq-zero _ _ zero_or).1))
  | inr e ↦ rw e refl
]

pub test_bit-or_ne : (w : ℕ) {b c : ℕ} → b ≢ c → test_bit (bit_or w (2 ^ b)) c ≡ test_bit w c
test_bit-or_ne w {b} {c} ne =
    rw (bit_and-bit_or w (2 ^ b) (2 ^ c), bit_and-pow_ne b c ne, bit_or-zero (bit_and w (2 ^ c)))
      refl

pub test_bit-zero : (c : ℕ) → test_bit 0 c ≡ false
test_bit-zero c = rw (zero-bit_and (2 ^ c)) refl
