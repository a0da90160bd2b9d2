-- ===== src/Bits/Split.antt =====
-- A word split into a high and a low field.
use Prim.Native.Nat.{bit_and, bit_or, bit_xor}
use formlogic_rust.Common.{ap, arith, suc, zero, ℕ, ◌%◌, ◌*◌, ◌+◌, ◌-◌, ◌/◌, ◌<◌, ◌^◌, ◌≡◌}
use native.Mathlib.Nat.{pow-suc, one-le-pow, div-add-mod', mul-add-mod_self_right, mod-eq_of_lt}
use formlogic_rust.Bits.Digit.{bit_and_digit, bit_or_digit, bit_xor_digit}
use formlogic_rust.Bits.Zero.{bit_and-zero, bit_or-zero}

shift_once : (q k : ℕ) → q * 2 ^ suc k ≡ 2 * (q * 2 ^ k)
shift_once q k = omega (arith, ap (λ (t : ℕ). q * t) (pow-suc 2 k))

-- `(q << k) | r`
pub bit_or_fields : (k q r : ℕ) → r < 2 ^ k → bit_or (q * 2 ^ k) r ≡ q * 2 ^ k + r
bit_or_fields zero q r h = ground (arith, bit_or-zero q)
bit_or_fields (suc k) q r h =
    ground (
      arith,
      bit_or_digit (q * 2 ^ suc k) r,
      shift_once q k,
      pow-suc 2 k,
      bit_or_fields k q (r / 2),
    )

-- A mask of the high field.
pub bit_and_high :
    (k q r m : ℕ) → r < 2 ^ k → bit_and (q * 2 ^ k + r) (m * 2 ^ k) ≡ bit_and q m * 2 ^ k
bit_and_high zero q r m h = ground arith
bit_and_high (suc k) q r m h = ground (
  arith,
  bit_and_digit (q * 2 ^ suc k + r) (m * 2 ^ suc k),
  shift_once q k,
  shift_once m k,
  shift_once (bit_and q m) k,
  pow-suc 2 k,
  bit_and_high k q (r / 2) m,
)

pub bit_xor_high :
    (k q r m : ℕ) → r < 2 ^ k → bit_xor (q * 2 ^ k + r) (m * 2 ^ k) ≡ bit_xor q m * 2 ^ k + r
bit_xor_high zero q r m h = ground arith
bit_xor_high (suc k) q r m h = ground (
  arith,
  bit_xor_digit (q * 2 ^ suc k + r) (m * 2 ^ suc k),
  shift_once q k,
  shift_once m k,
  shift_once (bit_xor q m) k,
  pow-suc 2 k,
  bit_xor_high k q (r / 2) m,
)

-- A mask of the low field is a remainder.
bit_and_low_field : (k q r : ℕ) → r < 2 ^ k → bit_and (q * 2 ^ k + r) (2 ^ k - 1) ≡ r
bit_and_low_field zero q r h = rw (bit_and-zero) (omega arith)
bit_and_low_field (suc k) q r h = ground (
  arith,
  bit_and_digit (q * 2 ^ suc k + r) (2 ^ suc k - 1),
  shift_once q k,
  pow-suc 2 k,
  one-le-pow k 2,
  bit_and_low_field k q (r / 2),
)

pub bit_and_low : (k a : ℕ) → bit_and a (2 ^ k - 1) ≡ a % 2 ^ k
bit_and_low k a = ground (arith, one-le-pow k 2, bit_and_low_field k (a / 2 ^ k) (a % 2 ^ k))

pub bit_xor_fields :
    (k q r p s : ℕ)
    → r < 2 ^ k
    → s < 2 ^ k
    → (bit_xor (q * 2 ^ k + r) (p * 2 ^ k + s) ≡ bit_xor q p * 2 ^ k + bit_xor r s)
      × (bit_xor r s < 2 ^ k)
bit_xor_fields zero q r p s h j =
    let e : r ≡ 0 = omega arith in
    let f : s ≡ 0 = omega arith in rw (e, f) (ground arith, omega arith)
bit_xor_fields (suc k) q r p s h j =
    let (ih, small) =
      bit_xor_fields k q (r / 2) p (s / 2) (omega (arith, pow-suc 2 k))
        (omega (arith, pow-suc 2 k)) in
    let digit = bit_xor_digit r s in
    let whole = bit_xor_digit (q * 2 ^ suc k + r) (p * 2 ^ suc k + s) in
    (
      ground (
        arith,
        digit,
        whole,
        shift_once q k,
        shift_once p k,
        shift_once (bit_xor q p) k,
        pow-suc 2 k,
        ih,
      ),
      omega (arith, digit, small, pow-suc 2 k),
    )

pub bit_xor_low : (k a b : ℕ) → bit_xor a b % 2 ^ k ≡ bit_xor (a % 2 ^ k) (b % 2 ^ k)
bit_xor_low k a b =
    let (split, small) =
      bit_xor_fields k (a / 2 ^ k) (a % 2 ^ k) (b / 2 ^ k) (b % 2 ^ k)
        (omega (arith, one-le-pow k 2 (omega arith)))
        (omega (arith, one-le-pow k 2 (omega arith))) in
    ground (
      arith,
      split,
      small,
      div-add-mod' a (2 ^ k),
      div-add-mod' b (2 ^ k),
      mul-add-mod_self_right (bit_xor (a / 2 ^ k) (b / 2 ^ k)) (2 ^ k)
          (bit_xor (a % 2 ^ k) (b % 2 ^ k)),
      mod-eq_of_lt small,
    )
