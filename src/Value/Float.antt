-- ===== src/Value/Float.antt =====
-- Rust's `i64 as f64` on bit patterns, which `from_i64` of value.rs uses.
use native.Mathlib.Nat.{pow-suc, one-le-pow, add-zero, add-suc, div-lt_iff_lt-mul, mul_assoc}
use formlogic_rust.Common.Int.{ℤ, pos, negsuc}
use formlogic_rust.Common.{
  Bool-cases, ap, arith, false, if◌then◌else◌, inl, inr, leb, ltb, refl, suc, sym, true, zero, ℕ,
  ◌%◌, ◌&&◌, ◌*◌, ◌+◌, ◌-◌, ◌/◌, ◌<◌, ◌==◌, ◌^◌, ◌∙◌, ◌≡◌, ◌≤◌,
}

-- The place of the highest bit, among the lowest `fuel + 1` bits.
high_bit : ℕ → ℕ → ℕ
high_bit zero m = 0
high_bit (suc fuel) m = let rest = suc (high_bit fuel (m / 2)) in if leb m 1 then 0 else rest

-- Round half to even.
round_even : ℕ → ℕ → ℕ
round_even m scale =
    let q = m / scale in
    let r = m % scale in
    if ltb scale (2 * r) then q + 1 else if (2 * r == scale) && (q % 2 == 1) then q + 1 else q

-- The significand, its leading bit included; a carry goes on into the exponent.
significand : ℕ → ℕ → ℕ
significand m e = if leb e 52 then m * 2 ^ (52 - e) else round_even m (2 ^ (e - 52))

pub f64_of_magnitude : ℕ → ℕ
f64_of_magnitude m =
    let e = high_bit 63 m in if m == 0 then 0 else (e + 1022) * 2 ^ 52 + significand m e

-- `v as f64`, to the nearest, ties to even.
unfoldable pub i64_to_f64 : ℤ → ℕ
unfolding high_bit round_even significand f64_of_magnitude
i64_to_f64 (pos n) = f64_of_magnitude n
i64_to_f64 (negsuc n) = 2 ^ 63 + f64_of_magnitude (suc n)

high_bit-le : (fuel m : ℕ) → high_bit fuel m ≤ fuel
unfolding high_bit
high_bit-le zero m = omega arith
high_bit-le (suc fuel) m = ground (arith, high_bit-le fuel (m / 2))

high_bit_bound : (fuel m : ℕ) → m < 2 ^ suc fuel → m < 2 ^ suc (high_bit fuel m)
unfolding high_bit
high_bit_bound zero m h = h
high_bit_bound (suc fuel) m h = elim (Bool-cases (leb m 1)) [
  | inl small ↦ rw small (ground arith)
  | inr large ↦
      let ih = high_bit_bound fuel (m / 2) (omega (arith, pow-suc 2 (suc fuel))) in
      rw large (omega (arith, ih, pow-suc 2 (suc (high_bit fuel (m / 2)))))
]

round_even-le : (m scale : ℕ) → round_even m scale ≤ m / scale + 1
unfolding round_even
round_even-le m scale = ground arith

two_pow_add : (a b : ℕ) → 2 ^ (a + b) ≡ 2 ^ a * 2 ^ b
two_pow_add a zero = rw add-zero (omega arith)
two_pow_add a (suc b) =
    let step = ap (λ (t : ℕ). 2 ^ a * t) (pow-suc 2 b) in
    rw add-suc (omega (arith, pow-suc 2 (a + b), two_pow_add a b, step))

scale-le : (a b c : ℕ) → a < b → a * c ≤ b * c
scale-le a b c h = grind arith

-- The significand never exceeds 2 ^ 53.
significand-le : (m e : ℕ) → m < 2 ^ suc e → significand m e ≤ 2 ^ 53
unfolding significand
significand-le m e h = elim (Bool-cases (leb e 52)) [
  | inl exact ↦
      let whole : 2 ^ suc e * 2 ^ (52 - e) ≡ 2 ^ 53 =
        sym (two_pow_add (suc e) (52 - e)) ∙ ap (λ (t : ℕ). 2 ^ t) {y = 53} (ground arith) in
      let scaled : m * 2 ^ (52 - e) ≤ 2 ^ suc e * 2 ^ (52 - e) =
        scale-le m (2 ^ suc e) (2 ^ (52 - e)) h in
      rw exact (omega (arith, whole, scaled))
  | inr rounded ↦
      let whole : 2 ^ 53 * 2 ^ (e - 52) ≡ 2 ^ suc e =
        sym (two_pow_add 53 (e - 52)) ∙ ap (λ (t : ℕ). 2 ^ t) {y = suc e} (ground arith) in
      let quotient : m / 2 ^ (e - 52) < 2 ^ 53 =
        (div-lt_iff_lt-mul (one-le-pow (e - 52) 2 (omega arith))).1 (rw whole h) in
      rw rounded (omega (arith, round_even-le m (2 ^ (e - 52)), quotient))
]

pub f64_of_magnitude-lt : (m : ℕ) → m < 2 ^ 64 → f64_of_magnitude m < 0x7FF * 2 ^ 52
unfolding f64_of_magnitude
f64_of_magnitude-lt m h =
    let size = significand-le m (high_bit 63 m) (high_bit_bound 63 m h) in
    ground (arith, high_bit-le 63 m, size)

high_bit-floor : (fuel m : ℕ) → 1 ≤ m → 2 ^ high_bit fuel m ≤ m
unfolding high_bit
high_bit-floor zero m h = h
high_bit-floor (suc fuel) m h = elim (Bool-cases (leb m 1)) [
  | inl small ↦ rw small (ground arith)
  | inr large ↦
      let ih = high_bit-floor fuel (m / 2) (ground arith) in
      rw large (omega (arith, ih, pow-suc 2 (high_bit fuel (m / 2))))
]

-- The exponent and the significand of a float, and what they stand for, times 2 ^ 1075.
abbrev pub scaled_value : ℕ → ℕ
scaled_value x = (2 ^ 52 + x % 2 ^ 52) * 2 ^ (x / 2 ^ 52)

high_bit_small : (fuel m : ℕ) → 1 ≤ m → m < 2 ^ 53 → high_bit fuel m ≤ 52
high_bit_small fuel m h k = elim (Bool-cases (leb (high_bit fuel m) 52)) [
  | inl fits ↦ ground arith
  | inr above ↦
      let rest = high_bit fuel m - 53 in
      let split : 2 ^ high_bit fuel m ≡ 2 ^ 53 * 2 ^ rest =
        ap (λ (t : ℕ). 2 ^ t) {y = 53 + rest} (ground arith) ∙ two_pow_add 53 rest in
      absurd (omega (arith, high_bit-floor fuel m h, split, one-le-pow rest 2 (omega arith), k))
]

fields :
    (e s : ℕ)
    → 2 ^ 52 ≤ s
    → s < 2 ^ 53
    → scaled_value ((e + 1022) * 2 ^ 52 + s) ≡ s * 2 ^ (e + 1023)
fields e s low high =
    let exponent : ((e + 1022) * 2 ^ 52 + s) / 2 ^ 52 ≡ e + 1023 = omega arith in
    let fraction : 2 ^ 52 + ((e + 1022) * 2 ^ 52 + s) % 2 ^ 52 ≡ s = omega arith in
    rw (exponent, fraction) refl

scale-succ : (m c : ℕ) → suc m * c ≡ m * c + c
scale-succ m c = grind arith

scale_mono : (a b c : ℕ) → a ≤ b → a * c ≤ b * c
scale_mono a b c h = grind arith

f64_of_magnitude-exact :
    (m : ℕ) → 1 ≤ m → m < 2 ^ 53 → scaled_value (f64_of_magnitude m) ≡ m * 2 ^ 1075
unfolding f64_of_magnitude significand
f64_of_magnitude-exact m h k =
    let e = high_bit 63 m in
    let c = 2 ^ (52 - e) in
    let small : e ≤ 52 = high_bit_small 63 m h k in
    let unit : 2 ^ e * c ≡ 2 ^ 52 =
      sym (two_pow_add e (52 - e)) ∙ ap (λ (t : ℕ). 2 ^ t) {y = 52} (omega (arith, small)) in
    let twice : 2 ^ suc e * c ≡ 2 ^ 53 =
      sym (two_pow_add (suc e) (52 - e)) ∙ ap (λ (t : ℕ). 2 ^ t) {y = 53} (omega (arith, small)) in
    let low : 2 ^ 52 ≤ m * c =
      omega (arith, unit, scale_mono (2 ^ e) m c (high_bit-floor 63 m h)) in
    let top : m < 2 ^ suc e = high_bit_bound 63 m (omega (arith, k)) in
    let positive_unit : 1 ≤ c = one-le-pow (52 - e) 2 (omega arith) in
    let high : m * c < 2 ^ 53 = omega (
      arith,
      twice,
      scale-succ m c,
      scale_mono (suc m) (2 ^ suc e) c (omega (arith, top)),
      positive_unit,
    ) in
    let positive : (m == 0) ≡ false = ground arith in
    let fits : leb e 52 ≡ true = ground arith in
    let whole : m * c * 2 ^ (e + 1023) ≡ m * 2 ^ 1075 =
      mul_assoc m c (2 ^ (e + 1023))
      ∙ ap (λ (t : ℕ). m * t)
          (sym (two_pow_add (52 - e) (e + 1023))
            ∙ ap (λ (t : ℕ). 2 ^ t) {y = 1075} (omega (arith, small))) in
    rw (positive, fits) (fields e (m * c) low high ∙ whole)

-- The float with the bits `x` is the integer, sign and all.
abbrev pub IsExactly : ℤ → ℕ → Type 0
IsExactly (pos n) x = (x < 2 ^ 63) × (scaled_value x ≡ n * 2 ^ 1075)
IsExactly (negsuc n) x = (2 ^ 63 ≤ x) × (scaled_value (x - 2 ^ 63) ≡ suc n * 2 ^ 1075)

abbrev pub magnitude : ℤ → ℕ
magnitude (pos n) = n
magnitude (negsuc n) = suc n

pub i64_to_f64-IsExactly :
    (v : ℤ) → 1 ≤ magnitude v → magnitude v < 2 ^ 53 → IsExactly v (i64_to_f64 v)
unfolding i64_to_f64
i64_to_f64-IsExactly (pos n) h k =
    (omega (arith, f64_of_magnitude-lt n (omega (arith, k))), f64_of_magnitude-exact n h k)
i64_to_f64-IsExactly (negsuc n) h k =
    let back : 2 ^ 63 + f64_of_magnitude (suc n) - 2 ^ 63 ≡ f64_of_magnitude (suc n) =
      omega arith in
    (omega arith, rw back (f64_of_magnitude-exact (suc n) h k))
