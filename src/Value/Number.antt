-- ===== src/Value/Number.antt =====
-- Numbers in values: `from_i64` of value.rs.
use formlogic_rust.Value.Tags.{tagged_payload, has_tag-tagged, has_tag-prefix}
use formlogic_rust.Common.{
  arith, false, if◌then◌else◌, refl, suc, true, ℕ, ◌&&◌, ◌*◌, ◌+◌, ◌-◌, ◌/◌, ◌<◌, ◌==◌, ◌^◌, ◌∙◌,
  ◌≡◌, ◌≤◌, ◌⊎◌,
}
use formlogic_rust.Value.Float.{
  f64_of_magnitude, f64_of_magnitude-lt, i64_to_f64, i64_to_f64-IsExactly, IsExactly, magnitude,
}
use formlogic_rust.Common.Int.{ℤ, pos, negsuc, leb_ℤ, as_u32, as_u32-lt, FitsI32, as_i32-as_u32}
use formlogic_rust.Value.Word.{
  from_f64, from_i32, is_f64, is_tagged, as_i32_unchecked, is_i32, tag_i32, has_tag,
}

abbrev pub i32_min : ℤ
i32_min = negsuc (2 ^ 31 - 1)

abbrev pub i32_max : ℤ
i32_max = pos (2 ^ 31 - 1)

unfoldable pub from_i64 : ℤ → ℕ
unfolding from_i32 from_f64
from_i64 v = if leb_ℤ i32_min v && leb_ℤ v i32_max then from_i32 v else from_f64 (i64_to_f64 v)

-- The range of `i64`.
abbrev pub FitsI64 : ℤ → Type 0
FitsI64 (pos n) = n < 2 ^ 63
FitsI64 (negsuc n) = n < 2 ^ 63

-- A finite float, of either sign, never looks like a tagged value.
finite-is_f64 : (x : ℕ) → x < 0x7FF * 2 ^ 52 → (is_f64 x ≡ true) × (is_f64 (2 ^ 63 + x) ≡ true)
unfolding is_f64 is_tagged
finite-is_f64 x h =
    let low : x / 2 ^ 48 < 0x7FF0 = omega arith in
    let high : (2 ^ 63 + x) / 2 ^ 48 ≡ 2 ^ 15 + x / 2 ^ 48 = omega arith in
    (ground arith, rw high (ground arith))

pub i64_to_f64-is_f64 : (v : ℤ) → FitsI64 v → is_f64 (i64_to_f64 v) ≡ true
unfolding i64_to_f64
i64_to_f64-is_f64 (pos n) h =
    (finite-is_f64 (f64_of_magnitude n) (f64_of_magnitude-lt n (omega arith))).0
i64_to_f64-is_f64 (negsuc n) h =
    (finite-is_f64 (f64_of_magnitude (suc n)) (f64_of_magnitude-lt (suc n) (omega arith))).1

finite-has_tag :
    (tag x : ℕ)
    → tag < 8
    → x < 0x7FF * 2 ^ 52
    → (has_tag tag x ≡ false) × (has_tag tag (2 ^ 63 + x) ≡ false)
finite-has_tag tag x k h =
    let low : x / 2 ^ 48 < 0x7FF0 = omega arith in
    let high : (2 ^ 63 + x) / 2 ^ 48 ≡ 2 ^ 15 + x / 2 ^ 48 = omega arith in
    (
      has_tag-prefix tag x k ∙ ground arith,
      has_tag-prefix tag (2 ^ 63 + x) k ∙ rw high (ground arith),
    )

pub i64_to_f64-has_tag :
    (tag : ℕ) (v : ℤ) → tag < 8 → FitsI64 v → has_tag tag (i64_to_f64 v) ≡ false
unfolding i64_to_f64
i64_to_f64-has_tag tag (pos n) k h =
    (finite-has_tag tag (f64_of_magnitude n) k (f64_of_magnitude-lt n (omega arith))).0
i64_to_f64-has_tag tag (negsuc n) k h =
    (finite-has_tag tag (f64_of_magnitude (suc n)) k (f64_of_magnitude-lt (suc n) (omega arith))).1

as_u32_payload : (v : ℤ) → as_u32 v < 2 ^ 48
as_u32_payload v = omega (arith, as_u32-lt v)

pub from_i32-is_i32 : (v : ℤ) → is_i32 (from_i32 v) ≡ true
unfolding from_i32
from_i32-is_i32 v =
    has_tag-tagged tag_i32 tag_i32 (as_u32 v) (omega arith) (omega arith) (as_u32_payload v)

from_i32-has_tag : (tag : ℕ) (v : ℤ) → tag < 8 → has_tag tag (from_i32 v) ≡ (tag_i32 == tag)
unfolding from_i32
from_i32-has_tag tag v k = has_tag-tagged tag_i32 tag (as_u32 v) (omega arith) k (as_u32_payload v)

pub from_i32-roundtrip : (v : ℤ) → FitsI32 v → as_i32_unchecked (from_i32 v) ≡ v
unfolding from_i32 as_i32_unchecked
from_i32-roundtrip v h =
    rw (tagged_payload tag_i32 (as_u32 v) (omega arith) (as_u32_payload v))
      (as_i32-as_u32 v (0x7FF9 * 2 ^ 16) h)

pub from_i64_small : (v : ℤ) → FitsI32 v → from_i64 v ≡ from_i32 v
unfolding from_i64
from_i64_small (pos n) h = ground arith
from_i64_small (negsuc n) h = ground arith

pub from_i64_large : (v : ℤ) → ¬ FitsI32 v → from_i64 v ≡ i64_to_f64 v
unfolding from_i64 from_f64
from_i64_large (pos n) h = ground arith
from_i64_large (negsuc n) h = ground arith

pub FitsI32-cases :
    (v : ℤ)
    → (FitsI32 v × ((leb_ℤ i32_min v && leb_ℤ v i32_max) ≡ true))
      ⊎ ((¬ FitsI32 v) × ((leb_ℤ i32_min v && leb_ℤ v i32_max) ≡ false))
FitsI32-cases (pos n) = ground arith
FitsI32-cases (negsuc n) = ground arith

large_magnitude : (v : ℤ) → ¬ FitsI32 v → 1 ≤ magnitude v
large_magnitude (pos n) large = ground arith
large_magnitude (negsuc n) large = omega arith

-- `from_i64` keeps every `i32` exactly, behind the `i32` tag, and no other tag check takes it. Any other
-- `i64` becomes the float that `i64_to_f64` gives, which `is_f64` accepts and the check of no tag does; below 2 ^ 53, of either sign, that float is the
-- integer exactly.
pub from_i64_lem :
    (v : ℤ)
    → FitsI64 v
    → (FitsI32 v
        → (is_i32 (from_i64 v) ≡ true)
          × (as_i32_unchecked (from_i64 v) ≡ v)
          × ((tag : ℕ) → tag < 8 → has_tag tag (from_i64 v) ≡ (tag_i32 == tag)))
      × ((¬ FitsI32 v)
          → (from_i64 v ≡ i64_to_f64 v)
            × (is_f64 (from_i64 v) ≡ true)
            × (is_i32 (from_i64 v) ≡ false)
            × ((tag : ℕ) → tag < 8 → has_tag tag (from_i64 v) ≡ false)
            × (magnitude v < 2 ^ 53 → IsExactly v (from_i64 v)))
from_i64_lem v h = (
  λ small.
      rw (from_i64_small v small)
        (from_i32-is_i32 v, from_i32-roundtrip v small, λ tag k. from_i32-has_tag tag v k),
  λ large. rw (from_i64_large v large) (
    refl,
    i64_to_f64-is_f64 v h,
    i64_to_f64-has_tag tag_i32 v (omega arith) h,
    λ tag k. i64_to_f64-has_tag tag v k h,
    i64_to_f64-IsExactly v (large_magnitude v large),
  ),
)
