-- ===== src/Value/Tags.antt =====
-- What the tag checks test, as arithmetic.
use Prim.Native.Nat.{bit_and, bit_or, bit_xor}
use formlogic_rust.Common.{
  ==_iff, Bool, arith, false, not, refl, suc, true, zero, ℕ, ◌%◌, ◌&&◌, ◌*◌, ◌+◌, ◌-◌, ◌/◌, ◌<◌,
  ◌==◌, ◌^◌, ◌↔◌, ◌∙◌, ◌≡◌, ◌≢◌,
}
use formlogic_rust.Bits.Split.{bit_and_high, bit_and_low, bit_or_fields, bit_xor_high, bit_xor_low}
use formlogic_rust.Bits.Zero.{bit_and-bit_or, bit_xor-eq-zero, bit_xor_self, bit_or-eq-zero}
use formlogic_rust.Value.Word.{
  tagged, tag_mask, has_tag, qnan, is_tagged, both_i32, is_i32, tag_i32, is_f64, is_null,
  is_undefined,
}

-- The 15 bits that the masks look at: all of the prefix but the sign.
abbrev pub prefix : ℕ → ℕ
prefix bits = bits / 2 ^ 48 % 2 ^ 15

pub bit_and-tagged : (bits : ℕ) → bit_and bits (tagged tag_mask) ≡ prefix bits * 2 ^ 48
bit_and-tagged bits =
    let high = bit_and_high 48 (bits / 2 ^ 48) (bits % 2 ^ 48) (2 ^ 15 - 1) (omega arith) in
    let word : bits / 2 ^ 48 * 2 ^ 48 + bits % 2 ^ 48 ≡ bits = omega arith in
    rw (bit_and_low 15 (bits / 2 ^ 48), word) at high

tagged_lem : (tag : ℕ) → tag < 8 → tagged tag ≡ (0x7FF8 + tag) * 2 ^ 48
tagged_lem zero h = refl
tagged_lem (suc zero) h = refl
tagged_lem (suc (suc zero)) h = refl
tagged_lem (suc (suc (suc zero))) h = refl
tagged_lem (suc (suc (suc (suc zero)))) h = refl
tagged_lem (suc (suc (suc (suc (suc zero))))) h = refl
tagged_lem (suc (suc (suc (suc (suc (suc zero)))))) h = refl
tagged_lem (suc (suc (suc (suc (suc (suc (suc zero))))))) h = refl
tagged_lem (suc (suc (suc (suc (suc (suc (suc (suc n)))))))) h = absurd (omega arith)

pub has_tag-prefix : (tag bits : ℕ) → tag < 8 → has_tag tag bits ≡ (prefix bits == 0x7FF8 + tag)
unfolding has_tag
has_tag-prefix tag bits h = rw (bit_and-tagged bits, tagged_lem tag h) (ground arith)

-- A tagged word is its tag and its payload.
pub tagged_payload :
    (tag payload : ℕ)
    → tag < 8
    → payload < 2 ^ 48
    → bit_or (tagged tag) payload ≡ (0x7FF8 + tag) * 2 ^ 48 + payload
tagged_payload tag payload h small =
    rw (tagged_lem tag h) (bit_or_fields 48 (0x7FF8 + tag) payload small)

-- A word built from a tag and a payload of 48 bits passes the check for that tag, and for no other.
pub has_tag-tagged :
    (tag other payload : ℕ)
    → tag < 8
    → other < 8
    → payload < 2 ^ 48
    → has_tag other (bit_or (tagged tag) payload) ≡ (tag == other)
has_tag-tagged tag other payload h k small =
    has_tag-prefix other (bit_or (tagged tag) payload) k
    ∙ rw (tagged_payload tag payload h small) (ground arith)

pub is_tagged-tagged :
    (tag payload : ℕ)
    → tag < 8
    → payload < 2 ^ 48
    → is_tagged (bit_or (tagged tag) payload) ≡ not (tag == 0)
unfolding is_tagged
is_tagged-tagged tag payload h small = rw (tagged_payload tag payload h small) (ground arith)

-- The single subtraction and comparison of `is_tagged` against the masks it replaces: a quiet NaN
-- with a non-zero tag. On every word whose sign bit is clear the two agree.
pub is_tagged_masks :
    (bits : ℕ)
    → bits < 2 ^ 63
    → is_tagged bits ≡ (bit_and bits qnan == qnan && not (bit_and (bits / 2 ^ 48) tag_mask == 0))
unfolding is_tagged
is_tagged_masks bits h =
    let high = bit_and_high 51 (bits / 2 ^ 51) (bits % 2 ^ 51) (2 ^ 12 - 1) (omega arith) in
    let word : bits / 2 ^ 51 * 2 ^ 51 + bits % 2 ^ 51 ≡ bits = omega arith in
    let quiet : bit_and bits qnan ≡ bits / 2 ^ 51 % 2 ^ 12 * 2 ^ 51 =
      rw (bit_and_low 12 (bits / 2 ^ 51), word) at high in
    rw (quiet, bit_and_low 3 (bits / 2 ^ 48)) (ground arith)

-- `(bits ^ I32_SIG) & MASK` is zero in the tag of an `i32`, and only there.
sig_prefix :
    (a : ℕ)
    → bit_and (bit_xor a (tagged tag_i32)) (tagged tag_mask) ≡ bit_xor (prefix a) 0x7FF9 * 2 ^ 48
sig_prefix a =
    let high = bit_xor_high 48 (a / 2 ^ 48) (a % 2 ^ 48) 0x7FF9 (omega arith) in
    let word : a / 2 ^ 48 * 2 ^ 48 + a % 2 ^ 48 ≡ a = omega arith in
    let flipped : bit_xor a (tagged tag_i32) ≡ bit_xor (a / 2 ^ 48) 0x7FF9 * 2 ^ 48 + a % 2 ^ 48 =
      rw word at high in
    let low = bit_xor_low 15 (a / 2 ^ 48) 0x7FF9 in
    let shifted : bit_xor a (tagged tag_i32) / 2 ^ 48 ≡ bit_xor (a / 2 ^ 48) 0x7FF9 =
      omega (arith, flipped) in
    bit_and-tagged (bit_xor a (tagged tag_i32)) ∙ rw (shifted, low)

sig_prefix-zero : (a : ℕ) → (bit_xor (prefix a) 0x7FF9 * 2 ^ 48 ≡ 0) ↔ (is_i32 a ≡ true)
sig_prefix-zero a = (there, back)
  where
    there : bit_xor (prefix a) 0x7FF9 * 2 ^ 48 ≡ 0 → is_i32 a ≡ true
    there z =
        rw (has_tag-prefix tag_i32 a (omega arith))
          ((==_iff (prefix a) 0x7FF9).1 (bit_xor-eq-zero (prefix a) 0x7FF9 (omega arith)))

    back : is_i32 a ≡ true → bit_xor (prefix a) 0x7FF9 * 2 ^ 48 ≡ 0
    back e =
        let same : prefix a ≡ 0x7FF9 =
          (==_iff (prefix a) 0x7FF9).0 (rw (has_tag-prefix tag_i32 a (omega arith)) at e) in
        rw (same) (omega (arith, bit_xor_self 0x7FF9))

both_zero :
    (x y : ℕ) (p q : Bool)
    → (x ≡ 0) ↔ (p ≡ true)
    → (y ≡ 0) ↔ (q ≡ true)
    → (bit_or x y == 0) ≡ (p && q)
both_zero x y true true f g =
    let left : x ≡ 0 = f.1 refl in let right : y ≡ 0 = g.1 refl in rw (left, right)
both_zero x y true false f g = ground (arith, bit_or-eq-zero x y, g.0)
both_zero x y false q f g = ground (arith, bit_or-eq-zero x y, f.0)

-- `both_i32` decides in one test, over any two words, whether each has the `i32` tag.
pub both_i32_lem : (a b : ℕ) → both_i32 a b ≡ (is_i32 a && is_i32 b)
unfolding both_i32
both_i32_lem a b =
    let split =
      bit_and-bit_or (bit_xor a (tagged tag_i32)) (bit_xor b (tagged tag_i32)) (tagged tag_mask) in
    rw (split, sig_prefix a, sig_prefix b)
      (both_zero _ _ (is_i32 a) (is_i32 b) (sig_prefix-zero a) (sig_prefix-zero b))

-- A word with another tag is neither null nor undefined nor a float.
pub other_checks :
    (tag payload : ℕ)
    → tag < 8
    → payload < 2 ^ 48
    → (tag ≢ 0 → is_f64 (bit_or (tagged tag) payload) ≡ false)
      × (tag ≢ 3 → is_null (bit_or (tagged tag) payload) ≡ false)
      × (tag ≢ 4 → is_undefined (bit_or (tagged tag) payload) ≡ false)
unfolding is_f64 is_null is_undefined
other_checks tag payload h small =
    let word = tagged_payload tag payload h small in
    (
      λ n. rw (is_tagged-tagged tag payload h small) (ground arith),
      λ n. rw word (ground arith),
      λ n. rw word (ground arith),
    )
