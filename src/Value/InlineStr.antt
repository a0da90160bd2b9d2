-- ===== src/Value/InlineStr.antt =====
-- Strings of at most five bytes live in the payload: `from_inline_str`, `inline_str_len` and
-- `inline_str_buf` of value.rs.
use Prim.Native.Nat.{bit_or}
use formlogic_rust.Common.{
  Bool-cases, Bytes, [], ap, arith, false, if◌then◌else◌, inl, inr, length, ltb, lt→ltb, none, refl,
  some, take, true, ℕ, ◌%◌, ◌*◌, ◌+◌, ◌-◌, ◌/◌, ◌<◌, ◌^◌, ◌∙◌, ◌∷◌, ◌≡◌, ◌≤◌,
}
use native.Mathlib.Nat.{one-le-pow}
use formlogic_rust.Bits.Split.{bit_and_low, bit_or_fields}
use formlogic_rust.Value.Tags.{tagged_payload, has_tag-tagged}
use formlogic_rust.Value.Word.{
  tagged, tag_istr, pack_bytes, from_inline_str, inline_str_buf, is_inline_str,
}

-- Each byte is one: the elements of a `&[u8]`.
abbrev pub AreBytes : Bytes → Type 0
AreBytes [] = Unit
AreBytes (b ∷ s) = (b < 256) × AreBytes s

-- The bytes read as a number in base 256, behind what stands before them.
abbrev pub big_endian : Bytes → ℕ → ℕ
big_endian [] q = q
big_endian (b ∷ s) q = big_endian s (q * 256 + b)

-- One byte more: `k` is the place of the byte and `m` that of the one before it.
pack_step :
    (k m q b p : ℕ)
    → 2 ^ m ≡ 256 * 2 ^ k
    → p ≡ q * 2 ^ m
    → b < 256
    → bit_or p (b * 2 ^ k) ≡ (q * 256 + b) * 2 ^ k
pack_step k m q b p e f h =
    let fits : b * 2 ^ k < 2 ^ m = rw e (grind (arith, one-le-pow k 2)) in
    rw (f, bit_or_fields m q (b * 2 ^ k) fits) (omega (arith, ap (λ (t : ℕ). q * t) e))

-- What the packing loop leaves in the low 48 bits.
abbrev pub payload : Bytes → ℕ
payload s = big_endian s (length s) * 2 ^ ((5 - length s) * 8)

pack_bytes-payload :
    (s : Bytes) → length s ≤ 5 → AreBytes s → pack_bytes 0 s (length s * 2 ^ 40) ≡ payload s
unfolding pack_bytes
pack_bytes-payload [] h bs = refl
pack_bytes-payload (a ∷ []) h bs = pack_step 32 40 1 a _ refl refl bs.0
pack_bytes-payload (a ∷ b ∷ []) h bs =
    pack_step 24 32 _ b _ refl (pack_step 32 40 2 a _ refl refl bs.0) bs.1.0
pack_bytes-payload (a ∷ b ∷ c ∷ []) h bs =
    pack_step 16 24 _ c _ refl
      (pack_step 24 32 _ b _ refl (pack_step 32 40 3 a _ refl refl bs.0) bs.1.0) bs.1.1.0
pack_bytes-payload (a ∷ b ∷ c ∷ d ∷ []) h bs =
    pack_step 8 16 _ d _ refl
      (pack_step 16 24 _ c _ refl
        (pack_step 24 32 _ b _ refl (pack_step 32 40 4 a _ refl refl bs.0) bs.1.0) bs.1.1.0)
      bs.1.1.1.0
pack_bytes-payload (a ∷ b ∷ c ∷ d ∷ e ∷ []) h bs =
    pack_step 0 8 _ e _ refl
      (pack_step 8 16 _ d _ refl
        (pack_step 16 24 _ c _ refl
          (pack_step 24 32 _ b _ refl (pack_step 32 40 5 a _ refl refl bs.0) bs.1.0) bs.1.1.0)
        bs.1.1.1.0)
      bs.1.1.1.1.0
pack_bytes-payload (a ∷ b ∷ c ∷ d ∷ e ∷ f ∷ s) h bs = absurd (omega arith)

pub payload-lt : (s : Bytes) → length s ≤ 5 → AreBytes s → payload s < 2 ^ 48
payload-lt [] h bs = omega arith
payload-lt (a ∷ []) h bs = omega arith
payload-lt (a ∷ b ∷ []) h bs = omega arith
payload-lt (a ∷ b ∷ c ∷ []) h bs = omega arith
payload-lt (a ∷ b ∷ c ∷ d ∷ []) h bs = omega arith
payload-lt (a ∷ b ∷ c ∷ d ∷ e ∷ []) h bs = omega arith
payload-lt (a ∷ b ∷ c ∷ d ∷ e ∷ f ∷ s) h bs = absurd (omega arith)

-- Strings of up to five bytes are stored inline, all others are not.
pub from_inline_str_lem :
    (s : Bytes)
    → AreBytes s
    → from_inline_str s
      ≡ (if ltb 5 (length s) then none else some (bit_or (tagged tag_istr) (payload s)))
unfolding from_inline_str
from_inline_str_lem s bs = elim (Bool-cases (ltb 5 (length s))) [
  | inl long ↦ rw long
  | inr short ↦ rw (short, pack_bytes-payload s (ground arith) bs)
]

module _ (s : Bytes) (h : length s ≤ 5) (bs : AreBytes s) where
  word : bit_or (tagged tag_istr) (payload s) ≡ 0x7FFF * 2 ^ 48 + payload s
  word = tagged_payload tag_istr (payload s) (omega arith) (payload-lt s h bs)

abbrev buf_of : ℕ → Bytes × ℕ
buf_of w = (
  (w / 2 ^ 32 % 256) ∷ (w / 2 ^ 24 % 256) ∷ (w / 2 ^ 16 % 256) ∷ (w / 2 ^ 8 % 256) ∷ (w % 256) ∷ [],
  w / 2 ^ 40 % 256,
)

inline_str_buf-buf_of : (w : ℕ) → inline_str_buf w ≡ buf_of w
unfolding inline_str_buf
inline_str_buf-buf_of w = rw (
  bit_and_low 8 (w / 2 ^ 32),
  bit_and_low 8 (w / 2 ^ 24),
  bit_and_low 8 (w / 2 ^ 16),
  bit_and_low 8 (w / 2 ^ 8),
  bit_and_low 8 w,
  bit_and_low 8 (w / 2 ^ 40),
)

take-buf_of :
    (s : Bytes)
    → length s ≤ 5
    → AreBytes s
    → let b = buf_of (0x7FFF * 2 ^ 48 + payload s) in (take b.1 b.0 ≡ s) × (b.1 ≡ length s)
take-buf_of [] h bs = (refl, refl)
take-buf_of (a ∷ []) h bs =
    let len : (buf_of (0x7FFF * 2 ^ 48 + payload (a ∷ []))).1 ≡ 1 = omega arith in
    (rw len (ground arith), len)
take-buf_of (a ∷ b ∷ []) h bs =
    let len : (buf_of (0x7FFF * 2 ^ 48 + payload (a ∷ b ∷ []))).1 ≡ 2 = omega arith in
    (rw len (ground arith), len)
take-buf_of (a ∷ b ∷ c ∷ []) h bs =
    let len : (buf_of (0x7FFF * 2 ^ 48 + payload (a ∷ b ∷ c ∷ []))).1 ≡ 3 = omega arith in
    (rw len (ground arith), len)
take-buf_of (a ∷ b ∷ c ∷ d ∷ []) h bs =
    let len : (buf_of (0x7FFF * 2 ^ 48 + payload (a ∷ b ∷ c ∷ d ∷ []))).1 ≡ 4 = omega arith in
    (rw len (ground arith), len)
take-buf_of (a ∷ b ∷ c ∷ d ∷ e ∷ []) h bs =
    let len : (buf_of (0x7FFF * 2 ^ 48 + payload (a ∷ b ∷ c ∷ d ∷ e ∷ []))).1 ≡ 5 = omega arith in
    (rw len (ground arith), len)
take-buf_of (a ∷ b ∷ c ∷ d ∷ e ∷ f ∷ s) h bs = absurd (omega arith)

-- Every byte string of length at most five is stored, and the buffer and length that are read
-- back give exactly that string; a longer one is refused.
pub inline_str-roundtrip :
    (s : Bytes)
    → AreBytes s
    → ((5 < length s) → from_inline_str s ≡ none)
      × ((length s ≤ 5)
          → (w : ℕ) × (from_inline_str s ≡ some w)
            × (is_inline_str w ≡ true)
            × (take (inline_str_buf w).1 (inline_str_buf w).0 ≡ s)
            × ((inline_str_buf w).1 ≡ length s))
inline_str-roundtrip s bs = (
  λ long. from_inline_str_lem s bs ∙ rw (lt→ltb 5 (length s) long),
  λ h.
      let w = bit_or (tagged tag_istr) (payload s) in
      let read : inline_str_buf w ≡ buf_of (0x7FFF * 2 ^ 48 + payload s) =
        inline_str_buf-buf_of w ∙ ap buf_of (word s h bs) in
      let short : ltb 5 (length s) ≡ false = ground arith in
      (
        w,
        from_inline_str_lem s bs ∙ rw short,
        has_tag-tagged tag_istr tag_istr (payload s) (omega arith) (omega arith)
            (payload-lt s h bs),
        rw read (take-buf_of s h bs).0,
        rw read (take-buf_of s h bs).1,
      ),
)

-- The same for the word itself, in the form that `val_to_obj` reads it.
pub inline_str_word :
    (s : Bytes)
    → length s ≤ 5
    → AreBytes s
    → let w = bit_or (tagged tag_istr) (payload s) in
      (from_inline_str s ≡ some w)
      × (take (inline_str_buf w).1 (inline_str_buf w).0 ≡ s)
      × ((inline_str_buf w).1 ≡ length s)
inline_str_word s h bs =
    let read : inline_str_buf (bit_or (tagged tag_istr) (payload s))
        ≡ buf_of (0x7FFF * 2 ^ 48 + payload s) =
      inline_str_buf-buf_of _ ∙ ap buf_of (word s h bs) in
    let short : ltb 5 (length s) ≡ false = ground arith in
    (
      from_inline_str_lem s bs ∙ rw short,
      rw read (take-buf_of s h bs).0,
      rw read (take-buf_of s h bs).1,
    )
