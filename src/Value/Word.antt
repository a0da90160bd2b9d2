-- ===== src/Value/Word.antt =====
-- The layout of value.rs: constants, constructors, tag checks and extractors. A `u64` is a
-- number below 2 ^ 64.
use Prim.Native.Nat.{bit_and, bit_or, bit_xor}
use formlogic_rust.Common.{
  Bool, Bytes, Option, [], if◌then◌else◌, leb, length, ltb, none, not, some, ℕ, ◌%◌, ◌*◌, ◌+◌, ◌-◌,
  ◌/◌, ◌==◌, ◌^◌, ◌||◌, ◌∷◌,
}
use formlogic_rust.Common.Int.{ℤ, as_u32, as_i32}

abbrev pub qnan : ℕ
qnan = 0x7FF8_0000_0000_0000

abbrev pub tag_shift : ℕ
tag_shift = 48

abbrev pub tag_mask : ℕ
tag_mask = 0x7

abbrev pub tag_i32 : ℕ
tag_i32 = 1

abbrev pub tag_bool : ℕ
tag_bool = 2

abbrev pub tag_null : ℕ
tag_null = 3

abbrev pub tag_undefined : ℕ
tag_undefined = 4

abbrev pub tag_symbol : ℕ
tag_symbol = 5

abbrev pub tag_heap : ℕ
tag_heap = 6

abbrev pub tag_istr : ℕ
tag_istr = 7

-- `QNAN | (tag << TAG_SHIFT)`
abbrev pub tagged : ℕ → ℕ
tagged tag = bit_or qnan (tag * 2 ^ tag_shift)

abbrev pub null_value : ℕ
null_value = tagged tag_null

abbrev pub undefined_value : ℕ
undefined_value = tagged tag_undefined

abbrev pub true_value : ℕ
true_value = bit_or (tagged tag_bool) 1

abbrev pub false_value : ℕ
false_value = tagged tag_bool

abbrev pub empty_str : ℕ
empty_str = tagged tag_istr

-- Constructors

unfoldable pub from_f64 : ℕ → ℕ
from_f64 v = v

unfoldable pub from_i32 : ℤ → ℕ
from_i32 v = bit_or (tagged tag_i32) (as_u32 v)

unfoldable pub from_bool : Bool → ℕ
from_bool v = if v then true_value else false_value

unfoldable pub from_symbol : ℕ → ℕ
from_symbol id = bit_or (tagged tag_symbol) id

unfoldable pub from_heap : ℕ → ℕ
from_heap index = bit_or (tagged tag_heap) index

-- The packing loop: byte `i` goes to bits `39 - 8 i` down.
unfoldable pub pack_bytes : ℕ → Bytes → ℕ → ℕ
pack_bytes i [] payload = payload
pack_bytes i (b ∷ s) payload = pack_bytes (i + 1) s (bit_or payload (b * 2 ^ ((4 - i) * 8)))

unfoldable pub from_inline_str : Bytes → Option ℕ
unfolding pack_bytes
from_inline_str s =
    if ltb 5 (length s)
    then none
    else some (bit_or (tagged tag_istr) (pack_bytes 0 s (length s * 2 ^ 40)))

-- Tag checks

-- `(prefix as u16).wrapping_sub(0x7FF9) <= 6`
unfoldable pub is_tagged : ℕ → Bool
is_tagged bits = leb ((bits / 2 ^ 48 % 2 ^ 16 + 2 ^ 16 - 0x7FF9) % 2 ^ 16) 6

unfoldable pub is_f64 : ℕ → Bool
unfolding is_tagged
is_f64 bits = not (is_tagged bits)

-- `(bits & (QNAN | (TAG_MASK << TAG_SHIFT))) == (QNAN | (tag << TAG_SHIFT))`
unfoldable pub has_tag : ℕ → ℕ → Bool
has_tag tag bits = bit_and bits (tagged tag_mask) == tagged tag

abbrev pub is_i32 : ℕ → Bool
is_i32 = has_tag tag_i32

abbrev pub is_bool : ℕ → Bool
is_bool = has_tag tag_bool

abbrev pub is_symbol : ℕ → Bool
is_symbol = has_tag tag_symbol

abbrev pub is_heap : ℕ → Bool
is_heap = has_tag tag_heap

abbrev pub is_inline_str : ℕ → Bool
is_inline_str = has_tag tag_istr

unfoldable pub is_null : ℕ → Bool
is_null bits = bits == null_value

unfoldable pub is_undefined : ℕ → Bool
is_undefined bits = bits == undefined_value

unfoldable pub is_number : ℕ → Bool
is_number bits = is_i32 bits || is_f64 bits

unfoldable pub both_i32 : ℕ → ℕ → Bool
both_i32 a b =
    let i32_sig = tagged tag_i32 in
    bit_and (bit_or (bit_xor a i32_sig) (bit_xor b i32_sig)) (tagged tag_mask) == 0

-- Extractors

unfoldable pub as_i32_unchecked : ℕ → ℤ
unfolding as_i32
as_i32_unchecked bits = as_i32 bits

unfoldable pub as_f64 : ℕ → ℕ
as_f64 bits = bits

unfoldable pub as_bool_unchecked : ℕ → Bool
as_bool_unchecked bits = not (bit_and bits 1 == 0)

unfoldable pub as_symbol : ℕ → ℕ
as_symbol bits = bits % 2 ^ 32

unfoldable pub heap_index : ℕ → ℕ
heap_index bits = bits % 2 ^ 32

unfoldable pub inline_str_len : ℕ → ℕ
inline_str_len bits = bit_and (bits / 2 ^ 40) 0xFF

abbrev byte_at : ℕ → ℕ → ℕ
byte_at shift bits = bit_and (bits / 2 ^ shift) 0xFF

unfoldable pub inline_str_buf : ℕ → Bytes × ℕ
unfolding inline_str_len
inline_str_buf bits = (
  byte_at 32 bits ∷ byte_at 24 bits ∷ byte_at 16 bits ∷ byte_at 8 bits ∷ bit_and bits 0xFF ∷ [],
  inline_str_len bits,
)
