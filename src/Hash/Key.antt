-- ===== src/Hash/Key.antt =====
-- `HashKey` of object.rs. A float is its 64 bits: sign, eleven bits of exponent, 52 of mantissa;
-- what Rust's `f64` computes is written out on them.
use Prim.Native.Nat.{min}
use formlogic_rust.Common.Int.{ℤ, pos, negsuc, sub_ℕ}
use formlogic_rust.Token.Text.{text_eq}
use formlogic_rust.Interner.Table.{resolve, intern, Interner}
use formlogic_rust.Common.{
  Bool, Bytes, List, Option, [], false, if◌then◌else◌, leb, ltb, none, not, some, true, within, ℕ,
  ◌%◌, ◌&&◌, ◌*◌, ◌+◌, ◌-◌, ◌/◌, ◌==◌, ◌>>=◌, ◌^◌, ◌∷◌,
}

pub data HashKey : Type 0 where
  sym_key : ℕ → HashKey
  int_key : ℤ → HashKey
  float_key : ℕ → HashKey
  bool_key : Bool → HashKey
  null_key : HashKey
  undefined_key : HashKey
  other_key : Bytes → HashKey

-- `f64`

abbrev pub exponent : ℕ → ℕ
exponent bits = bits / 2 ^ 52 % 2 ^ 11

abbrev pub mantissa : ℕ → ℕ
mantissa bits = bits % 2 ^ 52

abbrev pub is_negative : ℕ → Bool
is_negative bits = bits / 2 ^ 63 % 2 == 1

abbrev pub is_finite : ℕ → Bool
is_finite bits = ltb (exponent bits) 2047

abbrev pub is_zero_float : ℕ → Bool
is_zero_float bits = bits % 2 ^ 63 == 0

abbrev pub is_nan : ℕ → Bool
is_nan bits = exponent bits == 2047 && not (mantissa bits == 0)

-- `value.trunc().abs()`, where `value.trunc() == value`, of a finite value that is not zero.
unfoldable pub whole_magnitude : ℕ → Option ℕ
whole_magnitude bits =
    let e = exponent bits in
    let m = 2 ^ 52 + mantissa bits in
    if ltb e 1023
    then none
    else if leb 1075 e
    then some (m * 2 ^ (e - 1075))
    else if m % 2 ^ (1075 - e) == 0
    then some (m / 2 ^ (1075 - e))
    else none

-- `value >= i64::MIN as f64 && value <= i64::MAX as f64`, where both bounds are 2^63 in size, then
-- `value as i64`, which saturates.
unfoldable pub as_i64 : Bool → ℕ → Option ℤ
as_i64 negative n =
    if ltb (2 ^ 63) n
    then none
    else if negative
    then some (sub_ℕ 0 n)
    else some (pos (min n (2 ^ 63 - 1)))

unfoldable pub canonical_float_bits : ℕ → ℕ
canonical_float_bits bits =
    if is_zero_float bits then 0 else if is_nan bits then 0x7FF8_0000_0000_0000 else bits

unfoldable pub float_bits_to_i64_exact : ℕ → Option ℤ
unfolding whole_magnitude as_i64
float_bits_to_i64_exact bits =
    if not (is_finite bits)
    then none
    else if is_zero_float bits
    then some (pos 0)
    else (do n ← whole_magnitude bits; as_i64 (is_negative bits) n)

-- Equality

abbrev pub eq_ℤ : ℤ → ℤ → Bool
eq_ℤ (pos a) (pos b) = a == b
eq_ℤ (pos a) (negsuc b) = false
eq_ℤ (negsuc a) (pos b) = false
eq_ℤ (negsuc a) (negsuc b) = a == b

abbrev pub eq_bool : Bool → Bool → Bool
eq_bool true b = b
eq_bool false b = not b

-- `o == Some(a)`
abbrev pub is_some_ℤ : Option ℤ → ℤ → Bool
is_some_ℤ none a = false
is_some_ℤ (some b) a = eq_ℤ b a

-- `PartialEq::eq`
unfoldable pub key_eq : HashKey → HashKey → Bool
unfolding float_bits_to_i64_exact
key_eq (sym_key a) (sym_key b) = a == b
key_eq (int_key a) (int_key b) = eq_ℤ a b
key_eq (float_key a) (float_key b) = a == b
key_eq (int_key a) (float_key b) = is_some_ℤ (float_bits_to_i64_exact b) a
key_eq (float_key b) (int_key a) = is_some_ℤ (float_bits_to_i64_exact b) a
key_eq (bool_key a) (bool_key b) = eq_bool a b
key_eq null_key null_key = true
key_eq undefined_key undefined_key = true
key_eq (other_key a) (other_key b) = text_eq a b
key_eq _ _ = false

-- What `Hash::hash` writes into the hasher.
pub data Write : Type 0 where
  write_u8 : ℕ → Write
  write_u32 : ℕ → Write
  write_i64 : ℤ → Write
  write_u64 : ℕ → Write
  write_str : Bytes → Write

abbrev hash_float : ℕ → Option ℤ → List Write
hash_float bits (some i) = write_u8 1 ∷ write_i64 i ∷ []
hash_float bits none = write_u8 2 ∷ write_u64 bits ∷ []

unfoldable pub hash : HashKey → List Write
unfolding float_bits_to_i64_exact
hash (sym_key id) = write_u8 0 ∷ write_u32 id ∷ []
hash (int_key v) = write_u8 1 ∷ write_i64 v ∷ []
hash (float_key bits) = hash_float bits (float_bits_to_i64_exact bits)
hash (bool_key v) = write_u8 3 ∷ write_u8 (if v then 1 else 0) ∷ []
hash null_key = write_u8 4 ∷ []
hash undefined_key = write_u8 5 ∷ []
hash (other_key s) = write_u8 6 ∷ write_str s ∷ []

unfoldable pub from_float : ℕ → HashKey
unfolding canonical_float_bits
from_float v = float_key (canonical_float_bits v)

unfoldable pub from_string : Bytes → Interner → HashKey × Interner
unfolding intern
from_string s t = let r = intern s t in (sym_key r.0, r.1)

-- `str::parse::<u32>`: an optional plus sign, then one digit or more.
unfoldable pub parse_digits : ℕ → Bytes → Option ℕ
parse_digits acc [] = some acc
parse_digits acc (b ∷ s) =
    let next = acc * 10 + (b - 48) in
    let rest = parse_digits next s in
    if within 48 57 b then (if ltb next (2 ^ 32) then rest else none) else none

abbrev pub parse_unsigned : Bytes → Option ℕ
unfolding parse_digits
parse_unsigned [] = none
parse_unsigned (b ∷ s) = parse_digits 0 (b ∷ s)

abbrev pub parse_u32 : Bytes → Option ℕ
parse_u32 [] = none
parse_u32 (b ∷ s) = if b == 43 then parse_unsigned s else parse_unsigned (b ∷ s)

-- `if v >= 0 { u32::try_from(v).ok() } else { None }`
abbrev index_of_i64 : ℤ → Option ℕ
index_of_i64 (pos n) = if ltb n (2 ^ 32) then some n else none
index_of_i64 (negsuc n) = none

-- An integer key is cast with `as u32`, a float key with `try_from`. A symbol that was not
-- interned panics, which `none` on the outside stands for.
unfoldable pub is_numeric_index : HashKey → Interner → Option (Option ℕ)
unfolding float_bits_to_i64_exact resolve
is_numeric_index (int_key (pos n)) t = some (some (n % 2 ^ 32))
is_numeric_index (float_key bits) t = some (float_bits_to_i64_exact bits >>= index_of_i64)
is_numeric_index (sym_key id) t = do s ← resolve id t; some (parse_u32 s)
is_numeric_index _ t = some none
