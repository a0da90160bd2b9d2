-- ===== src/Hash/Equal.antt =====
-- The contract between `Eq` and `Hash` of `HashKey`, which the hash maps rely on.
use formlogic_rust.Token.Text.{text_eq_refl, text_eq_sound}
use formlogic_rust.Hash.Key.{
  eq_bool, key_eq, hash, HashKey, eq_ℤ, is_some_ℤ, sym_key, int_key, float_key, bool_key, null_key,
  undefined_key, other_key,
}
use formlogic_rust.Common.Int.{ℤ, pos, negsuc}
use formlogic_rust.Common.{==_iff, ==_refl, Bool, Option, ap, false, none, refl, some, true, ℕ, ◌≡◌}

eq_bool_sound : (a b : Bool) → eq_bool a b ≡ true → a ≡ b
eq_bool_sound true true h = refl
eq_bool_sound true false h = cc
eq_bool_sound false true h = cc
eq_bool_sound false false h = refl

eq_ℤ_sound : (a b : ℤ) → eq_ℤ a b ≡ true → a ≡ b
eq_ℤ_sound (pos a) (pos b) h = ap pos ((==_iff a b).0 h)
eq_ℤ_sound (pos a) (negsuc b) h = cc
eq_ℤ_sound (negsuc a) (pos b) h = cc
eq_ℤ_sound (negsuc a) (negsuc b) h = ap negsuc ((==_iff a b).0 h)

is_some_ℤ_sound : (o : Option ℤ) (a : ℤ) → is_some_ℤ o a ≡ true → o ≡ some a
is_some_ℤ_sound none a h = cc
is_some_ℤ_sound (some b) a h = ap some (eq_ℤ_sound b a h)

-- Keys that compare equal write the same into the hasher.
pub key_eq-hash : (a b : HashKey) → key_eq a b ≡ true → hash a ≡ hash b
unfolding key_eq hash
key_eq-hash (sym_key a) (sym_key b) h = rw ((==_iff a b).0 h)
key_eq-hash (int_key a) (int_key b) h = rw (eq_ℤ_sound a b h)
key_eq-hash (float_key a) (float_key b) h = rw ((==_iff a b).0 h)
key_eq-hash (int_key a) (float_key b) h = rw (is_some_ℤ_sound _ a h)
key_eq-hash (float_key b) (int_key a) h = rw (is_some_ℤ_sound _ a h)
key_eq-hash (bool_key a) (bool_key b) h = rw (eq_bool_sound a b h)
key_eq-hash null_key null_key h = refl
key_eq-hash undefined_key undefined_key h = refl
key_eq-hash (other_key a) (other_key b) h = rw (text_eq_sound a b h)
key_eq-hash _ _ h = cc

pub key_eq-sym_key : (k : HashKey) (id : ℕ) → key_eq k (sym_key id) ≡ true → k ≡ sym_key id
unfolding key_eq
key_eq-sym_key (sym_key a) id h = ap sym_key ((==_iff a id).0 h)
key_eq-sym_key (int_key a) id h = cc
key_eq-sym_key (float_key a) id h = cc
key_eq-sym_key (bool_key a) id h = cc
key_eq-sym_key null_key id h = cc
key_eq-sym_key undefined_key id h = cc
key_eq-sym_key (other_key a) id h = cc

pub key_eq_refl : (k : HashKey) → key_eq k k ≡ true
unfolding key_eq
key_eq_refl (sym_key a) = ==_refl a
key_eq_refl (int_key (pos a)) = ==_refl a
key_eq_refl (int_key (negsuc a)) = ==_refl a
key_eq_refl (float_key a) = ==_refl a
key_eq_refl (bool_key true) = refl
key_eq_refl (bool_key false) = refl
key_eq_refl null_key = refl
key_eq_refl undefined_key = refl
key_eq_refl (other_key a) = text_eq_refl a
