-- ===== src/Interner/Table.antt =====
-- `Interner` of intern.rs. The hash map is an association list, which an insertion extends in front.
use formlogic_rust.Token.Text.{text_eq}
use formlogic_rust.Common.{
  Bytes, List, Option, [], get_elem?, if◌then◌else◌, length, none, some, ℕ, ◌%◌, ◌++◌, ◌^◌, ◌∷◌,
}

pub record Interner : Type 0 where
  pub strings : List Bytes
  pub ids : List (Bytes × ℕ)

-- `FxHashMap::get`
unfoldable pub find : List (Bytes × ℕ) → Bytes → Option ℕ
find [] s = none
find ((key, id) ∷ ids) s = let rest = find ids s in if text_eq key s then some id else rest

unfoldable pub empty : Interner
empty = record { strings = []; ids = [] }

-- `s` has no id yet.
unfoldable pub add : Bytes → Interner → ℕ × Interner
add s t =
    let id = length t.strings % 2 ^ 32 in
    (id, record { strings = t.strings ++ s ∷ []; ids = (s, id) ∷ t.ids })

abbrev known_or_add : Bytes → Interner → Option ℕ → ℕ × Interner
known_or_add s t (some id) = (id, t)
known_or_add s t none = add s t

unfoldable pub intern : Bytes → Interner → ℕ × Interner
unfolding find add
intern s t = known_or_add s t (find t.ids s)

-- It copies the pointer instead of the string.
unfoldable pub intern_rc : Bytes → Interner → ℕ × Interner
unfolding find add
intern_rc s t = known_or_add s t (find t.ids s)

-- `none` stands for a panic.
unfoldable pub resolve : ℕ → Interner → Option Bytes
resolve id t = get_elem? t.strings id

unfoldable pub intern_str : Bytes → Interner → Option Bytes × Interner
unfolding intern
intern_str s t = let r = intern s t in (get_elem? r.1.strings r.0, r.1)
