-- ===== src/Imports/Finite.antt =====
-- Recursive imports in imports.rs end, since every file that is entered is one fewer to enter, and
-- no import line is left.
use formlogic_rust.Imports.Line.{cons_char, starts_newline, parse_import_line, trim, lines}
use formlogic_rust.Imports.Resolve.{Visited, contains_path}
use formlogic_rust.Token.Text.{Text, text_eq, text_eq_sound, text_eq_refl}
use formlogic_rust.Common.{
  All, Bool, Bool-cases, List, [], append_assoc, arith, false, if◌then◌else◌, inl, inr, none, refl,
  sym, true, ℕ, ◌&&◌, ◌++◌, ◌+◌, ◌<◌, ◌==◌, ◌∷◌, ◌≡◌, ◌≤◌,
}

unfoldable pub unlines : List Text → Text
unlines [] = []
unlines (l ∷ ls) = l ++ b'\n' ∷ unlines ls

abbrev pub has_newline : Text → Bool
has_newline [] = false
has_newline (c ∷ s) = if c == b'\n' then true else has_newline s

-- Text made of whole lines, none of which is an import.
pub record IsFlat (out : Text) : Type 0 where
  pub flat_lines : List Text
  pub same : out ≡ unlines flat_lines
  pub whole : All (λ l. has_newline l ≡ false) flat_lines
  pub no_imports : All (λ l. parse_import_line (trim l) ≡ none) flat_lines

cons_char_whole :
    (c : ℕ) (ls : List Text)
    → (c == b'\n') ≡ false
    → All (λ l. has_newline l ≡ false) ls
    → All (λ l. has_newline l ≡ false) (cons_char c ls)
cons_char_whole c [] inside h = (rw inside refl, tt)
cons_char_whole c (l ∷ ls) inside (first, h) = (rw inside first, h)

pub lines_whole : (s : Text) → All (λ l. has_newline l ≡ false) (lines s)
unfolding lines
lines_whole [] = tt
lines_whole (c ∷ s) = elim (Bool-cases (c == b'\n')) [
  | inl end ↦ rw end (refl, lines_whole s)
  | inr inside ↦ elim (Bool-cases (c == b'\r' && starts_newline s)) [
    | inl return ↦ rw (inside, return) (lines_whole s)
    | inr other ↦ rw (inside, other) (cons_char_whole c (lines s) inside (lines_whole s))
  ]
]

All-append : (P : Text → Type 0) (xs ys : List Text) → All P xs → All P ys → All P (xs ++ ys)
All-append P [] ys h k = k
All-append P (x ∷ xs) ys (first, h) k = (first, All-append P xs ys h k)

unlines-append : (xs ys : List Text) → unlines (xs ++ ys) ≡ unlines xs ++ unlines ys
unfolding unlines
unlines-append [] ys = refl
unlines-append (x ∷ xs) ys =
    rw (unlines-append xs ys) (sym (append_assoc x (b'\n' ∷ unlines xs) (unlines ys)))

module _ {out out' : Text} where
  pub IsFlat-append : IsFlat out → IsFlat out' → IsFlat (out ++ out')
  IsFlat-append f g = record {
    flat_lines = f.flat_lines ++ g.flat_lines;
    same = rw (f.same, g.same) (sym (unlines-append f.flat_lines g.flat_lines));
    whole = All-append (λ l. has_newline l ≡ false) f.flat_lines g.flat_lines f.whole g.whole;
    no_imports =
        All-append (λ l. parse_import_line (trim l) ≡ none) f.flat_lines g.flat_lines f.no_imports
          g.no_imports;
  }

pub IsFlat-line :
    (l : Text)
    → has_newline l ≡ false
    → parse_import_line (trim l) ≡ none
    → IsFlat (l ++ b'\n' ∷ [])
unfolding unlines
IsFlat-line l whole plain = record {
  flat_lines = l ∷ [];
  same = refl;
  whole = (whole, tt);
  no_imports = (plain, tt);
}

pub IsFlat-nil : IsFlat []
unfolding unlines
IsFlat-nil = record { flat_lines = []; same = refl; whole = tt; no_imports = tt }

pub IsFlat-blank : IsFlat (b'\n' ∷ [])
unfolding trim parse_import_line
IsFlat-blank = IsFlat-line [] refl refl

-- The files that are known and not visited yet.
unfoldable pub missing : List Text → Visited → ℕ
missing [] visited = 0
missing (k ∷ ks) visited =
    if contains_path visited k then missing ks visited else missing ks visited + 1

abbrev pub Grows : Visited → Visited → Type 0
Grows v v' = (p : Text) → contains_path v p ≡ true → contains_path v' p ≡ true

pub Grows-cons : (p : Text) (v : Visited) → Grows v (p ∷ v)
unfolding contains_path
Grows-cons p v q h = elim (Bool-cases (text_eq p q)) [
  | inl same ↦ rw same refl
  | inr other ↦ rw other h
]

pub missing-le : (ks : List Text) (v v' : Visited) → Grows v v' → missing ks v' ≤ missing ks v
unfolding missing
missing-le [] v v' g = omega arith
missing-le (k ∷ ks) v v' g = elim (Bool-cases (contains_path v k)) [
  | inl here ↦ rw (here, g k here) (missing-le ks v v' g)
  | inr absent ↦ elim (Bool-cases (contains_path v' k)) [
    | inl new ↦ rw (absent, new) (omega (arith, missing-le ks v v' g))
    | inr still ↦ rw (absent, still) (omega (arith, missing-le ks v v' g))
  ]
]

pub missing-lt :
    (ks : List Text) (p : Text) (v : Visited)
    → contains_path ks p ≡ true
    → contains_path v p ≡ false
    → missing ks (p ∷ v) < missing ks v
unfolding missing contains_path
missing-lt [] p v h fresh = cc
missing-lt (k ∷ ks) p v h fresh = elim (Bool-cases (text_eq k p)) [
  | inl same ↦
      let equal : k ≡ p = text_eq_sound k p same in
      rw (equal, fresh, text_eq_refl p) (omega (arith, missing-le ks v (p ∷ v) (Grows-cons p v)))
  | inr other ↦
      let later : contains_path ks p ≡ true = rw other at h in
      elim (Bool-cases (contains_path v k)) [
        | inl here ↦ elim (Bool-cases (text_eq p k)) [
          | inl e ↦ rw (here, e) (missing-lt ks p v later fresh)
          | inr e ↦ rw (e, here) (missing-lt ks p v later fresh)
        ]
        | inr absent ↦ elim (Bool-cases (text_eq p k)) [
          | inl e ↦ rw (absent, e) (omega (arith, missing-lt ks p v later fresh))
          | inr e ↦ rw (e, absent) (omega (arith, missing-lt ks p v later fresh))
        ]
      ]
]
