-- ===== src/Tests/Importing.antt =====
-- Imports of concrete files, one of which imports itself.
use formlogic_rust.Imports.Line.{parse_import_line, trim, lines}
use formlogic_rust.Imports.Resolve.{
  contains_path, resolve_imports, resolve_imports_inner, resolve_lines,
}
use formlogic_rust.Imports.Finite.{IsFlat}
use formlogic_rust.Imports.Total.{resolve_imports-IsFlat}
use formlogic_rust.Imports.Once.{blank_visited, resolve_imports_inner-visited}
use formlogic_rust.Token.Text.{Text, chars, text_eq}
use formlogic_rust.Common.{
  Bool-cases, Option, [], false, if◌then◌else◌, inl, inr, length, map, none, refl, some, true, ◌+◌,
  ◌∷◌, ◌≡◌, ◌≢◌,
}

-- `a` imports itself, and no other file exists.
abbrev files : Text → Option Text
files p = if text_eq (chars "a") p then some (chars "import 'a'") else none

files_finite : (p : Text) → files p ≢ none → contains_path (chars "a" ∷ []) p ≡ true
unfolding contains_path
files_finite p found = elim (Bool-cases (text_eq (chars "a") p)) [
  | inl e ↦ rw e refl
  | inr e ↦ absurd (found (rw e refl))
]

abbrev program : Text
program = chars "import \"a\";"

parsed : parse_import_line program ≡ some (chars "a")
unfolding parse_import_line trim
parsed = refl

refused : parse_import_line (chars "import 'a' b") ≡ none
unfolding parse_import_line trim
refused = refl

split_crlf : lines (10 ∷ 97 ∷ 13 ∷ 10 ∷ 98 ∷ []) ≡ ([] ∷ (97 ∷ []) ∷ (98 ∷ []) ∷ [])
unfolding lines
split_crlf = refl

resolve_imports-IsFlat_example :
    (out : Text) × (resolve_imports files (length (chars "a" ∷ []) + 1) program ≡ some out)
    × IsFlat out
resolve_imports-IsFlat_example = resolve_imports-IsFlat files (chars "a" ∷ []) files_finite program

abbrev no_files : Text → Option Text
no_files p = none

only_a : (p : Text) → contains_path (chars "a" ∷ []) p ≡ false → files p ≡ no_files p
unfolding contains_path
only_a p new = elim (Bool-cases (text_eq (chars "a") p)) [
  | inl e ↦ absurd (clash (rw e at new))
  | inr e ↦ rw e refl
]
  where
    clash : true ≡ false → ⊥
    clash h = cc

resolve_imports_inner-visited_example :
    (resolve_imports_inner files 2 program (chars "a" ∷ [])
      ≡ resolve_imports_inner no_files 2 program (chars "a" ∷ []))
    × (resolve_imports_inner files 3 program (chars "a" ∷ [])
        ≡ resolve_lines files
            (resolve_imports_inner files 2)
            (map (blank_visited (chars "a" ∷ [])) (lines program))
            (chars "a" ∷ []))
resolve_imports_inner-visited_example =
    resolve_imports_inner-visited files no_files 2 program (chars "a" ∷ []) only_a
