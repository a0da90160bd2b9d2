-- ===== src/Imports/Resolve.antt =====
-- `resolve_imports` of imports.rs. The resolver is a function of the path; the visited set is a list.
-- A file inside a file takes one unit of fuel, and `none` stands for running out of it.
use formlogic_rust.Imports.Line.{parse_import_line, trim, lines, strip_bom}
use formlogic_rust.Token.Text.{Text, text_eq}
use formlogic_rust.Common.{
  Bool, List, Option, [], false, if◌then◌else◌, none, some, suc, true, zero, ℕ, ◌++◌, ◌>>=◌, ◌∷◌,
}

abbrev pub Visited : Type 0
Visited = List Text

unfoldable pub contains_path : Visited → Text → Bool
contains_path [] path = false
contains_path (p ∷ visited) path =
    let rest = contains_path visited path in if text_eq p path then true else rest

-- What one line adds to the output, and the paths visited then. `inner` is the recursive call.
abbrev pub push_resolved : Option (Text × Visited) → Option (Text × Visited)
push_resolved none = none
push_resolved (some (resolved, visited)) = some (resolved ++ b'\n' ∷ [], visited)

module _ (resolver : Text → Option Text) (inner : Text → Visited → Option (Text × Visited)) where
  abbrev pub resolve_contents : Option Text → Visited → Option (Text × Visited)
  resolve_contents (some contents) visited = push_resolved (inner (strip_bom contents) visited)
  resolve_contents none visited = some (b'\n' ∷ [], visited)

  unfoldable pub resolve_path : Text → Visited → Option (Text × Visited)
  unfolding contains_path strip_bom
  resolve_path path visited =
      if contains_path visited path
      then some (b'\n' ∷ [], visited)
      else resolve_contents (resolver path) (path ∷ visited)

  abbrev pub resolve_line : Text → Option Text → Visited → Option (Text × Visited)
  resolve_line line none visited = some (line ++ b'\n' ∷ [], visited)
  resolve_line line (some path) visited = resolve_path path visited

  unfoldable pub resolve_lines : List Text → Visited → Option (Text × Visited)
  unfolding resolve_path parse_import_line trim
  resolve_lines [] visited = some ([], visited)
  resolve_lines (line ∷ ls) visited = do
    (out, visited') ← resolve_line line (parse_import_line (trim line)) visited
    (rest, visited'') ← resolve_lines ls visited'
    some (out ++ rest, visited'')

unfoldable pub resolve_imports_inner :
    (Text → Option Text) → ℕ → Text → Visited → Option (Text × Visited)
unfolding resolve_lines lines
resolve_imports_inner resolver zero source visited = none
resolve_imports_inner resolver (suc fuel) source visited =
    resolve_lines resolver (resolve_imports_inner resolver fuel) (lines source) visited

unfoldable pub resolve_imports : (Text → Option Text) → ℕ → Text → Option Text
unfolding resolve_imports_inner strip_bom
resolve_imports resolver fuel source = do
  (output, visited) ← resolve_imports_inner resolver fuel (strip_bom source) []
  some output
