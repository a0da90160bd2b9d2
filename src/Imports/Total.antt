-- ===== src/Imports/Total.antt =====
-- `resolve_imports` of imports.rs returns when the resolver knows finitely many files.
use formlogic_rust.Imports.Line.{parse_import_line, trim, lines, strip_bom}
use formlogic_rust.Imports.Resolve.{
  Visited, contains_path, resolve_path, resolve_lines, resolve_imports_inner, resolve_imports,
  resolve_line,
}
use formlogic_rust.Imports.Finite.{
  IsFlat, IsFlat-append, IsFlat-line, IsFlat-blank, IsFlat-nil, Grows, Grows-cons, missing,
  missing-le, missing-lt, has_newline, lines_whole,
}
use formlogic_rust.Token.Text.{Text}
use formlogic_rust.Common.{
  All, Bool-cases, List, Option, Option-cases, [], arith, false, inl, inr, length, none, refl, some,
  some-none, suc, sym, true, zero, ℕ, ◌++◌, ◌+◌, ◌<◌, ◌∙◌, ◌∷◌, ◌≡◌, ◌≢◌, ◌≤◌,
}

-- A run that gives whole lines without imports, and only adds to the visited paths.
abbrev Ends : Visited → Option (Text × Visited) → Type 0
Ends v o = (out : Text) × (v' : Visited) × (o ≡ some (out, v')) × IsFlat out × Grows v v'

module _ (resolver : Text → Option Text) (known : List Text)
    (finite : (p : Text) → resolver p ≢ none → contains_path known p ≡ true) where
  module _ (inner : Text → Visited → Option (Text × Visited)) (fuel : ℕ)
      (ih : (source : Text) (v : Visited) → missing known v < fuel → Ends v (inner source v)) where
    path-Ends :
        (path : Text) (v : Visited)
        → missing known v ≤ fuel
        → Ends v (resolve_path resolver inner path v)
    unfolding resolve_path
    path-Ends path v enough = elim (Bool-cases (contains_path v path)) [
      | inl old ↦ (b'\n' ∷ [], v, rw old refl, IsFlat-blank, λ p h. h)
      | inr new ↦ elim (Option-cases (resolver path)) [
        | inl gone ↦ (b'\n' ∷ [], path ∷ v, rw (new, gone) refl, IsFlat-blank, Grows-cons path v)
        | inr (contents, found) ↦
            let here : contains_path known path ≡ true =
              finite path (λ n. some-none (sym n ∙ found)) in
            let (out, v', e, flat, grows) =
              ih (strip_bom contents) (path ∷ v)
                (omega (arith, missing-lt known path v here new)) in
            (
              out ++ b'\n' ∷ [],
              v',
              rw (new, found, e) refl,
              IsFlat-append flat IsFlat-blank,
              λ p h. grows p (Grows-cons path v p h),
            )
      ]
    ]

    line-Ends :
        (line : Text) (v : Visited)
        → has_newline line ≡ false
        → missing known v ≤ fuel
        → Ends v (resolve_line resolver inner line (parse_import_line (trim line)) v)
    line-Ends line v whole enough = elim (Option-cases (parse_import_line (trim line))) [
      | inl plain ↦ (line ++ b'\n' ∷ [], v, rw plain refl, IsFlat-line line whole plain, λ p h. h)
      | inr (path, e) ↦ rw e (path-Ends path v enough)
    ]

    lines_end :
        (ls : List Text) (v : Visited)
        → All (λ l. has_newline l ≡ false) ls
        → missing known v ≤ fuel
        → Ends v (resolve_lines resolver inner ls v)
    unfolding resolve_lines
    lines_end [] v whole enough = ([], v, refl, IsFlat-nil, λ p h. h)
    lines_end (line ∷ ls) v (first, whole) enough =
        let (out, v', e, flat, grows) = line-Ends line v first enough in
        let (rest, v'', e', flat', grows') =
          lines_end ls v' whole (omega (arith, missing-le known v v' grows)) in
        (out ++ rest, v'', rw (e, e') refl, IsFlat-append flat flat', λ p h. grows' p (grows p h))

  inner-Ends :
      (fuel : ℕ) (source : Text) (v : Visited)
      → missing known v < fuel
      → Ends v (resolve_imports_inner resolver fuel source v)
  unfolding resolve_imports_inner
  inner-Ends zero source v enough = absurd (omega arith)
  inner-Ends (suc fuel) source v enough =
      lines_end (resolve_imports_inner resolver fuel) fuel (inner-Ends fuel) (lines source) v
        (lines_whole source) (omega arith)

  missing-length : (ks : List Text) (v : Visited) → missing ks v ≤ length ks
  unfolding missing
  missing-length [] v = omega arith
  missing-length (k ∷ ks) v = elim (Bool-cases (contains_path v k)) [
    | inl here ↦ rw here (omega (arith, missing-length ks v))
    | inr absent ↦ rw absent (omega (arith, missing-length ks v))
  ]

  -- If the resolver finds files only under the paths of a list, then fuel of one more than the list
  -- is long is enough, also for circular imports; and the output is whole lines none of which is an
  -- import.
  pub resolve_imports-IsFlat :
      (source : Text)
      → (out : Text) × (resolve_imports resolver (length known + 1) source ≡ some out) × IsFlat out
  unfolding resolve_imports
  resolve_imports-IsFlat source =
      let (out, v, e, flat, grows) =
        inner-Ends (length known + 1) (strip_bom source) []
          (omega (arith, missing-length known [])) in
      (out, rw e refl, flat)
