-- ===== src/Imports/Once.antt =====
-- A path that was visited is not read again: imports.rs.
use formlogic_rust.Imports.Line.{parse_import_line, trim, lines, strip_bom}
use formlogic_rust.Imports.Resolve.{
  Visited, contains_path, resolve_path, resolve_lines, resolve_imports_inner, resolve_line,
  resolve_contents,
}
use formlogic_rust.Imports.Finite.{Grows, Grows-cons}
use formlogic_rust.Token.Text.{Text}
use formlogic_rust.Common.{
  Bool, Bool-cases, List, Option, Option-cases, [], false, if◌then◌else◌, inl, inr, map, none, refl,
  some, suc, sym, true, zero, ℕ, ◌∙◌, ◌∷◌, ◌≡◌,
}

-- The result, if there is one, has visited what `v` has.
abbrev Keeps : Visited → Option (Text × Visited) → Type 0
Keeps v o = (out : Text) (v' : Visited) → o ≡ some (out, v') → Grows v v'

abbrev Result : Type 0
Result = Option (Text × Visited)

visited_eq : {a b : Text} {v w : Visited} → ◌≡◌ {A = Result} (some (a, v)) (some (b, w)) → v ≡ w
visited_eq h = cc

no_result : {r : Text × Visited} → ◌≡◌ {A = Result} none (some r) → ⊥
no_result h = cc

Grows-same : {v w : Visited} → v ≡ w → Grows v w
Grows-same e = rw e (λ p h. h)

module _ (resolver : Text → Option Text) (inner : Text → Visited → Result)
    (ih : (source : Text) (v : Visited) → Keeps v (inner source v)) where
  path-Keeps : (path : Text) (v : Visited) → Keeps v (resolve_path resolver inner path v)
  unfolding resolve_path
  path-Keeps path v out v' e = elim (Bool-cases (contains_path v path)) [
    | inl old ↦ Grows-same (visited_eq (rw old at e))
    | inr new ↦ elim (Option-cases (resolver path)) [
      | inl gone ↦
          let same : (path ∷ v) ≡ v' = visited_eq (rw (new, gone) at e) in
          rw (sym same) (Grows-cons path v)
      | inr (contents, found) ↦ elim (Option-cases (inner (strip_bom contents) (path ∷ v))) [
        | inl n ↦ absurd (no_result (rw (new, found, n) at e))
        | inr ((a, w), n) ↦
            let same : w ≡ v' = visited_eq (rw (new, found, n) at e) in
            λ p h.
              rw (sym same) (ih (strip_bom contents) (path ∷ v) a w n p (Grows-cons path v p h))
      ]
    ]
  ]

  line-Keeps :
      (line : Text) (found : Option Text) (v : Visited)
      → Keeps v (resolve_line resolver inner line found v)
  line-Keeps line none v out v' e = Grows-same (visited_eq e)
  line-Keeps line (some path) v out v' e = path-Keeps path v out v' e

  lines_keep : (ls : List Text) (v : Visited) → Keeps v (resolve_lines resolver inner ls v)
  unfolding resolve_lines
  lines_keep [] v out v' e = Grows-same (visited_eq e)
  lines_keep (line ∷ ls) v out v' e =
      elim (Option-cases (resolve_line resolver inner line (parse_import_line (trim line)) v)) [
        | inl n ↦ absurd (no_result (rw n at e))
        | inr ((a, w), n) ↦ elim (Option-cases (resolve_lines resolver inner ls w)) [
          | inl m ↦ absurd (no_result (rw (n, m) at e))
          | inr ((b, u), m) ↦
              let same : u ≡ v' = visited_eq (rw (n, m) at e) in
              λ p h. rw (sym same) (
                lines_keep ls w b u m p
                  (line-Keeps line (parse_import_line (trim line)) v a w n p h))
        ]
      ]

inner-Keeps :
    (resolver : Text → Option Text) (fuel : ℕ) (source : Text) (v : Visited)
    → Keeps v (resolve_imports_inner resolver fuel source v)
unfolding resolve_imports_inner
inner-Keeps resolver zero source v = λ out v' e. absurd (no_result e)
inner-Keeps resolver (suc fuel) source v =
    lines_keep resolver (resolve_imports_inner resolver fuel) (inner-Keeps resolver fuel)
      (lines source) v

-- Two resolvers that say the same of every path that was not visited.
abbrev Agree : Visited → (Text → Option Text) → (Text → Option Text) → Type 0
Agree v r r' = (p : Text) → contains_path v p ≡ false → r p ≡ r' p

Agree-mono : (v w : Visited) (r r' : Text → Option Text) → Grows v w → Agree v r r' → Agree w r r'
Agree-mono v w r r' g a p h = elim (Bool-cases (contains_path v p)) [
  | inl old ↦ absurd (clash (g p old) h)
  | inr new ↦ a p new
]
  where
    clash : {b : Bool} → b ≡ true → b ≡ false → ⊥
    clash h k = cc

module _ (r r' : Text → Option Text) (inner inner' : Text → Visited → Result)
    (ih : (source : Text) (v : Visited) → Agree v r r' → inner source v ≡ inner' source v)
    (keeps : (source : Text) (v : Visited) → Keeps v (inner source v)) where
  path-Agree :
      (path : Text) (v : Visited)
      → Agree v r r'
      → resolve_path r inner path v ≡ resolve_path r' inner' path v
  unfolding resolve_path
  path-Agree path v a = elim (Bool-cases (contains_path v path)) [
    | inl old ↦ rw old refl
    | inr new ↦ rw (new, a path new) (contents_agree (r' path))
  ]
    where
      contents_agree :
          (found : Option Text)
          → resolve_contents r inner found (path ∷ v) ≡ resolve_contents r' inner' found (path ∷ v)
      contents_agree none = refl
      contents_agree (some contents) =
          rw
            (ih (strip_bom contents) (path ∷ v)
              (Agree-mono v (path ∷ v) r r' (Grows-cons path v) a))
            refl

  line-Agree :
      (line : Text) (found : Option Text) (v : Visited)
      → Agree v r r'
      → resolve_line r inner line found v ≡ resolve_line r' inner' line found v
  line-Agree line none v a = refl
  line-Agree line (some path) v a = path-Agree path v a

  lines-Agree :
      (ls : List Text) (v : Visited)
      → Agree v r r'
      → resolve_lines r inner ls v ≡ resolve_lines r' inner' ls v
  unfolding resolve_lines
  lines-Agree [] v a = refl
  lines-Agree (line ∷ ls) v a =
      let found = parse_import_line (trim line) in
      elim (Option-cases (resolve_line r inner line found v)) [
        | inl n ↦ rw (sym (line-Agree line found v a), n) refl
        | inr ((out, w), n) ↦
            rw
              (
                sym (line-Agree line found v a),
                n,
                lines-Agree ls w
                    (Agree-mono v w r r' (line-Keeps r inner keeps line found v out w n) a),
              )
              refl
      ]

-- A line that imports a path of `visited` is taken out of the text, its line end left.
abbrev blank_found : Visited → Text → Option Text → Text
blank_found visited line none = line
blank_found visited line (some path) = if contains_path visited path then [] else line

abbrev pub blank_visited : Visited → Text → Text
blank_visited visited line = blank_found visited line (parse_import_line (trim line))

inner-Agree :
    (r r' : Text → Option Text) (fuel : ℕ) (source : Text) (v : Visited)
    → Agree v r r'
    → resolve_imports_inner r fuel source v ≡ resolve_imports_inner r' fuel source v
unfolding resolve_imports_inner
inner-Agree r r' zero source v a = refl
inner-Agree r r' (suc fuel) source v a =
    lines-Agree r r' (resolve_imports_inner r fuel) (resolve_imports_inner r' fuel)
      (inner-Agree r r' fuel) (inner-Keeps r fuel) (lines source) v a

module _ (resolver : Text → Option Text) (inner : Text → Visited → Result)
    (keeps : (source : Text) (v : Visited) → Keeps v (inner source v)) where
  abbrev resolved : Text → Visited → Result
  resolved line v = resolve_line resolver inner line (parse_import_line (trim line)) v

  resolved_empty : (v : Visited) → resolved [] v ≡ some (b'\n' ∷ [], v)
  unfolding parse_import_line trim
  resolved_empty v = refl

  resolve_path_old :
      (path : Text) (v : Visited)
      → contains_path v path ≡ true
      → resolve_path resolver inner path v ≡ some (b'\n' ∷ [], v)
  unfolding resolve_path
  resolve_path_old path v old = rw old refl

  resolved_blank :
      (line : Text) (v w : Visited)
      → Grows v w
      → resolved line w ≡ resolved (blank_visited v line) w
  resolved_blank line v w g = elim (Option-cases (parse_import_line (trim line))) [
    | inl n ↦ rw (n, n) refl
    | inr (path, e) ↦ elim (Bool-cases (contains_path v path)) [
      | inl old ↦ rw (e, old) (resolve_path_old path w (g path old) ∙ sym (resolved_empty w))
      | inr new ↦ rw (e, new, e) refl
    ]
  ]

  lines_blank :
      (ls : List Text) (v w : Visited)
      → Grows v w
      → resolve_lines resolver inner ls w
        ≡ resolve_lines resolver inner (map (blank_visited v) ls) w
  unfolding resolve_lines
  lines_blank [] v w g = refl
  lines_blank (line ∷ ls) v w g = elim (Option-cases (resolved line w)) [
    | inl n ↦ rw (sym (resolved_blank line v w g), n) refl
    | inr ((out, u), n) ↦
        rw
          (
            sym (resolved_blank line v w g),
            n,
            lines_blank ls v u (λ p h.
                line-Keeps resolver inner keeps line (parse_import_line (trim line)) w out u n p
                  (g p h)),
          )
          refl
  ]

-- A path that was visited is skipped. On any fuel, resolvers that agree on all other paths give the
-- same output and the same visited paths. And a file is resolved as if each of its lines that imports
-- a path visited before were blank.
pub resolve_imports_inner-visited :
    (r r' : Text → Option Text) (fuel : ℕ) (source : Text) (v : Visited)
    → ((p : Text) → contains_path v p ≡ false → r p ≡ r' p)
    → (resolve_imports_inner r fuel source v ≡ resolve_imports_inner r' fuel source v)
      × (resolve_imports_inner r (suc fuel) source v
          ≡ resolve_lines r (resolve_imports_inner r fuel) (map (blank_visited v) (lines source)) v)
unfolding resolve_imports_inner
resolve_imports_inner-visited r r' fuel source v a = (
  inner-Agree r r' fuel source v a,
  lines_blank r (resolve_imports_inner r fuel) (inner-Keeps r fuel) (lines source) v v (λ p h. h),
)
