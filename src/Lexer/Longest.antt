-- ===== src/Lexer/Longest.antt =====
-- The operators in the order of `Lexer::new`: the search finds a longest one.
use mathlib.Core.List.{Memᴰ}
use formlogic_rust.Lexer.Cursor.{Lexer}
use formlogic_rust.Lexer.Operator.{insert_op, sort_ops, starts_with, find_op}
use formlogic_rust.Token.Text.{Text}
use formlogic_rust.Common.{
  All, Bool, Bool-cases, List, Option-cases, [], arith, false, inl, inr, leb, leb→le, length, none,
  refl, some, sym, true, ◌∙◌, ◌∷◌, ◌≡◌, ◌≤◌, ◌⊎◌,
}

-- The longer ones first.
abbrev IsSorted : List Text → Type 0
IsSorted [] = Unit
IsSorted (op ∷ ops) = All (λ o. length o ≤ length op) ops × IsSorted ops

module _ (P : Text → Type 0) where
  insert_op-All : (op : Text) (ops : List Text) → P op → All P ops → All P (insert_op op ops)
  insert_op-All op [] p ps = (p, tt)
  insert_op-All op (o ∷ ops) p (q, qs) = elim (Bool-cases (leb (length o) (length op))) [
    | inl longer ↦ rw longer (p, (q, qs))
    | inr shorter ↦ rw shorter (q, insert_op-All op ops p qs)
  ]

  pub sort_ops-All : (ops : List Text) → All P ops → All P (sort_ops ops)
  sort_ops-All [] ps = tt
  sort_ops-All (op ∷ ops) (p, ps) = insert_op-All op (sort_ops ops) p (sort_ops-All ops ps)

  All-Mem : (ops : List Text) {x : Text} → All P ops → Memᴰ x ops → P x
  All-Mem [] ps m = elim m [ ]
  All-Mem (op ∷ ops) (p, ps) (Memᴰ.head e) = rw e p
  All-Mem (op ∷ ops) (p, ps) (Memᴰ.tail m) = All-Mem ops ps m

  All-of_Mem : (ops : List Text) → ((x : Text) → Memᴰ x ops → P x) → All P ops
  All-of_Mem [] f = tt
  All-of_Mem (op ∷ ops) f = (f op (Memᴰ.head refl), All-of_Mem ops (λ x m. f x (Memᴰ.tail m)))

  All-map :
      (Q : Text → Type 0) → ((o : Text) → P o → Q o) → (ops : List Text) → All P ops → All Q ops
  All-map Q f [] ps = tt
  All-map Q f (o ∷ ops) (p, ps) = (f o p, All-map Q f ops ps)

shorten :
    (o op : Text) (ops : List Text)
    → length o ≤ length op
    → All (λ x. length x ≤ length o) ops
    → All (λ x. length x ≤ length op) ops
shorten o op ops h =
    All-map (λ x. length x ≤ length o) (λ x. length x ≤ length op) (λ x below. omega arith) ops

insert_op-IsSorted : (op : Text) (ops : List Text) → IsSorted ops → IsSorted (insert_op op ops)
insert_op-IsSorted op [] s = (tt, tt)
insert_op-IsSorted op (o ∷ ops) (below, s) = elim (Bool-cases (leb (length o) (length op))) [
  | inl longer ↦
      let first : length o ≤ length op = leb→le (length o) (length op) longer in
      rw longer ((first, shorten o op ops first below), (below, s))
  | inr shorter ↦
      let first : length op ≤ length o = ground arith in
      rw shorter
        (insert_op-All (λ x. length x ≤ length o) op ops first below, insert_op-IsSorted op ops s)
]

sort_ops-IsSorted : (ops : List Text) → IsSorted (sort_ops ops)
sort_ops-IsSorted [] = tt
sort_ops-IsSorted (op ∷ ops) = insert_op-IsSorted op (sort_ops ops) (sort_ops-IsSorted ops)

insert_op-head : (op : Text) (ops : List Text) → Memᴰ op (insert_op op ops)
insert_op-head op [] = Memᴰ.head refl
insert_op-head op (o ∷ ops) = elim (Bool-cases (leb (length o) (length op))) [
  | inl longer ↦ rw longer (Memᴰ.head refl)
  | inr shorter ↦ rw shorter (Memᴰ.tail (insert_op-head op ops))
]

insert_op-tail : (op : Text) (ops : List Text) {x : Text} → Memᴰ x ops → Memᴰ x (insert_op op ops)
insert_op-tail op [] m = Memᴰ.tail m
insert_op-tail op (o ∷ ops) (Memᴰ.head e) = elim (Bool-cases (leb (length o) (length op))) [
  | inl longer ↦ rw longer (Memᴰ.tail (Memᴰ.head e))
  | inr shorter ↦ rw shorter (Memᴰ.head e)
]
insert_op-tail op (o ∷ ops) (Memᴰ.tail m) = elim (Bool-cases (leb (length o) (length op))) [
  | inl longer ↦ rw longer (Memᴰ.tail (Memᴰ.tail m))
  | inr shorter ↦ rw shorter (Memᴰ.tail (insert_op-tail op ops m))
]

sort_ops-keeps : (ops : List Text) {x : Text} → Memᴰ x ops → Memᴰ x (sort_ops ops)
sort_ops-keeps [] m = elim m [ ]
sort_ops-keeps (op ∷ ops) (Memᴰ.head e) = rw e (insert_op-head op (sort_ops ops))
sort_ops-keeps (op ∷ ops) (Memᴰ.tail m) = insert_op-tail op (sort_ops ops) (sort_ops-keeps ops m)

sort_ops-from : (ops : List Text) {x : Text} → Memᴰ x (sort_ops ops) → Memᴰ x ops
sort_ops-from ops m =
    All-Mem (λ x. Memᴰ x ops) (sort_ops ops)
      (sort_ops-All (λ x. Memᴰ x ops) ops (All-of_Mem (λ x. Memᴰ x ops) ops (λ x k. k))) m

some_injective : {o x : Text} → some o ≡ some x → o ≡ x
some_injective h = cc

no_both : (b : Bool) → b ≡ true → b ≡ false → ⊥
no_both b h g = cc

unsorted : (P : Text → Type 0) (ops : List Text) → All P (sort_ops ops) → All P ops
unsorted P ops ps = All-of_Mem P ops (λ x m. All-Mem P (sort_ops ops) ps (sort_ops-keeps ops m))

module _ (l : Lexer) where
  further :
      (o op : Text) (ops : List Text)
      → o ≡ op
      → All (λ x. length x ≤ length o) ops
      → All (λ x. starts_with l x ≡ true → length x ≤ length op) ops
  further o op ops same =
      All-map (λ x. length x ≤ length o) (λ x. starts_with l x ≡ true → length x ≤ length op)
        (λ x le h. rw (sym same) le) ops

  find_op-hit :
      (op : Text) (ops : List Text) → starts_with l op ≡ true → find_op l (op ∷ ops) ≡ some op
  unfolding find_op
  find_op-hit op ops e = rw e refl

  find_op-miss :
      (op : Text) (ops : List Text)
      → starts_with l op ≡ false
      → find_op l (op ∷ ops) ≡ find_op l ops
  unfolding find_op
  find_op-miss op ops e = rw e refl

  find_op-nil : {op : Text} → find_op l [] ≡ some op → ⊥
  unfolding find_op
  find_op-nil h = cc

  pub find_op-All :
      (P : Text → Type 0) (ops : List Text) (op : Text) → All P ops → find_op l ops ≡ some op → P op
  find_op-All P [] op ps e = absurd (find_op-nil e)
  find_op-All P (o ∷ ops) op (p, ps) e = elim (Bool-cases (starts_with l o)) [
    | inl found ↦ rw (some_injective (sym e ∙ find_op-hit o ops found)) p
    | inr other ↦ find_op-All P ops op ps (sym (find_op-miss o ops other) ∙ e)
  ]

  find_op-none : (ops : List Text) → find_op l ops ≡ none → All (λ x. starts_with l x ≡ false) ops
  find_op-none [] e = tt
  find_op-none (op ∷ ops) e = elim (Bool-cases (starts_with l op)) [
    | inl found ↦ absurd (clash (sym (find_op-hit op ops found) ∙ e))
    | inr other ↦ (other, find_op-none ops (sym (find_op-miss op ops other) ∙ e))
  ]
    where
      clash : {o : Text} → some o ≡ none → ⊥
      clash h = cc

  -- The first that fits, in an order by length, is a longest that fits.
  find_op-some :
      (ops : List Text) (op : Text)
      → IsSorted ops
      → find_op l ops ≡ some op
      → Memᴰ op ops
        × (starts_with l op ≡ true)
        × All (λ x. starts_with l x ≡ true → length x ≤ length op) ops
  find_op-some [] op s e = absurd (find_op-nil e)
  find_op-some (o ∷ ops) op (below, s) e = elim (Bool-cases (starts_with l o)) [
    | inl found ↦
        let same : o ≡ op = some_injective (sym (find_op-hit o ops found) ∙ e) in
        (
          Memᴰ.head (sym same),
          rw (sym same) found,
          (λ h. rw (sym same) (omega arith), further o op ops same below),
        )
    | inr other ↦
        let (m, fits, longest) = find_op-some ops op s (sym (find_op-miss o ops other) ∙ e) in
        (Memᴰ.tail m, fits, (λ h. absurd (no_both (starts_with l o) h other), longest))
  ]

-- `Lexer::new`'s order makes the search of `produce_token` find a longest operator: when it finds
-- one, the operator is in the table, the input goes on with it, and no operator of the table that
-- the input goes on with is longer; when it finds none, the input goes on with none of the table.
pub find_op-sort_ops :
    (l : Lexer) (ops : List Text)
    → ((find_op l (sort_ops ops) ≡ none) × All (λ x. starts_with l x ≡ false) ops)
      ⊎ ((op : Text) × (find_op l (sort_ops ops) ≡ some op)
          × Memᴰ op ops
          × (starts_with l op ≡ true)
          × All (λ x. starts_with l x ≡ true → length x ≤ length op) ops)
find_op-sort_ops l ops = elim (Option-cases (find_op l (sort_ops ops))) [
  | inl nothing ↦
      let none_fits = find_op-none l (sort_ops ops) nothing in
      inl (nothing, unsorted (λ x. starts_with l x ≡ false) ops none_fits)
  | inr (op, e) ↦
      let (m, fits, longest) = find_op-some l (sort_ops ops) op (sort_ops-IsSorted ops) e in
      inr (
        op,
        e,
        sort_ops-from ops m,
        fits,
        unsorted (λ x. starts_with l x ≡ true → length x ≤ length op) ops longest,
      )
]
