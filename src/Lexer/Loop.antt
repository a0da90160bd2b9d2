-- ===== src/Lexer/Loop.antt =====
-- Loops that end by a `break`, on fuel: `none` is a loop cut short.
use formlogic_rust.Common.{Option, arith, none, some, suc, zero, ℕ, ◌<◌, ◌∙◌, ◌≡◌}

pub data Flow {ℓ} (S : Type ℓ) : Type ℓ where
  stop : S → Flow S
  again : S → Flow S

module _ {ℓ} {S : Type ℓ} where
  unfoldable pub run : ℕ → (S → Option (Flow S)) → S → Option S
  run zero body s = none
  run (suc fuel) body s = elim (body s) [
    | none ↦ none
    | some (Flow.stop s') ↦ some s'
    | some (Flow.again s') ↦ run fuel body s'
  ]

module _ {ℓ} {S : Type ℓ} (body : S → Option (Flow S)) where
  pub run-stop :
      {s s' : S} (fuel : ℕ) → body s ≡ some (Flow.stop s') → run (suc fuel) body s ≡ some s'
  unfolding run
  run-stop fuel e = rw (run, e)

  pub run-again :
      {s s' : S} (fuel : ℕ)
      → body s ≡ some (Flow.again s')
      → run (suc fuel) body s ≡ run fuel body s'
  unfolding run
  run-again fuel e = rw (run, e)

-- What one turn of a loop owes: the invariant and a smaller measure, or the postcondition.
module _ {ℓ κ} {S : Type ℓ} (Inv Post : S → Type κ) (measure : S → ℕ) where
  abbrev pub Turn : S → Flow S → Type κ
  Turn s (Flow.stop s') = Post s'
  Turn s (Flow.again s') = Inv s' × (measure s' < measure s)

  abbrev Finishes : (S → Option (Flow S)) → ℕ → S → Type (ℓ ⊔ κ)
  Finishes body fuel s = (s' : S) × (run fuel body s ≡ some s') × Post s'

  finish-Turn :
      (body : S → Option (Flow S)) (fuel : ℕ) (s : S) (flow : Flow S)
      → body s ≡ some flow
      → Turn s flow
      → ((s' : S) → Inv s' → measure s' < measure s → Finishes body fuel s')
      → Finishes body (suc fuel) s
  finish-Turn body fuel s (Flow.stop s') e post rest = (s', run-stop body fuel e, post)
  finish-Turn body fuel s (Flow.again s') e (inv, less) rest =
      let (r, eq, post) = rest s' inv less in (r, run-again body fuel e ∙ eq, post)

  -- Fuel above the measure is enough.
  pub run-result :
      (body : S → Option (Flow S))
      → ((s : S) → Inv s → (flow : Flow S) × (body s ≡ some flow) × Turn s flow)
      → (fuel : ℕ) (s : S) → Inv s
      → measure s < fuel
      → (s' : S) × (run fuel body s ≡ some s') × Post s'
  run-result body turn zero s inv h = absurd (omega arith)
  run-result body turn (suc fuel) s inv h =
      let (flow, e, t) = turn s inv in
      finish-Turn body fuel s flow e t
        (λ s' inv' less. run-result body turn fuel s' inv' (omega arith))
