-- ===== src/Globals/Dirty.antt =====
-- `SharedGlobals` of vm.rs: what one write and a sequence of writes leave in the slots, the
-- high-water mark and the dirty bits.
use Prim.Native.Nat.{bit_or}
use formlogic_rust.Value.Word.{undefined_value}
use formlogic_rust.Bits.Single.{test_bit-or_self, test_bit-or_ne}
use formlogic_rust.Globals.{
  SharedGlobals, globals_size, new, set_unchecked, get_unchecked, is_dirty,
}
use formlogic_rust.Common.{
  ==_iff, Bool-cases, arith, get_elem?, get_elem?-lt, get_elem?-set_ne, get_elem?-set_self,
  if◌then◌else◌, inl, inr, length, length-replicate, length-set, ltb, refl, replicate, set, some,
  some_below, suc, sym, true, zero, ℕ, ◌%◌, ◌+◌, ◌/◌, ◌<◌, ◌==◌, ◌^◌, ◌∙◌, ◌≡◌, ◌≢◌, ◌≤◌,
}

pub record IsShared (g : SharedGlobals) : Type 0 where
  pub slots : length g.inner ≡ globals_size
  pub words : length g.dirty ≡ globals_size / 64
  pub bounded : g.high_water_mark ≤ globals_size
  -- Above the mark no slot was written.
  pub untouched :
      (i v : ℕ) → g.high_water_mark ≤ i → get_unchecked g i ≡ some v → v ≡ undefined_value

get_elem?-replicate : (n a i : ℕ) {v : ℕ} → get_elem? (replicate n a) i ≡ some v → v ≡ a
get_elem?-replicate zero a i h = cc
get_elem?-replicate (suc n) a zero h = cc
get_elem?-replicate (suc n) a (suc i) h = get_elem?-replicate n a i h

pub new-IsShared : IsShared new
unfolding new get_unchecked
new-IsShared = record {
  slots = length-replicate globals_size undefined_value;
  words = length-replicate {A = ℕ} (globals_size / 64) 0;
  bounded = omega arith;
  untouched = λ i v above e. get_elem?-replicate globals_size undefined_value i e;
}

-- What a write of `value` at `idx` makes of `g`.
pub record IsWritten (idx value : ℕ) (g g' : SharedGlobals) : Type 0 where
  pub shared : IsShared g'
  pub here : get_unchecked g' idx ≡ some value
  pub elsewhere : (j : ℕ) → idx ≢ j → get_unchecked g' j ≡ get_unchecked g j
  pub dirty_here : is_dirty g' idx ≡ true
  pub dirty_elsewhere : (j : ℕ) → idx ≢ j → is_dirty g' j ≡ is_dirty g j
  pub covered : idx < g'.high_water_mark

raised : ℕ → ℕ → ℕ
raised mark idx = if ltb mark (idx + 1) then idx + 1 else mark

raised-le : (mark idx : ℕ) → (idx < raised mark idx) × (mark ≤ raised mark idx)
unfolding raised
raised-le mark idx = ground arith

raised-bound : (mark idx n : ℕ) → mark ≤ n → idx < n → raised mark idx ≤ n
unfolding raised
raised-bound mark idx n h k = ground arith

module _ (idx value : ℕ) (g : SharedGlobals) (ok : IsShared g) (small : idx < globals_size)
    (word : ℕ) (at : get_elem? g.dirty (idx / 64) ≡ some word) where
  written : SharedGlobals
  unfolding raised
  written = record {
    inner = set g.inner idx value;
    high_water_mark = raised g.high_water_mark idx;
    dirty = set g.dirty (idx / 64) (bit_or word (2 ^ (idx % 64)));
  }

  written_dirty_here : is_dirty written idx ≡ true
  unfolding written is_dirty
  written_dirty_here =
      rw
        (get_elem?-set_self g.dirty (idx / 64) (bit_or word (2 ^ (idx % 64))) (get_elem?-lt _ _ at))
        (test_bit-or_self word (idx % 64))

  written_dirty_elsewhere : (j : ℕ) → idx ≢ j → is_dirty written j ≡ is_dirty g j
  unfolding written is_dirty
  written_dirty_elsewhere j ne = elim (Bool-cases (idx / 64 == j / 64)) [
    | inl same ↦
        let word_same : idx / 64 ≡ j / 64 = (==_iff _ _).0 same in
        let bit_other : idx % 64 ≢ j % 64 = λ e. ne (omega arith) in
        rw
          (
            sym word_same,
            get_elem?-set_self g.dirty (idx / 64) (bit_or word (2 ^ (idx % 64)))
                (get_elem?-lt _ _ at),
            at,
          )
          (test_bit-or_ne word bit_other)
    | inr other ↦
        let word_other : idx / 64 ≢ j / 64 = λ e. ground arith in
        rw (get_elem?-set_ne g.dirty (bit_or word (2 ^ (idx % 64))) word_other) refl
  ]

  written-IsShared : IsShared written
  unfolding written get_unchecked
  written-IsShared = record {
    slots = length-set g.inner idx value ∙ ok.slots;
    words = length-set g.dirty (idx / 64) _ ∙ ok.words;
    bounded = raised-bound g.high_water_mark idx globals_size ok.bounded small;
    untouched = λ i v above e.
        let order = raised-le g.high_water_mark idx in
        let ne : idx ≢ i = λ same. omega arith in
        ok.untouched i v (omega (arith, order)) (sym (get_elem?-set_ne g.inner value ne) ∙ e);
  }

  written-IsWritten : IsWritten idx value g written
  unfolding written get_unchecked
  written-IsWritten = record {
    shared = written-IsShared;
    here = get_elem?-set_self g.inner idx value (omega (arith, ok.slots));
    elsewhere = λ j ne. get_elem?-set_ne g.inner value ne;
    dirty_here = written_dirty_here;
    dirty_elsewhere = written_dirty_elsewhere;
    covered = (raised-le g.high_water_mark idx).0;
  }

-- A write inside the table succeeds; it changes that slot and its dirty bit alone, and the slot is
-- below the new high-water mark.
pub set_unchecked_lem :
    (idx value : ℕ) (g : SharedGlobals)
    → IsShared g
    → idx < globals_size
    → (g' : SharedGlobals) × (set_unchecked idx value g ≡ some g') × IsWritten idx value g g'
unfolding set_unchecked written raised
set_unchecked_lem idx value g ok small =
    let (old, there) = some_below g.inner idx (omega (arith, ok.slots)) in
    let (word, at) = some_below g.dirty (idx / 64) (omega (arith, ok.words)) in
    (
      written idx value g ok small word at,
      rw (there, at) refl,
      written-IsWritten idx value g ok small word at,
    )
