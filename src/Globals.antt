-- ===== src/Globals.antt =====
-- `SharedGlobals` of crates/formlogic-core/src/vm.rs. The three shared cells are one record, since
-- every clone sees the same cells. `none` stands for an access that the unchecked functions leave
-- undefined.
pub mod Dirty
pub mod Writes
use Prim.Native.Nat.{bit_or}
use formlogic_rust.Value.Word.{undefined_value}
use formlogic_rust.Bits.Single.{test_bit}
use formlogic_rust.Common.{
  Bool, List, Option, false, get_elem?, if◌then◌else◌, ltb, map, none, replicate, set, some, ℕ, ◌%◌,
  ◌+◌, ◌/◌, ◌>>=◌, ◌^◌,
}

abbrev pub globals_size : ℕ
globals_size = 65536

pub record SharedGlobals : Type 0 where
  pub inner : List ℕ
  pub high_water_mark : ℕ
  pub dirty : List ℕ

unfoldable pub new : SharedGlobals
new = record {
  inner = replicate globals_size undefined_value;
  high_water_mark = 0;
  dirty = replicate (globals_size / 64) 0;
}

unfoldable pub set_unchecked : ℕ → ℕ → SharedGlobals → Option SharedGlobals
set_unchecked idx value g = do
  old ← get_elem? g.inner idx
  word ← get_elem? g.dirty (idx / 64)
  some (record {
    inner = set g.inner idx value;
    high_water_mark = (if ltb g.high_water_mark (idx + 1) then idx + 1 else g.high_water_mark);
    dirty = set g.dirty (idx / 64) (bit_or word (2 ^ (idx % 64)));
  })

unfoldable pub get_unchecked : SharedGlobals → ℕ → Option ℕ
get_unchecked g idx = get_elem? g.inner idx

abbrev is_dirty_word : Option ℕ → ℕ → Bool
is_dirty_word none bit = false
is_dirty_word (some word) bit = test_bit word bit

unfoldable pub is_dirty : SharedGlobals → ℕ → Bool
is_dirty g idx = is_dirty_word (get_elem? g.dirty (idx / 64)) (idx % 64)

unfoldable pub clear_dirty : SharedGlobals → SharedGlobals
clear_dirty g = record g { dirty = map (λ word. 0) g.dirty }
