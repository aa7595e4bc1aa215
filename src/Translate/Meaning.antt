-- ===== src/Translate/Meaning.antt =====
-- What a block of calls does when it runs. The code that a frontend emits is a parameter; a branch
-- goes to its target, a conditional branch to the first target if its condition holds.
use native.Mathlib.Nat.{one-le-pow}
use libcpu.Base.{
  arith, ℕ, ◌%◌, ◌^◌, ◌<◌, ◌≡◌, Bool, Option, none, some, List, [], ◌∷◌, if◌then◌else◌,
}
use libcpu.Translate.Builder.{Target, Call, Trace, contents}

-- The guest's registers and memory, and what the code that the frontend emits does to them:
-- `translate_instr` at an address, and `translate_cond` at it. `pc_of` and `set_pc` are `ptr_PC`, a
-- register of `address_size` bits (`info.address_size`).
pub record Machine (S : Type 0) : Type 0 where
  pub exec : ℕ → S → S
  pub holds : ℕ → S → Bool
  pub pc_of : S → ℕ
  pub set_pc : ℕ → S → S
  pub address_size : ℕ

-- `ConstantInt::get(getIntegerType(cpu->info.address_size), a)`
abbrev pub constant : {S : Type 0} → Machine S → ℕ → ℕ
constant m a = a % 2 ^ m.address_size

-- The PC keeps the constants that are stored in it.
abbrev pub KeepsPc : {S : Type 0} → Machine S → Type 0
KeepsPc {S = S} m = (a : ℕ) (s : S) → a < 2 ^ m.address_size → m.pc_of (m.set_pc a s) ≡ a

pub KeepsPc-constant :
    {S : Type 0} (m : Machine S) (a : ℕ) (s : S)
    → KeepsPc m
    → m.pc_of (m.set_pc (constant m a) s) ≡ constant m a
KeepsPc-constant m a s keeps = keeps (constant m a) s (omega (arith, one-le-pow m.address_size 2))

module _ {S : Type 0} (m : Machine S) where
  -- Where a block goes, and the state then; `none` is a block with no terminator.
  unfoldable pub run : List Call → S → Option (Target × S)
  run [] s = none
  run (Call.instr pc ∷ cs) s = run cs (m.exec pc s)
  run (Call.store_pc a ∷ cs) s = run cs (m.set_pc (constant m a) s)
  run (Call.branch t ∷ cs) s = some (t, s)
  run (Call.cond_branch pc t f ∷ cs) s = some ((if m.holds pc s then t else f), s)

  -- A block of the instruction itself runs on; the other targets are left.
  unfoldable pub follow : Trace → Target × S → Option (Target × S)
  unfolding run contents
  follow trace (Target.cond a, s) = run (contents (Target.cond a) trace) s
  follow trace (Target.delay a, s) = run (contents (Target.delay a) trace) s
  follow trace p = some p

  unfoldable pub follow_from : Trace → Option (Target × S) → Option (Target × S)
  unfolding follow
  follow_from trace none = none
  follow_from trace (some p) = follow trace p

  -- A block with the blocks that were made for its last instruction.
  unfoldable pub run_block : Trace → Target → S → Option (Target × S)
  unfolding follow_from
  run_block trace bb s = follow_from trace (run (contents bb trace) s)
