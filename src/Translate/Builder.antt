-- ===== src/Translate/Builder.antt =====
-- What the translator asks LLVM to build: basic blocks (libcpu/basicblock.cpp, basicblock.h) and the
-- calls that append to them. A call is an entry of a trace, with the block that it appends to; the
-- contents of a block are its entries in order.
use libcpu.Base.{ℕ, Bool, true, false, ◌==◌, List, [], ◌∷◌, ◌++◌, if◌then◌else◌, is_case}

-- `label`, `cond` and `delay` are the types BB_TYPE_NORMAL, BB_TYPE_COND and BB_TYPE_DELAY.
-- `leaving` is a block that `emit_store_pc_return` fills: a BB_TYPE_EXTERNAL block, or one that
-- single-stepping makes. `null` is a null pointer.
pub data Target : Type 0 where
  dispatch ret trap null : Target
  label cond delay leaving : ℕ → Target

-- `instr pc` is a call of the frontend's `translate_instr`, `cond_branch pc t f` is a branch on what
-- its `translate_cond` returns. `store_pc a` is a store of `a` as a constant of
-- `info.address_size` bits.
pub data Call : Type 0 where
  instr store_pc : ℕ → Call
  branch : Target → Call
  cond_branch : ℕ → Target → Target → Call

pub record Entry : Type 0 where
  pub block : Target
  pub call : Call

abbrev pub emit : Target → Call → Entry
emit t c = record { block = t; call = c }

abbrev pub Trace : Type 0
Trace = List Entry

unfoldable pub same_target : Target → Target → Bool
same_target Target.dispatch Target.dispatch = true
same_target Target.ret Target.ret = true
same_target Target.trap Target.trap = true
same_target Target.null Target.null = true
same_target (Target.label a) (Target.label b) = a == b
same_target (Target.cond a) (Target.cond b) = a == b
same_target (Target.delay a) (Target.delay b) = a == b
same_target (Target.leaving a) (Target.leaving b) = a == b
same_target _ _ = false

unfoldable pub contents : Target → Trace → List Call
unfolding same_target
contents t [] = []
contents t (e ∷ es) =
    let rest = contents t es in if same_target t e.block then e.call ∷ rest else rest

-- A store of the constant `new_pc` of the type of `info.address_size` bits: Meaning reduces it to
-- these.
abbrev pub emit_store_pc : Target → ℕ → Trace
emit_store_pc bb new_pc = emit bb (Call.store_pc new_pc) ∷ []

abbrev pub emit_store_pc_return : Target → ℕ → Target → Trace
emit_store_pc_return bb new_pc bb_ret = emit_store_pc bb new_pc ++ emit bb (Call.branch bb_ret) ∷ []

-- `lookup_basicblock`: `labels` are the keys of `func_bb` for the function.
unfoldable pub lookup_basicblock : List ℕ → ℕ → Target
lookup_basicblock labels pc = if is_case pc labels then Target.label pc else Target.leaving pc
