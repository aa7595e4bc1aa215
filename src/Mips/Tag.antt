-- ===== src/Mips/Tag.antt =====
-- `arch_mips_tag_instr` of arch/mips/mips_translate.cpp. A case without a `break` goes on with the
-- next one: what the cases have stored so far is their argument.
pub mod Laws
pub mod Branches
use libcpu.Base.{
  ℕ, zero, suc, ◌+◌, ◌*◌, ◌%◌, ◌^◌, Bool, ◌&&◌, ◌==◌, Option, none, some, List, [], ◌∷◌,
  if◌then◌else◌, has, is_case, ◌|||◌, ◌&&&◌, ◌<<<◌, ◌>>>◌, sign_extend,
}
use mathlib.Core.Option
use libcpu.Frontend.{ram32be}
use libcpu.Tag.Flags.{
  tag_trap, tag_ret, tag_branch, tag_call, tag_cond_branch, tag_continue, tag_delay_slot,
  new_pc_none, addr_mod,
}
use libcpu.Tag.Arch.{Written}

-- `*tag` and `*new_pc` as the switch leaves them.
pub record Stores : Type 0 where
  pub tag : Option ℕ
  pub new_pc : Option ℕ

abbrev pub nothing : Stores
nothing = record { tag = none; new_pc = none }

abbrev pub set_tag : ℕ → Stores → Stores
set_tag t w = record w { tag = some t }

abbrev pub rs : ℕ → ℕ
rs instr = (instr >>> 21) &&& 0x1f

abbrev pub rt : ℕ → ℕ
rt instr = (instr >>> 16) &&& 0x1f

abbrev pub get_immediate : ℕ → ℕ
get_immediate instr = instr &&& 0xffff

abbrev pub get_target : ℕ → ℕ
get_target instr = instr &&& 0x3ffffff

abbrev pub get_function : ℕ → ℕ
get_function instr = instr &&& 0x3f

-- MIPS_BRANCH_TARGET
unfoldable pub branch_target : ℕ → ℕ → ℕ
branch_target instr pc =
    (pc + 4 + (sign_extend 16 32 (get_immediate instr) <<< 2) % 2 ^ 32) % 2 ^ 32

abbrev pub jump_target : ℕ → ℕ → ℕ
jump_target instr pc = (pc &&& 0xf0000000) ||| (get_target instr <<< 2)

abbrev pub special_traps : List ℕ
special_traps =
    0x01 ∷ 0x05 ∷ 0x0a ∷ 0x0b ∷ 0x0c ∷ 0x0d ∷ 0x0e ∷ 0x15 ∷ 0x28 ∷ 0x29 ∷ 0x35 ∷ 0x37 ∷ 0x39 ∷ 0x3d
    ∷ []

abbrev pub regimm_traps : List ℕ
regimm_traps =
    0x04 ∷ 0x05 ∷ 0x06 ∷ 0x07 ∷ 0x0d ∷ 0x0f ∷ 0x14 ∷ 0x15 ∷ 0x16 ∷ 0x17 ∷ 0x18 ∷ 0x19 ∷ 0x1a ∷ 0x1b
    ∷ 0x1c ∷ 0x1d ∷ 0x1e ∷ 0x1f ∷ []

abbrev pub fmt_traps : List ℕ
fmt_traps = 0x03 ∷ 0x07 ∷ 0x09 ∷ 0x0a ∷ 0x0b ∷ 0x0c ∷ 0x0d ∷ 0x0e ∷ 0x0f ∷ []

abbrev pub float_traps : List ℕ
float_traps =
    0x00 ∷ 0x10 ∷ 0x11 ∷ 0x12 ∷ 0x13 ∷ 0x14 ∷ 0x15 ∷ 0x16 ∷ 0x17 ∷ 0x18 ∷ 0x19 ∷ 0x1a ∷ 0x1b ∷ 0x1c
    ∷ 0x1d ∷ 0x1e ∷ 0x1f ∷ 0x22 ∷ 0x23 ∷ 0x26 ∷ 0x27 ∷ 0x28 ∷ 0x29 ∷ 0x2a ∷ 0x2b ∷ 0x2c ∷ 0x2d
    ∷ 0x2e ∷ 0x2f ∷ []

abbrev pub late_fmt_traps : List ℕ
late_fmt_traps =
    0x12 ∷ 0x13 ∷ 0x16 ∷ 0x17 ∷ 0x18 ∷ 0x19 ∷ 0x1a ∷ 0x1b ∷ 0x1c ∷ 0x1d ∷ 0x1e ∷ 0x1f ∷ []

abbrev pub opcode_traps : List ℕ
opcode_traps =
    0x12 ∷ 0x13 ∷ 0x1c ∷ 0x1d ∷ 0x1e ∷ 0x1f ∷ 0x32 ∷ 0x33 ∷ 0x36 ∷ 0x3a ∷ 0x3b ∷ 0x3e ∷ []

module _ (instr pc : ℕ) where
  abbrev to_branch : ℕ → Stores → Stores
  to_branch t w = record { tag = some t; new_pc = some (branch_target instr pc) }

  abbrev pub special : Stores → Stores
  special w =
      if get_function instr == 0x08
      then set_tag (tag_ret ||| tag_delay_slot) w
      else if get_function instr == 0x09
      then record { tag = some (tag_branch ||| tag_delay_slot); new_pc = some new_pc_none }
      else if is_case (get_function instr) special_traps
      then set_tag tag_trap w
      else set_tag tag_continue w

  abbrev pub regimm_switch : Stores → Stores
  regimm_switch w =
      if is_case (rt instr) (0x00 ∷ 0x01 ∷ [])
      then to_branch (tag_cond_branch ||| tag_delay_slot) w
      else if is_case (rt instr) (0x10 ∷ 0x11 ∷ [])
      then to_branch (tag_call ||| tag_delay_slot) w
      else if is_case (rt instr) (0x02 ∷ 0x03 ∷ [])
      then to_branch (tag_cond_branch ||| tag_delay_slot) w
      else if is_case (rt instr) (0x12 ∷ 0x13 ∷ [])
      then to_branch (tag_call ||| tag_delay_slot) w
      else if is_case (rt instr) regimm_traps
      then set_tag tag_trap w
      else set_tag tag_continue w

  abbrev pub jal : Stores → Stores
  jal w = record { tag = some tag_call; new_pc = some (jump_target instr pc) }

  -- No `break`.
  abbrev pub j : Stores → Stores
  j w = jal (record { tag = some tag_cond_branch; new_pc = some (jump_target instr pc) })

  -- No `break`.
  abbrev pub regimm : Stores → Stores
  regimm w = j (regimm_switch w)

  abbrev pub beq : Stores → Stores
  beq w =
      if (rs instr == 0) && (rt instr == 0)
      then to_branch (tag_branch ||| tag_delay_slot) w
      else to_branch (tag_cond_branch ||| tag_delay_slot) w

  abbrev pub likely : Stores → Stores
  likely w = to_branch (tag_cond_branch ||| tag_delay_slot) w

  abbrev pub float_switch : Stores → Stores
  float_switch w =
      if is_case (get_function instr) float_traps
      then set_tag tag_trap w
      else set_tag tag_continue w

  -- The format 0x10 has no `break`.
  abbrev pub cop1_switch : Stores → Stores
  cop1_switch w =
      if is_case (rs instr) fmt_traps
      then set_tag tag_trap w
      else if rs instr == 0x10
      then set_tag tag_trap (float_switch w)
      else if is_case (rs instr) late_fmt_traps
      then set_tag tag_trap w
      else set_tag tag_continue w

  -- No `break`.
  abbrev pub cop1 : Stores → Stores
  cop1 w = likely (cop1_switch w)

  unfoldable pub tag_switch : Stores → Stores
  tag_switch w =
      let op = instr >>> 26 in
      if op == 0x00
      then special w
      else if op == 0x01
      then regimm w
      else if op == 0x02
      then j w
      else if op == 0x03
      then jal w
      else if op == 0x04
      then beq w
      else if is_case op (0x05 ∷ 0x06 ∷ 0x07 ∷ [])
      then likely w
      else if op == 0x10
      then set_tag tag_trap w
      else if op == 0x11
      then cop1 w
      else if is_case op (0x14 ∷ 0x15 ∷ 0x16 ∷ 0x17 ∷ [])
      then likely w
      else if is_case op opcode_traps
      then set_tag tag_trap w
      else set_tag tag_continue w

  abbrev pub finish : Stores → Written
  finish w = record {
    bytes = 4;
    tag = w.tag;
    new_pc = w.new_pc;
    next_pc = some (
        if has (Option.get_or w.tag 0) tag_delay_slot
        then (pc + 8) % addr_mod
        else (pc + 4) % addr_mod);
  }

unfoldable pub arch_mips_tag_instr : (ℕ → ℕ) → ℕ → Written
unfolding tag_switch
arch_mips_tag_instr ram pc = finish (ram32be ram pc) pc (tag_switch (ram32be ram pc) pc nothing)
