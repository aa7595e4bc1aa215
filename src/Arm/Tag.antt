-- ===== src/Arm/Tag.antt =====
-- `arch_arm_tag_instr` of arch/arm/arm_translate.cpp, on a host that reads words little-endian.
pub mod Laws
use libcpu.Base.{
  ℕ, ◌+◌, ◌%◌, ◌^◌, Bool, ◌==◌, Option, none, some, if◌then◌else◌, ◌|||◌, ◌&&&◌, ◌<<<◌, ◌>>>◌,
  sign_extend,
}
use libcpu.Frontend.{ram32le}
use libcpu.Tag.Flags.{tag_ret, tag_branch, tag_call, tag_continue, tag_conditional, addr_mod}
use libcpu.Tag.Arch.{Written}

-- `BITS(24,27)`
abbrev pub class_bits : ℕ → ℕ
class_bits instr = (instr >>> 24) &&& 0xf

-- ARM_BRANCH_TARGET: the low 24 bits, signed, times 4.
unfoldable pub branch_target : ℕ → ℕ → ℕ
branch_target instr pc = (sign_extend 26 64 ((instr &&& 0xffffff) <<< 2) + pc + 8) % addr_mod

unfoldable pub tag_switch : ℕ → ℕ
tag_switch instr =
    if instr == 0xe1a0f00e
    then tag_ret
    else if class_bits instr == 10
    then tag_branch
    else if class_bits instr == 11
    then tag_call
    else tag_continue

unfoldable pub new_pc_switch : ℕ → ℕ → Option ℕ
unfolding branch_target
new_pc_switch instr pc =
    if instr == 0xe1a0f00e
    then none
    else if class_bits instr == 10
    then some (branch_target instr pc)
    else if class_bits instr == 11
    then some (branch_target instr pc)
    else none

-- `*tag |= TAG_CONDITIONAL`
abbrev pub with_condition : ℕ → ℕ → ℕ
with_condition instr tag = if instr >>> 28 == 0xe then tag else tag ||| tag_conditional

unfoldable pub arch_arm_tag_instr : (ℕ → ℕ) → ℕ → Written
unfolding tag_switch new_pc_switch
arch_arm_tag_instr ram pc =
    let instr = ram32le ram pc in
    record {
      bytes = 4;
      tag = some (with_condition instr (tag_switch instr));
      new_pc = new_pc_switch instr pc;
      next_pc = some ((pc + 4) % addr_mod);
    }
