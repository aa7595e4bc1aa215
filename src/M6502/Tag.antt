-- ===== src/M6502/Tag.antt =====
-- `arch_6502_tag_instr` of arch/6502/6502_tag.cpp.
pub mod Laws
use libcpu.Base.{ℕ, ◌+◌, ◌-◌, ◌*◌, ◌%◌, ◌^◌, Option, none, some, if◌then◌else◌, ltb, bit_or}
use libcpu.Tag.Flags.{
  tag_trap, tag_ret, tag_branch, tag_call, tag_cond_branch, tag_continue, new_pc_none, addr_mod,
}
use libcpu.Tag.Arch.{Written}
use libcpu.M6502.Isa.{Instr, AddMode, get_instr, get_addmode, get_length}

-- `pc + k` in the 64 bits of `addr_t`.
abbrev pub offset : ℕ → ℕ → ℕ
offset pc k = (pc + k) % addr_mod

-- `(int8_t)b`, converted to `addr_t`.
abbrev pub int8_to_addr : ℕ → ℕ
int8_to_addr b = if ltb b 128 then b else b + (2 ^ 64 - 256)

-- What the switch stores in `*tag`.
unfoldable pub tag_switch : Instr → ℕ
tag_switch Instr.brk = tag_trap
tag_switch Instr.rts = tag_ret
tag_switch Instr.jmp = tag_branch
tag_switch Instr.jsr = tag_call
tag_switch Instr.bcc = tag_cond_branch
tag_switch Instr.bcs = tag_cond_branch
tag_switch Instr.beq = tag_cond_branch
tag_switch Instr.bmi = tag_cond_branch
tag_switch Instr.bne = tag_cond_branch
tag_switch Instr.bpl = tag_cond_branch
tag_switch Instr.bvc = tag_cond_branch
tag_switch Instr.bvs = tag_cond_branch
tag_switch _ = tag_continue

module _ (ram : ℕ → ℕ) where
  -- `cpu->RAM[pc+1] | cpu->RAM[pc+2]<<8`
  unfoldable pub operand16 : ℕ → ℕ
  operand16 pc = bit_or (ram (offset pc 1)) (ram (offset pc 2) * 2 ^ 8)

  unfoldable pub branch_target : ℕ → ℕ
  branch_target pc = offset (offset pc 2) (int8_to_addr (ram (offset pc 1)))

  -- The destination of a JMP.
  unfoldable pub jump_target : AddMode → ℕ → ℕ
  jump_target AddMode.abs pc = operand16 pc
  jump_target _ pc = new_pc_none

  -- What it stores in `*new_pc`.
  pub new_pc_switch : Instr → AddMode → ℕ → Option ℕ
  unfolding jump_target operand16 branch_target
  new_pc_switch Instr.jmp mode pc = some (jump_target mode pc)
  new_pc_switch Instr.jsr mode pc = some (operand16 pc)
  new_pc_switch Instr.bcc mode pc = some (branch_target pc)
  new_pc_switch Instr.bcs mode pc = some (branch_target pc)
  new_pc_switch Instr.beq mode pc = some (branch_target pc)
  new_pc_switch Instr.bmi mode pc = some (branch_target pc)
  new_pc_switch Instr.bne mode pc = some (branch_target pc)
  new_pc_switch Instr.bpl mode pc = some (branch_target pc)
  new_pc_switch Instr.bvc mode pc = some (branch_target pc)
  new_pc_switch Instr.bvs mode pc = some (branch_target pc)
  new_pc_switch _ mode pc = none

  unfoldable pub tag_instr : ℕ → Written
  unfolding tag_switch new_pc_switch get_instr get_addmode get_length
  tag_instr pc =
      let opcode = ram pc in
      let mode = get_addmode opcode in
      record {
        bytes = get_length mode;
        tag = some (tag_switch (get_instr opcode));
        new_pc = new_pc_switch (get_instr opcode) mode pc;
        next_pc = some (offset pc (get_length mode));
      }
