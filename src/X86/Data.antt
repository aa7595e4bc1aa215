-- ===== src/X86/Data.antt =====
-- The data that follow the opcode: `decode_imm`, `decode_rel`, `decode_moffset` and `decode_disp`
-- (arch/x86/x86_decode.cpp).
use libcpu.Base.{ℕ, [], ◌∷◌, ◌|||◌, ◌&&&◌, ◌==◌, if◌then◌else◌, is_case}
use libcpu.X86.Flags.{
  width_byte, width_word, width_dword, width_mask, src_imm8, src_imm48, op3_imm, op3_imm8,
  op3_imm_mask, dst_imm16, mem_disp_mask, src_mem_disp_byte, src_mem_disp_word, src_mem_disp_dword,
  dst_mem_disp_byte, dst_mem_disp_word, dst_mem_disp_dword,
}
use libcpu.X86.Instr.{X86Instr, addr_size_override, has_flag}
use libcpu.X86.Read.{Read, read_u8, read_s8, read_u16, read_s16, read_u32, read_s32}

-- The instruction, and the address of the next byte to fetch.
pub record Fetched : Type 0 where
  pub instr : X86Instr
  pub pc : ℕ

abbrev pub set_imm0 : X86Instr → Read → Fetched
set_imm0 i r = record { instr = record i { imm_data0 = r.value }; pc = r.pc }

abbrev pub set_imm1 : X86Instr → Read → Fetched
set_imm1 i r = record { instr = record i { imm_data1 = r.value }; pc = r.pc }

abbrev pub set_disp : X86Instr → Read → Fetched
set_disp i r = record { instr = record i { disp = r.value }; pc = r.pc }

module _ (ram : ℕ → ℕ) where
  -- `if (instr->flags & WIDTH_DWORD)`: 32 or 16 bits.
  abbrev wide : X86Instr → ℕ → Read
  wide i pc = if has_flag i width_dword then read_u32 ram pc else read_u16 ram pc

  unfoldable pub decode_imm : X86Instr → ℕ → Fetched
  decode_imm i pc =
      let kind = i.flags &&& (src_imm8 ||| src_imm48 ||| op3_imm_mask ||| dst_imm16) in
      let width = i.flags &&& width_mask in
      if kind == src_imm8
      then set_imm0 i (read_u8 ram pc)
      else if kind == src_imm48
      then (let f = set_imm0 i (wide i pc) in set_imm1 f.instr (read_u16 ram f.pc))
      else if kind == (src_imm8 ||| dst_imm16)
      then (let f = set_imm1 i (read_u16 ram pc) in set_imm0 f.instr (read_u8 ram f.pc))
      else if kind == op3_imm8
      then set_imm0 i (read_u8 ram pc)
      else if kind == op3_imm
      then set_imm0 i (wide i pc)
      else if width == width_dword
      then set_imm0 i (read_u32 ram pc)
      else if width == width_word
      then set_imm0 i (read_u16 ram pc)
      else if width == width_byte
      then set_imm0 i (read_u8 ram pc)
      else record { instr = i; pc = pc }

  unfoldable pub decode_rel : X86Instr → ℕ → Fetched
  decode_rel i pc =
      let width = i.flags &&& width_mask in
      if width == width_dword
      then set_imm0 i (read_s32 ram pc)
      else if width == width_word
      then set_imm0 i (read_s16 ram pc)
      else if width == width_byte
      then set_imm0 i (read_s8 ram pc)
      else record { instr = i; pc = pc }

  unfoldable pub decode_moffset : X86Instr → ℕ → Fetched
  decode_moffset i pc =
      if addr_size_override i == 0
      then set_disp i (read_u32 ram pc)
      else set_disp i (read_u16 ram pc)

  unfoldable pub decode_disp : X86Instr → ℕ → Fetched
  decode_disp i pc =
      let kind = i.flags &&& mem_disp_mask in
      if is_case kind (src_mem_disp_dword ∷ dst_mem_disp_dword ∷ [])
      then set_disp i (read_s32 ram pc)
      else if is_case kind (src_mem_disp_word ∷ dst_mem_disp_word ∷ [])
      then set_disp i (read_s16 ram pc)
      else if is_case kind (src_mem_disp_byte ∷ dst_mem_disp_byte ∷ [])
      then set_disp i (read_s8 ram pc)
      else record { instr = i; pc = pc }
