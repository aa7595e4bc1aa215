-- ===== src/X86/Decode.antt =====
-- `arch_x86_decode_instr` and `arch_x86_instr_length` (arch/x86/x86_decode.cpp).
-- `fuel` bounds the rounds of the loop that follows the prefixes and the opcode groups.
pub mod Classes
pub mod Cases
pub mod Bounds
pub mod Terminates
pub mod Keeps
pub mod Opcodes
use libcpu.Base.{
  ℕ, zero, suc, ◌+◌, ◌-◌, ◌%◌, ◌^◌, Bool, true, false, ◌|||◌, ◌<<<◌, clear64, ◌==◌, leb, has,
  if◌then◌else◌, get_or, set, List, [],
}
use libcpu.Tag.Flags.{addr_mod}
use libcpu.X86.Flags.{
  mod_rm, sib, width_word, width_dword, width_qword, width_mask, mem_disp_mask, moffset_mask,
  imm_mask, rel_mask, addrmod_mask,
}
use libcpu.X86.Field.{
  get_field, get_mask, x86_opcode, x86_decode_class, x86_prefix_index, x86_prefix_value,
  x86_decode_group, x86_diff_syntax, decode_class_prefix, decode_class_group,
  decode_class_diff_syntax, decode_class_invalid,
}
use libcpu.X86.Tables.{decode_tables, diff_syntax_flags_0x62, diff_syntax_opcodes}
use libcpu.X86.Instr.{X86Instr, zero_instr, op_size_override, has_flag}
use libcpu.X86.Read.{read_u8}
use libcpu.X86.ModRm.{decode_sib_byte, decode_modrm_fields, decode_modrm_addr_modes}
use libcpu.X86.Data.{Fetched, decode_imm, decode_rel, decode_moffset, decode_disp}
use libcpu.X86.Operands.{decode_src_operand, decode_dst_operand, decode_third_operand}

-- The variables of the loop.
pub record Cursor : Type 0 where
  pub instr : X86Instr
  pub decode_group : ℕ
  pub instr_byte : ℕ
  pub pc : ℕ

-- A round of the loop: `return -1`, `break` with `decode` and `opcode`, or `continue`.
pub data Round : Type 0 where
  illegal : Round
  leave : Cursor → ℕ → ℕ → Round
  again : Cursor → Round

pub data Found : Type 0 where
  illegal out_of_fuel : Found
  found : Cursor → ℕ → ℕ → Found

pub data Decoded : Type 0 where
  illegal out_of_fuel : Decoded
  decoded : X86Instr → Decoded

unfoldable pub table_entry : ℕ → ℕ → ℕ
unfolding decode_tables
table_entry group byte = get_or (get_or decode_tables group []) byte 0

unfoldable pub diff_syntax_opcode : ℕ → ℕ → ℕ
unfolding diff_syntax_opcodes
diff_syntax_opcode index bits = get_or (get_or diff_syntax_opcodes index []) bits 0

-- `if (instr->flags & mask) step(instr, RAM, &pc)`
abbrev pub fetch_if : ℕ → (X86Instr → ℕ → Fetched) → Fetched → Fetched
fetch_if mask step f = if has_flag f.instr mask then step f.instr f.pc else f

module _ (ram : ℕ → ℕ) (use_intel : ℕ) where
  -- A prefix byte sets its entry of `prefix_values`; 0x0F also selects the second table.
  unfoldable pub take_prefix : ℕ → Cursor → Cursor
  take_prefix decode c =
      let next = read_u8 ram c.pc in
      record {
        instr = record c.instr {
          prefix_values =
              set c.instr.prefix_values (get_field decode x86_prefix_index)
                (get_field decode x86_prefix_value);
        };
        decode_group = if c.instr_byte == 0x0f then 1 else c.decode_group;
        instr_byte = next.value;
        pc = next.pc;
      }

  unfoldable pub take_group : ℕ → Cursor → Cursor
  unfolding decode_modrm_fields
  take_group decode c =
      let next = read_u8 ram c.pc in
      let i =
        decode_modrm_fields (record c.instr { opcode_byte = c.instr_byte; flags = decode })
          next.value in
      record {
        instr = i;
        decode_group = get_field decode x86_decode_group;
        instr_byte = i.reg_opc;
        pc = next.pc;
      }

  -- The last dimension of the tables of the two syntaxes.
  abbrev pub syntax_bits : X86Instr → ℕ
  syntax_bits i = op_size_override i ||| (use_intel <<< 1)

  unfoldable pub take_diff_syntax : ℕ → Cursor → Cursor
  unfolding diff_syntax_flags_0x62
  take_diff_syntax decode c =
      let bits = syntax_bits c.instr in
      if c.instr_byte == 0x62
      then record c {
        instr = record c.instr { flags = c.instr.flags ||| get_or diff_syntax_flags_0x62 bits 0 };
      }
      else c

  unfoldable pub round : Cursor → Round
  unfolding table_entry take_prefix take_group take_diff_syntax diff_syntax_opcode
  round c =
      let decode = table_entry c.decode_group c.instr_byte in
      let opcode = get_field decode x86_opcode in
      let class = get_field decode x86_decode_class in
      if opcode == 0
      then if class == decode_class_invalid
        then Round.illegal
        else if class == decode_class_prefix
        then Round.again (take_prefix decode c)
        else if class == decode_class_group
        then Round.again (take_group decode c)
        else Round.leave (take_diff_syntax decode c) decode
            (diff_syntax_opcode (get_field decode x86_diff_syntax) (syntax_bits c.instr))
      else Round.leave c decode opcode

  unfoldable pub find : ℕ → Cursor → Found
  unfolding round
  find zero c = Found.out_of_fuel
  find (suc fuel) c = elim (round c) [
    | Round.illegal ↦ Found.illegal
    | Round.leave c' decode opcode ↦ Found.found c' decode opcode
    | Round.again c' ↦ find fuel c'
  ]

  unfoldable pub opcode_flags : Cursor → ℕ → ℕ → Fetched
  unfolding decode_modrm_fields decode_modrm_addr_modes
  opcode_flags c decode opcode =
      let i = record c.instr { opcode = opcode } in
      if leb c.decode_group 1
      then (let i' = record i {
        opcode_byte = c.instr_byte;
        flags = i.flags ||| clear64 decode (get_mask x86_opcode);
      } in
          if has_flag i' mod_rm
          then (let r = read_u8 ram c.pc in
              record {
                instr = decode_modrm_addr_modes (decode_modrm_fields i' r.value);
                pc = r.pc;
              })
          else record { instr = i'; pc = c.pc })
      else (let narrow = if has decode width_mask then clear64 i.flags width_mask else i.flags in
          let plain = if has decode addrmod_mask then clear64 narrow addrmod_mask else narrow in
          record {
            instr = decode_modrm_addr_modes (record i { flags = plain ||| decode });
            pc = c.pc;
          })

  unfoldable pub override_width : X86Instr → X86Instr
  override_width i =
      if op_size_override i == 0
      then i
      else if has_flag i width_dword
      then record i { flags = clear64 i.flags width_dword ||| width_word }
      else if has_flag i width_qword
      then record i { flags = clear64 i.flags width_qword ||| width_dword }
      else i

  unfoldable pub fetch_sib : Fetched → Fetched
  unfolding decode_sib_byte
  fetch_sib f =
      if has_flag f.instr sib
      then (let r = read_u8 ram f.pc in
          record { instr = decode_sib_byte f.instr r.value; pc = r.pc })
      else f

  unfoldable pub fetch_data : Fetched → Fetched
  unfolding decode_disp decode_moffset decode_imm decode_rel fetch_sib
  fetch_data f =
      let a = fetch_if mem_disp_mask (decode_disp ram) (fetch_sib f) in
      let b = fetch_if moffset_mask (decode_moffset ram) a in
      let c = fetch_if imm_mask (decode_imm ram) b in fetch_if rel_mask (decode_rel ram) c

  -- What follows the loop.
  unfoldable pub finish : ℕ → Cursor → ℕ → ℕ → X86Instr
  unfolding opcode_flags override_width fetch_data decode_src_operand decode_dst_operand
      decode_third_operand
  finish start_pc c decode opcode =
      let f = opcode_flags c decode opcode in
      let f' = fetch_data (record f { instr = override_width f.instr }) in
      let i = decode_third_operand (decode_dst_operand (decode_src_operand f'.instr)) in
      record i { nr_bytes = (f'.pc + addr_mod - start_pc) % addr_mod }

  abbrev pub start_cursor : ℕ → Cursor
  start_cursor pc =
      let first = read_u8 ram pc in
      record { instr = zero_instr; decode_group = 0; instr_byte = first.value; pc = first.pc }

  unfoldable pub arch_x86_decode_instr : ℕ → ℕ → Decoded
  unfolding find finish
  arch_x86_decode_instr fuel pc = elim (find fuel (start_cursor pc)) [
    | Found.illegal ↦ Decoded.illegal
    | Found.out_of_fuel ↦ Decoded.out_of_fuel
    | Found.found c decode opcode ↦ Decoded.decoded (finish pc c decode opcode)
  ]

-- The bits of the `int` that it returns.
abbrev pub arch_x86_instr_length : X86Instr → ℕ
arch_x86_instr_length i = i.nr_bytes % 2 ^ 32
