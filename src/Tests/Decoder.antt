-- ===== src/Tests/Decoder.antt =====
-- The x86 decoder.
use libcpu.Base.{◌<◌, ◌≡◌, ◌≢◌, refl, true, some, [], arith, length, get_or}
use libcpu.Tag.Arch.{Written, IsWritten}
use libcpu.X86.Flags.{sib}
use libcpu.X86.Field.{
  get_field, x86_prefix_index, x86_diff_syntax, decode_class_prefix, decode_class_diff_syntax,
}
use libcpu.X86.Tables.{decode_tables, diff_syntax_opcodes}
use libcpu.X86.Instr.{X86Instr, zero_instr, has_flag}
use libcpu.X86.ModRm.{decode_modrm_addr_modes}
use libcpu.X86.ModRm.Sib.{decode_modrm_addr_modes-sib}
use libcpu.X86.Decode.{
  Decoded, Cursor, table_entry, take_prefix, start_cursor, syntax_bits, round,
  arch_x86_decode_instr,
}
use libcpu.X86.Decode.Classes.{is_class}
use libcpu.X86.Decode.Bounds.{Visited, start, continue, Visited-in_bounds}
use libcpu.X86.Decode.Terminates.{arch_x86_decode_instr-ends}
use libcpu.X86.Tag.{arch_x86_tag_instr}
use libcpu.Tag.Flags.{tag_cond_branch}
use libcpu.X86.Tag.Short.{arch_x86_tag_instr-short_jump}
use libcpu.X86.Tag.Laws.{arch_x86_tag_instr-IsWritten}
use libcpu.Base.{some, ℕ, [], ◌∷◌}
use libcpu.Tests.Machine.{memory, memory-bytes, ram_x86, ram_x86-bytes}

abbrev instr_of : Decoded → X86Instr
instr_of (Decoded.decoded i) = i
instr_of _ = zero_instr

-- `66 0F 84 10 00`: JZ with 16 bits of displacement.
abbrev jz : X86Instr
unfolding arch_x86_decode_instr
jz = instr_of (arch_x86_decode_instr ram_x86 0 3 0)

jz_fields : (jz.nr_bytes ≡ 5) × (jz.opcode_byte ≡ 0x84) × (jz.imm_data0 ≡ 0x10)
unfolding jz
jz_fields = (refl, refl, refl)

-- `0F AF 44 20 10`: IMUL with a SIB byte and 8 bits of displacement.
abbrev imul : X86Instr
unfolding arch_x86_decode_instr
imul = instr_of (arch_x86_decode_instr ram_x86 0 2 5)

imul_fields : (imul.nr_bytes ≡ 5) × (imul.disp ≡ 0x10) × (imul.mod_field ≡ 1) × (imul.rm ≡ 4)
unfolding imul
imul_fields = (refl, refl, refl, refl)

arch_x86_tag_instr-IsWritten_example :
    (w : Written) × (arch_x86_tag_instr ram_x86 0 3 0 ≡ some w) × IsWritten w
arch_x86_tag_instr-IsWritten_example =
    arch_x86_tag_instr-IsWritten ram_x86 0 3 0 jz ram_x86-bytes (omega arith) (unfold jz in refl)

arch_x86_decode_instr-ends_example : arch_x86_decode_instr ram_x86 0 4 0 ≢ Decoded.out_of_fuel
arch_x86_decode_instr-ends_example =
    arch_x86_decode_instr-ends ram_x86 0 2 4 0 ram_x86-bytes (omega arith) refl (omega arith)

decode_modrm_addr_modes-sib_example :
    has_flag (decode_modrm_addr_modes (record zero_instr { mod_field = 1; rm = 4 })) sib ≡ true
decode_modrm_addr_modes-sib_example =
    decode_modrm_addr_modes-sib (record zero_instr { mod_field = 1; rm = 4 }) (omega arith)
      (omega arith) (omega arith) refl

-- Behind the prefix.
abbrev second : Cursor
unfolding take_prefix table_entry
second = take_prefix ram_x86 0 (table_entry 0 0x66) (start_cursor ram_x86 0 0)

Visited-second : Visited ram_x86 0 0 second
unfolding second round
Visited-second = continue start refl

Visited-in_bounds_example :
    (second.decode_group < length decode_tables)
    × (second.instr_byte < length (get_or decode_tables second.decode_group []))
    × (is_class (table_entry second.decode_group second.instr_byte) decode_class_prefix ≡ true
        → get_field (table_entry second.decode_group second.instr_byte) x86_prefix_index
          < length second.instr.prefix_values)
    × (is_class (table_entry second.decode_group second.instr_byte) decode_class_diff_syntax ≡ true
        → get_field (table_entry second.decode_group second.instr_byte) x86_diff_syntax
          < length diff_syntax_opcodes)
    × (syntax_bits ram_x86 0 second.instr < 4)
Visited-in_bounds_example =
    Visited-in_bounds ram_x86 0 0 second ram_x86-bytes (omega arith) Visited-second

-- 0: JNE -2
abbrev loop_x86 : ℕ → ℕ
loop_x86 = memory (0x75 ∷ 0xfe ∷ [])

arch_x86_tag_instr-short_jump_example :
    arch_x86_tag_instr loop_x86 0 1 0
    ≡ some (record { bytes = 2; tag = some tag_cond_branch; new_pc = some 0; next_pc = some 2 })
arch_x86_tag_instr-short_jump_example =
    arch_x86_tag_instr-short_jump loop_x86 0 0 0 (memory-bytes (0x75 ∷ 0xfe ∷ []) refl)
      (omega arith) refl
