-- ===== src/X86/Decode/Keeps.antt =====
-- What follows the decoder's loop leaves the opcode and the opcode byte alone.
use libcpu.Base.{ℕ, ◌≡◌, ◌∙◌, if◌then◌else◌, arith, if-both, leb}
use libcpu.X86.Flags.{mem_disp_mask, moffset_mask, imm_mask, rel_mask}
use libcpu.X86.Instr.{has_flag, X86Instr}
use libcpu.X86.ModRm.{decode_modrm_fields, decode_modrm_addr_modes, decode_sib_byte}
use libcpu.X86.Data.{Fetched, decode_imm, decode_rel, decode_moffset, decode_disp}
use libcpu.X86.Operands.{decode_src_operand, decode_dst_operand, decode_third_operand}
use libcpu.X86.Decode.{
  Cursor, fetch_if, finish, opcode_flags, override_width, fetch_sib, fetch_data,
}

-- The same opcode and opcode byte.
abbrev SameOpcode : X86Instr → X86Instr → Type 0
SameOpcode i j = (i.opcode ≡ j.opcode) × (i.opcode_byte ≡ j.opcode_byte)

-- One step of the fetching leaves them alone.
abbrev Keeps : X86Instr → Fetched → Type 0
Keeps i f = SameOpcode f.instr i

decode_disp-Keeps : (ram : ℕ → ℕ) (i : X86Instr) (pc : ℕ) → Keeps i (decode_disp ram i pc)
unfolding decode_disp
decode_disp-Keeps ram i pc = ground arith

decode_moffset-Keeps : (ram : ℕ → ℕ) (i : X86Instr) (pc : ℕ) → Keeps i (decode_moffset ram i pc)
unfolding decode_moffset
decode_moffset-Keeps ram i pc = ground arith

decode_rel-Keeps : (ram : ℕ → ℕ) (i : X86Instr) (pc : ℕ) → Keeps i (decode_rel ram i pc)
unfolding decode_rel
decode_rel-Keeps ram i pc = ground arith

decode_imm-Keeps : (ram : ℕ → ℕ) (i : X86Instr) (pc : ℕ) → Keeps i (decode_imm ram i pc)
unfolding decode_imm
decode_imm-Keeps ram i pc = ground arith

fetch_sib-Keeps :
    (ram : ℕ → ℕ) (use_intel : ℕ) (f : Fetched) → Keeps f.instr (fetch_sib ram use_intel f)
unfolding fetch_sib decode_sib_byte
fetch_sib-Keeps ram use_intel f = ground arith

fetch_if-Keeps :
    (i : X86Instr) (mask : ℕ) (step : X86Instr → ℕ → Fetched) (f : Fetched)
    → ((j : X86Instr) (pc : ℕ) → Keeps j (step j pc))
    → Keeps i f
    → Keeps i (fetch_if mask step f)
fetch_if-Keeps i mask step f keeps k =
    let s = keeps f.instr f.pc in
    if-both (Keeps i) (has_flag f.instr mask) (step f.instr f.pc) f (s.0 ∙ k.0, s.1 ∙ k.1) k

fetch_data-Keeps :
    (ram : ℕ → ℕ) (use_intel : ℕ) (f : Fetched) → Keeps f.instr (fetch_data ram use_intel f)
unfolding fetch_data
fetch_data-Keeps ram use_intel f =
    let s = fetch_sib ram use_intel f in
    let a = fetch_if mem_disp_mask (decode_disp ram) s in
    let b = fetch_if moffset_mask (decode_moffset ram) a in
    let c = fetch_if imm_mask (decode_imm ram) b in
    fetch_if-Keeps f.instr rel_mask (decode_rel ram) c (decode_rel-Keeps ram) (
      fetch_if-Keeps f.instr imm_mask (decode_imm ram) b (decode_imm-Keeps ram) (
        fetch_if-Keeps f.instr moffset_mask (decode_moffset ram) a (decode_moffset-Keeps ram) (
          fetch_if-Keeps f.instr mem_disp_mask (decode_disp ram) s (decode_disp-Keeps ram)
            (fetch_sib-Keeps ram use_intel f))))

-- The opcode byte that the instruction gets.
abbrev pub opcode_byte_of : Cursor → ℕ
opcode_byte_of c = if leb c.decode_group 1 then c.instr_byte else c.instr.opcode_byte

opcode_flags-opcode :
    (ram : ℕ → ℕ) (use_intel : ℕ) (c : Cursor) (decode opcode : ℕ)
    → ((opcode_flags ram use_intel c decode opcode).instr.opcode ≡ opcode)
      × ((opcode_flags ram use_intel c decode opcode).instr.opcode_byte ≡ opcode_byte_of c)
unfolding opcode_flags decode_modrm_fields decode_modrm_addr_modes
opcode_flags-opcode ram use_intel c decode opcode = ground arith

override_width-SameOpcode :
    (ram : ℕ → ℕ) (use_intel : ℕ) (i : X86Instr) → SameOpcode (override_width ram use_intel i) i
unfolding override_width
override_width-SameOpcode ram use_intel i = ground arith

third_operand-SameOpcode : (i : X86Instr) → SameOpcode (decode_third_operand i) i
unfolding decode_third_operand
third_operand-SameOpcode i = ground arith

operands-SameOpcode :
    (i : X86Instr) → SameOpcode (decode_third_operand (decode_dst_operand (decode_src_operand i))) i
unfolding decode_dst_operand decode_src_operand
operands-SameOpcode i = third_operand-SameOpcode (decode_dst_operand (decode_src_operand i))

pub finish-opcode :
    (ram : ℕ → ℕ) (use_intel start_pc : ℕ) (c : Cursor) (decode opcode : ℕ)
    → ((finish ram use_intel start_pc c decode opcode).opcode ≡ opcode)
      × ((finish ram use_intel start_pc c decode opcode).opcode_byte ≡ opcode_byte_of c)
unfolding finish
finish-opcode ram use_intel start_pc c decode opcode =
    let f = opcode_flags ram use_intel c decode opcode in
    let g = record f { instr = override_width ram use_intel f.instr } in
    let first = opcode_flags-opcode ram use_intel c decode opcode in
    let second = override_width-SameOpcode ram use_intel f.instr in
    let third = fetch_data-Keeps ram use_intel g in
    let last = operands-SameOpcode (fetch_data ram use_intel g).instr in
    (last.0 ∙ third.0 ∙ second.0 ∙ first.0, last.1 ∙ third.1 ∙ second.1 ∙ first.1)
