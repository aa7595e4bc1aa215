-- ===== src/Fapra/Tag.antt =====
-- `arch_fapra_tag_instr` of arch/fapra/fapra_translate.cpp, with the opcodes of
-- arch/fapra/fapra_internal.h.
pub mod Laws
use libcpu.Base.{
  ℕ, ◌+◌, ◌-◌, ◌%◌, ◌^◌, ◌*◌, Bool, ◌&&◌, ◌==◌, Option, none, some, List, [], ◌∷◌, if◌then◌else◌,
  is_case, ◌|||◌, ◌&&&◌, ◌<<<◌, ◌>>>◌, sign_extend,
}
use libcpu.Frontend.{ram32le}
use libcpu.Tag.Flags.{
  tag_ret, tag_branch, tag_call, tag_cond_branch, tag_continue, new_pc_none, addr_mod,
}
use libcpu.Tag.Arch.{Written}

abbrev pub ldih : ℕ
ldih = 0x20

abbrev pub ldil : ℕ
ldil = 0x21

abbrev pub jmp : ℕ
jmp = 0x30

abbrev pub bra : ℕ
bra = 0x34

abbrev pub bz : ℕ
bz = 0x35

abbrev pub bnz : ℕ
bnz = 0x36

abbrev pub call : ℕ
call = 0x33

abbrev pub bl : ℕ
bl = 0x37

-- LDW, STW, LDB, STB, LDIH, LDIL, ADDI, ADD, SUB, AND, OR, NOT, SARI, SAL, SAR, MUL and NOP.
abbrev pub plain_opcodes : List ℕ
plain_opcodes =
    0x10 ∷ 0x11 ∷ 0x1c ∷ 0x1d ∷ 0x20 ∷ 0x21 ∷ 0x0f ∷ 0x00 ∷ 0x01 ∷ 0x02 ∷ 0x03 ∷ 0x05 ∷ 0x0b ∷ 0x06
    ∷ 0x07 ∷ 0x08 ∷ 0x32 ∷ []

abbrev pub inst_size : ℕ
inst_size = 4

abbrev pub opc : ℕ → ℕ
opc ins = ins >>> 26

abbrev pub rd : ℕ → ℕ
rd ins = (ins >>> 21) &&& 0x1f

abbrev pub ra : ℕ → ℕ
ra ins = (ins >>> 16) &&& 0x1f

abbrev pub rb : ℕ → ℕ
rb ins = (ins >>> 11) &&& 0x1f

-- The signed low half, converted to `addr_t`.
abbrev pub simm : ℕ → ℕ
simm ins = sign_extend 16 64 (ins &&& 0xffff)

abbrev pub imm : ℕ → ℕ
imm ins = ins &&& 0xffff

abbrev pub rel_target : ℕ → ℕ → ℕ
rel_target ins pc = (pc + simm ins) % addr_mod

-- `pc - n` in the 64 bits of `addr_t`.
abbrev pub before : ℕ → ℕ → ℕ
before pc n = (pc + (2 ^ 64 - n)) % addr_mod

-- The target of a CALL, if the two instructions before it load it into its register.
unfoldable pub call_target : (ℕ → ℕ) → ℕ → ℕ
call_target ram pc =
    let ins = ram32le ram pc in
    let high = ram32le ram (before pc (inst_size * 2)) in
    let low = ram32le ram (before pc inst_size) in
    if (opc high == ldih) && (opc low == ldil) && (rd high == rd low) && (rd high == ra ins)
    then (imm high <<< 16) ||| imm low
    else new_pc_none

-- `none` is a call of `exit`, at an opcode that is not in one of the cases.
unfoldable pub arch_fapra_tag_instr : (ℕ → ℕ) → ℕ → Option Written
unfolding call_target
arch_fapra_tag_instr ram pc =
    let ins = ram32le ram pc in
    let written : ℕ → Option ℕ → Option Written = λ tag new_pc. some (record {
      bytes = inst_size;
      tag = some tag;
      new_pc = new_pc;
      next_pc = some ((pc + inst_size) % addr_mod);
    }) in
    if is_case (opc ins) plain_opcodes
    then written tag_continue none
    else if opc ins == jmp
    then written tag_ret none
    else if opc ins == bra
    then written tag_branch (some (rel_target ins pc))
    else if is_case (opc ins) (bz ∷ bnz ∷ [])
    then written tag_cond_branch (some (rel_target ins pc))
    else if opc ins == call
    then written tag_call (some (call_target ram pc))
    else if opc ins == bl
    then written tag_call (some (rel_target ins pc))
    else none
