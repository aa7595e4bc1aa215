-- ===== src/X86/ModRm.antt =====
-- The ModR/M and SIB bytes (arch/x86/x86_decode.cpp).
pub mod Sib
use libcpu.Base.{
  ℕ, ◌+◌, List, [], ◌∷◌, ◌|||◌, ◌&&&◌, ◌<<<◌, ◌>>>◌, clear64, ◌==◌, if◌then◌else◌, is_case, get_or,
}
use libcpu.X86.Flags.{
  sib, dir_reversed, src_mem, src_reg, src_mem_disp_byte, src_mem_disp_word, src_mem_disp_dword,
  dst_mem, dst_reg, dst_mem_disp_byte, dst_mem_disp_word, dst_mem_disp_dword,
}
use libcpu.X86.Instr.{X86Instr, addr_size_override, has_flag}

abbrev pub sib_dst_decode : List ℕ
sib_dst_decode = dst_mem_disp_dword ∷ dst_mem_disp_byte ∷ dst_mem_disp_dword ∷ []

abbrev pub sib_src_decode : List ℕ
sib_src_decode = src_mem_disp_dword ∷ src_mem_disp_byte ∷ src_mem_disp_dword ∷ []

abbrev pub mod_dst_decode : List ℕ
mod_dst_decode = dst_mem ∷ dst_mem_disp_byte ∷ 0 ∷ dst_reg ∷ []

abbrev pub mod_src_decode : List ℕ
mod_src_decode = src_mem ∷ src_mem_disp_byte ∷ 0 ∷ src_reg ∷ []

unfoldable pub decode_sib_byte : X86Instr → ℕ → X86Instr
decode_sib_byte instr byte =
    let i = record instr {
      scale = (byte &&& 0xc0) >>> 6;
      idx = (byte &&& 0x38) >>> 3;
      base = byte &&& 0x07;
    } in
    if i.base == 5
    then if has_flag i dir_reversed
      then record i { flags = clear64 i.flags dst_mem ||| get_or sib_dst_decode i.mod_field 0 }
      else record i { flags = clear64 i.flags src_mem ||| get_or sib_src_decode i.mod_field 0 }
    else i

unfoldable pub decode_modrm_fields : X86Instr → ℕ → X86Instr
decode_modrm_fields instr modrm = record instr {
  mod_field = (modrm &&& 0xc0) >>> 6;
  reg_opc = (modrm &&& 0x38) >>> 3;
  rm = modrm &&& 0x07;
}

-- RM_SIZE and RM_MOD_*
abbrev pub rm_size : ℕ
rm_size = 1 <<< 16

abbrev pub rm_mod : ℕ → ℕ
rm_mod m = m <<< 8

-- The selector of both switches.
abbrev pub selector : X86Instr → ℕ
selector i = (addr_size_override i <<< 16) ||| (i.mod_field <<< 8) ||| i.rm

-- The labels that only add a displacement of 32 bits.
abbrev pub dword_cases : List ℕ
dword_cases =
    (0 ||| rm_mod 2)
    ∷ (1 ||| rm_mod 2)
    ∷ (2 ||| rm_mod 2)
    ∷ (3 ||| rm_mod 2)
    ∷ (5 ||| rm_mod 2)
    ∷ (6 ||| rm_mod 2)
    ∷ (7 ||| rm_mod 2)
    ∷ []

-- The labels that only add a displacement of 16 bits.
abbrev pub word_cases : List ℕ
word_cases =
    (0 ||| rm_mod 2 ||| rm_size)
    ∷ (1 ||| rm_mod 2 ||| rm_size)
    ∷ (2 ||| rm_mod 2 ||| rm_size)
    ∷ (3 ||| rm_mod 2 ||| rm_size)
    ∷ (4 ||| rm_mod 2 ||| rm_size)
    ∷ (5 ||| rm_mod 2 ||| rm_size)
    ∷ (6 ||| rm_mod 2 ||| rm_size)
    ∷ (7 ||| rm_mod 2 ||| rm_size)
    ∷ []

-- The switch, for the flags of the operand that it is about.
abbrev pub modrm_flags : ℕ → ℕ → ℕ → ℕ → ℕ → ℕ
modrm_flags sel mem disp_word disp_dword flags =
    if is_case sel dword_cases
    then flags ||| disp_dword
    else if is_case sel word_cases
    then flags ||| disp_word
    else if is_case sel ((4 ||| rm_mod 0) ∷ (4 ||| rm_mod 1) ∷ [])
    then flags ||| sib
    else if sel == (4 ||| rm_mod 2)
    then flags ||| (disp_dword ||| sib)
    else if sel == (5 ||| rm_mod 0)
    then clear64 flags mem ||| disp_dword
    else if sel == (6 ||| rm_mod 0 ||| rm_size)
    then clear64 flags mem ||| disp_word
    else flags

unfoldable pub decode_modrm_addr_modes : X86Instr → X86Instr
decode_modrm_addr_modes i =
    if has_flag i dir_reversed
    then record i {
      flags =
          modrm_flags (selector i) dst_mem dst_mem_disp_word dst_mem_disp_dword
            (i.flags ||| get_or mod_dst_decode i.mod_field 0);
    }
    else record i {
      flags =
          modrm_flags (selector i) src_mem src_mem_disp_word src_mem_disp_dword
            (i.flags ||| get_or mod_src_decode i.mod_field 0);
    }
