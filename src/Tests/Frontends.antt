-- ===== src/Tests/Frontends.antt =====
-- The frontends for MIPS, ARM and FAPRA.
use libcpu.Base.{
  ℕ, ◌+◌, ◌*◌, ◌%◌, ◌^◌, ◌≡◌, refl, inl, inr, true, not, ◌==◌, some, [], ◌∷◌, arith, has, ◌>>>◌,
}
use libcpu.Frontend.{ram32be, ram32le}
use libcpu.Tag.Flags.{new_pc_none, tag_call, tag_branch, tag_delay_slot, tag_conditional}
use libcpu.Tag.Arch.{IsWritten, tag_of, new_pc_of, next_pc_of}
use libcpu.Translate.Guest.{IsKind}
use libcpu.Translate.Tagged.{IsForward}
use libcpu.Mips.Tag.{arch_mips_tag_instr}
use libcpu.Mips.Tag.Laws.{arch_mips_tag_instr-IsWritten, arch_mips_tag_instr-IsForward}
use libcpu.Mips.Tag.Branches.{arch_mips_tag_instr-branch}
use libcpu.Arm.Tag.{arch_arm_tag_instr}
use libcpu.Arm.Tag.Laws.{
  arch_arm_tag_instr-IsWritten, arch_arm_tag_instr-IsForward, arch_arm_tag_instr-branch,
}
use libcpu.Fapra.Tag.{arch_fapra_tag_instr}
use libcpu.Fapra.Tag.Laws.{
  arch_fapra_tag_instr-IsStored, arch_fapra_tag_instr-call, IsLoaded, calls,
}
use libcpu.Tests.Machine.{memory, cpu_6502}

-- 0: J 0x40, 4: BNE $1, $2, -2
abbrev ram_mips : ℕ → ℕ
ram_mips = memory (0x08 ∷ 0x00 ∷ 0x00 ∷ 0x10 ∷ 0x14 ∷ 0x22 ∷ 0xff ∷ 0xfe ∷ [])

-- 0: BNE -2 words from 8
abbrev ram_arm : ℕ → ℕ
ram_arm = memory (0xfe ∷ 0xff ∷ 0xff ∷ 0x1a ∷ [])

-- 0: LDIH $1, 0x1234; 4: LDIL $1, 0x5678; 8: CALL $31, $1
abbrev ram_fapra : ℕ → ℕ
ram_fapra =
    memory (0x34 ∷ 0x12 ∷ 0x20 ∷ 0x80 ∷ 0x78 ∷ 0x56 ∷ 0x20 ∷ 0x84 ∷ 0x00 ∷ 0x00 ∷ 0xe1 ∷ 0xcf ∷ [])

arch_mips_tag_instr-IsWritten_example : IsWritten (arch_mips_tag_instr ram_mips 4)
arch_mips_tag_instr-IsWritten_example = arch_mips_tag_instr-IsWritten ram_mips 4

arch_mips_tag_instr-IsForward_example : IsForward cpu_6502 (arch_mips_tag_instr ram_mips)
arch_mips_tag_instr-IsForward_example =
    arch_mips_tag_instr-IsForward cpu_6502 ram_mips (omega arith)

arch_mips_tag_instr-branch_example :
    (has (tag_of (arch_mips_tag_instr ram_mips 4)) tag_branch ≡ true)
    × (has (tag_of (arch_mips_tag_instr ram_mips 4)) tag_delay_slot ≡ true)
    × ((new_pc_of (arch_mips_tag_instr ram_mips 4) + 2 ^ 17) % 2 ^ 32
        ≡ (4 + 4 + (ram32be ram_mips 4 + 2 ^ 15) % 2 ^ 16 * 4) % 2 ^ 32)
    × (next_pc_of (arch_mips_tag_instr ram_mips 4) ≡ (4 + 8) % 2 ^ 64)
unfolding ram32be
arch_mips_tag_instr-branch_example = arch_mips_tag_instr-branch ram_mips 4 (inr (inl refl))

arch_arm_tag_instr-IsWritten_example : IsWritten (arch_arm_tag_instr ram_arm 0)
arch_arm_tag_instr-IsWritten_example = arch_arm_tag_instr-IsWritten ram_arm 0

arch_arm_tag_instr-IsForward_example : IsForward cpu_6502 (arch_arm_tag_instr ram_arm)
arch_arm_tag_instr-IsForward_example = arch_arm_tag_instr-IsForward cpu_6502 ram_arm (omega arith)

arch_arm_tag_instr-branch_example :
    (has (tag_of (arch_arm_tag_instr ram_arm 0)) tag_branch ≡ true)
    × (has (tag_of (arch_arm_tag_instr ram_arm 0)) tag_conditional
        ≡ not ((ram32le ram_arm 0 >>> 28) == 0xe))
    × ((new_pc_of (arch_arm_tag_instr ram_arm 0) + 2 ^ 25) % 2 ^ 64
        ≡ (0 + 8 + (ram32le ram_arm 0 % 2 ^ 24 * 4 + 2 ^ 25) % 2 ^ 26) % 2 ^ 64)
unfolding ram32le
arch_arm_tag_instr-branch_example = arch_arm_tag_instr-branch ram_arm 0 refl

arch_fapra_tag_instr-call_example :
    (IsLoaded (ram32le ram_fapra 0) (ram32le ram_fapra 4) (ram32le ram_fapra 8)
      → arch_fapra_tag_instr ram_fapra 8
        ≡ calls 8 (ram32le ram_fapra 0 % 2 ^ 16 * 2 ^ 16 + ram32le ram_fapra 4 % 2 ^ 16))
    × (¬ IsLoaded (ram32le ram_fapra 0) (ram32le ram_fapra 4) (ram32le ram_fapra 8)
        → arch_fapra_tag_instr ram_fapra 8 ≡ calls 8 new_pc_none)
unfolding ram32le
arch_fapra_tag_instr-call_example =
    arch_fapra_tag_instr-call ram_fapra 8 (ram32le ram_fapra 0) (ram32le ram_fapra 4) (omega arith)
      (omega arith) refl refl refl

-- The two instructions before it load its register.
fapra_call : arch_fapra_tag_instr ram_fapra 8 ≡ calls 8 0x12345678
unfolding ram32le
fapra_call = arch_fapra_tag_instr-call_example.0 (refl, refl, refl, refl)

arch_fapra_tag_instr-IsStored_example :
    IsWritten
      (record { bytes = 4; tag = some tag_call; new_pc = some 0x12345678; next_pc = some 12 })
    × IsKind tag_call
unfolding ram32le
arch_fapra_tag_instr-IsStored_example =
    arch_fapra_tag_instr-IsStored ram_fapra 8
      (record { bytes = 4; tag = some tag_call; new_pc = some 0x12345678; next_pc = some 12 })
      fapra_call
