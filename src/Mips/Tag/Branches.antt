-- ===== src/Mips/Tag/Branches.antt =====
-- The branches of `arch_mips_tag_instr` (arch/mips/mips_translate.cpp).
use mathlib.Core.Option
use libcpu.Base.{
  ℕ, ◌+◌, ◌*◌, ◌%◌, ◌^◌, ◌≡◌, refl, inl, inr, true, some, [], ◌∷◌, arith, has, ◌&&◌, ◌==◌,
  bit_and-low, OneOf, if-cases, ◌>>>◌,
}
use libcpu.Frontend.{ram32be}
use libcpu.Tag.Flags.{tag_branch, tag_delay_slot}
use libcpu.Tag.Arch.{tag_of, new_pc_of, next_pc_of}
use libcpu.Mips.Tag.{
  Stores, nothing, arch_mips_tag_instr, tag_switch, beq, likely, branch_target, rs, rt,
}

abbrev IsBranch : ℕ → ℕ → Stores → Type 0
IsBranch instr pc w =
    (has (Option.get_or w.tag 0) tag_branch ≡ true)
    × (has (Option.get_or w.tag 0) tag_delay_slot ≡ true)
    × (w.new_pc ≡ some (branch_target instr pc))

module _ (instr pc : ℕ) (w : Stores) where
  likely-IsBranch : IsBranch instr pc (likely instr pc w)
  likely-IsBranch = (refl, refl, refl)

  beq-IsBranch : IsBranch instr pc (beq instr pc w)
  beq-IsBranch =
      if-cases (IsBranch instr pc) ((rs instr == 0) && (rt instr == 0)) _ _
        (λ _. (refl, refl, refl)) (λ _. (refl, refl, refl))

  tag_switch-IsBranch :
      OneOf (instr >>> 26) (4 ∷ 5 ∷ 6 ∷ 7 ∷ 0x11 ∷ 0x14 ∷ 0x15 ∷ 0x16 ∷ 0x17 ∷ [])
      → IsBranch instr pc (tag_switch instr pc w)
  unfolding tag_switch
  tag_switch-IsBranch (inl e) = rw e beq-IsBranch
  tag_switch-IsBranch (inr (inl e)) = rw e likely-IsBranch
  tag_switch-IsBranch (inr (inr (inl e))) = rw e likely-IsBranch
  tag_switch-IsBranch (inr (inr (inr (inl e)))) = rw e likely-IsBranch
  tag_switch-IsBranch (inr (inr (inr (inr (inl e))))) = rw e likely-IsBranch
  tag_switch-IsBranch (inr (inr (inr (inr (inr (inl e)))))) = rw e likely-IsBranch
  tag_switch-IsBranch (inr (inr (inr (inr (inr (inr (inl e))))))) = rw e likely-IsBranch
  tag_switch-IsBranch (inr (inr (inr (inr (inr (inr (inr (inl e)))))))) = rw e likely-IsBranch
  tag_switch-IsBranch (inr (inr (inr (inr (inr (inr (inr (inr (inl e))))))))) = rw e likely-IsBranch
  tag_switch-IsBranch (inr (inr (inr (inr (inr (inr (inr (inr (inr e))))))))) = absurd e

branch_target_lem :
    (instr pc : ℕ)
    → (branch_target instr pc + 2 ^ 17) % 2 ^ 32 ≡ (pc + 4 + (instr + 2 ^ 15) % 2 ^ 16 * 4) % 2 ^ 32
unfolding branch_target
branch_target_lem instr pc = ground (arith, bit_and-low 16 instr)

-- The opcodes 4 to 7, 0x14 to 0x17 and, because its case has no `break`, 0x11 (COP1) of the MIPS
-- frontend are tagged as branches with a delay slot: the target is 4 bytes and the signed low half of
-- the instruction times 4 away, in 32 bits, and the next address lies behind the delay slot.
pub arch_mips_tag_instr-branch :
    (ram : ℕ → ℕ) (pc : ℕ)
    → OneOf (ram32be ram pc >>> 26) (4 ∷ 5 ∷ 6 ∷ 7 ∷ 0x11 ∷ 0x14 ∷ 0x15 ∷ 0x16 ∷ 0x17 ∷ [])
    → (has (tag_of (arch_mips_tag_instr ram pc)) tag_branch ≡ true)
      × (has (tag_of (arch_mips_tag_instr ram pc)) tag_delay_slot ≡ true)
      × ((new_pc_of (arch_mips_tag_instr ram pc) + 2 ^ 17) % 2 ^ 32
          ≡ (pc + 4 + (ram32be ram pc + 2 ^ 15) % 2 ^ 16 * 4) % 2 ^ 32)
      × (next_pc_of (arch_mips_tag_instr ram pc) ≡ (pc + 8) % 2 ^ 64)
unfolding arch_mips_tag_instr
arch_mips_tag_instr-branch ram pc op =
    let (branch, slot, target) = tag_switch-IsBranch (ram32be ram pc) pc nothing op in
    (branch, slot, rw target (branch_target_lem (ram32be ram pc) pc), rw slot refl)
