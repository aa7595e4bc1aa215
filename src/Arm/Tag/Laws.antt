-- ===== src/Arm/Tag/Laws.antt =====
-- What the tagger and the translator may rely on, and the range of a branch.
use libcpu.Base.{
  ap, not, ℕ, ◌+◌, ◌*◌, ◌%◌, ◌^◌, ◌≤◌, ◌≡◌, ◌≢◌, refl, true, false, ◌==◌, Option, none, some, arith,
  has, bit_or, bit_and-low, if-cases, ◌|||◌, ◌>>>◌, Bool-cases, inl, inr,
}
use libcpu.Frontend.{ram32le}
use libcpu.Tag.Flags.{tag_branch, tag_call, tag_ret, tag_continue, tag_conditional}
use libcpu.Tag.Store.{Cpu, is_inside_code_area}
use libcpu.Tag.Arch.{IsWritten, tag_of, new_pc_of}
use libcpu.Translate.Guest.{IsKind}
use libcpu.Translate.Tagged.{IsForward}
use libcpu.Arm.Tag.{arch_arm_tag_instr, tag_switch, new_pc_switch, branch_target, class_bits}

-- A tag, its conditional variant, and the target.
record IsStored (tag : ℕ) (new_pc : Option ℕ) : Type 0 where
  kind : IsKind tag
  kind_cond : IsKind (tag ||| tag_conditional)
  target_set : has tag (bit_or tag_call tag_branch) ≡ true → new_pc ≢ none
  target_cond : has (tag ||| tag_conditional) (bit_or tag_call tag_branch) ≡ true → new_pc ≢ none

ret-IsStored : IsStored tag_ret none
ret-IsStored = record {
  kind = record { exclusive = λ e. refl; slot_jumps = λ e. cc e };
  kind_cond = record { exclusive = λ e. refl; slot_jumps = λ e. cc e };
  target_set = λ e. cc e;
  target_cond = λ e. cc e;
}

continue-IsStored : IsStored tag_continue none
continue-IsStored = record {
  kind = record { exclusive = λ e. refl; slot_jumps = λ e. cc e };
  kind_cond = record { exclusive = λ e. refl; slot_jumps = λ e. cc e };
  target_set = λ e. cc e;
  target_cond = λ e. cc e;
}

branch-IsStored : (a : ℕ) → IsStored tag_branch (some a)
branch-IsStored a = record {
  kind = record { exclusive = λ e. refl; slot_jumps = λ e. cc e };
  kind_cond = record { exclusive = λ e. refl; slot_jumps = λ e. cc e };
  target_set = λ e. cc;
  target_cond = λ e. cc;
}

call-IsStored : (a : ℕ) → IsStored tag_call (some a)
call-IsStored a = record {
  kind = record { exclusive = λ e. refl; slot_jumps = λ e. cc e };
  kind_cond = record { exclusive = λ e. refl; slot_jumps = λ e. cc e };
  target_set = λ e. cc;
  target_cond = λ e. cc;
}

tag_switch-IsStored : (instr pc : ℕ) → IsStored (tag_switch instr) (new_pc_switch instr pc)
unfolding tag_switch new_pc_switch
tag_switch-IsStored instr pc = elim (Bool-cases (instr == 0xe1a0f00e)) [
  | inl e ↦ rw e ret-IsStored
  | inr e ↦ elim (Bool-cases (class_bits instr == 10)) [
    | inl b ↦ rw (e, b) (branch-IsStored _)
    | inr b ↦ elim (Bool-cases (class_bits instr == 11)) [
      | inl c ↦ rw (e, b, c) (call-IsStored _)
      | inr c ↦ rw (e, b, c) continue-IsStored
    ]
  ]
]

-- The ARM frontend stores all that its tags need, for any memory and address.
pub arch_arm_tag_instr-IsWritten : (ram : ℕ → ℕ) (pc : ℕ) → IsWritten (arch_arm_tag_instr ram pc)
unfolding arch_arm_tag_instr
arch_arm_tag_instr-IsWritten ram pc =
    let instr = ram32le ram pc in
    let stored = tag_switch-IsStored instr pc in
    record {
      tag_set = cc;
      next_set = cc;
      new_set =
          if-cases (λ t. has t (bit_or tag_call tag_branch) ≡ true → new_pc_switch instr pc ≢ none)
            ((instr >>> 28) == 0xe) _ _ (λ _. stored.target_set) (λ _. stored.target_cond);
    }

-- For a code area that ends 4 bytes below 2^64 or earlier, the ARM frontend's tags fit together, those
-- of conditional instructions too, and its instructions lead to higher addresses.
pub arch_arm_tag_instr-IsForward :
    (cpu : Cpu) (ram : ℕ → ℕ) → cpu.code_end + 4 ≤ 2 ^ 64 → IsForward cpu (arch_arm_tag_instr ram)
unfolding arch_arm_tag_instr is_inside_code_area
arch_arm_tag_instr-IsForward cpu ram room = record {
  kind = λ pc.
      let instr = ram32le ram pc in
      let stored = tag_switch-IsStored instr pc in
      if-cases IsKind ((instr >>> 28) == 0xe) _ _ (λ _. stored.kind) (λ _. stored.kind_cond);
  forward = λ pc inside. ground arith;
}

branch_target_lem :
    (instr pc : ℕ)
    → (branch_target instr pc + 2 ^ 25) % 2 ^ 64
      ≡ (pc + 8 + (instr % 2 ^ 24 * 4 + 2 ^ 25) % 2 ^ 26) % 2 ^ 64
unfolding branch_target
branch_target_lem instr pc = ground (arith, bit_and-low 24 instr)

class-not_ret : (instr : ℕ) → class_bits instr ≡ 10 → (instr == 0xe1a0f00e) ≡ false
class-not_ret instr e = elim (Bool-cases (instr == 0xe1a0f00e)) [
  | inl same ↦ let word : instr ≡ 0xe1a0f00e = ground arith in cc (e, ap class_bits word)
  | inr other ↦ other
]

-- An ARM instruction whose bits 24 to 27 are 10 is tagged as a branch, conditional exactly if its
-- bits from 28 on are not 14, to the address 8 bytes and its low 24 bits, signed, times 4 away.
pub arch_arm_tag_instr-branch :
    (ram : ℕ → ℕ) (pc : ℕ)
    → class_bits (ram32le ram pc) ≡ 10
    → (has (tag_of (arch_arm_tag_instr ram pc)) tag_branch ≡ true)
      × (has (tag_of (arch_arm_tag_instr ram pc)) tag_conditional
          ≡ not ((ram32le ram pc >>> 28) == 0xe))
      × ((new_pc_of (arch_arm_tag_instr ram pc) + 2 ^ 25) % 2 ^ 64
          ≡ (pc + 8 + (ram32le ram pc % 2 ^ 24 * 4 + 2 ^ 25) % 2 ^ 26) % 2 ^ 64)
unfolding arch_arm_tag_instr tag_switch new_pc_switch
arch_arm_tag_instr-branch ram pc class =
    let instr = ram32le ram pc in
    let plain = class-not_ret instr class in
    elim (Bool-cases ((instr >>> 28) == 0xe)) [
      | inl e ↦ rw (plain, class, e) (refl, refl, branch_target_lem instr pc)
      | inr e ↦ rw (plain, class, e) (refl, refl, branch_target_lem instr pc)
    ]
