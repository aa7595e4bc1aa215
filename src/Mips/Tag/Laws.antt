-- ===== src/Mips/Tag/Laws.antt =====
-- What the tagger and the translator may rely on, and where the cases of the switch lead.
use mathlib.Core.Option
use libcpu.Base.{
  ℕ, ◌+◌, ◌^◌, ◌≤◌, ◌≡◌, ◌≢◌, refl, true, false, ◌&&◌, ◌==◌, none, some, [], ◌∷◌, arith, has,
  bit_or, is_case, if-cases, ◌|||◌, ◌>>>◌,
}
use libcpu.Frontend.{ram32be}
use libcpu.Tag.Flags.{tag_trap, tag_ret, tag_branch, tag_call, tag_continue, tag_delay_slot}
use libcpu.Tag.Store.{Cpu, is_inside_code_area}
use libcpu.Tag.Arch.{IsWritten}
use libcpu.Translate.Guest.{IsKind}
use libcpu.Translate.Tagged.{IsForward}
use libcpu.Translate.Frontends.{tag_continue-IsKind, tag_trap-IsKind, tag_call-IsKind}
use libcpu.Mips.Tag.{
  Stores, nothing, set_tag, arch_mips_tag_instr, tag_switch, special, jal, beq, likely,
  get_function, special_traps, opcode_traps, rs, rt,
}

slot-IsKind :
    (t : ℕ)
    → has t tag_delay_slot ≡ true
    → has t (tag_branch ||| tag_call ||| tag_ret) ≡ true
    → IsKind t
slot-IsKind t h k = record { exclusive = λ e. cc (e, h); slot_jumps = λ e. k }

-- The tag is stored, the target where the tag makes the tagger read it, and the tag fits together.
record IsStored (w : Stores) : Type 0 where
  tag_set : w.tag ≢ none
  target_set : has (Option.get_or w.tag 0) (bit_or tag_call tag_branch) ≡ true → w.new_pc ≢ none
  kind : IsKind (Option.get_or w.tag 0)

set_tag-IsStored :
    (t : ℕ) (w : Stores)
    → has t (bit_or tag_call tag_branch) ≡ false
    → IsKind t
    → IsStored (set_tag t w)
set_tag-IsStored t w free k = record { tag_set = cc; target_set = λ e. cc (e, free); kind = k }

both-IsStored : (t a : ℕ) → IsKind t → IsStored (record { tag = some t; new_pc = some a })
both-IsStored t a k = record { tag_set = cc; target_set = λ e. cc; kind = k }

trap-IsStored : (w : Stores) → IsStored (set_tag tag_trap w)
trap-IsStored w = set_tag-IsStored tag_trap w refl tag_trap-IsKind

continue-IsStored : (w : Stores) → IsStored (set_tag tag_continue w)
continue-IsStored w = set_tag-IsStored tag_continue w refl tag_continue-IsKind

module _ (instr pc : ℕ) (w : Stores) where
  special-IsStored : IsStored (special instr pc w)
  special-IsStored =
      if-cases IsStored (get_function instr == 0x08) _ _
        (λ _. set_tag-IsStored (tag_ret ||| tag_delay_slot) w refl (slot-IsKind _ refl refl))
        (λ _.
          if-cases IsStored (get_function instr == 0x09) _ _
            (λ _. both-IsStored _ _ (slot-IsKind _ refl refl))
            (λ _.
              if-cases IsStored (is_case (get_function instr) special_traps) _ _
                (λ _. trap-IsStored w) (λ _. continue-IsStored w)))

  call-IsStored : IsStored (jal instr pc w)
  call-IsStored = both-IsStored tag_call _ tag_call-IsKind

  likely-IsStored : IsStored (likely instr pc w)
  likely-IsStored = both-IsStored _ _ (slot-IsKind _ refl refl)

  beq-IsStored : IsStored (beq instr pc w)
  beq-IsStored =
      if-cases IsStored ((rs instr == 0) && (rt instr == 0)) _ _
        (λ _. both-IsStored _ _ (slot-IsKind _ refl refl)) (λ _. likely-IsStored)

  tag_switch-IsStored : IsStored (tag_switch instr pc w)
  unfolding tag_switch
  tag_switch-IsStored =
      let op = instr >>> 26 in
      if-cases IsStored (op == 0x00) _ _ (λ _. special-IsStored)
        (λ _.
          if-cases IsStored (op == 0x01) _ _ (λ _. call-IsStored)
            (λ _.
              if-cases IsStored (op == 0x02) _ _ (λ _. call-IsStored)
                (λ _.
                  if-cases IsStored (op == 0x03) _ _ (λ _. call-IsStored)
                    (λ _.
                      if-cases IsStored (op == 0x04) _ _ (λ _. beq-IsStored)
                        (λ _.
                          if-cases IsStored (is_case op (0x05 ∷ 0x06 ∷ 0x07 ∷ [])) _ _
                            (λ _. likely-IsStored)
                            (λ _.
                              if-cases IsStored (op == 0x10) _ _ (λ _. trap-IsStored w)
                                (λ _.
                                  if-cases IsStored (op == 0x11) _ _ (λ _. likely-IsStored)
                                    (λ _.
                                      if-cases IsStored
                                        (is_case op (0x14 ∷ 0x15 ∷ 0x16 ∷ 0x17 ∷ [])) _ _
                                        (λ _. likely-IsStored)
                                        (λ _.
                                          if-cases IsStored (is_case op opcode_traps) _ _
                                            (λ _. trap-IsStored w)
                                            (λ _. continue-IsStored w))))))))))

-- The MIPS frontend stores all that its tags need, for any memory and address.
pub arch_mips_tag_instr-IsWritten : (ram : ℕ → ℕ) (pc : ℕ) → IsWritten (arch_mips_tag_instr ram pc)
unfolding arch_mips_tag_instr
arch_mips_tag_instr-IsWritten ram pc =
    let stored = tag_switch-IsStored (ram32be ram pc) pc nothing in
    record { tag_set = stored.tag_set; next_set = cc; new_set = stored.target_set }

-- For a code area that ends 8 bytes below 2^64 or earlier, the MIPS frontend's tags fit together, with
-- their delay slots, and its instructions lead to higher addresses.
pub arch_mips_tag_instr-IsForward :
    (cpu : Cpu) (ram : ℕ → ℕ) → cpu.code_end + 8 ≤ 2 ^ 64 → IsForward cpu (arch_mips_tag_instr ram)
unfolding arch_mips_tag_instr is_inside_code_area
arch_mips_tag_instr-IsForward cpu ram room = record {
  kind = λ pc. (tag_switch-IsStored (ram32be ram pc) pc nothing).kind;
  forward = λ pc inside. ground arith;
}
