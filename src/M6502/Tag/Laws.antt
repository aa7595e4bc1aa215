-- ===== src/M6502/Tag/Laws.antt =====
-- What the tagger may rely on, and what the tags say of the opcodes.
use libcpu.Base.{
  ==_iff, ◌∙◌, ◌==◌, all_below, all_below-test, same_bit, same_bit→eq, refl, ℕ, ◌+◌, ◌%◌, ◌^◌, ◌≡◌,
  ◌≢◌, ◌<◌, ◌≤◌, none, some, bit_or, arith, has, true,
}
use libcpu.Tag.Flags.{tag_branch, tag_call, tag_conditional}
use libcpu.Tag.Arch.{IsWritten, tag_of, next_pc_of, new_pc_of}
use libcpu.M6502.Isa.{Instr, AddMode, get_instr, get_addmode, get_length}
use libcpu.M6502.Tag.{tag_instr, tag_switch, new_pc_switch, branch_target}

new_pc-tag :
    (ram : ℕ → ℕ) (i : Instr) (mode : AddMode) (pc : ℕ)
    → has (tag_switch i) (bit_or tag_call tag_branch) ≡ true
    → new_pc_switch ram i mode pc ≢ none
unfolding tag_switch new_pc_switch
new_pc-tag ram Instr.jmp mode pc h = cc
new_pc-tag ram _ mode pc h = cc

-- The 6502 frontend stores all that its tags need, for any memory and address.
pub tag_instr-IsWritten : (ram : ℕ → ℕ) (pc : ℕ) → IsWritten (tag_instr ram pc)
unfolding tag_instr
tag_instr-IsWritten ram pc = record {
  tag_set = cc;
  next_set = cc;
  new_set = λ h. new_pc-tag ram (get_instr (ram pc)) (get_addmode (ram pc)) pc h;
}

-- The tag of an opcode is TAG_CONDITIONAL exactly in the column x%32 = 16 of the matrix.
conditional_table :
    all_below 256 (λ x. same_bit (has (tag_switch (get_instr x)) tag_conditional) (x % 32 == 16))
    ≡ true
unfolding tag_switch get_instr all_below
conditional_table = refl

conditional_opcode :
    (x : ℕ) → x < 256 → has (tag_switch (get_instr x)) tag_conditional ≡ (x % 32 == 16)
conditional_opcode x h = same_bit→eq _ _ (all_below-test 256 _ x conditional_table h)

new_pc-branch :
    (ram : ℕ → ℕ) (i : Instr) (mode : AddMode) (pc : ℕ)
    → has (tag_switch i) tag_conditional ≡ true
    → new_pc_switch ram i mode pc ≡ some (branch_target ram pc)
unfolding tag_switch new_pc_switch
new_pc-branch ram Instr.bcc mode pc h = refl
new_pc-branch ram _ mode pc h = cc

length_bounds : (mode : AddMode) → (1 ≤ get_length mode) × (get_length mode ≤ 3)
unfolding get_length
length_bounds AddMode.acc = omega arith
length_bounds _ = omega arith

branch_target_lem :
    (ram : ℕ → ℕ) (pc : ℕ)
    → ((a : ℕ) → ram a < 256)
    → (branch_target ram pc + 126) % 2 ^ 64 ≡ (pc + (ram ((pc + 1) % 2 ^ 64) + 128) % 256) % 2 ^ 64
unfolding branch_target
branch_target_lem ram pc bytes = ground (arith, bytes ((pc + 1) % 2 ^ 64))

-- For any memory that holds bytes and any address: an instruction takes 1 to 3 bytes, it is followed
-- by the address behind them (in 64 bits), and it is conditional exactly if its opcode is one of
-- 0x10, 0x30, ..., 0xF0; then its target is at most 126 bytes back or 129 ahead.
pub tag_instr_lem :
    (ram : ℕ → ℕ) (pc : ℕ)
    → ((a : ℕ) → ram a < 256)
    → (1 ≤ (tag_instr ram pc).bytes)
      × ((tag_instr ram pc).bytes ≤ 3)
      × (next_pc_of (tag_instr ram pc) ≡ (pc + (tag_instr ram pc).bytes) % 2 ^ 64)
      × (has (tag_of (tag_instr ram pc)) tag_conditional ≡ (ram pc % 32 == 16))
      × (ram pc % 32 ≡ 16
          → (new_pc_of (tag_instr ram pc) + 126) % 2 ^ 64
            ≡ (pc + (ram ((pc + 1) % 2 ^ 64) + 128) % 256) % 2 ^ 64)
unfolding tag_instr
tag_instr_lem ram pc bytes = (
  (length_bounds (get_addmode (ram pc))).0,
  (length_bounds (get_addmode (ram pc))).1,
  refl,
  conditional_opcode (ram pc) (bytes pc),
  λ column.
      let cond : has (tag_switch (get_instr (ram pc))) tag_conditional ≡ true =
        conditional_opcode (ram pc) (bytes pc) ∙ (==_iff (ram pc % 32) 16).1 column in
      rw (new_pc-branch ram (get_instr (ram pc)) (get_addmode (ram pc)) pc cond)
        (branch_target_lem ram pc bytes),
)
