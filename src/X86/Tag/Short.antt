-- ===== src/X86/Tag/Short.antt =====
-- The short conditional jumps of x86, from the bytes to the tags.
use libcpu.Base.{
  ℕ, suc, ◌+◌, ◌-◌, ◌^◌, ◌%◌, ◌≡◌, ◌<◌, refl, Bool, true, false, not, ◌&&◌, ◌||◌, ◌==◌, some,
  sign_extend, arith, if◌then◌else◌, ltb, leb, ap, clear64, all_below, all_below-test, is_case,
  &&-both, ==_iff, if-true,
}
use libcpu.Tag.Flags.{tag_cond_branch, addr_mod}
use libcpu.Tag.Arch.{Written}
use libcpu.Tag.Cache.{int_to_addr}
use libcpu.X86.Field.{get_field, get_mask, x86_opcode, jb}
use libcpu.X86.Data.{decode_rel}
use libcpu.X86.Operands.{decode_src_operand, decode_dst_operand, decode_third_operand}
use libcpu.X86.Instr.{X86Instr, zero_instr}
use libcpu.X86.Decode.{
  Cursor, Round, Decoded, arch_x86_decode_instr, finish, round, table_entry, opcode_flags,
  override_width, fetch_sib, fetch_data,
}
use libcpu.X86.Decode.Cases.{decode-found, find-leave}
use libcpu.X86.Decode.Keeps.{finish-opcode}
use libcpu.X86.Tag.{arch_x86_tag_instr, tag_switch, cond_opcodes}

-- 0x70 to 0x7F, LOOPNE, LOOPE and LOOP.
abbrev pub is_short_jump : ℕ → Bool
is_short_jump b = (leb 0x70 b && leb b 0x7f) || (leb 0xe0 b && leb b 0xe2)

abbrev jump_test : ℕ → Bool
jump_test b =
    let d = table_entry 0 b in
    if is_short_jump b
    then not (get_field d x86_opcode == 0)
      && (is_case (get_field d x86_opcode) cond_opcodes && (clear64 d (get_mask x86_opcode) == jb))
    else true

jump_tests : all_below 256 jump_test ≡ true
unfolding all_below table_entry
jump_tests = refl

not-true : (b : Bool) → not b ≡ true → b ≡ false
not-true b h = ground arith

jump_entry :
    (b : ℕ)
    → b < 256
    → is_short_jump b ≡ true
    → ((get_field (table_entry 0 b) x86_opcode == 0) ≡ false)
      × (is_case (get_field (table_entry 0 b) x86_opcode) cond_opcodes ≡ true)
      × (clear64 (table_entry 0 b) (get_mask x86_opcode) ≡ jb)
jump_entry b hb h =
    let d = table_entry 0 b in
    let all =
      if-true (is_short_jump b)
        (not (get_field d x86_opcode == 0)
          && (is_case (get_field d x86_opcode) cond_opcodes
              && (clear64 d (get_mask x86_opcode) == jb)))
        true h (all_below-test 256 jump_test b jump_tests hb) in
    let both = &&-both (not (get_field d x86_opcode == 0)) _ all in
    let rest = &&-both (is_case (get_field d x86_opcode) cond_opcodes) _ both.1 in
    (not-true _ both.0, rest.0, (==_iff (clear64 d (get_mask x86_opcode)) jb).0 rest.1)

module _ (ram : ℕ → ℕ) (use_intel : ℕ) where
  abbrev jump_instr : ℕ → ℕ → X86Instr
  jump_instr b o = record zero_instr { opcode = o; opcode_byte = b; flags = jb }

  jump_flags :
      (b p d o : ℕ)
      → clear64 d (get_mask x86_opcode) ≡ jb
      → opcode_flags ram use_intel
          (record { instr = zero_instr; decode_group = 0; instr_byte = b; pc = p })
          d
          o
        ≡ record { instr = jump_instr b o; pc = p }
  unfolding opcode_flags
  jump_flags b p d o e = rw (opcode_flags, e) refl

  abbrev jump_cursor : ℕ → ℕ → Cursor
  jump_cursor b p = record { instr = zero_instr; decode_group = 0; instr_byte = b; pc = p }

  jump_finish :
      (start b p d o : ℕ)
      → clear64 d (get_mask x86_opcode) ≡ jb
      → ((finish ram use_intel start (jump_cursor b p) d o).nr_bytes
          ≡ ((p + 1) % addr_mod + addr_mod - start) % addr_mod)
        × ((finish ram use_intel start (jump_cursor b p) d o).imm_data0 ≡ sign_extend 8 32 (ram p))
  unfolding finish override_width fetch_data fetch_sib decode_rel decode_src_operand
      decode_dst_operand decode_third_operand
  jump_finish start b p d o e = rw (finish, jump_flags b p d o e) (refl, refl)

  jump_round :
      (b p : ℕ)
      → (get_field (table_entry 0 b) x86_opcode == 0) ≡ false
      → round ram use_intel (jump_cursor b p)
        ≡ Round.leave (jump_cursor b p) (table_entry 0 b) (get_field (table_entry 0 b) x86_opcode)
  unfolding round
  jump_round b p e = rw (round, e) refl

  jump_decoded :
      (fuel pc : ℕ)
      → (get_field (table_entry 0 (ram pc)) x86_opcode == 0) ≡ false
      → arch_x86_decode_instr ram use_intel (suc fuel) pc
        ≡ Decoded.decoded (
            finish ram use_intel pc
              (jump_cursor (ram pc) ((pc + 1) % addr_mod))
              (table_entry 0 (ram pc))
              (get_field (table_entry 0 (ram pc)) x86_opcode))
  jump_decoded fuel pc e = decode-found ram use_intel (suc fuel) pc _ _ _ (
      find-leave ram use_intel fuel (jump_cursor (ram pc) ((pc + 1) % addr_mod)) _ _ _
        (jump_round (ram pc) ((pc + 1) % addr_mod) e))

-- A byte as a signed number, in 64 bits.
abbrev pub signed_byte : ℕ → ℕ
signed_byte x = if ltb x 128 then x else 2 ^ 64 - 256 + x

abbrev jump_written : ℕ → ℕ → Written
jump_written pc x = record {
  bytes = 2;
  tag = some tag_cond_branch;
  new_pc = some ((pc + 2 + signed_byte x) % addr_mod);
  next_pc = some ((pc + 2) % addr_mod);
}

tag_switch-cond :
    (i : X86Instr) (pc x : ℕ)
    → pc < addr_mod
    → x < 256
    → is_case i.opcode cond_opcodes ≡ true
    → i.nr_bytes ≡ ((((pc + 1) % addr_mod) + 1) % addr_mod + addr_mod - pc) % addr_mod
    → i.imm_data0 ≡ sign_extend 8 32 x
    → tag_switch i pc ≡ jump_written pc x
unfolding tag_switch
tag_switch-cond i pc x inside hx cond len rel =
    let two : i.nr_bytes ≡ 2 = omega arith in
    let offset : int_to_addr (sign_extend 8 32 x) ≡ signed_byte x = ground arith in
    rw (tag_switch, cond, two, rel, offset) refl

-- For a memory of bytes, an address in 64 bits and some fuel: where the opcode at `pc` is one of
-- 0x70 to 0x7F or 0xE0 to 0xE2 (without a prefix), the instruction is a conditional branch of two
-- bytes, whose target is its second byte, as a signed number, behind the instruction.
pub arch_x86_tag_instr-short_jump :
    (ram : ℕ → ℕ) (use_intel fuel pc : ℕ)
    → ((a : ℕ) → ram a < 256)
    → pc < addr_mod
    → is_short_jump (ram pc) ≡ true
    → arch_x86_tag_instr ram use_intel (suc fuel) pc
      ≡ some (record {
        bytes = 2;
        tag = some tag_cond_branch;
        new_pc = some ((pc + 2 + signed_byte (ram ((pc + 1) % addr_mod))) % addr_mod);
        next_pc = some ((pc + 2) % addr_mod);
      })
unfolding arch_x86_tag_instr
arch_x86_tag_instr-short_jump ram use_intel fuel pc bytes inside jump =
    let (some_opcode, cond, flags) = jump_entry (ram pc) (bytes pc) jump in
    let p = (pc + 1) % addr_mod in
    let d = table_entry 0 (ram pc) in
    let c = jump_cursor ram use_intel (ram pc) p in
    let parts = jump_finish ram use_intel pc (ram pc) p d (get_field d x86_opcode) flags in
    let opcode = finish-opcode ram use_intel pc c d (get_field d x86_opcode) in
    rw (arch_x86_tag_instr, jump_decoded ram use_intel fuel pc some_opcode)
      (ap some (
        tag_switch-cond (finish ram use_intel pc c d (get_field d x86_opcode)) pc (ram p) inside
          (bytes p) (rw opcode.0 cond) parts.0 parts.1))
