-- ===== src/X86/Decode/Opcodes.antt =====
-- A test of the opcode and the opcode byte that holds of the tables holds of what is decoded.
use libcpu.Base.{
  ℕ, zero, suc, ◌<◌, ◌≤◌, ◌≡◌, ◌⊎◌, inl, inr, sym, ◌∙◌, Bool, true, false, ◌&&◌, ◌==◌,
  if◌then◌else◌, all_below, all_below-test, &&-both, if-true, arith, bit_and-low, ◌>>>◌,
}
use libcpu.X86.Field.{
  get_field, x86_opcode, x86_decode_class, x86_decode_group, x86_diff_syntax, decode_class_group,
  decode_class_diff_syntax,
}
use libcpu.X86.Instr.{X86Instr}
use libcpu.X86.ModRm.{decode_modrm_fields}
use libcpu.X86.Decode.{
  Cursor, Round, Found, Decoded, round, find, table_entry, diff_syntax_opcode, take_prefix,
  take_group, take_diff_syntax, syntax_bits, start_cursor, arch_x86_decode_instr,
}
use libcpu.X86.Decode.Classes.{is_class, group_lem, prefix_lem, round-again}
use libcpu.X86.Decode.Bounds.{
  IsInBounds, round-IsInBounds, start_cursor-IsInBounds, syntax_bits_bound,
}
use libcpu.X86.Decode.Cases.{Round-cases, find-illegal, find-leave, find-again, decoded-finish}
use libcpu.X86.Decode.Keeps.{opcode_byte_of, finish-opcode}

module _ (test : ℕ → ℕ → Bool) where
  -- The opcodes that an entry stands for, with an opcode byte.
  unfoldable entry_passes : ℕ → ℕ → Bool
  unfolding all_below
  entry_passes decode byte =
      if get_field decode x86_opcode == 0
      then if get_field decode x86_decode_class == decode_class_diff_syntax
        then all_below 4 (λ k. test (diff_syntax_opcode (get_field decode x86_diff_syntax) k) byte)
        else true
      else test (get_field decode x86_opcode) byte

  -- The entries of a group, under the byte that leads there.
  unfoldable group_passes : ℕ → ℕ → Bool
  unfolding all_below entry_passes
  group_passes decode byte =
      if is_class decode decode_class_group
      then all_below 8 (λ r. entry_passes (table_entry (get_field decode x86_decode_group) r) byte)
      else true

  -- The test holds of all entries of the two tables, and of the groups.
  unfoldable pub tables_pass : Bool
  unfolding all_below entry_passes group_passes
  tables_pass = all_below 2 (λ g.
      all_below 256 (λ b. entry_passes (table_entry g b) b && group_passes (table_entry g b) b))

  abbrev Passes : ℕ → ℕ → Type 0
  Passes decode byte = entry_passes decode byte ≡ true

  module _ (all : tables_pass ≡ true) where
    table-Passes :
        (g b : ℕ)
        → g < 2
        → b < 256
        → Passes (table_entry g b) b × (group_passes (table_entry g b) b ≡ true)
    unfolding tables_pass
    table-Passes g b hg hb =
        let row =
          all_below-test 2
            (λ g.
              all_below 256
                (λ b. entry_passes (table_entry g b) b && group_passes (table_entry g b) b))
            g all hg in
        &&-both _ _ (
          all_below-test 256
            (λ b. entry_passes (table_entry g b) b && group_passes (table_entry g b) b) b row hb)

    group_entry-Passes :
        (g b r : ℕ)
        → g < 2
        → b < 256
        → r < 8
        → is_class (table_entry g b) decode_class_group ≡ true
        → Passes (table_entry (get_field (table_entry g b) x86_decode_group) r) b
    unfolding group_passes
    group_entry-Passes g b r hg hb hr class =
        let passes : ℕ → Bool =
          λ r. entry_passes (table_entry (get_field (table_entry g b) x86_decode_group) r) b in
        all_below-test 8 passes r
          (if-true (is_class (table_entry g b) decode_class_group) (all_below 8 passes) true class
            (table-Passes g b hg hb).1)
          hr

    -- The entry that the loop looks at, under the opcode byte that it would give.
    abbrev CursorPasses : Cursor → Type 0
    CursorPasses c = Passes (table_entry c.decode_group c.instr_byte) (opcode_byte_of c)

    module _ (ram : ℕ → ℕ) (use_intel : ℕ) (bytes : (a : ℕ) → ram a < 256)
        (syntax : use_intel ≤ 1) where
      low-Passes : (c : Cursor) → IsInBounds c → c.decode_group ≤ 1 → CursorPasses c
      low-Passes c b low =
          ground (arith, b.byte_bound, (table-Passes c.decode_group c.instr_byte (omega arith)))

      take_prefix_low :
          (d : ℕ) (c : Cursor)
          → c.decode_group ≡ 0
          → (take_prefix ram use_intel d c).decode_group ≤ 1
      unfolding take_prefix
      take_prefix_low d c h = ground arith

      take_group-Passes :
          (c : Cursor)
          → IsInBounds c
          → IsInBounds (take_group ram use_intel (table_entry c.decode_group c.instr_byte) c)
          → is_class (table_entry c.decode_group c.instr_byte) decode_class_group ≡ true
          → CursorPasses (take_group ram use_intel (table_entry c.decode_group c.instr_byte) c)
      unfolding take_group decode_modrm_fields
      take_group-Passes c b b' class =
          let (low, two, ten) =
            group_lem c.decode_group c.instr_byte b.group_bound b.byte_bound class in
          let r =
            (take_group ram use_intel (table_entry c.decode_group c.instr_byte) c).instr_byte in
          let entry =
            group_entry-Passes c.decode_group c.instr_byte r (omega arith)
              (ground (arith, b.byte_bound)) (ground (arith, b'.byte_bound)) class in
          ground arith

      round-Passes :
          (c c' : Cursor) → IsInBounds c → round ram use_intel c ≡ Round.again c' → CursorPasses c'
      round-Passes c c' b e =
          let b' = round-IsInBounds ram use_intel bytes c c' e b in
          let d = table_entry c.decode_group c.instr_byte in
          elim (round-again ram use_intel c c' e) [
            | inl (class, e') ↦ low-Passes c' b' (
                rw e' (
                  take_prefix_low d c
                    (prefix_lem c.decode_group c.instr_byte b.group_bound b.byte_bound class).0))
            | inr (class, e') ↦ rw e' (take_group-Passes c b (rw (← e') b') class)
          ]

      diff_syntax-Passes :
          (decode byte k : ℕ)
          → Passes decode byte
          → is_class decode decode_class_diff_syntax ≡ true
          → k < 4
          → test (diff_syntax_opcode (get_field decode x86_diff_syntax) k) byte ≡ true
      unfolding entry_passes
      diff_syntax-Passes decode byte k passes class hk =
          let row : ℕ → Bool =
            λ k. test (diff_syntax_opcode (get_field decode x86_diff_syntax) k) byte in
          let both = &&-both _ _ class in
          all_below-test 4 row k
            (if-true _ (all_below 4 row) true both.1
              (if-true _ _ (test (get_field decode x86_opcode) byte) both.0 passes))
            hk

      opcode-Passes :
          (decode byte : ℕ)
          → Passes decode byte
          → (get_field decode x86_opcode == 0) ≡ false
          → test (get_field decode x86_opcode) byte ≡ true
      unfolding entry_passes
      opcode-Passes decode byte passes some_opcode = ground arith

      take_diff_syntax-opcode_byte :
          (d : ℕ) (c : Cursor)
          → opcode_byte_of (take_diff_syntax ram use_intel d c) ≡ opcode_byte_of c
      unfolding take_diff_syntax
      take_diff_syntax-opcode_byte d c = ground arith

      -- What a round leaves the loop with.
      round-leave :
          (c c' : Cursor) (decode opcode : ℕ)
          → round ram use_intel c ≡ Round.leave c' decode opcode
          → ((get_field (table_entry c.decode_group c.instr_byte) x86_opcode == 0) ≡ false)
              × (c' ≡ c)
              × (opcode ≡ get_field (table_entry c.decode_group c.instr_byte) x86_opcode)
            ⊎ (is_class (table_entry c.decode_group c.instr_byte) decode_class_diff_syntax ≡ true)
              × (c' ≡ take_diff_syntax ram use_intel (table_entry c.decode_group c.instr_byte) c)
              × (opcode
                  ≡ diff_syntax_opcode
                      (get_field (table_entry c.decode_group c.instr_byte) x86_diff_syntax)
                      (syntax_bits ram use_intel c.instr))
      unfolding round
      round-leave c c' decode opcode e =
          ground (arith, bit_and-low 2 (table_entry c.decode_group c.instr_byte >>> 61))

      round_leave-Passes :
          (c c' : Cursor) (decode opcode : ℕ)
          → IsInBounds c
          → CursorPasses c
          → round ram use_intel c ≡ Round.leave c' decode opcode
          → test opcode (opcode_byte_of c') ≡ true
      round_leave-Passes c c' decode opcode b passes e =
          let d = table_entry c.decode_group c.instr_byte in
          elim (round-leave c c' decode opcode e) [
            | inl (op, e', eo) ↦ rw (e', eo) (opcode-Passes d (opcode_byte_of c) passes op)
            | inr (class, e', eo) ↦
                rw (e', eo, take_diff_syntax-opcode_byte d c)
                  (diff_syntax-Passes d (opcode_byte_of c) (syntax_bits ram use_intel c.instr)
                    passes class (syntax_bits_bound ram use_intel c.instr syntax b.op_size_bound))
          ]

      find-Passes :
          (fuel : ℕ) (c c' : Cursor) (decode opcode : ℕ)
          → IsInBounds c
          → CursorPasses c
          → find ram use_intel fuel c ≡ Found.found c' decode opcode
          → test opcode (opcode_byte_of c') ≡ true
      unfolding find
      find-Passes zero c c' decode opcode b passes e = cc e
      find-Passes (suc fuel) c c' decode opcode b passes e =
          elim (Round-cases (round ram use_intel c)) [
            | inl r ↦ cc (find-illegal ram use_intel fuel c r, e)
            | inr (inl (c1, d, o, r)) ↦
                let same : Round.leave c1 d o ≡ Round.leave c' decode opcode =
                  cc (find-leave ram use_intel fuel c c1 d o r, e) in
                round_leave-Passes c c' decode opcode b passes (r ∙ same)
            | inr (inr (c1, r)) ↦
                find-Passes fuel c1 c' decode opcode (round-IsInBounds ram use_intel bytes c c1 r b)
                  (round-Passes c c1 b r) (sym (find-again ram use_intel fuel c c1 r) ∙ e)
          ]

      -- A test of opcodes and opcode bytes that all entries of the tables pass, alone and through
      -- the groups and the syntax table, is passed by every instruction that the decoder returns.
      pub decoded-Passes :
          (fuel pc : ℕ) (i : X86Instr)
          → arch_x86_decode_instr ram use_intel fuel pc ≡ Decoded.decoded i
          → test i.opcode i.opcode_byte ≡ true
      decoded-Passes fuel pc i e =
          let first = start_cursor ram use_intel pc in
          let b = start_cursor-IsInBounds ram use_intel bytes pc in
          let (c, d, o, r, same) = decoded-finish ram use_intel fuel pc i e in
          let opcode = finish-opcode ram use_intel pc c d o in
          rw (same, opcode.0, opcode.1)
            (find-Passes fuel first c d o b (low-Passes first b (omega arith)) r)
