-- ===== src/X86/Decode/Bounds.antt =====
-- The array accesses of the decoder's loop.
use libcpu.Base.{
  ℕ, ◌<◌, ◌≤◌, ◌≡◌, ◌⊎◌, inl, inr, refl, ◌∙◌, true, ◌&&◌, ◌==◌, ltb, leb, [], all_below,
  all_below-test, arith, length, get_or, set, List, ◌&&&◌, ◌>>>◌, ◌|||◌, ◌<<<◌, length-set,
  get_or-set_self, get_or-set_ne,
}
use libcpu.X86.Field.{
  get_field, x86_prefix_index, x86_diff_syntax, decode_class_prefix, decode_class_group,
  decode_class_diff_syntax,
}
use libcpu.X86.Tables.{decode_tables, diff_syntax_opcodes}
use libcpu.X86.Instr.{X86Instr, op_size_override, addr_size_override}
use libcpu.X86.ModRm.{decode_modrm_fields}
use libcpu.X86.Decode.{
  Cursor, Round, round, table_entry, take_prefix, take_group, syntax_bits, start_cursor,
}
use libcpu.X86.Decode.Classes.{is_class, row_bound, prefix_lem, group_lem, syntax_lem, round-again}

-- What the loop keeps of its variables.
pub record IsInBounds (c : Cursor) : Type 0 where
  pub group_bound : c.decode_group < 11
  pub byte_bound : c.instr_byte < row_bound c.decode_group
  pub six_prefixes : length c.instr.prefix_values ≡ 6
  pub op_size_bound : op_size_override c.instr ≤ 1
  pub addr_size_bound : addr_size_override c.instr ≤ 1
  pub mod_bound : c.instr.mod_field ≤ 3

modrm_table : all_below 256 (λ m. leb ((m &&& 0xc0) >>> 6) 3 && ltb ((m &&& 0x38) >>> 3) 8) ≡ true
unfolding all_below
modrm_table = refl

pub modrm_lem : (m : ℕ) → m < 256 → ((m &&& 0xc0) >>> 6 ≤ 3) × ((m &&& 0x38) >>> 3 < 8)
modrm_lem m h = ground (arith, all_below-test 256 _ m modrm_table h)

set_prefix_bound :
    (vs : List ℕ) (i v k : ℕ)
    → length vs ≡ 6
    → i < 6
    → get_or vs k 0 ≤ 1
    → (v ≤ 1) ⊎ (i < 3)
    → 3 ≤ k
    → get_or (set vs i v) k 0 ≤ 1
set_prefix_bound vs i v k six hi old new hk =
    ground (arith, get_or-set_self vs i v 0, get_or-set_ne vs i k v 0)

module _ (ram : ℕ → ℕ) (use_intel : ℕ) (bytes : (a : ℕ) → ram a < 256) where
  take_prefix-IsInBounds :
      (c : Cursor)
      → IsInBounds c
      → is_class (table_entry c.decode_group c.instr_byte) decode_class_prefix ≡ true
      → IsInBounds (take_prefix ram use_intel (table_entry c.decode_group c.instr_byte) c)
  unfolding take_prefix
  take_prefix-IsInBounds c b h =
      let (zero_group, index, value) =
        prefix_lem c.decode_group c.instr_byte b.group_bound b.byte_bound h in
      record {
        group_bound = ground arith;
        byte_bound = ground (arith, bytes c.pc);
        six_prefixes = length-set c.instr.prefix_values _ _ ∙ b.six_prefixes;
        op_size_bound =
            set_prefix_bound c.instr.prefix_values _ _ 4 b.six_prefixes index b.op_size_bound value
              (omega arith);
        addr_size_bound =
            set_prefix_bound c.instr.prefix_values _ _ 3 b.six_prefixes index b.addr_size_bound
              value (omega arith);
        mod_bound = b.mod_bound;
      }

  take_group-IsInBounds :
      (c : Cursor)
      → IsInBounds c
      → is_class (table_entry c.decode_group c.instr_byte) decode_class_group ≡ true
      → IsInBounds (take_group ram use_intel (table_entry c.decode_group c.instr_byte) c)
  unfolding take_group decode_modrm_fields
  take_group-IsInBounds c b h =
      let (_, low, high) = group_lem c.decode_group c.instr_byte b.group_bound b.byte_bound h in
      record {
        group_bound = omega arith;
        byte_bound = ground (arith, modrm_lem (ram c.pc) (bytes c.pc));
        six_prefixes = b.six_prefixes;
        op_size_bound = b.op_size_bound;
        addr_size_bound = b.addr_size_bound;
        mod_bound = (modrm_lem (ram c.pc) (bytes c.pc)).0;
      }

  pub round-IsInBounds :
      (c c' : Cursor) → round ram use_intel c ≡ Round.again c' → IsInBounds c → IsInBounds c'
  round-IsInBounds c c' h b = elim (round-again ram use_intel c c' h) [
    | inl (class, e) ↦ rw e (take_prefix-IsInBounds c b class)
    | inr (class, e) ↦ rw e (take_group-IsInBounds c b class)
  ]

  pub start_cursor-IsInBounds : (pc : ℕ) → IsInBounds (start_cursor ram use_intel pc)
  start_cursor-IsInBounds pc = record {
    group_bound = omega arith;
    byte_bound = bytes pc;
    six_prefixes = refl;
    op_size_bound = omega arith;
    addr_size_bound = omega arith;
    mod_bound = omega arith;
  }

-- The values that the loop's variables take.
pub data Visited (ram : ℕ → ℕ) (use_intel pc : ℕ) : Cursor → Type 0 where
  start : Visited ram use_intel pc (start_cursor ram use_intel pc)
  continue :
      {c c' : Cursor}
      → Visited ram use_intel pc c
      → round ram use_intel c ≡ Round.again c'
      → Visited ram use_intel pc c'

Visited-IsInBounds :
    (ram : ℕ → ℕ) (use_intel pc : ℕ) {c : Cursor}
    → ((a : ℕ) → ram a < 256)
    → Visited ram use_intel pc c
    → IsInBounds c
Visited-IsInBounds ram use_intel pc bytes start = start_cursor-IsInBounds ram use_intel bytes pc
Visited-IsInBounds ram use_intel pc bytes (continue {c} {c'} v h) =
    round-IsInBounds ram use_intel bytes c c' h (Visited-IsInBounds ram use_intel pc bytes v)

rows_table : all_below 11 (λ g. length (get_or decode_tables g []) == row_bound g) ≡ true
unfolding all_below decode_tables
rows_table = refl

bits_table : all_below 2 (λ o. all_below 2 (λ u. ltb (o ||| (u <<< 1)) 4)) ≡ true
unfolding all_below
bits_table = refl

pub syntax_bits_bound :
    (ram : ℕ → ℕ) (use_intel : ℕ) (i : X86Instr)
    → use_intel ≤ 1
    → op_size_override i ≤ 1
    → syntax_bits ram use_intel i < 4
syntax_bits_bound ram use_intel i syntax size =
    let column = all_below-test 2 _ (op_size_override i) bits_table (omega arith) in
    ground (arith, all_below-test 2 _ use_intel column (omega arith))

-- For a memory of bytes and either syntax, in every round of the decoder's loop: the group and the
-- byte are inside `decode_tables` and its row, a prefix entry writes one of the six prefix values,
-- a two-syntax entry names one of the 17 rows of `diff_syntax_opcodes`, and the column is below 4.
pub Visited-in_bounds :
    (ram : ℕ → ℕ) (use_intel pc : ℕ) (c : Cursor)
    → ((a : ℕ) → ram a < 256)
    → use_intel ≤ 1
    → Visited ram use_intel pc c
    → (c.decode_group < length decode_tables)
      × (c.instr_byte < length (get_or decode_tables c.decode_group []))
      × (is_class (table_entry c.decode_group c.instr_byte) decode_class_prefix ≡ true
          → get_field (table_entry c.decode_group c.instr_byte) x86_prefix_index
            < length c.instr.prefix_values)
      × (is_class (table_entry c.decode_group c.instr_byte) decode_class_diff_syntax ≡ true
          → get_field (table_entry c.decode_group c.instr_byte) x86_diff_syntax
            < length diff_syntax_opcodes)
      × (syntax_bits ram use_intel c.instr < 4)
Visited-in_bounds ram use_intel pc c bytes syntax visited =
    let b = Visited-IsInBounds ram use_intel pc {c = c} bytes visited in
    let tables : length decode_tables ≡ 11 = unfold decode_tables in refl in
    let syntaxes : length diff_syntax_opcodes ≡ 17 = unfold diff_syntax_opcodes in refl in
    let row = all_below-test 11 _ c.decode_group rows_table b.group_bound in
    (
      ground (arith, b.group_bound),
      ground (arith, b.byte_bound),
      (λ h.
          rw b.six_prefixes
            (prefix_lem c.decode_group c.instr_byte b.group_bound b.byte_bound h).1),
      (λ h. ground (arith, syntax_lem c.decode_group c.instr_byte b.group_bound b.byte_bound h)),
      syntax_bits_bound ram use_intel c.instr syntax b.op_size_bound,
    )
