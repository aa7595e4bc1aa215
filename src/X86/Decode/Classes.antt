-- ===== src/X86/Decode/Classes.antt =====
-- The classes of the entries of the decode tables, and the rounds that they lead to.
use libcpu.Base.{
  ℕ, ◌<◌, ◌≤◌, ◌≡◌, ◌⊎◌, refl, Bool, true, ◌&&◌, ◌||◌, ◌==◌, ltb, leb, if◌then◌else◌, is_case, [],
  ◌∷◌, all_below, all_below-test, same_bit, same_bit→eq, arith,
}
use libcpu.X86.Field.{
  get_field, x86_opcode, x86_decode_class, x86_prefix_index, x86_prefix_value, x86_decode_group,
  x86_diff_syntax, decode_class_prefix, decode_class_group, decode_class_diff_syntax,
}
use libcpu.X86.Decode.{Cursor, Round, round, table_entry, take_prefix, take_group}

-- The entry has no opcode and is of a class.
abbrev pub is_class : ℕ → ℕ → Bool
is_class decode class =
    (get_field decode x86_opcode == 0) && (get_field decode x86_decode_class == class)

-- 0x0F and the legacy prefixes, for segments, sizes, LOCK and REP.
abbrev pub is_prefix : ℕ → Bool
is_prefix b =
    is_case b
      (0x0f ∷ 0x26 ∷ 0x2e ∷ 0x36 ∷ 0x3e ∷ 0x64 ∷ 0x65 ∷ 0x66 ∷ 0x67 ∷ 0xf0 ∷ 0xf2 ∷ 0xf3 ∷ [])

-- The length of the table of a group.
abbrev pub row_bound : ℕ → ℕ
row_bound g = if leb g 1 then 256 else 8

prefix_table :
    all_below 256 (λ b. same_bit (is_class (table_entry 0 b) decode_class_prefix) (is_prefix b))
    ≡ true
unfolding all_below table_entry
prefix_table = refl

pub prefix-one : (b : ℕ) → b < 256 → is_class (table_entry 0 b) decode_class_prefix ≡ is_prefix b
prefix-one b h = same_bit→eq _ _ (all_below-test 256 _ b prefix_table h)

-- A test of all entries, by evaluation.
abbrev all_entries : (ℕ → ℕ → Bool) → Bool
unfolding all_below
all_entries test = all_below 11 (λ g. all_below (row_bound g) (test g))

all_entries-test :
    (test : ℕ → ℕ → Bool) (g b : ℕ)
    → all_entries test ≡ true
    → g < 11
    → b < row_bound g
    → test g b ≡ true
unfolding all_entries all_below
all_entries-test test g b all hg hb =
    all_below-test (row_bound g) (test g) b
      (all_below-test 11 (λ g. all_below (row_bound g) (test g)) g all hg) hb

-- What an entry of a prefix says: where it stands, which member it sets, and to what.
abbrev prefix_test : ℕ → ℕ → Bool
prefix_test g b =
    let d = table_entry g b in
    if is_class d decode_class_prefix
    then (g == 0)
      && ltb (get_field d x86_prefix_index) 6
      && (leb (get_field d x86_prefix_value) 1 || ltb (get_field d x86_prefix_index) 3)
    else true

abbrev group_test : ℕ → ℕ → Bool
group_test g b =
    let d = table_entry g b in
    if is_class d decode_class_group
    then leb g 1 && leb 2 (get_field d x86_decode_group) && leb (get_field d x86_decode_group) 10
    else true

abbrev syntax_test : ℕ → ℕ → Bool
syntax_test g b =
    let d = table_entry g b in
    if is_class d decode_class_diff_syntax then ltb (get_field d x86_diff_syntax) 17 else true

prefix_tests : all_entries prefix_test ≡ true
unfolding table_entry all_below
prefix_tests = refl

group_tests : all_entries group_test ≡ true
unfolding table_entry all_below
group_tests = refl

syntax_tests : all_entries syntax_test ≡ true
unfolding table_entry all_below
syntax_tests = refl

module _ (g b : ℕ) (hg : g < 11) (hb : b < row_bound g) where
  pub prefix_lem :
      is_class (table_entry g b) decode_class_prefix ≡ true
      → (g ≡ 0)
        × (get_field (table_entry g b) x86_prefix_index < 6)
        × ((get_field (table_entry g b) x86_prefix_value ≤ 1)
            ⊎ (get_field (table_entry g b) x86_prefix_index < 3))
  prefix_lem h = ground (arith, all_entries-test prefix_test g b prefix_tests hg hb)

  pub group_lem :
      is_class (table_entry g b) decode_class_group ≡ true
      → (g ≤ 1)
        × (2 ≤ get_field (table_entry g b) x86_decode_group)
        × (get_field (table_entry g b) x86_decode_group ≤ 10)
  group_lem h = ground (arith, all_entries-test group_test g b group_tests hg hb)

  pub syntax_lem :
      is_class (table_entry g b) decode_class_diff_syntax ≡ true
      → get_field (table_entry g b) x86_diff_syntax < 17
  syntax_lem h = ground (arith, all_entries-test syntax_test g b syntax_tests hg hb)

-- A round that goes on took a prefix or a group.
pub round-again :
    (ram : ℕ → ℕ) (use_intel : ℕ) (c c' : Cursor)
    → round ram use_intel c ≡ Round.again c'
    → ((is_class (table_entry c.decode_group c.instr_byte) decode_class_prefix ≡ true)
        × (c' ≡ take_prefix ram use_intel (table_entry c.decode_group c.instr_byte) c))
      ⊎ ((is_class (table_entry c.decode_group c.instr_byte) decode_class_group ≡ true)
          × (c' ≡ take_group ram use_intel (table_entry c.decode_group c.instr_byte) c))
unfolding round
round-again ram use_intel c c' h = ground arith
