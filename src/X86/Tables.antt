-- ===== src/X86/Tables.antt =====
-- The decode tables of arch/x86/x86_decode.cpp.
mod One
mod Two
mod Groups
mod Syntax
unfoldable pub use One.{decode_table_one}
unfoldable pub use Two.{decode_table_two}
unfoldable pub use Syntax.{diff_syntax_flags_0x62, diff_syntax_opcodes}
use libcpu.Base.{ℕ, List, [], ◌∷◌}
use One.{decode_table_one}
use Two.{decode_table_two}
use Groups.{
  grp1_decode_table, grp2_decode_table, grp3_decode_table, grp4_decode_table, grp5_decode_table,
  grp6_decode_table, grp7_decode_table, grp8_decode_table, grp9_decode_table,
}

unfoldable pub decode_tables : List (List ℕ)
unfolding decode_table_one decode_table_two grp1_decode_table grp2_decode_table grp3_decode_table
    grp4_decode_table grp5_decode_table grp6_decode_table grp7_decode_table grp8_decode_table
    grp9_decode_table
decode_tables =
    decode_table_one ∷ decode_table_two ∷ grp1_decode_table ∷ grp2_decode_table ∷ grp3_decode_table
    ∷ grp4_decode_table ∷ grp5_decode_table ∷ grp6_decode_table ∷ grp7_decode_table
    ∷ grp8_decode_table ∷ grp9_decode_table ∷ []
