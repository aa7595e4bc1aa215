-- ===== src/X86/Tables/One.antt =====
-- `decode_table_one` of arch/x86/x86_decode.cpp.
mod Low
mod High
use libcpu.Base.{ℕ, List, ◌++◌}
use Low.{decode_table_one_low}
use High.{decode_table_one_high}

unfoldable pub decode_table_one : List ℕ
unfolding decode_table_one_low decode_table_one_high
decode_table_one = decode_table_one_low ++ decode_table_one_high
