-- ===== src/X86/Tables/Two.antt =====
-- `decode_table_two` of arch/x86/x86_decode.cpp.
mod Low
mod High
use libcpu.Base.{ℕ, List, ◌++◌}
use Low.{decode_table_two_low}
use High.{decode_table_two_high}

unfoldable pub decode_table_two : List ℕ
unfolding decode_table_two_low decode_table_two_high
decode_table_two = decode_table_two_low ++ decode_table_two_high
