-- ===== src/Tag/Flags.antt =====
-- The bits of `tag_t` (libcpu/tag.h) and the bits of the `cpu_t` flag words that the tagger
-- tests (libcpu/libcpu.h, libcpu/defines.h).
use libcpu.Base.{ℕ, ◌^◌, ◌-◌, bit_or}

abbrev pub tag_continue : ℕ
tag_continue = 2 ^ 0

abbrev pub tag_call : ℕ
tag_call = 2 ^ 1

abbrev pub tag_ret : ℕ
tag_ret = 2 ^ 2

abbrev pub tag_branch : ℕ
tag_branch = 2 ^ 3

abbrev pub tag_trap : ℕ
tag_trap = 2 ^ 4

abbrev pub tag_conditional : ℕ
tag_conditional = 2 ^ 5

abbrev pub tag_delay_slot : ℕ
tag_delay_slot = 2 ^ 6

abbrev pub tag_cond_branch : ℕ
tag_cond_branch = bit_or tag_branch tag_conditional

abbrev pub tag_code : ℕ
tag_code = 2 ^ 7

abbrev pub tag_branch_target : ℕ
tag_branch_target = 2 ^ 8

abbrev pub tag_subroutine : ℕ
tag_subroutine = 2 ^ 9

abbrev pub tag_after_call : ℕ
tag_after_call = 2 ^ 10

abbrev pub tag_after_cond : ℕ
tag_after_cond = 2 ^ 11

abbrev pub tag_entry : ℕ
tag_entry = 2 ^ 12

abbrev pub tag_after_trap : ℕ
tag_after_trap = 2 ^ 13

abbrev pub tag_translated : ℕ
tag_translated = 2 ^ 14

abbrev pub tag_unknown : ℕ
tag_unknown = 0

-- `addr_t` is 64 bits wide.
abbrev pub addr_mod : ℕ
addr_mod = 2 ^ 64

-- (addr_t)-1
abbrev pub new_pc_none : ℕ
new_pc_none = 2 ^ 64 - 1

abbrev pub codegen_tag_limit : ℕ
codegen_tag_limit = 2 ^ 2

abbrev pub debug_singlestep : ℕ
debug_singlestep = 2 ^ 0

abbrev pub debug_singlestep_bb : ℕ
debug_singlestep_bb = 2 ^ 1

abbrev pub debug_intel_syntax : ℕ
debug_intel_syntax = 2 ^ 6

abbrev pub hint_trap_returns : ℕ
hint_trap_returns = 2 ^ 0

abbrev pub hint_trap_returns_twice : ℕ
hint_trap_returns_twice = 2 ^ 1

abbrev pub limit_tagging_dfs : ℕ
limit_tagging_dfs = 6
