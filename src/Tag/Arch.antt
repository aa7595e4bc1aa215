-- ===== src/Tag/Arch.antt =====
-- What a frontend gives the tagger: `arch_func_t::tag_instr` (libcpu/libcpu.h). It stores through
-- three pointers and returns the number of bytes; `none` is a variable that it leaves alone.
use mathlib.Core.Option
use libcpu.Base.{ℕ, ◌≡◌, ◌≢◌, true, Option, none, has, bit_or}
use libcpu.Tag.Flags.{tag_call, tag_branch}

pub record Written : Type 0 where
  pub bytes : ℕ
  pub tag : Option ℕ
  pub new_pc : Option ℕ
  pub next_pc : Option ℕ

-- The variables of the caller that the pointers lead to.
pub record Locals : Type 0 where
  pub tag : ℕ
  pub new_pc : ℕ
  pub next_pc : ℕ

unfoldable pub store : Written → Locals → Locals
store w l = record {
  tag = Option.get_or w.tag l.tag;
  new_pc = Option.get_or w.new_pc l.new_pc;
  next_pc = Option.get_or w.next_pc l.next_pc;
}

abbrev pub tag_of : Written → ℕ
tag_of w = Option.get_or w.tag 0

abbrev pub new_pc_of : Written → ℕ
new_pc_of w = Option.get_or w.new_pc 0

abbrev pub next_pc_of : Written → ℕ
next_pc_of w = Option.get_or w.next_pc 0

-- The frontend stores all that its tag makes the caller read.
pub record IsWritten (w : Written) : Type 0 where
  pub tag_set : w.tag ≢ none
  pub next_set : w.next_pc ≢ none
  pub new_set : has (tag_of w) (bit_or tag_call tag_branch) ≡ true → w.new_pc ≢ none
