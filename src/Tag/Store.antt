-- ===== src/Tag/Store.antt =====
-- The tag array of `cpu_t` and its access functions (libcpu/tag.cpp), and the test that makes an
-- address the start of a basic block (libcpu/basicblock.cpp).
pub mod Laws
use mathlib.Core.Option
use libcpu.Base.{
  ℕ, ◌-◌, Bool, not, ◌&&◌, Option, List, [], ltb, leb, has, bit_or, if◌then◌else◌, get_or, set,
}
use libcpu.Tag.Flags.{
  tag_unknown, tag_code, tag_branch_target, tag_subroutine, tag_after_call, tag_after_cond,
  tag_after_trap, tag_entry,
}

-- The fields of `cpu_t` that the tagger only reads.
pub record Cpu : Type 0 where
  pub code_start : ℕ
  pub code_end : ℕ
  pub flags_codegen : ℕ
  pub flags_debug : ℕ
  pub flags_hint : ℕ

-- The fields of `cpu_t` that it writes: `none` is a null pointer, and an open file is the list of
-- the bytes that were appended to it.
pub record Tagging : Type 0 where
  pub tag : Option (List ℕ)
  pub tags_dirty : Bool
  pub file_entries : Option (List ℕ)

abbrev pub array : Tagging → List ℕ
array s = Option.get_or s.tag []

unfoldable pub is_inside_code_area : Cpu → ℕ → Bool
is_inside_code_area cpu a = leb cpu.code_start a && ltb a cpu.code_end

abbrev or_item : ℕ → ℕ → List ℕ → List ℕ
or_item i t tags = set tags i (bit_or (get_or tags i 0) t)

unfoldable pub or_tag : Cpu → Tagging → ℕ → ℕ → Tagging
or_tag cpu s a t =
    if is_inside_code_area cpu a
    then record s { tag = Option.map (or_item (a - cpu.code_start) t) s.tag }
    else s

unfoldable pub get_tag : Cpu → Tagging → ℕ → ℕ
get_tag cpu s a =
    if is_inside_code_area cpu a then get_or (array s) (a - cpu.code_start) 0 else tag_unknown

unfoldable pub is_code : Cpu → Tagging → ℕ → Bool
is_code cpu s a = has (get_tag cpu s a) tag_code

abbrev pub label_tags : ℕ
label_tags = bit_or tag_branch_target (
    bit_or tag_subroutine
      (bit_or tag_after_call (bit_or tag_after_cond (bit_or tag_after_trap tag_entry))))

unfoldable pub is_start_of_basicblock : Cpu → Tagging → ℕ → Bool
is_start_of_basicblock cpu s a = let tag = get_tag cpu s a in has tag label_tags && has tag tag_code
