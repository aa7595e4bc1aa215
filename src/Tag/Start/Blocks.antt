-- ===== src/Tag/Start/Blocks.antt =====
-- The entry of `tag_start` starts a basic block.
use mathlib.Core.Option
use libcpu.Base.{
  ℕ, ◌-◌, ◌<◌, ◌≡◌, inl, refl, true, false, some, List, [], ◌∷◌, arith, has, bit_or, has-bit_or,
  length,
}
use libcpu.Tag.Flags.{tag_entry, debug_singlestep, debug_singlestep_bb}
use libcpu.Tag.Store.{
  Cpu, Tagging, or_tag, get_tag, is_code, is_inside_code_area, is_start_of_basicblock, label_tags,
}
use libcpu.Tag.Store.Laws.{IsSized, uncoded-le-length, get_tag-or_tag}
use libcpu.Tag.Arch.{Written, Locals, IsWritten}
use libcpu.Tag.Dfs.Phases.{Returns, Returns-map}
use libcpu.Tag.Dfs.Total.{tag_recursive-Visits}
use libcpu.Tag.Visits.{Visits, Visits-or_tag, Unlimited}
use libcpu.Tag.Start.{CacheFile, save_entry, tag_entry_point, start_with, tag_start}

module _ (cpu : Cpu) (tag_instr : ℕ → Written) (written : (pc : ℕ) → IsWritten (tag_instr pc))
    (indeterminate : Locals) (fuel : ℕ) (enough : cpu.code_end - cpu.code_start < fuel)
    (unlimited : Unlimited cpu) where
  entry_labelled :
      (s : Tagging) (pc : ℕ)
      → IsSized cpu s
      → is_inside_code_area cpu pc ≡ true
      → has (get_tag cpu (or_tag cpu s pc tag_entry) pc) label_tags ≡ true
  entry_labelled s pc sized inside = ground (
    arith,
    get_tag-or_tag cpu s sized pc tag_entry pc,
    has-bit_or (get_tag cpu s pc) tag_entry label_tags,
  )

  block :
      (s s' : Tagging) (pc : ℕ)
      → IsSized cpu s
      → is_inside_code_area cpu pc ≡ true
      → Visits cpu tag_instr (or_tag cpu s pc tag_entry) s' (pc ∷ [])
      → is_start_of_basicblock cpu s' pc ≡ true
  unfolding is_start_of_basicblock is_code
  block s s' pc sized inside v =
      let label = v.keeps_tags pc label_tags (entry_labelled s pc sized inside) in
      let code = v.hits unlimited pc (inl refl) inside in rw (label, code) refl

  tag_entry_point-block :
      (pc : ℕ) (s : Tagging)
      → IsSized cpu s
      → is_inside_code_area cpu pc ≡ true
      → Returns
          (tag_entry_point cpu tag_instr indeterminate fuel pc s)
          (λ s'. is_start_of_basicblock cpu s' pc ≡ true)
  unfolding tag_entry_point
  tag_entry_point-block pc s sized inside =
      let saved = save_entry cpu tag_instr indeterminate fuel pc s in
      let sized' : IsSized cpu saved = unfold save_entry in ground arith in
      let v = Visits-or_tag cpu tag_instr saved pc tag_entry sized' refl in
      Returns-map (λ s'. Visits cpu tag_instr (or_tag cpu saved pc tag_entry) s' (pc ∷ []))
        (λ s'. is_start_of_basicblock cpu s' pc ≡ true) _
        (λ s' w. block saved s' pc sized' inside w)
        (tag_recursive-Visits cpu tag_instr written indeterminate fuel 0 pc _ v.sized
          (omega (arith, uncoded-le-length (Option.get_or (or_tag cpu saved pc tag_entry).tag []))))

  -- With the search not limited, no single-stepping, fuel above the size of the code area, a
  -- frontend that stores what its tags need, an array of the size of the code area and an entry
  -- inside that area: `tag_start` returns, and a basic block starts at the entry.
  pub tag_start-block :
      (cache : CacheFile) (pc : ℕ) (tags : List ℕ) (s : Tagging)
      → has cpu.flags_debug (bit_or debug_singlestep debug_singlestep_bb) ≡ false
      → s.tag ≡ some tags
      → length tags ≡ cpu.code_end - cpu.code_start
      → is_inside_code_area cpu pc ≡ true
      → Returns
          (tag_start cpu tag_instr indeterminate fuel cache pc s)
          (λ s'. is_start_of_basicblock cpu s' pc ≡ true)
  unfolding tag_start start_with
  tag_start-block cache pc tags s runs there sized inside =
      rw (runs, there)
        (tag_entry_point-block pc (record s { tags_dirty = true }) (rw there sized) inside)
