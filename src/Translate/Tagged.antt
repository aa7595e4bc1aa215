-- ===== src/Translate/Tagged.antt =====
-- The code that `tag_start` (libcpu/tag.cpp) tags is code that `cpu_translate_all`
-- (libcpu/translate_all.cpp) can translate.
use libcpu.Base.{ℕ, ◌<◌, ◌≡◌, refl, ◌∙◌, sym, ap, true, false, ◌&&◌, List, arith, has, has-mask_or}
use libcpu.Tag.Flags.{tag_conditional, tag_after_cond}
use libcpu.Tag.Store.{
  Cpu, Tagging, get_tag, is_code, is_start_of_basicblock, is_inside_code_area, label_tags,
}
use libcpu.Tag.Arch.{Written, Locals, IsWritten, tag_of, next_pc_of}
use libcpu.Tag.Visits.{tagger_tags}
use libcpu.Tag.Start.Exact.{IsExact}
use libcpu.Tag.Dfs.Follow.{next_pc-store}
use libcpu.Tag.Flow.{Reach-inside}
use libcpu.Translate.All.{locals_at}
use libcpu.Translate.Alike.{IsTagged, IsKind-same}
use libcpu.Translate.Guest.{IsKind}

-- What the translator needs of a frontend: the kinds of its tags fit together, and the next
-- instruction is at a higher address.
pub record IsForward (cpu : Cpu) (tag_instr : ℕ → Written) : Type 0 where
  pub kind : (pc : ℕ) → IsKind (tag_of (tag_instr pc))
  pub forward : (pc : ℕ) → is_inside_code_area cpu pc ≡ true → pc < next_pc_of (tag_instr pc)

module _ (cpu : Cpu) (tag_instr : ℕ → Written) (written : (pc : ℕ) → IsWritten (tag_instr pc))
    (indeterminate : Locals) (forward : IsForward cpu tag_instr) (es : List ℕ) (s : Tagging)
    (exact : IsExact cpu tag_instr es s) where
  next_at : (pc : ℕ) → (locals_at tag_instr indeterminate pc).next_pc ≡ next_pc_of (tag_instr pc)
  next_at pc = next_pc-store (written pc) indeterminate

  inside : (pc : ℕ) → is_code cpu s pc ≡ true → is_inside_code_area cpu pc ≡ true
  inside pc code = let (e, o, r) = exact.only pc code in Reach-inside cpu tag_instr r

  low_at :
      (pc mask : ℕ)
      → is_code cpu s pc ≡ true
      → has tagger_tags mask ≡ false
      → has (get_tag cpu s pc) mask ≡ has (tag_of (tag_instr pc)) mask
  low_at pc mask code free =
      exact.low pc mask free ∙ ap (λ x. x && has (tag_of (tag_instr pc)) mask) code

  kinds : (pc : ℕ) → is_code cpu s pc ≡ true → IsKind (get_tag cpu s pc)
  kinds pc code =
      IsKind-same (tag_of (tag_instr pc)) (get_tag cpu s pc) (λ mask free. low_at pc mask code free)
        (forward.kind pc)

  labelled :
      (pc : ℕ)
      → is_code cpu s pc ≡ true
      → has (get_tag cpu s pc) tag_conditional ≡ true
      → is_code cpu s (next_pc_of (tag_instr pc)) ≡ true
      → is_start_of_basicblock cpu s (next_pc_of (tag_instr pc)) ≡ true
  unfolding is_start_of_basicblock is_code
  labelled pc code cond next =
      let l =
        exact.labels pc code (sym (low_at pc tag_conditional code refl) ∙ cond) (inside _ next) in
      let label : has (get_tag cpu s (next_pc_of (tag_instr pc))) label_tags ≡ true =
        ground (
          arith,
          l,
          has-mask_or (get_tag cpu s (next_pc_of (tag_instr pc))) 14080 tag_after_cond,
        ) in
      rw (label, next) refl

  pub IsExact-IsTagged : IsTagged cpu (locals_at tag_instr indeterminate) s
  IsExact-IsTagged = record {
    sized = exact.sized;
    kinds = kinds;
    after_cond = λ pc code cond. rw (next_at pc) (labelled pc code cond);
    advances = λ pc code. rw (next_at pc) (forward.forward pc (inside pc code));
  }
