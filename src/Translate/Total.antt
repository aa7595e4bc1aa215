-- ===== src/Translate/Total.antt =====
-- The loops of `cpu_translate_all` (libcpu/translate_all.cpp) end: a block is filled within the code
-- area, and all blocks are filled.
use libcpu.Base.{
  ℕ, zero, suc, ◌-◌, ◌<◌, ◌≡◌, refl, true, Option, none, some, List, ◌++◌, arith, Bool-cases, inl,
  inr,
}
use libcpu.Tag.Store.{Cpu, Tagging, is_code, is_inside_code_area, get_tag}
use libcpu.Tag.Arch.{Locals, Written}
use libcpu.Translate.Builder.{Target, Trace}
use libcpu.Translate.Instr.{translate_instr}
use libcpu.Translate.All.{Pointers, set_target, set_next, goes_on, fill, locals_at, link}

module _ (cpu : Cpu) (tag_instr : ℕ → Written) (indeterminate : Locals) (length : ℕ → ℕ)
    (labels : List ℕ) (s : Tagging) where
  code_below : (pc : ℕ) → is_code cpu s pc ≡ true → pc < cpu.code_end
  unfolding is_code get_tag is_inside_code_area
  code_below pc h = elim (Bool-cases (is_inside_code_area cpu pc)) [
    | inl e ↦ ground arith
    | inr e ↦ cc (rw (is_code, get_tag, e) at h)
  ]

  goes_on-code :
      (o : Option Target) (pc : ℕ)
      → goes_on cpu tag_instr indeterminate length labels s o pc ≡ true
      → is_code cpu s pc ≡ true
  unfolding goes_on
  goes_on-code none pc h = cc h
  goes_on-code (some bb) pc h = ground arith

  -- Where the code goes on at higher addresses, the loop that fills a block from an address of code
  -- ends, with more fuel than there are addresses from there to the end of the code area.
  pub fill_ends :
      ((pc : ℕ) → is_code cpu s pc ≡ true → pc < (locals_at tag_instr indeterminate pc).next_pc)
      → (fuel pc : ℕ) (p : Pointers) (cur_bb : Target) → is_code cpu s pc ≡ true
      → cpu.code_end - pc < fuel
      → (trace : Trace) × (fill cpu tag_instr indeterminate length labels s fuel pc p cur_bb
          ≡ some trace)
  unfolding fill
  fill_ends advances zero pc p cur_bb code enough = absurd (omega arith)
  fill_ends advances (suc fuel) pc p cur_bb code enough =
      let bb_target = set_target cpu tag_instr indeterminate length labels s pc p.bb_target in
      let bb_next = set_next cpu tag_instr indeterminate length labels s pc p.bb_next in
      let t = translate_instr length pc (get_tag cpu s pc) bb_target Target.trap bb_next cur_bb in
      let next = (locals_at tag_instr indeterminate pc).next_pc in
      elim (Bool-cases (goes_on cpu tag_instr indeterminate length labels s t.cont next)) [
        | inl on ↦
            let code' = goes_on-code t.cont next on in
            let (rest, e) =
              fill_ends advances fuel next (record { bb_target = bb_target; bb_next = bb_next })
                cur_bb code'
                (omega (arith, advances pc code, code_below pc code, code_below next code')) in
            (t.trace ++ rest, rw (fill, on, e) refl)
        | inr off ↦ (
          t.trace ++ link cpu tag_instr indeterminate length labels s t.cont next,
          rw (fill, off) refl,
        )
      ]
