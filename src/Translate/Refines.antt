-- ===== src/Translate/Refines.antt =====
-- A block that `cpu_translate_all` fills (libcpu/translate_all.cpp) against the steps of the guest.
use mathlib.Core.Option.{map-eq-some_iff, some-injective}
use mathlib.Core.Path.{subst}
use libcpu.Base.{
  ℕ, zero, suc, ◌≡◌, ◌≢◌, refl, ap, sym, ◌∙◌, true, false, Option, none, some, List, ◌++◌, arith,
  has, ◌|||◌, has-mask_or, Bool-cases, inl, inr, is_case, ◌==◌,
}
use libcpu.Tag.Store.{Cpu, Tagging, get_tag, is_code, is_start_of_basicblock}
use libcpu.Translate.Builder.{Target, Trace, lookup_basicblock}
use libcpu.Translate.Instr.{Translated, translate_instr, jumps, plain}
use libcpu.Translate.All.{Pointers, set_target, set_next, link, goes_on, fill, locals_at}
use libcpu.Translate.Meaning.{Machine, run_block}
use libcpu.Translate.Guest.{at, destination, guest_from, config_of, config_after}
use libcpu.Translate.Alike.{IsTagged}
use libcpu.Translate.Last.{instr_then, last_instr, closed, instr_flows, guest_flows}
use libcpu.Tag.Arch.{Locals, Written}
use libcpu.Tag.Flags.{
  tag_continue, tag_call, tag_branch, tag_ret, tag_conditional, tag_delay_slot, new_pc_none,
}

module _ {S : Type 0} (m : Machine S) where
  lookup_at :
      (labels : List ℕ) (p : ℕ) (s : S)
      → config_of m labels (lookup_basicblock labels p, s) ≡ some (at p s)
  unfolding lookup_basicblock config_of
  lookup_at labels p s = elim (Bool-cases (is_case p labels)) [
    | inl h ↦ rw (h, h) refl
    | inr h ↦ rw h refl
  ]

  module _ (cpu : Cpu) (tag_instr : ℕ → Written) (indeterminate : Locals) (length : ℕ → ℕ)
      (labels : List ℕ) (s : Tagging) where
    abbrev tag_at : ℕ → ℕ
    tag_at = get_tag cpu s

    abbrev locals : ℕ → Locals
    locals = locals_at tag_instr indeterminate

    set_target_at :
        (pc : ℕ) (old : Target) (st : S)
        → jumps (tag_at pc) ≡ true
        → config_of m labels (set_target cpu tag_instr indeterminate length labels s pc old, st)
          ≡ some (at (destination m tag_at locals length pc st) st)
    unfolding set_target destination config_of
    set_target_at pc old st h = elim (Bool-cases (has (tag_at pc) (tag_call ||| tag_branch))) [
      | inl j ↦ elim (Bool-cases ((locals pc).new_pc == new_pc_none)) [
        | inl e ↦ rw (j, e) refl
        | inr e ↦ rw (j, e) (lookup_at labels _ st)
      ]
      | inr j ↦
          let ret : has (tag_at pc) tag_ret ≡ true =
            ground (arith, h, j, has-mask_or (tag_at pc) (tag_call ||| tag_branch) tag_ret) in
          rw (j, ret) refl
    ]

    set_next_at :
        (pc : ℕ) (old : Target) (st : S)
        → has (tag_at pc) tag_conditional ≡ true
        → config_of m labels (set_next cpu tag_instr indeterminate length labels s pc old, st)
          ≡ some (at (locals pc).next_pc st)
    unfolding set_next
    set_next_at pc old st h = rw h (lookup_at labels _ st)

    -- A block filled from `pc` on takes the guest from there as many steps as it has instructions
    -- that run, at least one.
    abbrev pub Simulates : ℕ → ℕ → Trace → Type 0
    Simulates a pc trace =
        (n : ℕ) × ((st : S)
          → config_after m labels (run_block m trace (Target.label a) st)
            ≡ some (guest_from m tag_at locals length (suc n) (at pc st)))

    module _ (tagged : IsTagged cpu locals s) where
      abbrev translated : ℕ → Pointers → Target → Translated
      translated pc p cur_bb =
          translate_instr length pc (tag_at pc)
            (set_target cpu tag_instr indeterminate length labels s pc p.bb_target) Target.trap
            (set_next cpu tag_instr indeterminate length labels s pc p.bb_next) cur_bb

      link-closed :
          (o : Option Target) (pc : ℕ)
          → link cpu tag_instr indeterminate length labels s o pc
            ≡ closed (lookup_basicblock labels pc) o
      unfolding link
      link-closed none pc = refl
      link-closed (some bb) pc = refl

      last_lem :
          (a pc : ℕ) (p : Pointers)
          → is_code cpu s pc ≡ true
          → let t = translated pc p (Target.label a) in
            Simulates a pc (
              t.trace
              ++ link cpu tag_instr indeterminate length labels s t.cont (locals pc).next_pc)
      unfolding guest_from
      last_lem a pc p code = (
        0,
        λ st. rw (link-closed _ (locals pc).next_pc) (
            last_instr m labels length locals tag_at a pc _ _
              (lookup_basicblock labels (locals pc).next_pc) st (tagged.kinds pc code)
              (λ j s'. set_target_at pc p.bb_target s' j) (λ c s'. set_next_at pc p.bb_next s' c)
              (lookup_at labels (locals pc).next_pc)),
      )

      goes_on-some :
          (o : Option Target) (pc : ℕ)
          → goes_on cpu tag_instr indeterminate length labels s o pc ≡ true
          → (o ≢ none) × (is_start_of_basicblock cpu s pc ≡ false) × (is_code cpu s pc ≡ true)
      unfolding goes_on
      goes_on-some none pc h = cc h
      goes_on-some (some bb) pc h = (cc, ground arith, ground arith)

      -- What an instruction is like when the loop goes on after it.
      module _ (a pc : ℕ) (p : Pointers) (code : is_code cpu s pc ≡ true)
          (on : goes_on cpu tag_instr indeterminate length labels s
              (translated pc p (Target.label a)).cont
              (locals pc).next_pc
            ≡ true) where
        on_parts :
            (((translated pc p (Target.label a)).cont) ≢ none)
            × (is_start_of_basicblock cpu s (locals pc).next_pc ≡ false)
            × (is_code cpu s (locals pc).next_pc ≡ true)
        on_parts = goes_on-some _ _ on

        slot_not : has (tag_at pc) tag_delay_slot ≡ false
        unfolding translate_instr
        slot_not = elim (Bool-cases (has (tag_at pc) tag_delay_slot)) [
          | inl e ↦ absurd (on_parts.0 (rw e refl))
          | inr e ↦ e
        ]

        cond_not : has (tag_at pc) tag_conditional ≡ false
        cond_not = elim (Bool-cases (has (tag_at pc) tag_conditional)) [
          | inl e ↦ let start = tagged.after_cond pc code e on_parts.2 in cc (start, on_parts.1)
          | inr e ↦ e
        ]

        continues : has (tag_at pc) tag_continue ≡ true
        unfolding translate_instr plain
        continues = elim (Bool-cases (has (tag_at pc) tag_continue)) [
          | inl e ↦ e
          | inr e ↦ absurd (on_parts.0 (rw (slot_not, e) refl))
        ]

        on_lem :
            (rest : Trace)
            → Simulates a (locals pc).next_pc rest
            → Simulates a pc ((translated pc p (Target.label a)).trace ++ rest)
        unfolding guest_from
        on_lem rest (n, h) = (
          suc n,
          λ st.
              rw
                (instr_flows m length locals tag_at pc (tagged.kinds pc code) cond_not slot_not
                  continues (set_target cpu tag_instr indeterminate length labels s pc p.bb_target)
                  (set_next cpu tag_instr indeterminate length labels s pc p.bb_next)
                  (Target.label a))
                (rw (instr_then m a pc rest st) (
                  h (m.exec pc st)
                  ∙ sym (
                      ap (λ c. some (guest_from m tag_at locals length (suc n) c))
                        (guest_flows m length locals tag_at pc (tagged.kinds pc code) cond_not
                          slot_not continues st)))),
        )

      pub fill_lem :
          (fuel a pc : ℕ) (p : Pointers) (trace : Trace)
          → is_code cpu s pc ≡ true
          → fill cpu tag_instr indeterminate length labels s fuel pc p (Target.label a) ≡ some trace
          → Simulates a pc trace
      unfolding fill
      fill_lem zero a pc p trace code h = cc h
      fill_lem (suc fuel) a pc p trace code h =
          elim (Bool-cases (
            goes_on cpu tag_instr indeterminate length labels s
              (translated pc p (Target.label a)).cont (locals pc).next_pc)) [
                | inl on ↦
                    let (rest, e, joined) = (map-eq-some_iff _ _).0 (rw (fill, on) at h) in
                    subst (Simulates a pc) joined (
                      on_lem a pc p code on rest
                        (fill_lem fuel a (locals pc).next_pc _ rest (on_parts a pc p code on).2 e))
                | inr off ↦
                    subst (Simulates a pc) (some-injective _ _ (rw (fill, off) at h))
                      (last_lem a pc p code)
              ]
