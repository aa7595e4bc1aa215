-- ===== src/Translate/Function.antt =====
-- All blocks of a function (`cpu_translate_all` of libcpu/translate_all.cpp).
use mathlib.Core.Path.{subst}
use libcpu.Base.{
  ℕ, zero, suc, ◌-◌, ◌<◌, ◌≡◌, refl, sym, ap, ◌∙◌, true, false, some, List, [], ◌∷◌, arith,
  Bool-cases, inl, inr, ◌==◌, ==_iff, is_case,
}
use libcpu.Tag.Store.{Cpu, Tagging, or_tag, get_tag, is_code, is_start_of_basicblock}
use libcpu.Tag.Store.Laws.{or_tag-IsSized}
use libcpu.Tag.Arch.{Locals, Written}
use libcpu.Tag.Flags.{tag_translated}
use libcpu.Translate.Builder.{Target, Trace}
use libcpu.Translate.All.{
  Translation, locals_at, find_labels, fill_block, fill_blocks, cpu_translate_all, null_pointers,
}
use libcpu.Translate.Meaning.{Machine}
use libcpu.Translate.Alike.{
  IsAlike, IsTagged, IsTagged-alike, or_tag-IsAlike, guest_from-alike, is_code-alike,
}
use libcpu.Translate.Native.{starts, find_trace}
use libcpu.Translate.Refines.{Simulates, fill_lem}
use libcpu.Translate.Total.{fill_ends}

is_case_here : (a : ℕ) (xs : List ℕ) → is_case a (a ∷ xs) ≡ true
is_case_here a xs = ground arith

is_case_there : (a x : ℕ) (xs : List ℕ) → is_case a xs ≡ true → is_case a (x ∷ xs) ≡ true
is_case_there a x xs h = ground arith

is_case_rest :
    (a x : ℕ) (xs : List ℕ) → (a == x) ≡ false → is_case a (x ∷ xs) ≡ true → is_case a xs ≡ true
is_case_rest a x xs ne h = ground arith

module _ {S : Type 0} (m : Machine S) (cpu : Cpu) (tag_instr : ℕ → Written) (indeterminate : Locals)
    (length : ℕ → ℕ) where
  pub find_labels-is_code :
      (s : Tagging) (n pc a : ℕ)
      → is_case a (find_labels cpu tag_instr indeterminate length s n pc) ≡ true
      → is_code cpu s a ≡ true
  unfolding find_labels is_start_of_basicblock is_code
  find_labels-is_code s zero pc a h = cc h
  find_labels-is_code s (suc n) pc a h = ground (arith, find_labels-is_code s n (suc pc) a)

  module _ (labels : List ℕ) where
    abbrev SimulatesAt : Tagging → ℕ → Trace → Type 0
    SimulatesAt s a trace = Simulates m cpu tag_instr indeterminate length labels s a a trace

    Simulates-alike :
        (s s' : Tagging) (a : ℕ) (trace : Trace)
        → IsAlike (get_tag cpu s) (get_tag cpu s')
        → SimulatesAt s' a trace
        → SimulatesAt s a trace
    Simulates-alike s s' a trace alike (n, h) = (
      n,
      λ st.
          h st
          ∙ ap some (guest_from-alike (get_tag cpu s) (get_tag cpu s') alike m _ length (suc n) _),
    )

    -- Each of the labels `pcs` has its block.
    pub record IsFilled (s : Tagging) (pcs : List ℕ) (f : Translation) : Type 0 where
      pub starts_eq : starts f.blocks ≡ pcs
      pub block_of :
          (a : ℕ)
          → is_case a pcs ≡ true
          → (trace : Trace) × (find_trace f.blocks a ≡ some trace) × SimulatesAt s a trace

    module _ (fuel : ℕ) (enough : cpu.code_end < fuel) where
      -- For tagged code and more fuel than its end: a block is filled at every address of code, and
      -- entered in any state it leaves the guest where some number of its steps, at least one, from
      -- that address leads; the number is the same for all states.
      pub fill_block-Simulates :
          (s : Tagging) (a : ℕ)
          → IsTagged cpu (locals_at tag_instr indeterminate) s
          → is_code cpu s a ≡ true
          → (trace : Trace) × (fill_block cpu tag_instr indeterminate length labels s fuel a
              ≡ some trace)
            × SimulatesAt s a trace
      unfolding fill_block
      fill_block-Simulates s a tagged code =
          let (trace, e) =
            fill_ends cpu tag_instr indeterminate length labels s tagged.advances fuel a
              null_pointers (Target.label a) code (omega arith) in
          (
            trace,
            e,
            fill_lem m cpu tag_instr indeterminate length labels s tagged fuel a a null_pointers
                trace code e,
          )

      fill_blocks-IsFilled :
          (pcs : List ℕ) (s : Tagging)
          → IsTagged cpu (locals_at tag_instr indeterminate) s
          → ((a : ℕ) → is_case a pcs ≡ true → is_code cpu s a ≡ true)
          → (f : Translation) × (fill_blocks cpu tag_instr indeterminate length fuel labels pcs s
              ≡ some f)
            × IsFilled s pcs f
      unfolding fill_blocks find_trace
      fill_blocks-IsFilled [] s tagged code =
          (_, refl, record { starts_eq = refl; block_of = λ a h. cc h })
      fill_blocks-IsFilled (pc ∷ pcs) s tagged code =
          let s' = or_tag cpu s pc tag_translated in
          let alike : IsAlike (get_tag cpu s) (get_tag cpu s') =
            or_tag-IsAlike cpu s pc tagged.sized in
          let tagged' =
            IsTagged-alike cpu s s' alike _ (or_tag-IsSized cpu s tagged.sized pc tag_translated)
              tagged in
          let code' : (a : ℕ) → is_case a (pc ∷ pcs) ≡ true → is_code cpu s' a ≡ true =
            λ a h. is_code-alike cpu s s' alike a ∙ code a h in
          let (trace, e, sim) =
            fill_block-Simulates s' pc tagged' (code' pc (is_case_here pc pcs)) in
          let (f, e', filled) =
            fill_blocks-IsFilled pcs s' tagged' (λ a h. code' a (is_case_there a pc pcs h)) in
          (
            record f { blocks = record { start = pc; trace = trace } ∷ f.blocks },
            rw (e, e') refl,
            record {
              starts_eq = ap (λ (xs : List ℕ). pc ∷ xs) filled.starts_eq;
              block_of = λ a h. elim (Bool-cases (a == pc)) [
                | inl here ↦ (
                  trace,
                  rw here refl,
                  Simulates-alike s s' a trace alike
                      (subst (λ x. SimulatesAt s' x trace) (sym ((==_iff a pc).0 here)) sim),
                )
                | inr not_here ↦
                    let (t, found, sim_t) = filled.block_of a (is_case_rest a pc pcs not_here h) in
                    (t, rw not_here found, Simulates-alike s s' a t alike sim_t)
              ];
            },
          )

  pub cpu_translate_all-IsFilled :
      (s : Tagging) (fuel : ℕ)
      → IsTagged cpu (locals_at tag_instr indeterminate) s
      → cpu.code_end < fuel
      → let labels =
          find_labels cpu tag_instr indeterminate length s
            (cpu.code_end - cpu.code_start)
            cpu.code_start in
        (f : Translation) × (cpu_translate_all cpu tag_instr indeterminate length fuel s ≡ some f)
        × IsFilled labels s labels f
  unfolding cpu_translate_all
  cpu_translate_all-IsFilled s fuel tagged enough =
      let labels =
        find_labels cpu tag_instr indeterminate length s (cpu.code_end - cpu.code_start)
          cpu.code_start in
      fill_blocks-IsFilled labels fuel enough labels s tagged
        (find_labels-is_code s (cpu.code_end - cpu.code_start) cpu.code_start)
