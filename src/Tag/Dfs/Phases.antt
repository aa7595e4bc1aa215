-- ===== src/Tag/Dfs/Phases.antt =====
-- Each part of the loop's body visits what the control flow says, given that the calls do.
use libcpu.Base.{
  bit_or, ℕ, ◌<◌, ◌≡◌, inl, inr, ◌&&◌, List, [], ◌∷◌, arith, has, refl, Bool-cases, if◌then◌else◌,
}
use libcpu.Tag.Flags.{
  tag_call, tag_branch, tag_trap, tag_subroutine, tag_after_call, tag_after_trap, tag_branch_target,
  hint_trap_returns_twice,
}
use libcpu.Tag.Store.{Cpu, Tagging, or_tag}
use libcpu.Tag.Store.Laws.{IsSized, uncoded}
use libcpu.Tag.Arch.{Written, Locals}
use libcpu.Tag.Dfs.{Outcome, done, ◌>>=◌, after_trap, after_call, after_branch, next_pc2}
use libcpu.Tag.Visits.{Visits, Visits-refl, Visits-or_tag, Visits-append, other_tags}

-- The search returned normally, in a state with the property.
abbrev pub Returns : Outcome → (Tagging → Type 0) → Type 0
Returns (done s) P = P s
Returns _ P = ⊥

pub Returns-bind :
    (P Q : Tagging → Type 0) (m : Outcome) (f : Tagging → Outcome)
    → Returns m P
    → ((s : Tagging) → P s → Returns (f s) Q)
    → Returns (m >>= f) Q
Returns-bind P Q (done s) f h k = k s h
Returns-bind P Q Outcome.exited f h k = absurd h
Returns-bind P Q Outcome.out_of_fuel f h k = absurd h

pub Returns-map :
    (P Q : Tagging → Type 0) (m : Outcome) → ((s : Tagging) → P s → Q s) → Returns m P → Returns m Q
Returns-map P Q (done s) k h = k s h
Returns-map P Q Outcome.exited k h = absurd h
Returns-map P Q Outcome.out_of_fuel k h = absurd h

-- The addresses that the parts of the body go on to.
abbrev pub trap_list : Cpu → (ℕ → Written) → Locals → List ℕ
trap_list cpu tag_instr l =
    if has l.tag tag_trap && has cpu.flags_hint hint_trap_returns_twice
    then next_pc2 tag_instr l ∷ []
    else []

abbrev pub call_list : Locals → List ℕ
call_list l = if has l.tag tag_call then l.new_pc ∷ [] else []

abbrev pub branch_list : Locals → List ℕ
branch_list l = if has l.tag tag_branch then l.new_pc ∷ [] else []

module _ (cpu : Cpu) (tag_instr : ℕ → Written) where
  -- A call that visits its address from any state with fewer than `bound` items to mark.
  abbrev pub Calls : ℕ → (ℕ → Tagging → Outcome) → Type 0
  Calls bound call =
      (q : ℕ) (s : Tagging)
      → IsSized cpu s
      → uncoded s < bound
      → Returns (call q s) (λ s'. Visits cpu tag_instr s s' (q ∷ []))

  module _ (bound : ℕ) (call : ℕ → Tagging → Outcome) (calls : Calls bound call) (l : Locals)
      (s : Tagging) (sized : IsSized cpu s) (room : uncoded s < bound) where
    -- A call after a tag of the tagger that is not TAG_CODE.
    call-or_tag :
        (s0 : Tagging) (a t q : ℕ)
        → Visits cpu tag_instr s s0 []
        → bit_or t other_tags ≡ other_tags
        → Returns (call q (or_tag cpu s0 a t)) (λ s'. Visits cpu tag_instr s s' (q ∷ []))
    call-or_tag s0 a t q v plain =
        let w =
          Visits-append cpu tag_instr [] [] v (Visits-or_tag cpu tag_instr s0 a t v.sized plain) in
        Returns-map (λ s'. Visits cpu tag_instr (or_tag cpu s0 a t) s' (q ∷ []))
          (λ s'. Visits cpu tag_instr s s' (q ∷ [])) (call q (or_tag cpu s0 a t))
          (λ s' x. Visits-append cpu tag_instr [] (q ∷ []) w x)
          (calls q (or_tag cpu s0 a t) w.sized (omega (arith, w.fewer)))

    pub after_call-Visits :
        Returns (after_call cpu tag_instr call l s) (λ s'. Visits cpu tag_instr s s' (call_list l))
    unfolding after_call
    after_call-Visits = elim (Bool-cases (has l.tag tag_call)) [
      | inl e ↦ rw e (
          call-or_tag (or_tag cpu s l.new_pc tag_subroutine) l.next_pc tag_after_call l.new_pc
            (Visits-or_tag cpu tag_instr s l.new_pc tag_subroutine sized refl) refl)
      | inr e ↦ rw e (Visits-refl cpu tag_instr s sized)
    ]

    pub after_branch-Visits :
        Returns
          (after_branch cpu tag_instr call l s)
          (λ s'. Visits cpu tag_instr s s' (branch_list l))
    unfolding after_branch
    after_branch-Visits = elim (Bool-cases (has l.tag tag_branch)) [
      | inl e ↦ rw e (
          call-or_tag s l.new_pc tag_branch_target l.new_pc (Visits-refl cpu tag_instr s sized)
            refl)
      | inr e ↦ rw e (Visits-refl cpu tag_instr s sized)
    ]

    pub after_trap-Visits :
        Returns
          (after_trap cpu tag_instr call l s)
          (λ s'. Visits cpu tag_instr s s' (trap_list cpu tag_instr l))
    unfolding after_trap
    after_trap-Visits = elim (Bool-cases (has l.tag tag_trap)) [
      | inl e ↦ elim (Bool-cases (has cpu.flags_hint hint_trap_returns_twice)) [
        | inl twice ↦
            rw (e, twice)
              (call-or_tag (or_tag cpu s l.next_pc tag_after_trap) (next_pc2 tag_instr l)
                tag_after_trap (next_pc2 tag_instr l)
                (Visits-or_tag cpu tag_instr s l.next_pc tag_after_trap sized refl) refl)
        | inr once ↦
            rw (e, once) (Visits-or_tag cpu tag_instr s l.next_pc tag_after_trap sized refl)
      ]
      | inr e ↦ rw e (Visits-refl cpu tag_instr s sized)
    ]
