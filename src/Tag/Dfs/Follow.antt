-- ===== src/Tag/Dfs/Follow.antt =====
-- For a frontend that stores what its tags need, the addresses that the body goes on to are those
-- of the control flow.
use mathlib.Core.Path.{subst}
use libcpu.Base.{
  sym, ◌%◌, ◌^◌, ◌∙◌, ℕ, ◌+◌, ◌≡◌, ◌⊎◌, inl, inr, Bool, true, false, not, ◌||◌, List, [], ◌∷◌, ◌++◌,
  arith, has, OneOf, refl, Bool-cases, if◌then◌else◌, has-mask_or, Option-cases,
}
use libcpu.Tag.Flags.{
  tag_call, tag_branch, tag_conditional, tag_ret, hint_trap_returns, hint_trap_returns_twice,
}
use libcpu.Tag.Store.{Cpu}
use libcpu.Tag.Arch.{Written, Locals, store, IsWritten, tag_of, next_pc_of, new_pc_of}
use libcpu.Tag.Dfs.{ends, trap_ends, next_pc2}
use libcpu.Tag.Dfs.Phases.{trap_list, call_list, branch_list}
use libcpu.Tag.Dfs.Search.{after_list, fall_list}
use libcpu.Tag.Flow.{Flow, Stops}
use libcpu.Tag.Visits.{OneOf-append, OneOf-append_left, OneOf-append_right}

module _ {w : Written} (h : IsWritten w) (l : Locals) where
  pub tag-store : (store w l).tag ≡ tag_of w
  unfolding store
  tag-store = elim (Option-cases w.tag) [ inl e ↦ absurd (h.tag_set e) | inr (a, e) ↦ ground arith ]

  pub next_pc-store : (store w l).next_pc ≡ next_pc_of w
  unfolding store
  next_pc-store = elim (Option-cases w.next_pc) [
    | inl e ↦ absurd (h.next_set e)
    | inr (a, e) ↦ ground arith
  ]

  new_pc-store :
      (has (tag_of w) tag_call || has (tag_of w) tag_branch) ≡ true
      → (store w l).new_pc ≡ new_pc_of w
  unfolding store
  new_pc-store used = elim (Option-cases w.new_pc) [
    | inl e ↦ absurd (h.new_set (rw has-mask_or used) e)
    | inr (a, e) ↦ ground arith
  ]

one_if : (b : Bool) (x q : ℕ) → OneOf q (if b then x ∷ [] else []) → (b ≡ true) × (q ≡ x)
one_if true x q (inl e) = (refl, e)
one_if true x q (inr h) = absurd h
one_if false x q h = absurd h

if_one : (b : Bool) (x q : ℕ) → b ≡ true → q ≡ x → OneOf q (if b then x ∷ [] else [])
if_one b x q h e = rw h (inl e)

fall_one :
    (tag q x : ℕ)
    → has tag tag_ret ≡ false
    → (has tag tag_branch ≡ false) ⊎ (has tag tag_conditional ≡ true)
    → q ≡ x
    → OneOf q (if ends tag then [] else x ∷ [])
fall_one tag q x r c e =
    let free : ends tag ≡ false = unfold ends in ground arith in rw free (inl e)

module _ (cpu : Cpu) (tag_instr : ℕ → Written) (written : (pc : ℕ) → IsWritten (tag_instr pc))
    (pc : ℕ) (l0 : Locals) where
  abbrev l : Locals
  l = store (tag_instr pc) l0

  not-Stops : trap_ends cpu l.tag ≡ false → ¬ Stops cpu (tag_instr pc)
  unfolding trap_ends
  not-Stops e stops = ground (arith, tag-store (written pc) l0)

  next_pc2-store :
      next_pc2 tag_instr l
      ≡ (next_pc_of (tag_instr pc) + (tag_instr (next_pc_of (tag_instr pc))).bytes) % 2 ^ 64
  unfolding next_pc2
  next_pc2-store = rw (next_pc-store (written pc) l0)

  trap-Flow : (q : ℕ) → OneOf q (trap_list cpu tag_instr l) → Flow cpu tag_instr pc q
  trap-Flow q o =
      let (both, e) = one_if _ _ q o in
      Flow.skip (ground (arith, tag-store (written pc) l0)) (ground arith) (e ∙ next_pc2-store)

  module _ (goes_on : trap_ends cpu l.tag ≡ false) where
    call-Flow : (q : ℕ) → OneOf q (call_list l) → Flow cpu tag_instr pc q
    call-Flow q o =
        let (called, e) = one_if _ _ q o in
        let has_call : has (tag_of (tag_instr pc)) tag_call ≡ true =
          ground (arith, tag-store (written pc) l0) in
        Flow.target (not-Stops goes_on) (inl has_call)
          (e ∙ new_pc-store (written pc) l0 (ground arith))

    branch-Flow : (q : ℕ) → OneOf q (branch_list l) → Flow cpu tag_instr pc q
    branch-Flow q o =
        let (taken, e) = one_if _ _ q o in
        let has_branch : has (tag_of (tag_instr pc)) tag_branch ≡ true =
          ground (arith, tag-store (written pc) l0) in
        Flow.target (not-Stops goes_on) (inr has_branch)
          (e ∙ new_pc-store (written pc) l0 (ground arith))

    fall-Flow : (q : ℕ) → OneOf q (fall_list l) → Flow cpu tag_instr pc q
    unfolding ends
    fall-Flow q o =
        let (free, e) = one_if (not (ends l.tag)) l.next_pc q (ground arith) in
        Flow.next (not-Stops goes_on) (ground (arith, tag-store (written pc) l0))
          (ground (arith, tag-store (written pc) l0)) (e ∙ next_pc-store (written pc) l0)

  -- The search goes on to the addresses of the control flow, and to no others.
  pub Flow-after_list : (q : ℕ) → OneOf q (after_list cpu tag_instr l) → Flow cpu tag_instr pc q
  Flow-after_list q o = elim (Bool-cases (trap_ends cpu l.tag)) [
    | inl stops ↦ absurd (subst (λ b. OneOf q (if b then [] else parts)) stops o)
    | inr goes_on ↦ from_parts goes_on (subst (λ b. OneOf q (if b then [] else parts)) goes_on o)
  ]
    where
      parts : List ℕ
      parts = trap_list cpu tag_instr l ++ (call_list l ++ (branch_list l ++ fall_list l))

      from_parts : trap_ends cpu l.tag ≡ false → OneOf q parts → Flow cpu tag_instr pc q
      from_parts g o = elim (OneOf-append q (trap_list cpu tag_instr l) _ o) [
        | inl o ↦ trap-Flow q o
        | inr o ↦ elim (OneOf-append q (call_list l) _ o) [
          | inl o ↦ call-Flow g q o
          | inr o ↦ elim (OneOf-append q (branch_list l) _ o) [
            | inl o ↦ branch-Flow g q o
            | inr o ↦ fall-Flow g q o
          ]
        ]
      ]

  goes_on-hint : ¬ Stops cpu (tag_instr pc) → trap_ends cpu l.tag ≡ false
  unfolding trap_ends
  goes_on-hint free = ground (arith, tag-store (written pc) l0)

  pub after_list-Flow : (q : ℕ) → Flow cpu tag_instr pc q → OneOf q (after_list cpu tag_instr l)
  after_list-Flow q (Flow.next a b c e) = rw (goes_on-hint a) (
      OneOf-append_right q (trap_list cpu tag_instr l) _ (
        OneOf-append_right q (call_list l) _ (
          OneOf-append_right q (branch_list l) _ (
            fall_one l.tag q l.next_pc (ground (arith, tag-store (written pc) l0))
              (ground (arith, tag-store (written pc) l0))
              (e ∙ sym (next_pc-store (written pc) l0))))))
  after_list-Flow q (Flow.target a (inl b) e) = rw (goes_on-hint a) (
      OneOf-append_right q (trap_list cpu tag_instr l) _ (
        OneOf-append_left q (call_list l) _ (
          if_one _ _ q (ground (arith, tag-store (written pc) l0))
            (e ∙ sym (new_pc-store (written pc) l0 (ground arith))))))
  after_list-Flow q (Flow.target a (inr b) e) = rw (goes_on-hint a) (
      OneOf-append_right q (trap_list cpu tag_instr l) _ (
        OneOf-append_right q (call_list l) _ (
          OneOf-append_left q (branch_list l) _ (
            if_one _ _ q (ground (arith, tag-store (written pc) l0))
              (e ∙ sym (new_pc-store (written pc) l0 (ground arith)))))))
  after_list-Flow q (Flow.skip a b e) =
      let free : ¬ Stops cpu (tag_instr pc) = λ s.
        ground (arith, s.1, has-mask_or cpu.flags_hint hint_trap_returns hint_trap_returns_twice) in
      rw (goes_on-hint free) (
        OneOf-append_left q (trap_list cpu tag_instr l) _
          (if_one _ _ q (ground (arith, tag-store (written pc) l0)) (e ∙ sym next_pc2-store)))
