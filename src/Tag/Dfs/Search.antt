-- ===== src/Tag/Dfs/Search.antt =====
-- Total correctness of the loop: with fuel for every unmarked item it returns, and it has visited
-- its address.
use libcpu.Base.{
  ◌≡◌, true, has-bit_or, ℕ, ◌<◌, inl, inr, List, [], ◌∷◌, ◌++◌, arith, has, bit_or, refl,
  Bool-cases, if◌then◌else◌,
}
use libcpu.Tag.Flags.{tag_code, tag_conditional, tag_after_cond}
use libcpu.Tag.Store.{Cpu, Tagging, or_tag, get_tag, is_inside_code_area}
use libcpu.Tag.Store.Laws.{IsSized, uncoded, or_tag-IsSized, get_tag-or_tag}
use libcpu.Tag.Arch.{Written, Locals}
use libcpu.Tag.Dfs.{
  Outcome, done, ◌>>=◌, after_trap, after_call, after_branch, trap_ends, ends, mark, body,
}
use libcpu.Tag.Dfs.Phases.{
  Returns, Returns-bind, Returns-map, Calls, trap_list, call_list, branch_list, after_trap-Visits,
  after_call-Visits, after_branch-Visits,
}
use libcpu.Tag.Visits.{Visits, Visits-refl, Visits-or_tag, Visits-append}

abbrev pub fall_list : Locals → List ℕ
fall_list l = if ends l.tag then [] else l.next_pc ∷ []

module _ (cpu : Cpu) (tag_instr : ℕ → Written) where
  -- What the body visits after marking, in its order.
  abbrev pub after_list : Locals → List ℕ
  after_list l =
      if trap_ends cpu l.tag
      then []
      else trap_list cpu tag_instr l ++ (call_list l ++ (branch_list l ++ fall_list l))

  pub mark-Visits :
      (l : Locals) (pc : ℕ) (s : Tagging)
      → IsSized cpu s
      → Visits cpu tag_instr (or_tag cpu s pc (bit_or l.tag tag_code)) (mark cpu l pc s) []
  unfolding mark
  mark-Visits l pc s sized = elim (Bool-cases (has l.tag tag_conditional)) [
    | inl e ↦ rw e (
        Visits-or_tag cpu tag_instr _ l.next_pc tag_after_cond (or_tag-IsSized cpu s sized pc _)
          refl)
    | inr e ↦ rw e (Visits-refl cpu tag_instr _ (or_tag-IsSized cpu s sized pc _))
  ]

  -- The instruction after a conditional one is labelled.
  pub mark_labels :
      (l : Locals) (pc : ℕ) (s : Tagging)
      → IsSized cpu s
      → has l.tag tag_conditional ≡ true
      → is_inside_code_area cpu l.next_pc ≡ true
      → has (get_tag cpu (mark cpu l pc s) l.next_pc) tag_after_cond ≡ true
  unfolding mark
  mark_labels l pc s sized cond inside =
      let s' = or_tag cpu s pc (bit_or l.tag tag_code) in
      let sized' = or_tag-IsSized cpu s sized pc (bit_or l.tag tag_code) in
      rw cond (
        ground (
          arith,
          get_tag-or_tag cpu s' sized' l.next_pc tag_after_cond l.next_pc,
          has-bit_or (get_tag cpu s' l.next_pc) tag_after_cond tag_after_cond,
        ))

  module _ (bound : ℕ) (call again : ℕ → Tagging → Outcome) (calls : Calls cpu tag_instr bound call)
      (rounds : Calls cpu tag_instr bound again) (l : Locals) where
    finish-Visits :
        (s : Tagging)
        → IsSized cpu s
        → uncoded s < bound
        → Returns
            (if ends l.tag then done s else again l.next_pc s)
            (λ s'. Visits cpu tag_instr s s' (fall_list l))
    finish-Visits s sized room = elim (Bool-cases (ends l.tag)) [
      | inl e ↦ rw e (Visits-refl cpu tag_instr s sized)
      | inr e ↦ rw e (rounds l.next_pc s sized room)
    ]

    -- A part of the body, then the rest.
    then-Visits :
        (xs ys : List ℕ) (m : Outcome) (f : Tagging → Outcome) (s : Tagging)
        → uncoded s < bound
        → Returns m (λ s'. Visits cpu tag_instr s s' xs)
        → ((s1 : Tagging)
            → IsSized cpu s1
            → uncoded s1 < bound
            → Returns (f s1) (λ s'. Visits cpu tag_instr s1 s' ys))
        → Returns (m >>= f) (λ s'. Visits cpu tag_instr s s' (xs ++ ys))
    then-Visits xs ys m f s room first rest =
        Returns-bind (λ s'. Visits cpu tag_instr s s' xs)
          (λ s'. Visits cpu tag_instr s s' (xs ++ ys)) m f first
          (λ s1 v.
            Returns-map (λ s'. Visits cpu tag_instr s1 s' ys)
              (λ s'. Visits cpu tag_instr s s' (xs ++ ys)) (f s1)
              (λ s' w. Visits-append cpu tag_instr xs ys v w)
              (rest s1 v.sized (omega (arith, v.fewer))))

    parts-Visits :
        {s0 : Tagging} (s : Tagging)
        → Visits cpu tag_instr s0 s []
        → uncoded s0 < bound
        → Returns
            (after_trap cpu tag_instr call l s >>= λ s1.
              after_call cpu tag_instr call l s1 >>= λ s2.
              after_branch cpu tag_instr call l s2 >>= λ s3.
              if ends l.tag then done s3 else again l.next_pc s3)
            (λ s'.
              Visits cpu tag_instr s0 s'
                (trap_list cpu tag_instr l ++ (call_list l ++ (branch_list l ++ fall_list l))))
    parts-Visits {s0} s v room = then-Visits [] _ (done s) _ s0 room v λ s z r.
        then-Visits (trap_list cpu tag_instr l) _ _ _ s r
          (after_trap-Visits cpu tag_instr bound call calls l s z r)
          λ s1 z1 r1.
            then-Visits (call_list l) _ _ _ s1 r1
              (after_call-Visits cpu tag_instr bound call calls l s1 z1 r1)
              λ s2 z2 r2.
                then-Visits (branch_list l) (fall_list l) _ _ s2 r2
                  (after_branch-Visits cpu tag_instr bound call calls l s2 z2 r2) finish-Visits

    pub body-Visits :
        (pc : ℕ) (s : Tagging)
        → IsSized cpu s
        → uncoded (or_tag cpu s pc (bit_or l.tag tag_code)) < bound
        → Returns
            (body cpu tag_instr call l again pc s)
            (λ s'. Visits cpu tag_instr (mark cpu l pc s) s' (after_list l))
    unfolding body
    body-Visits pc s sized room =
        let v = mark-Visits l pc s sized in
        elim (Bool-cases (trap_ends cpu l.tag)) [
          | inl e ↦ rw e (Visits-refl cpu tag_instr (mark cpu l pc s) v.sized)
          | inr e ↦ rw e (
              parts-Visits (mark cpu l pc s) (Visits-refl cpu tag_instr (mark cpu l pc s) v.sized)
                (omega (arith, v.fewer)))
        ]
