-- ===== src/Translate/Last.antt =====
-- One instruction of a block, translated (`translate_instr` of libcpu/translate.cpp, and the targets
-- and the link of `cpu_translate_all`), against one step of the guest.
use libcpu.Base.{
  ==_self, ℕ, ◌≡◌, refl, true, false, Option, none, some, List, [], ◌∷◌, ◌++◌, arith, has,
  Bool-cases, inl, inr,
}
use libcpu.Translate.Builder.{Target, Call, Trace, emit, same_target, contents}
use libcpu.Translate.Instr.{Translated, translate_instr, jumps, delay_pc, delayed, ending, plain}
use libcpu.Translate.Meaning.{Machine, run, run_block, follow, follow_from}
use libcpu.Translate.Guest.{Config, at, IsKind, destination, guest_step, config_of, config_after}
use libcpu.Tag.Arch.{Locals}
use libcpu.Tag.Flags.{tag_continue, tag_conditional, tag_delay_slot, tag_trap}

contents_instr :
    (a pc : ℕ) (t : Trace)
    → contents (Target.label a) (emit (Target.label a) (Call.instr pc) ∷ t)
      ≡ Call.instr pc ∷ contents (Target.label a) t
unfolding contents same_target
contents_instr a pc t = rw (==_self a) refl

-- The link with the block that follows, if the instruction leaves one open.
abbrev pub closed : Target → Option Target → Trace
closed next none = []
closed next (some bb) = emit bb (Call.branch next) ∷ []

module _ {S : Type 0} (m : Machine S) where
  follow_instr :
      (a pc : ℕ) (rest : Trace) (o : Option (Target × S))
      → follow_from m (emit (Target.label a) (Call.instr pc) ∷ rest) o ≡ follow_from m rest o
  unfolding follow_from follow contents same_target
  follow_instr a pc rest none = refl
  follow_instr a pc rest (some (Target.dispatch, s)) = refl
  follow_instr a pc rest (some (Target.ret, s)) = refl
  follow_instr a pc rest (some (Target.trap, s)) = refl
  follow_instr a pc rest (some (Target.null, s)) = refl
  follow_instr a pc rest (some (Target.label b, s)) = refl
  follow_instr a pc rest (some (Target.cond b, s)) = refl
  follow_instr a pc rest (some (Target.delay b, s)) = refl
  follow_instr a pc rest (some (Target.leaving b, s)) = refl

  -- An instruction that neither ends the block nor branches.
  pub instr_then :
      (a pc : ℕ) (rest : Trace) (s : S)
      → run_block m (emit (Target.label a) (Call.instr pc) ∷ rest) (Target.label a) s
        ≡ run_block m rest (Target.label a) (m.exec pc s)
  unfolding run_block run
  instr_then a pc rest s = rw (contents_instr a pc rest) (follow_instr a pc rest _)

  -- A block that is left is left there.
  left :
      (labels : List ℕ) (trace : Trace) (t : Target) (s : S) (c : Config S)
      → config_of m labels (t, s) ≡ some c
      → config_after m labels (follow m trace (t, s)) ≡ some c
  unfolding follow config_of config_after
  left labels trace Target.dispatch s c h = h
  left labels trace Target.ret s c h = h
  left labels trace Target.trap s c h = h
  left labels trace Target.null s c h = cc h
  left labels trace (Target.label b) s c h = h
  left labels trace (Target.cond b) s c h = cc h
  left labels trace (Target.delay b) s c h = cc h
  left labels trace (Target.leaving b) s c h = h

  module _ (labels : List ℕ) (length : ℕ → ℕ) (locals : ℕ → Locals) (tag_at : ℕ → ℕ) (a pc : ℕ)
      (bb_target bb_next next : Target) (s : S) (kind : IsKind (tag_at pc))
      (goes : jumps (tag_at pc) ≡ true
        → (s' : S)
        → config_of m labels (bb_target, s')
          ≡ some (at (destination m tag_at locals length pc s') s'))
      (else_goes : has (tag_at pc) tag_conditional ≡ true
        → (s' : S) → config_of m labels (bb_next, s') ≡ some (at (locals pc).next_pc s'))
      (goes_on : (s' : S) → config_of m labels (next, s') ≡ some (at (locals pc).next_pc s')) where
    abbrev t : Translated
    t = translate_instr length pc (tag_at pc) bb_target Target.trap bb_next (Target.label a)

    abbrev Agrees : Trace → Type 0
    Agrees trace =
        config_after m labels (run_block m trace (Target.label a) s)
        ≡ some (guest_step m tag_at locals length pc s)

    leaves :
        (trace : Trace) (t : Target) (s' : S)
        → run m (contents (Target.label a) trace) s ≡ some (t, s')
        → config_of m labels (t, s') ≡ some (guest_step m tag_at locals length pc s)
        → Agrees trace
    unfolding run_block follow_from
    leaves trace t s' h k = rw h (left labels trace t s' _ k)

    with_delay : has (tag_at pc) tag_delay_slot ≡ true → Agrees (t.trace ++ closed next t.cont)
    unfolding translate_instr delayed run_block run contents same_target follow follow_from
        guest_step config_after
    with_delay slot = elim (Bool-cases (has (tag_at pc) tag_conditional)) [
      | inl c ↦ elim (Bool-cases (m.holds pc s)) [
        | inl h ↦ rw (slot, c, ==_self a, h, ==_self pc) (goes (kind.slot_jumps slot) _)
        | inr h ↦ rw (slot, c, ==_self a, h, ==_self pc) (else_goes c _)
      ]
      | inr c ↦
          leaves (t.trace ++ closed next t.cont) bb_target
            (m.exec (delay_pc length pc) (m.exec pc s)) (rw (slot, c, ==_self a) refl)
            (rw (slot, c) (goes (kind.slot_jumps slot) _))
    ]

    module _ (slot : has (tag_at pc) tag_delay_slot ≡ false) where
      jump : jumps (tag_at pc) ≡ true → Agrees (t.trace ++ closed next t.cont)
      unfolding translate_instr plain ending run_block run contents same_target follow follow_from
          guest_step config_after
      jump j =
          let ends : has (tag_at pc) tag_continue ≡ false =
            ground (arith, kind.exclusive slot, j) in
          elim (Bool-cases (has (tag_at pc) tag_conditional)) [
            | inl c ↦ elim (Bool-cases (m.holds pc s)) [
              | inl h ↦ rw (slot, ends, c, j, ==_self a, h, ==_self pc) (goes j _)
              | inr h ↦
                  leaves (t.trace ++ closed next t.cont) bb_next s
                    (rw (slot, ends, c, j, ==_self a, h) refl) (rw (slot, c, j, h) (else_goes c _))
            ]
            | inr c ↦
                leaves (t.trace ++ closed next t.cont) bb_target (m.exec pc s)
                  (rw (slot, ends, c, j, ==_self a) refl) (rw (slot, c, j) (goes j _))
          ]

      stop :
          jumps (tag_at pc) ≡ false
          → has (tag_at pc) tag_trap ≡ true
          → Agrees (t.trace ++ closed next t.cont)
      unfolding translate_instr plain ending run_block run contents same_target follow follow_from
          guest_step config_after config_of
      stop j trap =
          let ends : has (tag_at pc) tag_continue ≡ false =
            ground (arith, kind.exclusive slot, j, trap) in
          elim (Bool-cases (has (tag_at pc) tag_conditional)) [
            | inl c ↦ elim (Bool-cases (m.holds pc s)) [
              | inl h ↦ rw (slot, ends, c, j, trap, ==_self a, h, ==_self pc) refl
              | inr h ↦
                  leaves (t.trace ++ closed next t.cont) bb_next s
                    (rw (slot, ends, c, j, trap, ==_self a, h) refl)
                    (rw (slot, c, j, trap, h) (else_goes c _))
            ]
            | inr c ↦ rw (slot, ends, c, j, trap, ==_self a) refl
          ]

      flow :
          jumps (tag_at pc) ≡ false
          → has (tag_at pc) tag_trap ≡ false
          → Agrees (t.trace ++ closed next t.cont)
      unfolding translate_instr plain ending run_block run contents same_target follow follow_from
          guest_step config_after
      flow j trap =
          let on : has (tag_at pc) tag_continue ≡ true =
            ground (arith, kind.exclusive slot, j, trap) in
          elim (Bool-cases (has (tag_at pc) tag_conditional)) [
            | inl c ↦ elim (Bool-cases (m.holds pc s)) [
              | inl h ↦ rw (slot, on, c, j, trap, ==_self a, h, ==_self pc) (goes_on _)
              | inr h ↦
                  leaves (t.trace ++ closed next t.cont) bb_next s
                    (rw (slot, on, c, j, trap, ==_self a, h) refl)
                    (rw (slot, c, j, trap, h) (else_goes c _))
            ]
            | inr c ↦
                leaves (t.trace ++ closed next t.cont) next (m.exec pc s)
                  (rw (slot, on, c, j, trap, ==_self a) refl) (rw (slot, c, j, trap) (goes_on _))
          ]

    pub last_instr : Agrees (t.trace ++ closed next t.cont)
    last_instr = elim (Bool-cases (has (tag_at pc) tag_delay_slot)) [
      | inl slot ↦ with_delay slot
      | inr slot ↦ elim (Bool-cases (jumps (tag_at pc))) [
        | inl j ↦ jump slot j
        | inr j ↦ elim (Bool-cases (has (tag_at pc) tag_trap)) [
          | inl trap ↦ stop slot j trap
          | inr trap ↦ flow slot j trap
        ]
      ]
    ]

  -- An instruction after which the block goes on unconditionally.
  module _ (length : ℕ → ℕ) (locals : ℕ → Locals) (tag_at : ℕ → ℕ) (pc : ℕ)
      (kind : IsKind (tag_at pc)) (cond : has (tag_at pc) tag_conditional ≡ false)
      (slot : has (tag_at pc) tag_delay_slot ≡ false)
      (on : has (tag_at pc) tag_continue ≡ true) where
    jumps_not : jumps (tag_at pc) ≡ false
    jumps_not = ground (arith, kind.exclusive slot, on)

    trap_not : has (tag_at pc) tag_trap ≡ false
    trap_not = ground (arith, kind.exclusive slot, on)

    pub instr_flows :
        (bb_target bb_next cur_bb : Target)
        → translate_instr length pc (tag_at pc) bb_target Target.trap bb_next cur_bb
          ≡ record { trace = emit cur_bb (Call.instr pc) ∷ []; cont = some cur_bb }
    unfolding translate_instr plain ending
    instr_flows bb_target bb_next cur_bb = rw (slot, cond, on, jumps_not, trap_not) refl

    pub guest_flows :
        (s : S) → guest_step m tag_at locals length pc s ≡ at (locals pc).next_pc (m.exec pc s)
    unfolding guest_step
    guest_flows s = rw (slot, cond, jumps_not, trap_not) refl
