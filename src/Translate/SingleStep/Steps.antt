-- ===== src/Translate/SingleStep/Steps.antt =====
-- Single-stepping takes one step of the guest and returns (libcpu/translate_singlestep.cpp).
use libcpu.Base.{
  ℕ, ◌≡◌, refl, sym, ap, inl, inr, true, false, Option, none, some, List, [], ◌∷◌, ◌++◌, ◌==◌,
  arith, has, ◌|||◌, has-mask_or, Bool-cases,
}
use libcpu.Tag.Flags.{tag_call, tag_ret, tag_branch, tag_conditional, new_pc_none}
use libcpu.Tag.Arch.{Written, Locals}
use libcpu.Translate.Builder.{
  Target, Call, Trace, emit, same_target, contents, emit_store_pc_return,
}
use libcpu.Translate.Instr.{jumps, translate_instr}
use libcpu.Translate.All.{locals_at}
use libcpu.Translate.Meaning.{
  Machine, constant, KeepsPc, KeepsPc-constant, run, run_block, follow, follow_from,
}
use libcpu.Translate.Guest.{Config, at, IsKind, destination, guest_step, config_of, config_after}
use mathlib.Core.Option.{some-injective}
use libcpu.Translate.Native.{resolve}
use libcpu.Translate.Runs.{Matches, resolve-Matches}
use libcpu.Translate.Last.{last_instr, closed}
use libcpu.Translate.SingleStep.{
  singlestep_target, singlestep_next, returns_from, cpu_translate_singlestep,
}

module _ {S : Type 0} (m : Machine S) where
  -- The same end, or a return block in the place of a stored PC.
  data Alike : Option (Target × S) → Option (Target × S) → Type 0 where
    same : {o : Option (Target × S)} → Alike o o
    stored :
        {n : ℕ} {s : S}
        → Alike (some (Target.leaving n, s)) (some (Target.ret, m.set_pc (constant m n) s))

  module _ (n : ℕ) where
    run-Alike :
        (cs : List Call) (s : S)
        → Alike
            (run m (cs ++ Call.branch (Target.leaving n) ∷ []) s)
            (run m (cs ++ Call.store_pc n ∷ Call.branch Target.ret ∷ []) s)
    unfolding run
    run-Alike [] s = stored
    run-Alike (Call.instr pc ∷ cs) s = run-Alike cs (m.exec pc s)
    run-Alike (Call.store_pc a ∷ cs) s = run-Alike cs (m.set_pc (constant m a) s)
    run-Alike (Call.branch t ∷ cs) s = same
    run-Alike (Call.cond_branch pc t f ∷ cs) s = same

    contents_append :
        (b : Target) (xs ys : Trace) → contents b (xs ++ ys) ≡ contents b xs ++ contents b ys
    unfolding contents
    contents_append b [] ys = refl
    contents_append b (x ∷ xs) ys = elim (Bool-cases (same_target b x.block)) [
      | inl e ↦ rw e (ap (λ cs. x.call ∷ cs) (contents_append b xs ys))
      | inr e ↦ rw e (contents_append b xs ys)
    ]

    module _ (trace : Trace) where
      abbrev with_block : Option Target → Trace
      with_block cont = trace ++ closed (Target.leaving n) cont

      abbrev with_store : Option Target → Trace
      with_store cont = trace ++ returns_from cont n

      block-Alike :
          (cont : Option Target) (b : Target) (s : S)
          → Alike (run m (contents b (with_block cont)) s) (run m (contents b (with_store cont)) s)
      unfolding contents
      block-Alike none b s = same
      block-Alike (some bb) b s =
          rw
            (
              contents_append b trace (emit bb (Call.branch (Target.leaving n)) ∷ []),
              contents_append b trace (emit_store_pc_return bb n Target.ret),
            )
            (elim (Bool-cases (same_target b bb)) [
              | inl e ↦ rw e (run-Alike (contents b trace) s)
              | inr e ↦ rw e same
            ])

      follow-Alike :
          (cont : Option Target) (o o' : Option (Target × S))
          → Alike o o'
          → Alike (follow_from m (with_block cont) o) (follow_from m (with_store cont) o')
      unfolding follow_from follow
      follow-Alike cont none _ same = same
      follow-Alike cont (some (Target.cond a, s)) _ same = block-Alike cont (Target.cond a) s
      follow-Alike cont (some (Target.delay a, s)) _ same = block-Alike cont (Target.delay a) s
      follow-Alike cont (some (Target.dispatch, s)) _ same = same
      follow-Alike cont (some (Target.ret, s)) _ same = same
      follow-Alike cont (some (Target.trap, s)) _ same = same
      follow-Alike cont (some (Target.null, s)) _ same = same
      follow-Alike cont (some (Target.label a, s)) _ same = same
      follow-Alike cont (some (Target.leaving a, s)) _ same = same
      follow-Alike cont (some (Target.leaving a, s)) _ stored = stored

      run_block-Alike :
          (cont : Option Target) (b : Target) (s : S)
          → Alike (run_block m (with_block cont) b s) (run_block m (with_store cont) b s)
      unfolding run_block
      run_block-Alike cont b s = follow-Alike cont _ _ (block-Alike cont b s)

  module _ (stores : KeepsPc m) where
    -- The function returned or trapped where the guest is.
    abbrev IsLeftAt : Config S → Option (Target × S) → Type 0
    IsLeftAt c o = (q : Target × S) × (o ≡ some q) × Matches m [] c (resolve m [] q)

    Alike-IsLeftAt :
        (o o' : Option (Target × S)) (c : Config S)
        → Alike o o'
        → config_after m [] o ≡ some c
        → IsLeftAt c o'
    unfolding config_after config_of resolve Matches
    Alike-IsLeftAt none _ c same h = cc h
    Alike-IsLeftAt (some p) _ c same h =
        (p, refl, resolve-Matches m stores [] [] refl (λ a k. cc k) p c h)
    Alike-IsLeftAt (some (Target.leaving n, s)) _ c stored h = (
      (Target.ret, m.set_pc (constant m n) s),
      refl,
      (n, s, sym (some-injective _ _ h), inr (refl, KeepsPc-constant m n s stores)),
    )

    module _ (locals : ℕ → Locals) (length : ℕ → ℕ) (pc : ℕ)
        (apart : has (locals pc).tag tag_ret ≡ true
          → has (locals pc).tag (tag_call ||| tag_branch) ≡ false) where
      abbrev tags : ℕ → ℕ
      tags pc = (locals pc).tag

      target_at :
          (s : S)
          → jumps (tags pc) ≡ true
          → config_of m [] (singlestep_target (locals pc), s)
            ≡ some (at (destination m tags locals length pc s) s)
      unfolding singlestep_target destination config_of
      target_at s j = elim (Bool-cases (has (tags pc) tag_ret)) [
        | inl r ↦ rw (r, apart r) refl
        | inr r ↦
            let goes : has (tags pc) (tag_call ||| tag_branch) ≡ true =
              ground (arith, j, r, has-mask_or (tags pc) (tag_call ||| tag_branch) tag_ret) in
            elim (Bool-cases ((locals pc).new_pc == new_pc_none)) [
              | inl e ↦ rw (r, goes, e) refl
              | inr e ↦ rw (r, goes, e) refl
            ]
      ]

      next_at :
          (s : S)
          → has (tags pc) tag_conditional ≡ true
          → config_of m [] (singlestep_next (locals pc), s) ≡ some (at (locals pc).next_pc s)
      unfolding singlestep_next config_of
      next_at s c = rw c refl

  -- For an instruction whose tag fits together and does not return and jump at once: the function
  -- that `cpu_translate_singlestep` builds for it, run in any state, returns or traps where the guest
  -- is after one step; it returns with the PC stored, by the code or at the end, in
  -- `address_size` bits (a PC of `address_size` bits that keeps what is stored in it).
  pub cpu_translate_singlestep-IsLeftAt :
      (tag_instr : ℕ → Written) (indeterminate : Locals) (length : ℕ → ℕ) (pc : ℕ) (s : S)
      → KeepsPc m
      → IsKind (locals_at tag_instr indeterminate pc).tag
      → (has (locals_at tag_instr indeterminate pc).tag tag_ret ≡ true
          → has (locals_at tag_instr indeterminate pc).tag (tag_call ||| tag_branch) ≡ false)
      → (q : Target × S) × (run_block m
            (cpu_translate_singlestep tag_instr indeterminate length pc)
            (Target.label pc)
            s
          ≡ some q)
        × Matches m []
            (guest_step m
              (λ a. (locals_at tag_instr indeterminate a).tag)
              (locals_at tag_instr indeterminate)
              length
              pc
              s)
            (resolve m [] q)
  unfolding cpu_translate_singlestep
  cpu_translate_singlestep-IsLeftAt tag_instr indeterminate length pc s stores kind apart =
      let locals : ℕ → Locals = locals_at tag_instr indeterminate in
      let l = locals pc in
      let t =
        translate_instr length pc l.tag (singlestep_target l) Target.trap (singlestep_next l)
          (Target.label pc) in
      Alike-IsLeftAt stores _ _ _ (run_block-Alike l.next_pc t.trace t.cont (Target.label pc) s) (
        last_instr m [] length locals (λ a. (locals a).tag) pc pc (singlestep_target l)
          (singlestep_next l) (Target.leaving l.next_pc) s kind
          (λ j s'. target_at stores locals length pc apart s' j)
          (λ c s'. next_at stores locals length pc apart s' c) (λ s'. unfold config_of in refl))
