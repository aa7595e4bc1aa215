-- ===== src/Translate/Runs.antt =====
-- The translated function against the guest: what `cpu_translate_all` (libcpu/translate_all.cpp)
-- builds runs as the guest does, block by block, until it is left.
use mathlib.Core.Option.{some-injective}
use mathlib.Core.Option
use libcpu.Base.{
  ℕ, zero, suc, ◌+◌, ◌-◌, ◌^◌, ◌<◌, ◌≤◌, ◌≡◌, ◌⊎◌, refl, sym, ap, ◌∙◌, Bool, true, false, some,
  List, arith, Bool-cases, Option-cases, inl, inr, is_case,
}
use libcpu.Tag.Store.{Cpu, Tagging, is_code, is_inside_code_area, get_tag}
use libcpu.Tag.Arch.{Locals, Written}
use libcpu.Translate.Builder.{Target}
use libcpu.Translate.All.{Block, Translation, locals_at, find_labels, cpu_translate_all}
use libcpu.Translate.Meaning.{Machine, constant, KeepsPc, KeepsPc-constant, run_block}
use libcpu.Translate.Guest.{Config, at, trapped, guest_from, config_of, config_after}
use libcpu.Translate.Alike.{IsTagged}
use libcpu.Translate.Native.{starts, dispatched_lem, resolve, next_label, enter_block, native}
use libcpu.Translate.Function.{find_labels-is_code, IsFilled, cpu_translate_all-IsFilled}

module _ {S : Type 0} (m : Machine S) (labels : List ℕ) where
  -- Where the function is, against where the guest is. The function returns with the PC stored, by the
  -- code or by a return block, which stores a constant.
  unfoldable pub Matches : Config S → Target × S → Type 0
  Matches c (Target.label a, s) = (is_case a labels ≡ true) × (c ≡ at a s)
  Matches c (Target.trap, s) = c ≡ trapped s
  Matches c (Target.ret, s) =
      (a : ℕ) × (s' : S) × (c ≡ at a s')
      × (((s ≡ s') × (m.pc_of s ≡ a))
          ⊎ ((s ≡ m.set_pc (constant m a) s') × (m.pc_of s ≡ constant m a)))
  Matches c _ = ⊥

-- Labels that are addresses of the guest.
abbrev pub AllBelow : ℕ → List ℕ → Type 0
AllBelow n labels = (a : ℕ) → is_case a labels ≡ true → a < n

module _ {S : Type 0} (m : Machine S) (stores : KeepsPc m) (labels : List ℕ) (blocks : List Block)
    (same : starts blocks ≡ labels) (small : AllBelow (2 ^ m.address_size) (starts blocks)) where
  pub resolve-Matches :
      (p : Target × S) (c : Config S)
      → config_of m labels p ≡ some c
      → Matches m labels c (resolve m blocks p)
  unfolding resolve config_of Matches
  resolve-Matches (Target.dispatch, st) c h = elim (Bool-cases (is_case (m.pc_of st) labels)) [
    | inl e ↦
        rw (dispatched_lem m (m.pc_of st) blocks small, same, e) (e, sym (some-injective _ _ h))
    | inr e ↦
        rw (dispatched_lem m (m.pc_of st) blocks small, same, e)
          (m.pc_of st, st, sym (some-injective _ _ h), inl (refl, refl))
  ]
  resolve-Matches (Target.label a, st) c h = elim (Bool-cases (is_case a labels)) [
    | inl e ↦ (e, sym (some-injective _ _ (rw e at h)))
    | inr e ↦ cc (rw e at h)
  ]
  resolve-Matches (Target.leaving a, st) c h =
      (a, st, sym (some-injective _ _ h), inr (refl, KeepsPc-constant m a st stores))
  resolve-Matches (Target.trap, st) c h = sym (some-injective _ _ h)
  resolve-Matches (Target.ret, st) c h =
      (m.pc_of st, st, sym (some-injective _ _ h), inl (refl, refl))
  resolve-Matches (Target.null, st) c h = cc h
  resolve-Matches (Target.cond a, st) c h = cc h
  resolve-Matches (Target.delay a, st) c h = cc h

abbrev at_label : Target → Bool
at_label (Target.label a) = true
at_label _ = false

module _ {S : Type 0} (m : Machine S) (cpu : Cpu) (tag_instr : ℕ → Written) (indeterminate : Locals)
    (length : ℕ → ℕ) (s : Tagging) where
  abbrev pub guest : ℕ → Config S → Config S
  guest = guest_from m (get_tag cpu s) (locals_at tag_instr indeterminate) length

  -- The function is where the guest is after `k` steps, once it has run at most `n` blocks; unless it is
  -- left, it has taken at least a step in each.
  abbrev pub RunsTo : List ℕ → Translation → ℕ → Target × S → Config S → Type 0
  RunsTo labels f n p c =
      (q : Target × S) × (k : ℕ) × (native m f.blocks n p ≡ some q)
      × Matches m labels (guest k c) q
      × (at_label q.0 ≡ true → n ≤ k)

module _ {S : Type 0} (m : Machine S) (stores : KeepsPc m) (cpu : Cpu) (tag_instr : ℕ → Written)
    (indeterminate : Locals) (length : ℕ → ℕ) (labels : List ℕ) (s : Tagging) (f : Translation)
    (filled : IsFilled m cpu tag_instr indeterminate length labels s labels f)
    (small : AllBelow (2 ^ m.address_size) (starts f.blocks)) where
  abbrev guest' : ℕ → Config S → Config S
  guest' = guest m cpu tag_instr indeterminate length s

  guest_trapped : (n : ℕ) (st : S) → guest' n (trapped st) ≡ trapped st
  unfolding guest_from
  guest_trapped zero st = refl
  guest_trapped (suc n) st = refl

  guest_add : (k n : ℕ) (c : Config S) → guest' (k + n) c ≡ guest' n (guest' k c)
  unfolding guest_from
  guest_add zero n c = let e : 0 + n ≡ n = omega arith in rw e refl
  guest_add (suc k) n (at pc st) =
      let e : suc k + n ≡ suc (k + n) = omega arith in rw e (guest_add k n _)
  guest_add (suc k) n (trapped st) =
      let e : suc k + n ≡ suc (k + n) = omega arith in rw e (sym (guest_trapped n st))

  native_lem :
      (n : ℕ) (p : Target × S) (c : Config S)
      → Matches m labels c p
      → RunsTo m cpu tag_instr indeterminate length s labels f n p c
  unfolding native enter_block next_label Option.bind guest_from config_after Matches
  native_lem zero p c h = (p, 0, refl, h, λ _. omega arith)
  native_lem (suc n) (Target.label a, st) c h =
      let (trace, found, sims) = filled.block_of a h.0 in
      let (k, sim) = sims in
      elim (Option-cases (run_block m trace (Target.label a) st)) [
        | inl e ↦ cc (sym (sim st) ∙ ap (config_after m labels) e)
        | inr (p, e) ↦
            let here : config_of m labels p ≡ some (guest' (suc k) (at a st)) = rw e at (sim st) in
            let (q, j, run, match, le) =
              native_lem n (resolve m f.blocks p) (guest' (suc k) (at a st))
                (resolve-Matches m stores labels f.blocks filled.starts_eq small p _ here) in
            (
              q,
              suc k + j,
              rw (found, e) run,
              rw (h.1, guest_add (suc k) j (at a st)) match,
              λ on. omega (arith, le on),
            )
      ]
  native_lem (suc n) (Target.trap, st) c h = ((Target.trap, st), 0, refl, h, λ e. cc e)
  native_lem (suc n) (Target.ret, st) c h = ((Target.ret, st), 0, refl, h, λ e. cc e)
  native_lem (suc n) (Target.dispatch, st) c h = absurd h
  native_lem (suc n) (Target.null, st) c h = absurd h
  native_lem (suc n) (Target.cond a, st) c h = absurd h
  native_lem (suc n) (Target.delay a, st) c h = absurd h
  native_lem (suc n) (Target.leaving a, st) c h = absurd h

  pub dispatch-RunsTo :
      (n : ℕ) (st : S)
      → RunsTo m cpu tag_instr indeterminate length s labels f n
          (resolve m f.blocks (Target.dispatch, st))
          (at (m.pc_of st) st)
  unfolding config_of
  dispatch-RunsTo n st =
      native_lem n _ _ (
        resolve-Matches m stores labels f.blocks filled.starts_eq small (Target.dispatch, st) _
          refl)

-- The labels lie in the code area.
labels-AllBelow :
    {S : Type 0} (m : Machine S) (cpu : Cpu) (tag_instr : ℕ → Written) (indeterminate : Locals)
    (length : ℕ → ℕ) (s : Tagging)
    → cpu.code_end ≤ 2 ^ m.address_size
    → AllBelow (2 ^ m.address_size) (
        find_labels cpu tag_instr indeterminate length s
          (cpu.code_end - cpu.code_start)
          cpu.code_start)
unfolding is_code get_tag is_inside_code_area
labels-AllBelow m cpu tag_instr indeterminate length s fits a h =
    let code = find_labels-is_code m cpu tag_instr indeterminate length s _ _ a h in
    ground (arith, code)

-- For code whose tags fit together and more fuel than its end: the translation of it exists, and
-- entered at any state, after at most `n` of its blocks it is where the guest is after `k` steps
-- from the PC of that state, where `k` is at least `n` unless the function is left by then; a PC
-- that the function stores is the guest's in `address_size` bits (a PC of `address_size` bits that
-- keeps what is stored in it, a code area of such addresses).
pub cpu_translate_all-RunsTo :
    {S : Type 0} (m : Machine S) (cpu : Cpu) (tag_instr : ℕ → Written) (indeterminate : Locals)
    (length : ℕ → ℕ) (s : Tagging) (fuel n : ℕ) (st : S)
    → KeepsPc m
    → cpu.code_end ≤ 2 ^ m.address_size
    → IsTagged cpu (locals_at tag_instr indeterminate) s
    → cpu.code_end < fuel
    → (f : Translation) × (cpu_translate_all cpu tag_instr indeterminate length fuel s ≡ some f)
      × RunsTo m cpu tag_instr indeterminate length s
          (starts f.blocks)
          f
          n
          (resolve m f.blocks (Target.dispatch, st))
          (at (m.pc_of st) st)
cpu_translate_all-RunsTo m cpu tag_instr indeterminate length s fuel n st stores fits tagged
      enough =
    let (f, e, filled) =
      cpu_translate_all-IsFilled m cpu tag_instr indeterminate length s fuel tagged enough in
    (
      f,
      e,
      rw filled.starts_eq (
          dispatch-RunsTo m stores cpu tag_instr indeterminate length
            (find_labels cpu tag_instr indeterminate length s (cpu.code_end - cpu.code_start)
              cpu.code_start)
            s f filled
            (rw filled.starts_eq (labels-AllBelow m cpu tag_instr indeterminate length s fits)) n
            st),
    )
