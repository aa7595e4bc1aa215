-- ===== src/M6502/Step/Runs.antt =====
-- A 6502 program in memory, and the guest that runs its translated code.
use libcpu.Base.{ℕ, zero, suc, ◌+◌, ◌<◌, ◌≤◌, ◌≡◌, ◌∙◌, refl, sym, bit_and, true, arith}
use mathlib.Core.Path.{subst}
use libcpu.Tag.Arch.{Locals, tag_of}
use libcpu.Translate.All.{locals_at}
use libcpu.Translate.Guest.{Config, at, trapped, guest_step, guest_from}
use libcpu.Frontend.Code.{Guest}
use libcpu.M6502.Isa.{get_instr, get_addmode}
use libcpu.M6502.Mos.{Mos, execute, next_pc}
use libcpu.M6502.Tag.{tag_instr}
use libcpu.M6502.Translate.{translated_length}
use libcpu.M6502.Translate.Bytes.{view, IsBytes, and_65535}
use libcpu.M6502.Translate.Operand.{Fits}
use libcpu.M6502.Translate.Correct.{is_exact}
use libcpu.M6502.Step.{machine_6502, IsStep, guest_step-IsStep}

-- The 6502 reads the instruction from its memory.
abbrev executes : ℕ → Mos → Mos
executes pc m =
    execute pc (get_addmode (m.mem pc)) (m.mem (pc + 1)) (m.mem (pc + 2)) (get_instr (m.mem pc)) m

abbrev goes_to : ℕ → Mos → ℕ
goes_to pc m =
    next_pc pc (get_addmode (m.mem pc)) (m.mem (pc + 1)) (m.mem (pc + 2)) (get_instr (m.mem pc)) m

pub record At : Type 0 where
  pub pc : ℕ
  pub mos : Mos

-- `n` instructions of the 6502.
unfoldable pub mos_from : ℕ → ℕ → Mos → At
mos_from zero pc m = record { pc = pc; mos = m }
mos_from (suc n) pc m = mos_from n (goes_to pc m) (executes pc m)

-- The next `n` instructions of the 6502 are as they were when `ram` was translated, at PCs from 128 to
-- 65405, and of the kind whose code is exact, with operands that do not wrap around.
unfoldable pub IsPlain : (ℕ → ℕ) → ℕ → ℕ → Mos → Type 0
IsPlain ram zero pc m = Unit
IsPlain ram (suc n) pc m =
    (128 ≤ pc)
    × (pc + 130 < 65536)
    × (m.mem pc ≡ ram pc)
    × (m.mem (pc + 1) ≡ ram (pc + 1))
    × (m.mem (pc + 2) ≡ ram (pc + 2))
    × (is_exact (get_instr (ram pc)) ≡ true)
    × Fits (get_addmode (ram pc)) (ram (pc + 1)) m
    × IsPlain ram n (goes_to pc m) (executes pc m)

abbrev pub IsAt : Config Guest → At → Type 0
IsAt (at pc g) a = (pc ≡ a.pc) × (view g ≡ a.mos)
IsAt (trapped g) a = ⊥

module _ (ram : ℕ → ℕ) (code : (a : ℕ) → ram a < 256) (indeterminate : Locals) where
  abbrev run_from : ℕ → Config Guest → Config Guest
  run_from n c =
      guest_from (machine_6502 ram) (λ a. tag_of (tag_instr ram a))
        (locals_at (tag_instr ram) indeterminate) (translated_length ram) n c

  abbrev one_step : ℕ → Guest → Config Guest
  one_step pc g =
      guest_step (machine_6502 ram) (λ a. tag_of (tag_instr ram a))
        (locals_at (tag_instr ram) indeterminate) (translated_length ram) pc g

  masked : (a : ℕ) → a < 65536 → bit_and a 0xffff ≡ a
  masked a small = and_65535 a ∙ omega arith

  plain-IsStep :
      (n pc : ℕ) (g : Guest)
      → IsBytes g
      → IsPlain ram (suc n) pc (view g)
      → IsStep (one_step pc g) (executes pc (view g)) (goes_to pc (view g))
  unfolding IsPlain
  plain-IsStep n pc g bytes h =
      let low = masked (pc + 1) (omega (arith, h.1)) in
      let high = masked (pc + 2) (omega (arith, h.1)) in
      let fits = subst (λ (a : ℕ). Fits (get_addmode (ram pc)) (ram a) (view g)) (sym low) h.6 in
      let step = guest_step-IsStep g bytes ram pc code indeterminate h.0 h.1 h.5 fits in
      rw (h.2, h.3, h.4) (rw (low, high) at step)

  follows :
      (n : ℕ) (c : Config Guest) (m : Mos) (p : ℕ)
      → ((pc : ℕ) (g : Guest)
          → IsBytes g
          → IsPlain ram n pc (view g)
          → IsAt (run_from n (at pc g)) (mos_from n pc (view g)))
      → IsStep c m p
      → IsPlain ram n p m
      → IsAt (run_from n c) (mos_from n p m)
  follows n (at pc g) m p again step plain =
      let plain' =
        subst (λ (x : ℕ). IsPlain ram n x (view g)) (sym step.2)
          (subst (λ (x : Mos). IsPlain ram n p x) (sym step.0) plain) in
      subst (λ (x : ℕ). IsAt (run_from n (at pc g)) (mos_from n x m)) step.2
        (subst (λ (x : Mos). IsAt (run_from n (at pc g)) (mos_from n pc x)) step.0
          (again pc g step.1 plain'))
  follows n (trapped g) m p again step plain = absurd step

  -- For code of bytes, registers and memory of bytes, flags of bits, and `n` instructions that the
  -- 6502 executes from `pc` unmodified, at PCs from 128 to 65405, without ADC, SBC, BIT, TXS, PHP,
  -- BRK, RTI and undocumented ones, and with operands that do not wrap around: after `n` steps the
  -- guest of the translated code stands where the 6502 does, with its registers, flags and memory.
  pub guest_from-IsAt :
      (n pc : ℕ) (g : Guest)
      → IsBytes g
      → IsPlain ram n pc (view g)
      → IsAt (run_from n (at pc g)) (mos_from n pc (view g))
  unfolding guest_from mos_from IsPlain
  guest_from-IsAt zero pc g bytes plain = (refl, refl)
  guest_from-IsAt (suc n) pc g bytes plain =
      follows n (one_step pc g) (executes pc (view g)) (goes_to pc (view g)) (guest_from-IsAt n)
        (plain-IsStep n pc g bytes plain) plain.7
