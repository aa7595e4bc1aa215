-- ===== src/M6502/Step.antt =====
-- The 6502 frontend as the translator uses it: `tag_instr`, `translate_cond` and `translate_instr` of
-- arch/6502 together make a step of the guest, which is a step of the 6502.
pub mod Runs
use libcpu.Base.{
  ℕ, zero, suc, ◌+◌, ◌-◌, ◌*◌, ◌%◌, ◌^◌, ◌<◌, ◌≤◌, ◌≡◌, ◌∙◌, refl, ap, sym, bit_and, bit_or,
  bit_xor, Bool, true, false, not, ◌||◌, ◌&&◌, ◌==◌, Option, none, some, arith, all_below,
  all_below-test, Bool-cases, inl, inr, if◌then◌else◌, ltb,
}
use mathlib.Core.Path.{subst}
use libcpu.Tag.Flags.{new_pc_none}
use libcpu.Tag.Arch.{Locals, tag_of, store}
use libcpu.Translate.All.{locals_at}
use libcpu.Translate.Meaning.{Machine, KeepsPc}
use libcpu.Translate.Guest.{Config, at, trapped, guest_step}
use libcpu.Frontend.Value.{Value}
use libcpu.Frontend.Code.{Guest, Ran, on, returned, exited}
use libcpu.M6502.Isa.{Instr, AddMode, get_instr, get_addmode, get_length}
use libcpu.M6502.Mos.{Mos, execute, next_pc}
use libcpu.M6502.Tag.{tag_instr, offset, branch_target, operand16, jump_target}
use libcpu.M6502.Translate.{
  operand_8, arch_6502_translate_instr, arch_6502_translate_cond, translated_length,
}
use libcpu.M6502.Translate.Bytes.{view, IsBytes, IsRight, and_65535, or_word}
use libcpu.M6502.Translate.Operand.{Fits}
use libcpu.M6502.Translate.Correct.{
  is_exact, executed, left_pc, lo, hi, mode, arch_6502_translate_instr-IsRight,
}

-- The guest that code leaves, whichever way it ends.
abbrev pub left : Ran (Unit {0}) → Guest → Guest
left (on u g') g = g'
left (returned ret g') g = g'
left exited g = g

abbrev pub is_true : Ran (Option Value) → Bool
is_true (on (some v) g) = v.word == 1
is_true _ = false

-- The code of the frontend, for the blocks of the translator. `ptr_PC` has 16 bits.
unfoldable pub machine_6502 : (ℕ → ℕ) → Machine Guest
unfolding arch_6502_translate_cond
machine_6502 ram = record {
  exec = λ pc g. left (arch_6502_translate_instr ram pc g) g;
  holds = λ pc g. is_true (arch_6502_translate_cond ram pc g);
  pc_of = λ g. g.pc;
  set_pc = λ a g. record g { pc = a % 2 ^ 16 };
  address_size = 16;
}

pub machine_6502-KeepsPc : (ram : ℕ → ℕ) → KeepsPc (machine_6502 ram)
unfolding machine_6502
machine_6502-KeepsPc ram a g h = omega arith

-- The guest stands at this PC, as this 6502.
abbrev pub IsStep : Config Guest → Mos → ℕ → Type 0
IsStep (at pc g) m p = (view g ≡ m) × IsBytes g × (pc ≡ p)
IsStep (trapped g) m p = ⊥

IsRight-IsStep :
    (r : Ran (Unit {0})) (g : Guest) (m : Mos) (p : ℕ) {q q' : ℕ}
    → IsRight r m p
    → q ≡ q'
    → IsStep (at q (left r g)) m q'
IsRight-IsStep (on u g') g m p h e = (h.0, h.1, e)
IsRight-IsStep (returned ret g') g m p h e = absurd h
IsRight-IsStep exited g m p h e = absurd h

IsRight-pc : (r : Ran (Unit {0})) (g : Guest) (m : Mos) (p : ℕ) → IsRight r m p → (left r g).pc ≡ p
IsRight-pc (on u g') g m p h = h.2
IsRight-pc (returned ret g') g m p h = absurd h
IsRight-pc exited g m p h = absurd h

get_length_bound : (mode : AddMode) → get_length mode < 4
unfolding get_length
get_length_bound AddMode.abs = omega arith
get_length_bound AddMode.bra = omega arith
get_length_bound _ = omega arith

abbrev is_jmp : Instr → Bool
is_jmp Instr.jmp = true
is_jmp _ = false

abbrev is_jump_mode : AddMode → Bool
is_jump_mode AddMode.abs = true
is_jump_mode AddMode.ind = true
is_jump_mode _ = false

jump_table : all_below 256 (λ o. not (is_jmp (get_instr o)) || is_jump_mode (get_addmode o)) ≡ true
unfolding all_below get_instr get_addmode
jump_table = refl

flipped : (f : ℕ) → f < 2 → (bit_xor f 1 == 1) ≡ (f == 0)
flipped f h = (==→eq f h)
  where
    ==→eq : (f : ℕ) → f < 2 → (bit_xor f 1 == 1) ≡ (f == 0)
    ==→eq zero h = refl
    ==→eq (suc zero) h = refl
    ==→eq (suc (suc f)) h = absurd (omega arith)

target : (t t' x : ℕ) → t ≡ t' → t' < 65536 → (if t == new_pc_none then x else t) ≡ t'
target t t' x goes small = ground arith

-- A branch that is taken goes to its target, below the mark for none.
branch-IsStep :
    (r : Ran (Unit {0})) (g : Guest) (m : Mos) (p : ℕ) (b b' : Bool) (x t t' q q' : ℕ)
    → IsRight r m p
    → view g ≡ m
    → IsBytes g
    → b ≡ b'
    → t ≡ t'
    → t' < 65536
    → q ≡ q'
    → IsStep
        (if b then at (if t == new_pc_none then x else t) (left r g) else at q g)
        m
        (if b' then t' else q')
branch-IsStep r g m p true b' x t t' q q' h same bytes tests goes small next =
    rw (← tests) (IsRight-IsStep r g m p h (target t t' x goes small))
branch-IsStep r g m p false b' x t t' q q' h same bytes tests goes small next =
    rw (← tests) (same, bytes, next)

module _ (g : Guest) (bytes : IsBytes g) (ram : ℕ → ℕ) (pc : ℕ) (code : (a : ℕ) → ram a < 256)
    (indeterminate : Locals) (low : 128 ≤ pc) (high : pc + 130 < 65536) where
  abbrev pub stepped : Config Guest
  stepped =
      guest_step (machine_6502 ram) (λ a. tag_of (tag_instr ram a))
        (locals_at (tag_instr ram) indeterminate) (translated_length ram) pc g

  abbrev length : ℕ
  length = get_length (get_addmode (ram pc))

  next : offset pc length ≡ pc + length
  next = omega (arith, get_length_bound (get_addmode (ram pc)))

  first : ram (offset pc 1) ≡ operand_8 ram pc
  first = ap ram (omega (arith, and_65535 (pc + 1)))

  second : ram (offset pc 2) ≡ ram (bit_and (pc + 2) 0xffff)
  second = ap ram (omega (arith, and_65535 (pc + 2)))

  -- The target of a branch, and of a jump.
  abbrev there : ℕ
  there =
      (if ltb (operand_8 ram pc) 128
        then pc + 2 + operand_8 ram pc
        else pc + 2 + operand_8 ram pc + 65536 - 256)
      % 65536

  branches : branch_target ram pc ≡ there
  unfolding branch_target
  branches = rw first (ground (arith, code (bit_and (pc + 1) 0xffff)))

  jumps_to : operand16 ram pc ≡ operand_8 ram pc + 256 * ram (bit_and (pc + 2) 0xffff)
  unfolding operand16
  jumps_to = rw (first, second) (or_word _ _ (code (bit_and (pc + 1) 0xffff)))

  -- A conditional branch, whose code does nothing.
  taken :
      {m : Mos} (b b' : Bool)
      → IsRight (arch_6502_translate_instr ram pc g) m g.pc
      → view g ≡ m
      → b ≡ b'
      → IsStep
          (if b
            then at
                (if branch_target ram pc == new_pc_none
                  then (left (arch_6502_translate_instr ram pc g) g).pc
                  else branch_target ram pc)
                (left (arch_6502_translate_instr ram pc g) g)
            else at (offset pc length) g)
          m
          (if b' then there else pc + length)
  taken {m} b b' r same tests =
      branch-IsStep (arch_6502_translate_instr ram pc g) g m g.pc b b' _ (branch_target ram pc)
        there _ _ r same bytes tests branches (omega arith) next

  abbrev code_run : Ran (Unit {0})
  code_run = arch_6502_translate_instr ram pc g

  abbrev pub target_pc : Instr → AddMode → ℕ
  target_pc i m = next_pc pc m (operand_8 ram pc) (ram (bit_and (pc + 2) 0xffff)) i (view g)

  word-lt : operand_8 ram pc + 256 * ram (bit_and (pc + 2) 0xffff) < 65536
  word-lt = omega (arith, code (bit_and (pc + 1) 0xffff), code (bit_and (pc + 2) 0xffff))

  jump :
      (p : ℕ) {m : Mos}
      → IsRight code_run m p
      → IsStep
          (at
            (if operand16 ram pc == new_pc_none then (left code_run g).pc else operand16 ram pc)
            (left code_run g))
          m
          (operand_8 ram pc + 256 * ram (bit_and (pc + 2) 0xffff))
  jump p {m} r =
      IsRight-IsStep code_run g m p r
        (target (operand16 ram pc) _ (left code_run g).pc jumps_to word-lt)

  jmp :
      (mode : AddMode) {m : Mos}
      → is_jump_mode mode ≡ true
      → IsRight code_run m (left_pc g bytes ram pc code Instr.jmp mode)
      → IsStep
          (at
            (if jump_target ram mode pc == new_pc_none
              then (left code_run g).pc
              else jump_target ram mode pc)
            (left code_run g))
          m
          (target_pc Instr.jmp mode)
  unfolding jump_target next_pc
  jmp AddMode.abs {m} h r = jump g.pc r
  jmp AddMode.ind {m} h r =
      IsRight-IsStep code_run g m (target_pc Instr.jmp AddMode.ind) r
        (IsRight-pc code_run g m (target_pc Instr.jmp AddMode.ind) r)
  jmp AddMode.bra h r = cc
  jmp _ h r = cc

  jmp_mode : get_instr (ram pc) ≡ Instr.jmp → is_jump_mode (get_addmode (ram pc)) ≡ true
  jmp_mode e =
      let both = all_below-test 256 _ (ram pc) jump_table (code pc) in
      subst (λ i. (not (is_jmp i) || is_jump_mode (get_addmode (ram pc))) ≡ true) e both

  step_lem :
      (i : Instr)
      → get_instr (ram pc) ≡ i
      → is_exact i ≡ true
      → IsRight code_run
          (executed g bytes ram pc code i)
          (left_pc g bytes ram pc code i (get_addmode (ram pc)))
      → IsStep stepped (executed g bytes ram pc code i) (target_pc i (get_addmode (ram pc)))
  unfolding guest_step tag_instr machine_6502 next_pc execute store
  step_lem Instr.beq e x r = rw e (taken (g.flag 1 == 1) (g.flag 1 == 1) r refl refl)
  step_lem Instr.bne e x r =
      rw e (taken _ (g.flag 1 == 0) r refl (flipped (g.flag 1) (bytes.flag_bit 1)))
  step_lem Instr.bcs e x r = rw e (taken (g.flag 0 == 1) (g.flag 0 == 1) r refl refl)
  step_lem Instr.bcc e x r =
      rw e (taken _ (g.flag 0 == 0) r refl (flipped (g.flag 0) (bytes.flag_bit 0)))
  step_lem Instr.bmi e x r = rw e (taken (g.flag 7 == 1) (g.flag 7 == 1) r refl refl)
  step_lem Instr.bpl e x r =
      rw e (taken _ (g.flag 7 == 0) r refl (flipped (g.flag 7) (bytes.flag_bit 7)))
  step_lem Instr.bvs e x r = rw e (taken (g.flag 6 == 1) (g.flag 6 == 1) r refl refl)
  step_lem Instr.bvc e x r =
      rw e (taken _ (g.flag 6 == 0) r refl (flipped (g.flag 6) (bytes.flag_bit 6)))
  step_lem Instr.jmp e x r = rw e (jmp (get_addmode (ram pc)) (jmp_mode e) r)
  step_lem Instr.jsr e x r = rw e (jump g.pc r)
  step_lem Instr.rts e x r = rw e (
      IsRight-IsStep code_run g _ _ r
        (IsRight-pc code_run g _ (target_pc Instr.rts (get_addmode (ram pc))) r))
  step_lem Instr.brk e x r = cc
  step_lem Instr.lda e x r = rw e (IsRight-IsStep code_run g _ g.pc r next)
  step_lem _ e x r = rw e (IsRight-IsStep code_run g _ g.pc r next)

  -- For registers and memory of bytes, flags of bits, code of bytes, a PC from 128 to 65405, an
  -- instruction that is not one of ADC, SBC, BIT, TXS, PHP, BRK, RTI and undocumented, and an operand
  -- whose pointer does not wrap around in its page nor its address in memory: the step that the
  -- translator makes of `tag_instr`, `translate_cond` and `translate_instr` leaves registers, flags
  -- and memory as the 6502 does, bytes and bits again, and goes on where the 6502 does.
  pub guest_step-IsStep :
      is_exact (get_instr (ram pc)) ≡ true
      → Fits (get_addmode (ram pc)) (operand_8 ram pc) (view g)
      → IsStep stepped
          (executed g bytes ram pc code (get_instr (ram pc)))
          (target_pc (get_instr (ram pc)) (get_addmode (ram pc)))
  guest_step-IsStep exact fits =
      step_lem (get_instr (ram pc)) refl exact
        (arch_6502_translate_instr-IsRight g bytes ram pc code fits exact)
