-- ===== src/M6502/Translate/Correct/Plain.antt =====
-- The instructions without an operand in memory: flags, transfers, steps of a register, the stack.
use libcpu.Base.{ℕ, ◌+◌, ◌-◌, ◌*◌, ◌/◌, ◌%◌, ◌<◌, ◌≡◌, ◌∙◌, refl, ap, bit_and, arith}
use mathlib.Core.Path.{subst}
use libcpu.Frontend.Value.{Value, consts, or, shl, zext}
use libcpu.Frontend.Code.{Guest, on, pure, ◌>>=◌, >>=-on}
use libcpu.Frontend.Arith.Laws.{byte}
use libcpu.Frontend.Flags.{arch_flags_decode}
use libcpu.M6502.Isa.{Instr, AddMode, get_addmode}
use libcpu.M6502.Mos
use libcpu.M6502.Mos.{execute, next_pc, pulled, pointer}
use libcpu.M6502.Translate.{instr_switch, push, pull, push16, arch_6502_pull16, operand_16, jump}
use libcpu.M6502.Translate.Operand.{Fits, load_ram16_lem}
use libcpu.M6502.Translate.Bytes.{
  view, IsBytes, IsRight, with_gpr, with_flag, with_ram, with_gpr-IsBytes, with_flag-IsBytes,
  with_ram-IsBytes, nz-IsRight, or_page, or_word, and_255,
}

-- The stack.
module _ (g : Guest) where
  abbrev pub pushed : ℕ → Guest
  pushed n = with_gpr 3 ((g.gpr 3 + 255) % 256) (with_ram (256 + g.gpr 3) n g)

  abbrev pub popped : Guest
  popped = with_gpr 3 ((g.gpr 3 + 1) % 256) g

at_pc-IsBytes : (p : ℕ) (k : Guest) → IsBytes k → IsBytes (record k { pc = p })
at_pc-IsBytes p k b = record { gpr_byte = b.gpr_byte; flag_bit = b.flag_bit; ram_byte = b.ram_byte }

module _ (g : Guest) (bytes : IsBytes g) where
  pub pushed-IsBytes : (n : ℕ) → n < 256 → IsBytes (pushed g n)
  pushed-IsBytes n small =
      with_gpr-IsBytes 3 ((g.gpr 3 + 255) % 256) _ (omega arith)
        (with_ram-IsBytes (256 + g.gpr 3) n g small bytes)

  push_lem : (n : ℕ) → push (byte n) g ≡ on tt (pushed g n)
  unfolding push
  push_lem n = rw (or_page (g.gpr 3) (bytes.gpr_byte 3), back) refl
    where
      back : g.gpr 3 + 256 - 1 ≡ g.gpr 3 + 255
      back = omega arith

  popped-IsBytes : IsBytes (popped g)
  popped-IsBytes = with_gpr-IsBytes 3 ((g.gpr 3 + 1) % 256) g (omega arith) bytes

  pull_lem : pull g ≡ on (byte (g.ram (256 + (g.gpr 3 + 1) % 256))) (popped g)
  unfolding pull
  pull_lem = rw (or_page ((g.gpr 3 + 1) % 256) (omega arith)) refl

module _ (g : Guest) (bytes : IsBytes g) (ram : ℕ → ℕ) (pc lo hi : ℕ) (mode : AddMode) where
  -- The instruction does what the 6502 does, and leaves the PC.
  abbrev pub Right : Instr → Type 0
  Right i = IsRight (instr_switch ram pc i g) (execute pc mode lo hi i (view g)) g.pc

  flag_write : (shift b : ℕ) → b < 2 → IsBytes (with_flag shift b g)
  flag_write shift b small = with_flag-IsBytes shift b g small bytes

  pub clc_lem : Right Instr.clc
  unfolding instr_switch execute
  clc_lem = (refl, flag_write 0 0 (omega arith), refl)

  pub cld_lem : Right Instr.cld
  unfolding instr_switch execute
  cld_lem = (refl, flag_write 3 0 (omega arith), refl)

  pub cli_lem : Right Instr.cli
  unfolding instr_switch execute
  cli_lem = (refl, flag_write 2 0 (omega arith), refl)

  pub clv_lem : Right Instr.clv
  unfolding instr_switch execute
  clv_lem = (refl, flag_write 6 0 (omega arith), refl)

  pub sec_lem : Right Instr.sec
  unfolding instr_switch execute
  sec_lem = (refl, flag_write 0 1 (omega arith), refl)

  pub sed_lem : Right Instr.sed
  unfolding instr_switch execute
  sed_lem = (refl, flag_write 3 1 (omega arith), refl)

  pub sei_lem : Right Instr.sei
  unfolding instr_switch execute
  sei_lem = (refl, flag_write 2 1 (omega arith), refl)

  reg_write : (i n : ℕ) → n < 256 → IsBytes (with_gpr i n g)
  reg_write i n small = with_gpr-IsBytes i n g small bytes

  -- Register `j` in register `i`.
  moved-IsBytes : (i j : ℕ) → IsBytes (with_gpr i (g.gpr j) g)
  moved-IsBytes i j = reg_write i (g.gpr j) (bytes.gpr_byte j)

  pub tax_lem : Right Instr.tax
  unfolding instr_switch execute
  tax_lem =
      nz-IsRight (g.gpr 0) (with_gpr 1 (g.gpr 0) g) (bytes.gpr_byte 0) (moved-IsBytes 1 0) refl refl

  pub tay_lem : Right Instr.tay
  unfolding instr_switch execute
  tay_lem =
      nz-IsRight (g.gpr 0) (with_gpr 2 (g.gpr 0) g) (bytes.gpr_byte 0) (moved-IsBytes 2 0) refl refl

  pub txa_lem : Right Instr.txa
  unfolding instr_switch execute
  txa_lem =
      nz-IsRight (g.gpr 1) (with_gpr 0 (g.gpr 1) g) (bytes.gpr_byte 1) (moved-IsBytes 0 1) refl refl

  pub tya_lem : Right Instr.tya
  unfolding instr_switch execute
  tya_lem =
      nz-IsRight (g.gpr 2) (with_gpr 0 (g.gpr 2) g) (bytes.gpr_byte 2) (moved-IsBytes 0 2) refl refl

  pub tsx_lem : Right Instr.tsx
  unfolding instr_switch execute
  tsx_lem =
      nz-IsRight (g.gpr 3) (with_gpr 1 (g.gpr 3) g) (bytes.gpr_byte 3) (moved-IsBytes 1 3) refl refl

  pub inx_lem : Right Instr.inx
  unfolding instr_switch execute
  inx_lem =
      let next = (g.gpr 1 + 1) % 256 in
      nz-IsRight next (with_gpr 1 next g) (omega arith) (reg_write 1 next (omega arith)) refl refl

  pub iny_lem : Right Instr.iny
  unfolding instr_switch execute
  iny_lem =
      let next = (g.gpr 2 + 1) % 256 in
      nz-IsRight next (with_gpr 2 next g) (omega arith) (reg_write 2 next (omega arith)) refl refl

  back_one : (n : ℕ) → n + 256 - 1 ≡ n + 255
  back_one n = omega arith

  pub dex_lem : Right Instr.dex
  unfolding instr_switch execute
  dex_lem =
      let back = (g.gpr 1 + 255) % 256 in
      rw (back_one (g.gpr 1)) (
        nz-IsRight back (with_gpr 1 back g) (omega arith) (reg_write 1 back (omega arith)) refl
          refl)

  pub dey_lem : Right Instr.dey
  unfolding instr_switch execute
  dey_lem =
      let back = (g.gpr 2 + 255) % 256 in
      rw (back_one (g.gpr 2)) (
        nz-IsRight back (with_gpr 2 back g) (omega arith) (reg_write 2 back (omega arith)) refl
          refl)

  pub pha_lem : Right Instr.pha
  unfolding instr_switch execute
  pha_lem =
      rw (push_lem g bytes (g.gpr 0))
        (refl, pushed-IsBytes g bytes (g.gpr 0) (bytes.gpr_byte 0), refl)

  pub pla_lem : Right Instr.pla
  unfolding instr_switch execute
  pla_lem =
      let n = g.ram (256 + (g.gpr 3 + 1) % 256) in
      rw (pull_lem g bytes) (
        nz-IsRight n (with_gpr 0 n (popped g)) (bytes.ram_byte _)
          (with_gpr-IsBytes 0 n (popped g) (bytes.ram_byte _) (popped-IsBytes g bytes)) refl refl)

  one : (n : ℕ) → n / 1 ≡ n
  one n = omega arith

  pub plp_lem : Right Instr.plp
  unfolding instr_switch execute arch_flags_decode
  plp_lem =
      let p = g.ram (256 + (g.gpr 3 + 1) % 256) in
      rw (pull_lem g bytes) (
        ap (λ (n : ℕ). record (Mos.set_flags p (Mos.pop 1 (view g))) { c = n % 2 }) (one p),
        with_flag-IsBytes 0 (p / 1 % 2) _ (omega arith) (
            with_flag-IsBytes 1 (p / 2 % 2) _ (omega arith) (
              with_flag-IsBytes 2 (p / 4 % 2) _ (omega arith) (
                with_flag-IsBytes 3 (p / 8 % 2) _ (omega arith) (
                  with_flag-IsBytes 4 (p / 16 % 2) _ (omega arith) (
                    with_flag-IsBytes 5 (p / 32 % 2) _ (omega arith) (
                      with_flag-IsBytes 6 (p / 64 % 2) _ (omega arith) (
                        with_flag-IsBytes 7 (p / 128 % 2) _ (omega arith)
                          (popped-IsBytes g bytes)))))))),
        refl,
      )

  -- The return address, high byte first.
  push16_lem :
      push16 (pc + 2) g
      ≡ on tt (pushed (pushed g ((pc + 2) % 65536 / 256)) ((pc + 2) % 65536 % 256))
  unfolding push16
  push16_lem =
      rw (high, low)
        (>>=-on (push (byte back_high)) (λ u. push (byte back_low)) g (pushed g back_high) tt
            (push_lem g bytes back_high)
          ∙ push_lem (pushed g back_high) (pushed-IsBytes g bytes back_high (omega arith)) back_low)
    where
      back_high : ℕ
      back_high = (pc + 2) % 65536 / 256

      back_low : ℕ
      back_low = (pc + 2) % 65536 % 256

      high : (pc + 2) / 256 % 256 ≡ (pc + 2) % 65536 / 256
      high = omega arith

      low : bit_and (pc + 2) 255 % 256 ≡ (pc + 2) % 65536 % 256
      low = omega (arith, and_255 (pc + 2))

  pub jsr_lem : Right Instr.jsr
  unfolding instr_switch execute
  jsr_lem = rw push16_lem (
    refl,
    pushed-IsBytes (pushed g ((pc + 2) % 65536 / 256))
        (pushed-IsBytes g bytes ((pc + 2) % 65536 / 256) (omega arith)) ((pc + 2) % 65536 % 256)
        (omega arith),
    refl,
  )

  twice : ((g.gpr 3 + 1) % 256 + 1) % 256 ≡ (g.gpr 3 + 2) % 256
  twice = omega arith

  abbrev popped_twice : Guest
  popped_twice = with_gpr 3 ((g.gpr 3 + 2) % 256) (popped g)

  popped_twice-IsBytes : IsBytes popped_twice
  popped_twice-IsBytes =
      with_gpr-IsBytes 3 ((g.gpr 3 + 2) % 256) (popped g) (omega arith) (popped-IsBytes g bytes)

  second : pull (popped g) ≡ on (byte (pulled 2 (view g))) popped_twice
  second =
      subst (λ (n : ℕ). pull (popped g) ≡ on (byte (g.ram (256 + n))) (with_gpr 3 n (popped g)))
        twice (pull_lem (popped g) (popped-IsBytes g bytes))

  pull16_lem :
      arch_6502_pull16 g
      ≡ on (record { size = 16; word = pulled 1 (view g) + 256 * pulled 2 (view g) }) popped_twice
  unfolding arch_6502_pull16
  pull16_lem =
      >>=-on pull (λ lo. pull >>= λ hi. pure (joined lo hi)) g (popped g) (byte (pulled 1 (view g)))
        (pull_lem g bytes)
      ∙ >>=-on pull (λ hi. pure (joined (byte (pulled 1 (view g))) hi)) (popped g) popped_twice
          (byte (pulled 2 (view g))) second
      ∙ ap (λ (n : ℕ). on (record { size = 16; word = n }) popped_twice)
          (rw high (or_word (pulled 1 (view g)) (pulled 2 (view g)) (bytes.ram_byte _)))
    where
      joined : Value → Value → Value
      joined lo hi = or (zext 16 lo) (shl (zext 16 hi) (consts 16 8))

      high : pulled 2 (view g) * 256 % 65536 ≡ pulled 2 (view g) * 256
      high = omega (arith, bytes.ram_byte (256 + (g.gpr 3 + 2) % 256))

  pub rts_lem :
      IsRight
        (instr_switch ram pc Instr.rts g)
        (execute pc mode lo hi Instr.rts (view g))
        (next_pc pc mode lo hi Instr.rts (view g))
  unfolding instr_switch execute next_pc
  rts_lem = rw pull16_lem (refl, at_pc-IsBytes _ popped_twice popped_twice-IsBytes, refl)

  -- TXS sets N and Z too.
  pub txs_lem :
      IsRight
        (instr_switch ram pc Instr.txs g)
        (Mos.set_nz (g.gpr 1) (execute pc mode lo hi Instr.txs (view g)))
        g.pc
  unfolding instr_switch execute
  txs_lem =
      nz-IsRight (g.gpr 1) (with_gpr 3 (g.gpr 1) g) (bytes.gpr_byte 1) (moved-IsBytes 3 1) refl refl

  -- What writes nothing.
  pub idle_lem : IsRight (on tt g) (view g) g.pc
  idle_lem = (refl, bytes, refl)

  -- The PC after the code of a JMP: only the indirect one writes it.
  abbrev pub jmp_pc : AddMode → ℕ
  jmp_pc AddMode.ind = pointer g.ram (lo + 256 * hi)
  jmp_pc _ = g.pc

  pub jmp_lem :
      (lo_byte : lo < 256)
      → (hi_byte : hi < 256) → operand_16 ram pc ≡ lo + 256 * hi
      → get_addmode (ram pc) ≡ mode
      → Fits mode lo (view g)
      → IsRight
          (instr_switch ram pc Instr.jmp g)
          (execute pc mode lo hi Instr.jmp (view g))
          (jmp_pc mode)
  unfolding instr_switch execute
  jmp_lem lo_byte hi_byte base16 same fits = rw same (jump_lem mode fits)
    where
      jump_lem :
          (mode : AddMode)
          → Fits mode lo (view g)
          → IsRight (jump ram pc mode g) (view g) (jmp_pc mode)
      jump_lem AddMode.ind fits =
          rw (base16, load_ram16_lem g bytes (lo + 256 * hi) (omega arith) (omega (arith, fits)))
            (refl, at_pc-IsBytes _ g bytes, refl)
      jump_lem AddMode.abs fits = idle_lem
      jump_lem _ fits = idle_lem
