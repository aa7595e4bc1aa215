-- ===== src/Tests/Mos.antt =====
-- A 6502 program, translated and run.
use libcpu.Base.{ℕ, Option, false, ◌<◌, ◌≡◌, refl, true, [], ◌∷◌, ltb, if◌then◌else◌, ◌-◌, arith}
use libcpu.Frontend.Code.{Guest, Ptr, on, poke, peek}
use libcpu.Frontend.Arith.{arch_adc, arch_shiftrotate}
use libcpu.Frontend.Arith.Laws.{byte, arch_adc_lem, arch_shiftrotate_lem}
use libcpu.M6502.Isa.{get_instr, get_addmode, get_length}
use libcpu.M6502.Arch.{arch_6502_info, arch_6502_nzc}
use libcpu.M6502.Mos.{execute, next_pc}
use libcpu.M6502.Tag.{tag_instr}
use libcpu.M6502.Translate.{arch_6502_translate_instr, translated_length}
use libcpu.M6502.Translate.Bytes.{view, IsBytes, IsRight}
use libcpu.M6502.Translate.Correct.{
  executed, left_pc, as_built, arch_6502_translate_instr-IsRight,
  arch_6502_translate_instr-as_built,
}
use libcpu.M6502.Step.{machine_6502}
use libcpu.M6502.Step.Runs.{IsAt, IsPlain, mos_from, guest_from-IsAt}
use libcpu.Translate.Guest.{at, guest_from}
use libcpu.Translate.All.{locals_at}
use libcpu.Tag.Arch.{tag_of}
use libcpu.Tests.Machine.{memory, memory-bytes, locals}

-- 200: LDA #$90, 202: ASL A, 203: STA $10, 205: BCC -7, 207: ADC $10
abbrev bytes : ℕ → ℕ
bytes a =
    if ltb a 200
    then 0
    else memory (0xa9 ∷ 0x90 ∷ 0x0a ∷ 0x85 ∷ 0x10 ∷ 0x90 ∷ 0xf9 ∷ 0x65 ∷ 0x10 ∷ 0x18 ∷ []) (a - 200)

bytes-lt : (a : ℕ) → bytes a < 256
bytes-lt a = ground (
  arith,
  memory-bytes (0xa9 ∷ 0x90 ∷ 0x0a ∷ 0x85 ∷ 0x10 ∷ 0x90 ∷ 0xf9 ∷ 0x65 ∷ 0x10 ∷ 0x18 ∷ []) refl
      (a - 200),
)

abbrev start : Guest
start = record { gpr = λ i. 3; xr = λ i. 0; flag = λ i. 0; pc = 200; ram = bytes }

start-IsBytes : IsBytes start
start-IsBytes = record {
  gpr_byte = λ i. omega arith;
  flag_bit = λ i. omega arith;
  ram_byte = bytes-lt;
}

program-IsPlain : IsPlain bytes 4 200 (view start)
unfolding IsPlain execute next_pc get_instr get_addmode get_length
program-IsPlain = (
  omega arith,
  omega arith,
  refl,
  refl,
  refl,
  refl,
  tt,
  (
    omega arith,
    omega arith,
    refl,
    refl,
    refl,
    refl,
    tt,
    (
      omega arith,
      omega arith,
      refl,
      refl,
      refl,
      refl,
      tt,
      (omega arith, omega arith, refl, refl, refl, refl, tt, tt),
    ),
  ),
)

guest_from-IsAt_example :
    IsAt
      (guest_from
        (machine_6502 bytes)
        (λ a. tag_of (tag_instr bytes a))
        (locals_at (tag_instr bytes) locals)
        (translated_length bytes)
        4
        (at 200 start))
      (mos_from 4 200 (view start))
guest_from-IsAt_example =
    guest_from-IsAt bytes bytes-lt locals 4 200 start start-IsBytes program-IsPlain

arch_6502_translate_instr-IsRight_example :
    IsRight
      (arch_6502_translate_instr bytes 202 start)
      (executed start start-IsBytes bytes 202 bytes-lt (get_instr (bytes 202)))
      (left_pc start start-IsBytes bytes 202 bytes-lt
        (get_instr (bytes 202))
        (get_addmode (bytes 202)))
unfolding get_addmode get_instr
arch_6502_translate_instr-IsRight_example =
    arch_6502_translate_instr-IsRight start start-IsBytes bytes 202 bytes-lt tt refl

arch_6502_translate_instr-as_built_example :
    IsRight
      (arch_6502_translate_instr bytes 207 start)
      (as_built start start-IsBytes bytes 207 bytes-lt (get_instr (bytes 207)))
      200
unfolding get_addmode get_instr
arch_6502_translate_instr-as_built_example =
    arch_6502_translate_instr-as_built start start-IsBytes bytes 207 bytes-lt tt refl refl

arch_adc_example :
    arch_adc arch_6502_info arch_6502_nzc
      (Option.some (Ptr.gpr 0))
      (Ptr.gpr 0)
      (byte 255)
      false
      true
      start
    ≡ on
        (byte 3)
        (poke (byte 3) (Ptr.gpr 0) (poke (record { size = 1; word = 1 }) (Ptr.flag 0) start))
unfolding peek
arch_adc_example =
    arch_adc_lem arch_6502_info arch_6502_nzc start (Option.some (Ptr.gpr 0)) (Ptr.gpr 0) false true
      3 255 refl (omega arith) (omega arith) (omega arith)

arch_shiftrotate_example :
    arch_shiftrotate arch_6502_info arch_6502_nzc (Ptr.gpr 0) (Ptr.gpr 0) false true start
    ≡ on
        (byte 1)
        (poke (byte 1) (Ptr.gpr 0) (poke (record { size = 1; word = 1 }) (Ptr.flag 0) start))
unfolding peek
arch_shiftrotate_example =
    arch_shiftrotate_lem arch_6502_info arch_6502_nzc start (Ptr.gpr 0) (Ptr.gpr 0) false true 3
      refl (omega arith) (omega arith)
