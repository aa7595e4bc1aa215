-- ===== src/Tests/Emitted.antt =====
-- Code that a frontend emits, run: the flags, bytes of RAM, and an instruction of FAPRA.
use libcpu.Base.{ℕ, [], ◌∷◌, ◌≡◌, false, true, arith}
use libcpu.Frontend.Value.{Value}
use libcpu.Frontend.Code.{Guest, on, update, ◌>>=◌}
use libcpu.Frontend.Flags.{arch_flags_encode, arch_flags_decode}
use libcpu.Frontend.Flags.RoundTrip.{arch_flags_decode-arch_flags_encode}
use libcpu.Frontend.Memory.{arch_load8, arch_store8}
use libcpu.Frontend.Memory.Laws.{wide, word32}
use libcpu.Frontend.Memory.RoundTrip.{arch_load8-arch_store8}
use libcpu.Frontend.{ram32le}
use libcpu.Fapra.Isa.{execute}
use libcpu.Fapra.Translate.{arch_fapra_translate_instr}
use libcpu.Fapra.Translate.Loads.{IsWords}
use libcpu.Fapra.Translate.Correct.{arch_fapra_translate_instr-execute}
use libcpu.Tests.Machine.{memory}
use libcpu.M6502.Arch.{arch_6502_info}

abbrev start : Guest
start = record { gpr = λ i. 0; xr = λ i. 0; flag = λ i. 1; pc = 0; ram = λ i. 7 }

abbrev other : Guest
other = record { gpr = λ i. 0; xr = λ i. 0; flag = λ i. 0; pc = 0; ram = λ i. 7 }

arch_flags_decode-arch_flags_encode_example :
    (w : Value) × (arch_flags_encode arch_6502_info start ≡ on w start)
    × (k' : Guest) × (arch_flags_decode arch_6502_info w other ≡ on tt k')
    × (k'.flag 7 ≡ 1)
arch_flags_decode-arch_flags_encode_example =
    arch_flags_decode-arch_flags_encode arch_6502_info start other 7 (
      omega arith,
      omega arith,
      (
        omega arith,
        omega arith,
        (
          omega arith,
          omega arith,
          (
            omega arith,
            omega arith,
            (
              omega arith,
              omega arith,
              (
                omega arith,
                omega arith,
                (omega arith, omega arith, (omega arith, omega arith, tt)),
              ),
            ),
          ),
        ),
      ),
    )

arch_load8-arch_store8_example :
    (arch_store8 (wide arch_6502_info false true) (word32 300) (word32 6) >>= λ _.
    arch_load8 (wide arch_6502_info false true) (word32 6))
      start
    ≡ on (record { size = 8; word = 44 }) (record start { ram = update start.ram 6 44 })
arch_load8-arch_store8_example =
    arch_load8-arch_store8 arch_6502_info false true start (λ i. omega arith) 300 6 6 (omega arith)
      (omega arith)

-- LDIH r2, 0x1234
abbrev ldih_r2 : ℕ → ℕ
ldih_r2 = memory (0x34 ∷ 0x12 ∷ 0x40 ∷ 0x80 ∷ [])

abbrev fives : Guest
fives = record { gpr = λ i. 5; xr = λ i. 0; flag = λ i. 0; pc = 0; ram = λ i. 7 }

fives-IsWords : IsWords fives
fives-IsWords = record { gpr_word = λ i. omega arith; ram_byte = λ i. omega arith }

arch_fapra_translate_instr-execute_example :
    arch_fapra_translate_instr ldih_r2 0 fives
    ≡ on tt (record fives { gpr = update fives.gpr 2 0x12340005 })
unfolding execute ram32le
arch_fapra_translate_instr-execute_example =
    arch_fapra_translate_instr-execute ldih_r2 0 fives fives-IsWords (λ _. omega arith) (λ e. cc e)
