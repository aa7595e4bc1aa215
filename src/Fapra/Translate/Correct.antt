-- ===== src/Fapra/Translate/Correct.antt =====
-- The code that `arch_fapra_translate_instr` (arch/fapra/fapra_translate.cpp) emits, against the
-- description of the processor in Isa.
use libcpu.Base.{
  ℕ, ◌+◌, ◌-◌, ◌*◌, ◌/◌, ◌%◌, ◌<◌, ◌≡◌, ◌∙◌, refl, ap, true, bit_and, bit_or, [], ◌∷◌, is_case,
  arith, bit_and-low, bit_or-eq-add, bit_or_comm, bit_xor-ones,
}
use mathlib.Core.Path.{subst}
use libcpu.Frontend.{ram32le}
use libcpu.Frontend.Value.{Value, add, sub, and, or, shl, ashr, mul, complement}
use libcpu.Frontend.Value.Laws.{bit_and-split}
use libcpu.Frontend.Code.{Ran, Guest, Code, on, ◌>>=◌, ◌>>◌, poke}
use libcpu.Frontend.Memory.Laws.{none_left}
use libcpu.Fapra.Tag.{opc, rd, ra, rb, imm}
use libcpu.Fapra.Isa.{words, set, d, a, b, sum, effects, execute}
use libcpu.Fapra.Translate.{
  binary, r, put, ldih_code, ldil_code, let_pc, const, address, instr_cases,
  arch_fapra_translate_instr,
}
use libcpu.Fapra.Translate.Alike.{ended, Alike, switch-Alike}
use libcpu.Fapra.Translate.Loads.{
  word32, IsWords, reg_lem, put_lem, field_lem, address_lem, ldw_lem, stw_lem, ldb_lem, stb_lem,
}

module _ (g : Guest) (w : IsWords g) (ins pc : ℕ) where
  low16 : (n : ℕ) → imm n < 65536
  low16 n = omega (arith, bit_and-low 16 n)

  d_word : d ins pc g < words
  d_word = w.gpr_word (rd ins)

  ldih_word :
      bit_or (bit_and (d ins pc g) 65535) (imm ins * 65536 % words)
      ≡ d ins pc g % 65536 + 65536 * imm ins
  ldih_word =
      let kept : imm ins * 65536 % words ≡ imm ins * 65536 = omega (arith, low16 ins) in
      rw (bit_and-low 16 (d ins pc g), kept)
        (bit_or-eq-add 16 (d ins pc g % 65536) (imm ins) (omega arith) ∙ omega arith)

  high_part : (n : ℕ) → n < words → bit_and n 4294901760 ≡ n / 65536 * 65536
  high_part n h =
      let parts : n % 65536 + n / 65536 * 65536 ≡ n = omega arith in
      subst (λ (t : ℕ). bit_and t 4294901760 ≡ n / 65536 * 65536) parts
        (bit_and-split 16 (n % 65536) (n / 65536) 0 65535 (omega arith) (omega arith)
          ∙ rw (none_left (n % 65536), bit_and-low 16 (n / 65536)) (omega arith))

  ldil_word :
      bit_or (bit_and (d ins pc g) 4294901760) (imm ins % words)
      ≡ d ins pc g / 65536 * 65536 + imm ins
  ldil_word =
      let kept : imm ins % words ≡ imm ins = omega (arith, low16 ins) in
      rw (high_part (d ins pc g) d_word, kept, bit_or_comm (d ins pc g / 65536 * 65536) (imm ins))
        (bit_or-eq-add 16 (imm ins) (d ins pc g / 65536) (low16 ins) ∙ omega arith)

  abbrev Does : Code (Unit {0}) → Guest → Type 0
  Does c g' = Path (Ran (Unit {0})) (c g) (on tt g')

  binary_lem :
      (op : Value → Value → Value)
      → (v : ℕ) → op (word32 (a ins pc g)) (word32 (b ins pc g)) ≡ word32 v
      → Does (binary op ins) (set (rd ins) v g)
  binary_lem op v e =
      rw (reg_lem g (ra ins) (field_lem _), reg_lem g (rb ins) (field_lem _), e)
        (put_lem g (rd ins) v (field_lem _))

  ldih_lem : Does (ldih_code ins) (set (rd ins) (d ins pc g % 65536 + 65536 * imm ins) g)
  unfolding ldih_code ldil_code
  ldih_lem = rw (reg_lem g (rd ins) (field_lem _), ldih_word) (put_lem g (rd ins) _ (field_lem _))

  ldil_lem : Does (ldil_code ins) (set (rd ins) (d ins pc g / 65536 * 65536 + imm ins) g)
  unfolding ldih_code ldil_code
  ldil_lem = rw (reg_lem g (rd ins) (field_lem _), ldil_word) (put_lem g (rd ins) _ (field_lem _))

  jmp_lem : Does (do a ← r (ra ins); let_pc a) (record g { pc = a ins pc g })
  unfolding poke
  jmp_lem = rw (reg_lem g (ra ins) (field_lem _)) refl

  call_lem :
      Does
        (do a ← r (ra ins); let_pc a; put (rd ins) (const (pc + 4)))
        (record (set (rd ins) ((pc + 4) % words) g) { pc = a ins pc g })
  unfolding poke
  call_lem =
      rw (reg_lem g (ra ins) (field_lem _))
        (put_lem (record g { pc = a ins pc g }) (rd ins) ((pc + 4) % words) (field_lem _))

  addi_lem : Does (do a ← address ins; put (rd ins) a) (set (rd ins) (sum ins pc g) g)
  addi_lem = rw (address_lem g w ins pc) (put_lem g (rd ins) (sum ins pc g) (field_lem _))

  sub_word :
      sub (word32 (a ins pc g)) (word32 (b ins pc g))
      ≡ word32 ((a ins pc g + (words - b ins pc g)) % words)
  unfolding sub
  sub_word = ap word32 (omega (arith, w.gpr_word (rb ins)))

  not_lem :
      Does
        (do a ← r (ra ins); put (rd ins) (complement 32 a))
        (set (rd ins) (words - 1 - a ins pc g) g)
  unfolding complement
  not_lem =
      rw (reg_lem g (ra ins) (field_lem _), bit_xor-ones 32 (a ins pc g) (w.gpr_word (ra ins)))
        (put_lem g (rd ins) (words - 1 - a ins pc g) (field_lem _))

  abbrev IsLow : Type 0
  IsLow = is_case (opc ins) (0x10 ∷ 0x11 ∷ 0x1c ∷ 0x1d ∷ []) ≡ true → sum ins pc g < 2147483648

  cases_lem : IsLow → Alike (opc ins) g (instr_cases ins pc) (effects ins pc g)
  unfolding instr_cases
  cases_lem low = (
    refl,
    λ e. ldw_lem g w ins pc (low (rw e refl)),
    (
      refl,
      λ e. stw_lem g w ins pc (low (rw e refl)),
      (
        refl,
        λ e. ldb_lem g w ins pc (low (rw e refl)),
        (
          refl,
          λ e. stb_lem g w ins pc (low (rw e refl)),
          (
            refl,
            λ _. ldih_lem,
            (
              refl,
              λ _. ldil_lem,
              (
                refl,
                λ _. jmp_lem,
                (
                  refl,
                  λ _. refl,
                  (
                    refl,
                    λ _. refl,
                    (
                      refl,
                      λ _. refl,
                      (
                        refl,
                        λ _. refl,
                        (
                          refl,
                          λ _. call_lem,
                          (
                            refl,
                            λ _. put_lem g (rd ins) ((pc + 4) % words) (field_lem _),
                            (
                              refl,
                              λ _. addi_lem,
                              (
                                refl,
                                λ _. binary_lem add _ refl,
                                (
                                  refl,
                                  λ _. binary_lem sub _ sub_word,
                                  (
                                    refl,
                                    λ _. binary_lem and _ refl,
                                    (
                                      refl,
                                      λ _. binary_lem or _ refl,
                                      (
                                        refl,
                                        λ _. not_lem,
                                        (
                                          refl,
                                          λ e. binary_lem shl _ refl,
                                          (
                                            refl,
                                            λ e. binary_lem ashr _ refl,
                                            (refl, λ _. binary_lem mul _ refl, tt),
                                          ),
                                        ),
                                      ),
                                    ),
                                  ),
                                ),
                              ),
                            ),
                          ),
                        ),
                      ),
                    ),
                  ),
                ),
              ),
            ),
          ),
        ),
      ),
    ),
  )

-- A shift is by less than the width of a word: LLVM leaves others undefined.
abbrev pub IsShiftInRange : ℕ → Guest → Type 0
IsShiftInRange ins g = is_case (opc ins) (0x06 ∷ 0x07 ∷ []) ≡ true → g.gpr (rb ins) < 32

-- A load or store is at an address below 2^31: others index RAM by a negative number.
abbrev pub IsAddressInRange : ℕ → Guest → Type 0
IsAddressInRange ins g =
    is_case (opc ins) (0x10 ∷ 0x11 ∷ 0x1c ∷ 0x1d ∷ []) ≡ true → sum ins 0 g < 2147483648

-- For registers of 32 bits, a RAM of bytes, a shift by less than 32 and a load or store below 2^31:
-- the code that
-- `arch_fapra_translate_instr` emits leaves registers, RAM and PC as the FAPRA processor does, for
-- every instruction and whatever RAM held when it was translated; for SARI and illegal opcodes
-- nothing is emitted and the program exits.
pub arch_fapra_translate_instr-execute :
    (ram : ℕ → ℕ) (pc : ℕ) (g : Guest)
    → IsWords g
    → IsShiftInRange (ram32le ram pc) g
    → IsAddressInRange (ram32le ram pc) g
    → arch_fapra_translate_instr ram pc g ≡ ended (execute (ram32le ram pc) pc g)
unfolding arch_fapra_translate_instr execute
arch_fapra_translate_instr-execute ram pc g w _ low =
    let ins = ram32le ram pc in
    switch-Alike (opc ins) g (instr_cases ins pc) (effects ins pc g) (cases_lem g w ins pc low)
