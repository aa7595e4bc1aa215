-- ===== src/Fapra/Translate.antt =====
-- `arch_fapra_translate_cond` and `arch_fapra_translate_instr` of arch/fapra/fapra_translate.cpp.
-- `ram` is RAM when the code is translated; the emitted code reads the RAM of its guest.
pub mod Alike
pub mod Loads
pub mod Correct
use libcpu.Base.{ℕ, ◌+◌, Bool, false, true, List, [], ◌∷◌, ◌==◌, if◌then◌else◌, ◌<<<◌}
use libcpu.Frontend.{ram32le}
use libcpu.Frontend.Value.{
  Value, const_word, add, sub, and, or, shl, ashr, mul, complement, icmp_eq, icmp_ne,
}
use libcpu.Frontend.Code.{Ptr, Code, ◌>>=◌, ◌>>◌, pure, fails, store, poke}
use libcpu.Frontend.Registers.{reg, let_reg, arch_put_reg}
use libcpu.Frontend.Memory.{arch_load32_aligned, arch_store32_aligned, arch_load8, arch_store8}
use libcpu.Fapra.Tag.{opc, rd, ra, rb, simm, imm, inst_size}
use libcpu.Fapra.Arch.{arch_fapra_info}

-- A switch over cases, each with its label; the default is `exit`.
abbrev pub switch : {A : Type 0} → ℕ → List (ℕ × Code A) → Code A
switch o [] = fails
switch o (case ∷ cases) = if o == case.0 then case.1 else switch o cases

abbrev pub const : ℕ → Value
const v = const_word 32 v

abbrev pub r : ℕ → Code Value
r i = reg arch_fapra_info i

-- LET
abbrev pub put : ℕ → Value → Code (Unit {0})
put i v = do let_reg arch_fapra_info i v; pure tt

-- LET_PC
abbrev pub let_pc : Value → Code (Unit {0})
let_pc v = do store v Ptr.pc; pure tt

-- LET(RD, op(R(RA), R(RB)))
abbrev pub binary : (Value → Value → Value) → ℕ → Code (Unit {0})
binary op instr = do a ← r (ra instr); b ← r (rb instr); put (rd instr) (op a b)

-- arch_fapra_get_imm, IMM and IMMU
abbrev pub arch_fapra_get_imm : ℕ → Bool → Value
arch_fapra_get_imm instr sext = const (if sext then simm instr else imm instr)

-- ADD(R(RA), IMM)
unfoldable pub address : ℕ → Code Value
unfolding reg add
address instr = do a ← r (ra instr); pure (add a (arch_fapra_get_imm instr true))

unfoldable pub load32 : ℕ → Code (Unit {0})
unfolding address
load32 instr = do
  a ← address instr
  v ← arch_load32_aligned arch_fapra_info a
  arch_put_reg arch_fapra_info (rd instr) v 32 true
  pure tt

unfoldable pub load8 : ℕ → Code (Unit {0})
unfolding address
load8 instr = do
  a ← address instr
  v ← arch_load8 arch_fapra_info a
  arch_put_reg arch_fapra_info (rd instr) v 8 false
  pure tt

unfoldable pub store32 : ℕ → Code (Unit {0})
unfolding address
store32 instr = do v ← r (rd instr); a ← address instr; arch_store32_aligned arch_fapra_info v a

unfoldable pub store8 : ℕ → Code (Unit {0})
unfolding address
store8 instr = do v ← r (rd instr); a ← address instr; arch_store8 arch_fapra_info v a

unfoldable pub ldih_code : ℕ → Code (Unit {0})
unfolding and or
ldih_code instr = do
  d ← r (rd instr)
  put (rd instr) (or (and d (const 0xffff)) (const (imm instr <<< 16)))

unfoldable pub ldil_code : ℕ → Code (Unit {0})
unfolding and or
ldil_code instr = do
  d ← r (rd instr)
  put (rd instr) (or (and d (const 0xffff0000)) (arch_fapra_get_imm instr false))

unfoldable pub cond_cases : ℕ → List (ℕ × Code Value)
unfolding reg icmp_eq icmp_ne
cond_cases instr =
    (0x35, (do a ← r (ra instr); pure (icmp_eq a (const 0))))
    ∷ (0x36, (do a ← r (ra instr); pure (icmp_ne a (const 0))))
    ∷ []

unfoldable pub arch_fapra_translate_cond : (ℕ → ℕ) → ℕ → Code Value
unfolding cond_cases
arch_fapra_translate_cond ram pc =
    let instr = ram32le ram pc in switch (opc instr) (cond_cases instr)

-- The cases that do not exit, in the order of the source.
unfoldable pub instr_cases : ℕ → ℕ → List (ℕ × Code (Unit {0}))
unfolding address load32 load8 store32 store8 ldih_code ldil_code and or shl ashr mul sub complement
    poke
instr_cases instr pc =
    (0x10, load32 instr)
    ∷ (0x11, store32 instr)
    ∷ (0x1c, load8 instr)
    ∷ (0x1d, store8 instr)
    ∷ (0x20, ldih_code instr)
    ∷ (0x21, ldil_code instr)
    ∷ (0x30, (do a ← r (ra instr); let_pc a))
    ∷ (0x34, pure tt)
    ∷ (0x35, pure tt)
    ∷ (0x36, pure tt)
    ∷ (0x32, pure tt)
    ∷ (0x33, (do a ← r (ra instr); let_pc a; put (rd instr) (const (pc + inst_size))))
    ∷ (0x37, put (rd instr) (const (pc + inst_size)))
    ∷ (0x0f, (do a ← address instr; put (rd instr) a))
    ∷ (0x00, binary add instr)
    ∷ (0x01, binary sub instr)
    ∷ (0x02, binary and instr)
    ∷ (0x03, binary or instr)
    ∷ (0x05, (do a ← r (ra instr); put (rd instr) (complement 32 a)))
    ∷ (0x06, binary shl instr)
    ∷ (0x07, binary ashr instr)
    ∷ (0x08, binary mul instr)
    ∷ []

unfoldable pub arch_fapra_translate_instr : (ℕ → ℕ) → ℕ → Code (Unit {0})
unfolding instr_cases
arch_fapra_translate_instr ram pc =
    let instr = ram32le ram pc in switch (opc instr) (instr_cases instr pc)
