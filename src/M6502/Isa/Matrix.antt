-- ===== src/M6502/Isa/Matrix.antt =====
-- The decoding switches against the opcode matrix of the 6502, in which an opcode is
-- `a * 32 + b * 4 + c`.
use libcpu.Base.{
  ℕ, ◌+◌, ◌*◌, ◌/◌, ◌%◌, ◌≡◌, ◌≢◌, ◌<◌, ◌⊎◌, Bool, true, false, ◌&&◌, ◌||◌, [], ◌∷◌, ◌==◌, arith,
  all_below, all_below-test, get_or, refl,
}
use libcpu.M6502.Isa.{Instr, AddMode, get_instr, get_addmode}

Instr-discrete : Discrete Instr
Instr-discrete = hlevel

AddMode-discrete : Discrete AddMode
AddMode-discrete = hlevel

same_instr : Instr → Instr → Bool
same_instr i j = elim (Instr-discrete i j) [ yes e ↦ true | no ne ↦ false ]

same_mode : AddMode → AddMode → Bool
same_mode i j = elim (AddMode-discrete i j) [ yes e ↦ true | no ne ↦ false ]

same_instr→eq : (i j : Instr) → same_instr i j ≡ true → i ≡ j
unfolding same_instr
same_instr→eq i j h = ground arith

same_mode→eq : (i j : AddMode) → same_mode i j ≡ true → i ≡ j
unfolding same_mode
same_mode→eq i j h = ground arith

-- Column c = 1: the arithmetic instructions, in all their addressing modes.
abbrev pub alu_instr : ℕ → Instr
alu_instr a =
    get_or
      (Instr.ora ∷ Instr.and ∷ Instr.eor ∷ Instr.adc ∷ Instr.sta ∷ Instr.lda ∷ Instr.cmp ∷ Instr.sbc
        ∷ [])
      a Instr.xxx

abbrev pub alu_mode : ℕ → AddMode
alu_mode b =
    get_or
      (AddMode.indx ∷ AddMode.zp ∷ AddMode.imm ∷ AddMode.abs ∷ AddMode.indy ∷ AddMode.zpx
        ∷ AddMode.absy ∷ AddMode.absx ∷ [])
      b AddMode.impl

alu_entry : ℕ → Bool
alu_entry n =
    n == 34
    || (same_instr (get_instr (n / 8 * 32 + n % 8 * 4 + 1)) (alu_instr (n / 8))
        && same_mode (get_addmode (n / 8 * 32 + n % 8 * 4 + 1)) (alu_mode (n % 8)))

alu_entry_lem :
    (a b n : ℕ)
    → n / 8 ≡ a
    → n % 8 ≡ b
    → alu_entry n ≡ true
    → (n == 34
        || (same_instr (get_instr (a * 32 + b * 4 + 1)) (alu_instr a)
            && same_mode (get_addmode (a * 32 + b * 4 + 1)) (alu_mode b)))
      ≡ true
unfolding alu_entry
alu_entry_lem a b n row column h = rw (← row, ← column) h

alu_table : all_below 64 alu_entry ≡ true
unfolding alu_entry all_below same_instr same_mode Instr-discrete AddMode-discrete get_instr
    get_addmode
alu_table = refl

-- The arithmetic column of the matrix: for every a and b below 8 but 0x89, opcode a*32 + b*4 + 1 is
-- the a-th arithmetic instruction in the b-th addressing mode.
pub get_instr-alu :
    (a b : ℕ)
    → a < 8
    → b < 8
    → (a ≢ 4) ⊎ (b ≢ 2)
    → (get_instr (a * 32 + b * 4 + 1) ≡ alu_instr a)
      × (get_addmode (a * 32 + b * 4 + 1) ≡ alu_mode b)
get_instr-alu a b ha hb sta =
    let row : (a * 8 + b) / 8 ≡ a = omega arith in
    let column : (a * 8 + b) % 8 ≡ b = omega arith in
    let entry = all_below-test 64 alu_entry (a * 8 + b) alu_table (omega arith) in
    ground (
      arith,
      alu_entry_lem a b (a * 8 + b) row column entry,
      same_instr→eq (get_instr (a * 32 + b * 4 + 1)) (alu_instr a),
      same_mode→eq (get_addmode (a * 32 + b * 4 + 1)) (alu_mode b),
    )
