-- ===== src/M6502/Translate/Operand.antt =====
-- `arch_6502_get_operand_lvalue` (arch/6502/6502_translate.cpp) gives the operand of the 6502.
use libcpu.Base.{
  ℕ, ◌+◌, ◌*◌, ◌/◌, ◌%◌, ◌<◌, ◌≤◌, ◌≡◌, ◌≢◌, ◌∙◌, refl, ap, bit_and, bit_or, if◌then◌else◌, Bool,
  true, false, leb, some, arith,
}
use libcpu.Frontend.Code.{Guest, Ran, Ptr, on, update, peek, poke, pure, ◌>>=◌, >>=-on}
use libcpu.Frontend.Value.{Value, and, consts}
use libcpu.M6502.Isa.{AddMode, get_addmode}
use libcpu.M6502.Arch.{arch_6502_info, reg_a}
use libcpu.M6502.Mos.{Mos, pointer, effective, value_of, write_to}
use libcpu.M6502.Translate.{
  operand_8, operand_16, memory_lvalue, lvalue_of, load_ram16, loperand, operand, non_null,
  info_load,
}
use libcpu.M6502.Translate.Bytes.{view, IsBytes, update-lt, with_flag, and_255, and_65535, or_word}

-- The pointer does not wrap around in its page, and the address not in memory.
abbrev pub Fits : AddMode → ℕ → Mos → Type 0
Fits AddMode.indx lo m = (lo + m.x) % 256 ≢ 255
Fits AddMode.indy lo m = (lo ≢ 255) × (pointer m.mem lo + m.y < 65536)
Fits AddMode.ind lo m = lo ≢ 255
Fits _ lo m = Unit

-- The modes of an operand.
abbrev pub has_operand : AddMode → Bool
has_operand AddMode.bra = false
has_operand AddMode.impl = false
has_operand AddMode.ind = false
has_operand _ = true

ram_poke :
    (a w : ℕ) (k : Guest) → w < 256 → IsBytes k → IsBytes (record k { ram = update k.ram a w })
ram_poke a w k small b = record {
  gpr_byte = b.gpr_byte;
  flag_bit = b.flag_bit;
  ram_byte = update-lt k.ram a w 256 small b.ram_byte;
}

-- In memory the address wraps around only if the base is in the last page.
wrap_lem :
    (base n : ℕ)
    → base ≤ n
    → n < base + 256
    → base < 65536
    → (if leb 0xff00 base
        then and (record { size = 32; word = n }) (consts 32 0xffff)
        else record { size = 32; word = n }).word
      ≡ n % 65536
unfolding and
wrap_lem base n low high small = ground (arith, and_65535 n)

module _ (g : Guest) (bytes : IsBytes g) where
  ram16_word :
      (p : ℕ)
      → p < 65536
      → p % 256 ≢ 255
      → bit_or (g.ram p) (g.ram ((p + 1) % 4294967296) * 256 % 65536) ≡ pointer g.ram p
  ram16_word p small inside = rw (next, shifted) (or_word (g.ram p) _ (bytes.ram_byte p))
    where
      next : (p + 1) % 4294967296 ≡ p / 256 * 256 + (p + 1) % 256
      next = omega arith

      shifted :
          g.ram (p / 256 * 256 + (p + 1) % 256) * 256 % 65536
          ≡ g.ram (p / 256 * 256 + (p + 1) % 256) * 256
      shifted = omega (arith, bytes.ram_byte (p / 256 * 256 + (p + 1) % 256))

  pub load_ram16_lem :
      (p : ℕ)
      → p < 65536
      → p % 256 ≢ 255
      → load_ram16 (consts 32 p) g ≡ on (record { size = 16; word = pointer g.ram p }) g
  unfolding load_ram16
  load_ram16_lem p small inside =
      let here : p % 4294967296 ≡ p = omega arith in
      ap (λ (w : ℕ). on (record { size = 16; word = w }) g) (rw here (ram16_word p small inside))

  -- Behind the opcode at `pc` stand `lo` and `hi`.
  module _ (ram : ℕ → ℕ) (pc lo hi : ℕ) (lo_byte : lo < 256) (hi_byte : hi < 256)
      (base8 : operand_8 ram pc ≡ lo) (base16 : operand_16 ram pc ≡ lo + 256 * hi) where
    abbrev there : ℕ → Ran Ptr
    there a = on (Ptr.ram a) g

    abbrev IsThere : AddMode → Type 0
    IsThere mode = memory_lvalue ram pc mode g ≡ there (effective lo hi mode (view g))

    memory_abs : IsThere AddMode.abs
    unfolding memory_lvalue
    memory_abs =
        let base = lo + 256 * hi in
        let whole = wrap_lem base (base % 4294967296) (omega arith) (omega arith) (omega arith) in
        rw base16 (ap there (whole ∙ omega arith))

    memory_indexed :
        (index : ℕ)
        → index < 256
        → (if leb 0xff00 (lo + 256 * hi)
            then and
                (record { size = 32; word = (index + (lo + 256 * hi) % 4294967296) % 4294967296 })
                (consts 32 0xffff)
            else record {
              size = 32;
              word = (index + (lo + 256 * hi) % 4294967296) % 4294967296;
            }).word
          ≡ (lo + 256 * hi + index) % 65536
    memory_indexed index small =
        wrap_lem (lo + 256 * hi) ((index + (lo + 256 * hi) % 4294967296) % 4294967296) (omega arith)
          (omega arith) (omega arith)
        ∙ omega arith

    memory_absx : IsThere AddMode.absx
    unfolding memory_lvalue
    memory_absx = rw base16 (ap there (memory_indexed (g.gpr 1) (bytes.gpr_byte 1)))

    memory_absy : IsThere AddMode.absy
    unfolding memory_lvalue
    memory_absy = rw base16 (ap there (memory_indexed (g.gpr 2) (bytes.gpr_byte 2)))

    zero_page :
        (index : ℕ)
        → index < 256
        → bit_and ((index + lo % 4294967296) % 4294967296) 255 ≡ (lo + index) % 256
    zero_page index small = and_255 _ ∙ omega arith

    zero_page_base : bit_and (lo % 4294967296) 255 ≡ lo
    zero_page_base = and_255 _ ∙ omega arith

    memory_zp : IsThere AddMode.zp
    unfolding memory_lvalue
    memory_zp = rw base8 (ap there zero_page_base)

    memory_zpx : IsThere AddMode.zpx
    unfolding memory_lvalue
    memory_zpx = rw base8 (ap there (zero_page (g.gpr 1) (bytes.gpr_byte 1)))

    memory_zpy : IsThere AddMode.zpy
    unfolding memory_lvalue
    memory_zpy = rw base8 (ap there (zero_page (g.gpr 2) (bytes.gpr_byte 2)))

    memory_indx : Fits AddMode.indx lo (view g) → IsThere AddMode.indx
    unfolding memory_lvalue
    memory_indx fits =
        rw (base8, zero_page (g.gpr 1) (bytes.gpr_byte 1))
          (ap there (ram16_word ((lo + g.gpr 1) % 256) (omega arith) (omega (arith, fits))))

    memory_indy : Fits AddMode.indy lo (view g) → IsThere AddMode.indy
    unfolding memory_lvalue
    memory_indy fits =
        let word = ram16_word lo (omega arith) (omega (arith, fits.0)) in
        let within = fits.1 in
        rw (base8, zero_page_base, word) (ap there (omega (arith, bytes.gpr_byte 2)))

    -- Where the operand is.
    abbrev pub ptr_of : AddMode → Mos → Ptr
    ptr_of AddMode.acc m = Ptr.gpr reg_a
    ptr_of AddMode.imm m = Ptr.temp lo
    ptr_of other m = Ptr.ram (effective lo hi other m)

    found :
        (mode : AddMode) (a : ℕ)
        → memory_lvalue ram pc mode g ≡ there a
        → (memory_lvalue ram pc mode >>= λ p. pure (some p)) g ≡ on (some (Ptr.ram a)) g
    found mode a e = >>=-on (memory_lvalue ram pc mode) (λ p. pure (some p)) g g (Ptr.ram a) e

    lvalue_of_lem :
        (mode : AddMode)
        → has_operand mode ≡ true
        → Fits mode lo (view g)
        → lvalue_of ram pc mode g ≡ on (some (ptr_of mode (view g))) g
    unfolding lvalue_of
    lvalue_of_lem AddMode.acc h fits = refl
    lvalue_of_lem AddMode.imm h fits = rw base8
    lvalue_of_lem AddMode.abs h fits = found AddMode.abs _ (memory_abs)
    lvalue_of_lem AddMode.absx h fits = found AddMode.absx _ (memory_absx)
    lvalue_of_lem AddMode.absy h fits = found AddMode.absy _ (memory_absy)
    lvalue_of_lem AddMode.zp h fits = found AddMode.zp _ (memory_zp)
    lvalue_of_lem AddMode.zpx h fits = found AddMode.zpx _ (memory_zpx)
    lvalue_of_lem AddMode.zpy h fits = found AddMode.zpy _ (memory_zpy)
    lvalue_of_lem AddMode.indx h fits = found AddMode.indx _ ((memory_indx fits))
    lvalue_of_lem AddMode.indy h fits = found AddMode.indy _ ((memory_indy fits))
    lvalue_of_lem AddMode.bra h fits = cc
    lvalue_of_lem AddMode.impl h fits = cc
    lvalue_of_lem AddMode.ind h fits = cc

    pub value_of-byte : (mode : AddMode) → value_of lo hi mode (view g) < 256
    value_of-byte AddMode.acc = bytes.gpr_byte 0
    value_of-byte AddMode.imm = lo_byte
    value_of-byte AddMode.abs = bytes.ram_byte _
    value_of-byte _ = bytes.ram_byte _

    pub peek-ptr_of :
        (mode : AddMode)
        → peek arch_6502_info (ptr_of mode (view g)) g
          ≡ record { size = 8; word = value_of lo hi mode (view g) }
    unfolding peek
    peek-ptr_of AddMode.acc = refl
    peek-ptr_of AddMode.imm = refl
    peek-ptr_of AddMode.abs = refl
    peek-ptr_of _ = refl

    -- A write to the operand.
    pub view-poke :
        (v : Value) (mode : AddMode)
        → view (poke v (ptr_of mode (view g)) g) ≡ write_to lo hi mode v.word (view g)
    unfolding poke
    view-poke v AddMode.acc = refl
    view-poke v AddMode.imm = refl
    view-poke v AddMode.abs = refl
    view-poke v _ = refl

    pub poke-IsBytes :
        (v : Value) (mode : AddMode) (k : Guest)
        → v.word < 256
        → IsBytes k
        → IsBytes (poke v (ptr_of mode (view g)) k)
    unfolding poke
    poke-IsBytes v AddMode.acc k small b = record {
      gpr_byte = update-lt k.gpr 0 v.word 256 small b.gpr_byte;
      flag_bit = b.flag_bit;
      ram_byte = b.ram_byte;
    }
    poke-IsBytes v AddMode.imm k small b = b
    poke-IsBytes v AddMode.abs k small b = ram_poke _ v.word k small b
    poke-IsBytes v _ k small b = ram_poke _ v.word k small b

    -- The PC is left, and the carry flag may be written before.
    pub pc-poke :
        (v : Value) (mode : AddMode) (k : Guest) → (poke v (ptr_of mode (view g)) k).pc ≡ k.pc
    unfolding poke
    pc-poke v AddMode.acc k = refl
    pc-poke v AddMode.imm k = refl
    pc-poke v AddMode.abs k = refl
    pc-poke v _ k = refl

    pub view-poke_carried :
        (v : Value) (c : ℕ) (mode : AddMode)
        → view (poke v (ptr_of mode (view g)) (with_flag 0 c g))
          ≡ write_to lo hi mode v.word (record (view g) { c = c })
    unfolding poke
    view-poke_carried v c AddMode.acc = refl
    view-poke_carried v c AddMode.imm = refl
    view-poke_carried v c AddMode.abs = refl
    view-poke_carried v c _ = refl

    module _ (mode : AddMode) (same : get_addmode (ram pc) ≡ mode) (has : has_operand mode ≡ true)
        (fits : Fits mode lo (view g)) where
      pub loperand_lem : loperand ram pc g ≡ on (ptr_of mode (view g)) g
      unfolding loperand
      loperand_lem =
          >>=-on (lvalue_of ram pc (get_addmode (ram pc))) (non_null ram pc) g g
            (some (ptr_of mode (view g))) (rw same (lvalue_of_lem mode has fits))

      pub operand_lem :
          operand ram pc g ≡ on (record { size = 8; word = value_of lo hi mode (view g) }) g
      unfolding operand
      operand_lem =
          >>=-on (loperand ram pc) info_load g g (ptr_of mode (view g)) loperand_lem
          ∙ ap (λ (v : Value). on v g) (peek-ptr_of mode)
