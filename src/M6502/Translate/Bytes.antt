-- ===== src/M6502/Translate/Bytes.antt =====
-- The guest of emitted code as a 6502, and what the operators do on bytes.
use libcpu.Base.{
  ℕ, ◌+◌, ◌-◌, ◌*◌, ◌/◌, ◌%◌, ◌<◌, ◌≡◌, refl, ap, bit_and, bit_or, bit_xor, Bool, true, ◌==◌, arith,
  all_below, all_below-test, ==_iff, bit_and-low, bit_or-eq-add,
}
use libcpu.Frontend.Code.{Guest, Ran, update, on, returned, exited}
use libcpu.M6502.Mos
use libcpu.M6502.Mos.{Mos, bit_of}
use libcpu.M6502.Arch.{
  n_shift, v_shift, d_shift, i_shift, z_shift, c_shift, reg_a, reg_x, reg_y, reg_s,
}
use libcpu.M6502.Translate.{nz}
use libcpu.Frontend.Arith.{set_nz}
use libcpu.Frontend.Arith.Laws.{slt_zero}

abbrev pub view : Guest → Mos
view g = record {
  a = g.gpr reg_a;
  x = g.gpr reg_x;
  y = g.gpr reg_y;
  s = g.gpr reg_s;
  n = g.flag n_shift;
  v = g.flag v_shift;
  d = g.flag d_shift;
  i = g.flag i_shift;
  z = g.flag z_shift;
  c = g.flag c_shift;
  mem = g.ram;
}

-- Registers and memory hold bytes, flags bits.
pub record IsBytes (g : Guest) : Type 0 where
  pub gpr_byte : (i : ℕ) → g.gpr i < 256
  pub flag_bit : (i : ℕ) → g.flag i < 2
  pub ram_byte : (a : ℕ) → g.ram a < 256

pub update-lt : (f : ℕ → ℕ) (i v k : ℕ) → v < k → ((j : ℕ) → f j < k) → (j : ℕ) → update f i v j < k
update-lt f i v k h all j = ground (arith, all j)

pub and_255 : (n : ℕ) → bit_and n 255 ≡ n % 256
and_255 n = bit_and-low 8 n

pub and_65535 : (n : ℕ) → bit_and n 65535 ≡ n % 65536
and_65535 n = bit_and-low 16 n

pub or_page : (n : ℕ) → n < 256 → bit_or n 256 ≡ 256 + n
or_page n h = omega (arith, bit_or-eq-add 8 n 1 h)

pub or_word : (lo hi : ℕ) → lo < 256 → bit_or lo (hi * 256) ≡ lo + 256 * hi
or_word lo hi h = omega (arith, bit_or-eq-add 8 lo hi h)

xor_table : all_below 256 (λ n. bit_xor n 255 == 255 - n) ≡ true
unfolding all_below
xor_table = refl

pub xor_255 : (n : ℕ) → n < 256 → bit_xor n 255 ≡ 255 - n
xor_255 n h = (==_iff _ _).0 (all_below-test 256 _ n xor_table h)

pub nz_lem :
    (n : ℕ) (g : Guest)
    → n < 256
    → nz (record { size = 8; word = n }) g
      ≡ on tt
          (record g { flag = update (update g.flag n_shift (n / 128)) z_shift (bit_of (n == 0)) })
unfolding set_nz
nz_lem n g h = rw (slt_zero n h)

-- The code ran on, to this 6502 state and PC.
abbrev pub IsRight : Ran (Unit {0}) → Mos → ℕ → Type 0
IsRight (on u g) m p = (view g ≡ m) × IsBytes g × (g.pc ≡ p)
IsRight (returned ret g) m p = ⊥
IsRight exited m p = ⊥

-- A guest with a register, or a flag, written.
abbrev pub with_gpr : ℕ → ℕ → Guest → Guest
with_gpr i v g = record g { gpr = update g.gpr i v }

abbrev pub with_flag : ℕ → ℕ → Guest → Guest
with_flag i v g = record g { flag = update g.flag i v }

abbrev pub with_ram : ℕ → ℕ → Guest → Guest
with_ram a v g = record g { ram = update g.ram a v }

pub with_gpr-IsBytes : (i v : ℕ) (g : Guest) → v < 256 → IsBytes g → IsBytes (with_gpr i v g)
with_gpr-IsBytes i v g small b = record {
  gpr_byte = update-lt g.gpr i v 256 small b.gpr_byte;
  flag_bit = b.flag_bit;
  ram_byte = b.ram_byte;
}

pub with_flag-IsBytes : (i v : ℕ) (g : Guest) → v < 2 → IsBytes g → IsBytes (with_flag i v g)
with_flag-IsBytes i v g small b = record {
  gpr_byte = b.gpr_byte;
  flag_bit = update-lt g.flag i v 2 small b.flag_bit;
  ram_byte = b.ram_byte;
}

pub with_ram-IsBytes : (a v : ℕ) (g : Guest) → v < 256 → IsBytes g → IsBytes (with_ram a v g)
with_ram-IsBytes a v g small b = record {
  gpr_byte = b.gpr_byte;
  flag_bit = b.flag_bit;
  ram_byte = update-lt g.ram a v 256 small b.ram_byte;
}

pub bit_of-lt : (b : Bool) → bit_of b < 2
bit_of-lt b = ground arith

-- N and Z come last.
pub nz-IsRight :
    (n : ℕ) (k : Guest) {m : Mos} {p : ℕ}
    → n < 256
    → IsBytes k
    → view k ≡ m
    → k.pc ≡ p
    → IsRight (nz (record { size = 8; word = n }) k) (Mos.set_nz n m) p
nz-IsRight n k small b same at = rw (nz_lem n k small) (
  ap (Mos.set_nz n) same,
  with_flag-IsBytes z_shift (bit_of (n == 0)) _ (bit_of-lt (n == 0))
      (with_flag-IsBytes n_shift (n / 128) k (omega arith) b),
  at,
)
