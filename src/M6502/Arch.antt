-- ===== src/M6502/Arch.antt =====
-- What `arch_6502_init` (arch/6502/6502_arch.cpp) tells of the 6502, and the registers' numbers.
use libcpu.Base.{ℕ, true, false, [], ◌∷◌}
use libcpu.Frontend.Code.{ArchInfo}
use libcpu.Frontend.Arith.{Nzc}

abbrev pub n_shift : ℕ
n_shift = 7

abbrev pub v_shift : ℕ
v_shift = 6

abbrev pub x_shift : ℕ
x_shift = 5

abbrev pub b_shift : ℕ
b_shift = 4

abbrev pub d_shift : ℕ
d_shift = 3

abbrev pub i_shift : ℕ
i_shift = 2

abbrev pub z_shift : ℕ
z_shift = 1

abbrev pub c_shift : ℕ
c_shift = 0

abbrev pub reg_a : ℕ
reg_a = 0

abbrev pub reg_x : ℕ
reg_x = 1

abbrev pub reg_y : ℕ
reg_y = 2

abbrev pub reg_s : ℕ
reg_s = 3

-- All registers have 8 bits.
abbrev pub arch_6502_info : ArchInfo
arch_6502_info = record {
  little_endian = true;
  hardwire_gpr0 = false;
  swapmem = false;
  word_size = 8;
  address_size = 16;
  psr_size = 8;
  gpr_count = 4;
  xr_count = 1;
  bits_size = λ i. 8;
  flags_layout = n_shift ∷ v_shift ∷ x_shift ∷ b_shift ∷ d_shift ∷ i_shift ∷ z_shift ∷ c_shift ∷ [];
}

abbrev pub arch_6502_nzc : Nzc
arch_6502_nzc = record { ptr_n = n_shift; ptr_z = z_shift; ptr_c = c_shift }
