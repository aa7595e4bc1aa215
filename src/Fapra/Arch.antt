-- ===== src/Fapra/Arch.antt =====
-- What `arch_fapra_init` (arch/fapra/fapra_arch.cpp) tells of the machine, on a host of its endianness.
use libcpu.Base.{true, false, []}
use libcpu.Frontend.Code.{ArchInfo}

abbrev pub arch_fapra_info : ArchInfo
arch_fapra_info = record {
  little_endian = true;
  hardwire_gpr0 = false;
  swapmem = false;
  word_size = 32;
  address_size = 32;
  psr_size = 0;
  gpr_count = 32;
  xr_count = 0;
  bits_size = λ i. 32;
  flags_layout = [];
}
