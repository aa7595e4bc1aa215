-- ===== src/X86/Opcode/Second.antt =====
-- Opcodes of arch/x86/x86_instr.h in the order of the enumeration, from div to lfs.
use libcpu.Base.{ℕ}

abbrev pub opc_div : ℕ
opc_div = 55

abbrev pub opc_enter : ℕ
opc_enter = 56

abbrev pub opc_hlt : ℕ
opc_hlt = 57

abbrev pub opc_idiv : ℕ
opc_idiv = 58

abbrev pub opc_imul : ℕ
opc_imul = 59

abbrev pub opc_in : ℕ
opc_in = 60

abbrev pub opc_inc : ℕ
opc_inc = 61

abbrev pub opc_ins : ℕ
opc_ins = 62

abbrev pub opc_int3 : ℕ
opc_int3 = 63

abbrev pub opc_int : ℕ
opc_int = 64

abbrev pub opc_into : ℕ
opc_into = 65

abbrev pub opc_invd : ℕ
opc_invd = 66

abbrev pub opc_invlpg : ℕ
opc_invlpg = 67

abbrev pub opc_iret : ℕ
opc_iret = 68

abbrev pub opc_ja : ℕ
opc_ja = 69

abbrev pub opc_jae : ℕ
opc_jae = 70

abbrev pub opc_jb : ℕ
opc_jb = 71

abbrev pub opc_jbe : ℕ
opc_jbe = 72

abbrev pub opc_jc : ℕ
opc_jc = 73

abbrev pub opc_jcxz : ℕ
opc_jcxz = 74

abbrev pub opc_je : ℕ
opc_je = 75

abbrev pub opc_jecxz : ℕ
opc_jecxz = 76

abbrev pub opc_jg : ℕ
opc_jg = 77

abbrev pub opc_jge : ℕ
opc_jge = 78

abbrev pub opc_jl : ℕ
opc_jl = 79

abbrev pub opc_jle : ℕ
opc_jle = 80

abbrev pub opc_jmp : ℕ
opc_jmp = 81

abbrev pub opc_jna : ℕ
opc_jna = 82

abbrev pub opc_jnae : ℕ
opc_jnae = 83

abbrev pub opc_jnb : ℕ
opc_jnb = 84

abbrev pub opc_jnbe : ℕ
opc_jnbe = 85

abbrev pub opc_jnc : ℕ
opc_jnc = 86

abbrev pub opc_jne : ℕ
opc_jne = 87

abbrev pub opc_jng : ℕ
opc_jng = 88

abbrev pub opc_jnge : ℕ
opc_jnge = 89

abbrev pub opc_jnl : ℕ
opc_jnl = 90

abbrev pub opc_jnle : ℕ
opc_jnle = 91

abbrev pub opc_jno : ℕ
opc_jno = 92

abbrev pub opc_jnp : ℕ
opc_jnp = 93

abbrev pub opc_jns : ℕ
opc_jns = 94

abbrev pub opc_jnz : ℕ
opc_jnz = 95

abbrev pub opc_jo : ℕ
opc_jo = 96

abbrev pub opc_jp : ℕ
opc_jp = 97

abbrev pub opc_jpe : ℕ
opc_jpe = 98

abbrev pub opc_jpo : ℕ
opc_jpo = 99

abbrev pub opc_js : ℕ
opc_js = 100

abbrev pub opc_jz : ℕ
opc_jz = 101

abbrev pub opc_lahf : ℕ
opc_lahf = 102

abbrev pub opc_lar : ℕ
opc_lar = 103

abbrev pub opc_lcall : ℕ
opc_lcall = 104

abbrev pub opc_lds : ℕ
opc_lds = 105

abbrev pub opc_lea : ℕ
opc_lea = 106

abbrev pub opc_leave : ℕ
opc_leave = 107

abbrev pub opc_les : ℕ
opc_les = 108

abbrev pub opc_lfs : ℕ
opc_lfs = 109
