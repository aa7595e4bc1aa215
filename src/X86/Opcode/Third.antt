-- ===== src/X86/Opcode/Third.antt =====
-- Opcodes of arch/x86/x86_instr.h in the order of the enumeration, from lgdtd to ror.
use libcpu.Base.{ℕ}

abbrev pub opc_lgdtd : ℕ
opc_lgdtd = 110

abbrev pub opc_lgdtl : ℕ
opc_lgdtl = 111

abbrev pub opc_lgdtw : ℕ
opc_lgdtw = 112

abbrev pub opc_lgs : ℕ
opc_lgs = 113

abbrev pub opc_lidtd : ℕ
opc_lidtd = 114

abbrev pub opc_lidtl : ℕ
opc_lidtl = 115

abbrev pub opc_lidtw : ℕ
opc_lidtw = 116

abbrev pub opc_ljmp : ℕ
opc_ljmp = 117

abbrev pub opc_lldt : ℕ
opc_lldt = 118

abbrev pub opc_lmsw : ℕ
opc_lmsw = 119

abbrev pub opc_lods : ℕ
opc_lods = 120

abbrev pub opc_loop : ℕ
opc_loop = 121

abbrev pub opc_loope : ℕ
opc_loope = 122

abbrev pub opc_loopne : ℕ
opc_loopne = 123

abbrev pub opc_loopnz : ℕ
opc_loopnz = 124

abbrev pub opc_loopz : ℕ
opc_loopz = 125

abbrev pub opc_lret : ℕ
opc_lret = 126

abbrev pub opc_lsl : ℕ
opc_lsl = 127

abbrev pub opc_lss : ℕ
opc_lss = 128

abbrev pub opc_ltr : ℕ
opc_ltr = 129

abbrev pub opc_mov : ℕ
opc_mov = 130

abbrev pub opc_movs : ℕ
opc_movs = 131

abbrev pub opc_movsx : ℕ
opc_movsx = 132

abbrev pub opc_movsxb : ℕ
opc_movsxb = 133

abbrev pub opc_movsxw : ℕ
opc_movsxw = 134

abbrev pub opc_movzx : ℕ
opc_movzx = 135

abbrev pub opc_movzxb : ℕ
opc_movzxb = 136

abbrev pub opc_movzxw : ℕ
opc_movzxw = 137

abbrev pub opc_mul : ℕ
opc_mul = 138

abbrev pub opc_neg : ℕ
opc_neg = 139

abbrev pub opc_nop : ℕ
opc_nop = 140

abbrev pub opc_not : ℕ
opc_not = 141

abbrev pub opc_or : ℕ
opc_or = 142

abbrev pub opc_out : ℕ
opc_out = 143

abbrev pub opc_outs : ℕ
opc_outs = 144

abbrev pub opc_pop : ℕ
opc_pop = 145

abbrev pub opc_popa : ℕ
opc_popa = 146

abbrev pub opc_popf : ℕ
opc_popf = 147

abbrev pub opc_push : ℕ
opc_push = 148

abbrev pub opc_pusha : ℕ
opc_pusha = 149

abbrev pub opc_pushf : ℕ
opc_pushf = 150

abbrev pub opc_rcl : ℕ
opc_rcl = 151

abbrev pub opc_rcr : ℕ
opc_rcr = 152

abbrev pub opc_rdmsr : ℕ
opc_rdmsr = 153

abbrev pub opc_rdpmc : ℕ
opc_rdpmc = 154

abbrev pub opc_rdtsc : ℕ
opc_rdtsc = 155

abbrev pub opc_rep : ℕ
opc_rep = 156

abbrev pub opc_repe : ℕ
opc_repe = 157

abbrev pub opc_repne : ℕ
opc_repne = 158

abbrev pub opc_repnz : ℕ
opc_repnz = 159

abbrev pub opc_repz : ℕ
opc_repz = 160

abbrev pub opc_ret : ℕ
opc_ret = 161

abbrev pub opc_retf : ℕ
opc_retf = 162

abbrev pub opc_rol : ℕ
opc_rol = 163

abbrev pub opc_ror : ℕ
opc_ror = 164
