-- ===== src/X86/Opcode/Fourth.antt =====
-- Opcodes of arch/x86/x86_instr.h in the order of the enumeration, from rsm to xor.
use libcpu.Base.{ℕ}

abbrev pub opc_rsm : ℕ
opc_rsm = 165

abbrev pub opc_sahf : ℕ
opc_sahf = 166

abbrev pub opc_sal : ℕ
opc_sal = 167

abbrev pub opc_sar : ℕ
opc_sar = 168

abbrev pub opc_sbb : ℕ
opc_sbb = 169

abbrev pub opc_scas : ℕ
opc_scas = 170

abbrev pub opc_seta : ℕ
opc_seta = 171

abbrev pub opc_setb : ℕ
opc_setb = 172

abbrev pub opc_setbe : ℕ
opc_setbe = 173

abbrev pub opc_setg : ℕ
opc_setg = 174

abbrev pub opc_setge : ℕ
opc_setge = 175

abbrev pub opc_setl : ℕ
opc_setl = 176

abbrev pub opc_setle : ℕ
opc_setle = 177

abbrev pub opc_setnb : ℕ
opc_setnb = 178

abbrev pub opc_setne : ℕ
opc_setne = 179

abbrev pub opc_setno : ℕ
opc_setno = 180

abbrev pub opc_setns : ℕ
opc_setns = 181

abbrev pub opc_seto : ℕ
opc_seto = 182

abbrev pub opc_setpe : ℕ
opc_setpe = 183

abbrev pub opc_setpo : ℕ
opc_setpo = 184

abbrev pub opc_sets : ℕ
opc_sets = 185

abbrev pub opc_setz : ℕ
opc_setz = 186

abbrev pub opc_sgdtd : ℕ
opc_sgdtd = 187

abbrev pub opc_sgdtl : ℕ
opc_sgdtl = 188

abbrev pub opc_sgdtw : ℕ
opc_sgdtw = 189

abbrev pub opc_shl : ℕ
opc_shl = 190

abbrev pub opc_shld : ℕ
opc_shld = 191

abbrev pub opc_shr : ℕ
opc_shr = 192

abbrev pub opc_shrd : ℕ
opc_shrd = 193

abbrev pub opc_sidtd : ℕ
opc_sidtd = 194

abbrev pub opc_sidtl : ℕ
opc_sidtl = 195

abbrev pub opc_sidtw : ℕ
opc_sidtw = 196

abbrev pub opc_sldt : ℕ
opc_sldt = 197

abbrev pub opc_smsw : ℕ
opc_smsw = 198

abbrev pub opc_stc : ℕ
opc_stc = 199

abbrev pub opc_std : ℕ
opc_std = 200

abbrev pub opc_sti : ℕ
opc_sti = 201

abbrev pub opc_stos : ℕ
opc_stos = 202

abbrev pub opc_str : ℕ
opc_str = 203

abbrev pub opc_sub : ℕ
opc_sub = 204

abbrev pub opc_sysenter : ℕ
opc_sysenter = 205

abbrev pub opc_sysexit : ℕ
opc_sysexit = 206

abbrev pub opc_test : ℕ
opc_test = 207

abbrev pub opc_ud1 : ℕ
opc_ud1 = 208

abbrev pub opc_ud2 : ℕ
opc_ud2 = 209

abbrev pub opc_verr : ℕ
opc_verr = 210

abbrev pub opc_verw : ℕ
opc_verw = 211

abbrev pub opc_wbinvd : ℕ
opc_wbinvd = 212

abbrev pub opc_wrmsr : ℕ
opc_wrmsr = 213

abbrev pub opc_xadd : ℕ
opc_xadd = 214

abbrev pub opc_xchg : ℕ
opc_xchg = 215

abbrev pub opc_xlatb : ℕ
opc_xlatb = 216

abbrev pub opc_xor : ℕ
opc_xor = 217
