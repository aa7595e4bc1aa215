-- ===== src/X86/Opcode/First.antt =====
-- Opcodes of arch/x86/x86_instr.h in the order of the enumeration, from illegal to dec.
use libcpu.Base.{ℕ}

abbrev pub opc_illegal : ℕ
opc_illegal = 0

abbrev pub opc_aaa : ℕ
opc_aaa = 1

abbrev pub opc_aad : ℕ
opc_aad = 2

abbrev pub opc_aam : ℕ
opc_aam = 3

abbrev pub opc_aas : ℕ
opc_aas = 4

abbrev pub opc_adc : ℕ
opc_adc = 5

abbrev pub opc_add : ℕ
opc_add = 6

abbrev pub opc_and : ℕ
opc_and = 7

abbrev pub opc_arpl : ℕ
opc_arpl = 8

abbrev pub opc_bound : ℕ
opc_bound = 9

abbrev pub opc_bsf : ℕ
opc_bsf = 10

abbrev pub opc_bsr : ℕ
opc_bsr = 11

abbrev pub opc_bswap : ℕ
opc_bswap = 12

abbrev pub opc_bt : ℕ
opc_bt = 13

abbrev pub opc_btc : ℕ
opc_btc = 14

abbrev pub opc_btr : ℕ
opc_btr = 15

abbrev pub opc_bts : ℕ
opc_bts = 16

abbrev pub opc_call : ℕ
opc_call = 17

abbrev pub opc_cbw : ℕ
opc_cbw = 18

abbrev pub opc_cbtv : ℕ
opc_cbtv = 19

abbrev pub opc_cdq : ℕ
opc_cdq = 20

abbrev pub opc_clc : ℕ
opc_clc = 21

abbrev pub opc_cld : ℕ
opc_cld = 22

abbrev pub opc_cli : ℕ
opc_cli = 23

abbrev pub opc_cltd : ℕ
opc_cltd = 24

abbrev pub opc_clts : ℕ
opc_clts = 25

abbrev pub opc_cmc : ℕ
opc_cmc = 26

abbrev pub opc_cmova : ℕ
opc_cmova = 27

abbrev pub opc_cmovb : ℕ
opc_cmovb = 28

abbrev pub opc_cmovbe : ℕ
opc_cmovbe = 29

abbrev pub opc_cmovg : ℕ
opc_cmovg = 30

abbrev pub opc_cmovge : ℕ
opc_cmovge = 31

abbrev pub opc_cmovl : ℕ
opc_cmovl = 32

abbrev pub opc_cmovle : ℕ
opc_cmovle = 33

abbrev pub opc_cmovnb : ℕ
opc_cmovnb = 34

abbrev pub opc_cmovne : ℕ
opc_cmovne = 35

abbrev pub opc_cmovno : ℕ
opc_cmovno = 36

abbrev pub opc_cmovns : ℕ
opc_cmovns = 37

abbrev pub opc_cmovo : ℕ
opc_cmovo = 38

abbrev pub opc_cmovpe : ℕ
opc_cmovpe = 39

abbrev pub opc_cmovpo : ℕ
opc_cmovpo = 40

abbrev pub opc_cmovs : ℕ
opc_cmovs = 41

abbrev pub opc_cmovz : ℕ
opc_cmovz = 42

abbrev pub opc_cmp : ℕ
opc_cmp = 43

abbrev pub opc_cmps : ℕ
opc_cmps = 44

abbrev pub opc_cmpxchg8b : ℕ
opc_cmpxchg8b = 45

abbrev pub opc_cmpxchg : ℕ
opc_cmpxchg = 46

abbrev pub opc_cpuid : ℕ
opc_cpuid = 47

abbrev pub opc_cwd : ℕ
opc_cwd = 48

abbrev pub opc_cwde : ℕ
opc_cwde = 49

abbrev pub opc_cwtd : ℕ
opc_cwtd = 50

abbrev pub opc_cwtl : ℕ
opc_cwtl = 51

abbrev pub opc_daa : ℕ
opc_daa = 52

abbrev pub opc_das : ℕ
opc_das = 53

abbrev pub opc_dec : ℕ
opc_dec = 54
