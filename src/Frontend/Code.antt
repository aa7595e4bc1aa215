-- ===== src/Frontend/Code.antt =====
-- Emitted code, by what it does when it runs: the emitter functions of libcpu/frontend.cpp append
-- instructions to a block in the order in which they run.
use libcpu.Base.{ℕ, ◌≡◌, ap, ◌+◌, ◌/◌, ◌%◌, ◌^◌, Bool, List, ◌==◌, if◌then◌else◌}
use libcpu.Frontend.{ram32le}
use libcpu.Frontend.Value.{Value}

-- The registers as the pointers `ptr_gpr`, `ptr_xr`, `ptr_FLAG` and `ptr_PC` reach them, and RAM.
pub record Guest : Type 0 where
  pub gpr : ℕ → ℕ
  pub xr : ℕ → ℕ
  pub flag : ℕ → ℕ
  pub pc : ℕ
  pub ram : ℕ → ℕ

-- The fields of `cpu_archinfo_t` that the emitter functions read; a flag is named by its shift.
pub record ArchInfo : Type 0 where
  pub little_endian : Bool
  pub hardwire_gpr0 : Bool
  pub swapmem : Bool
  pub word_size : ℕ
  pub address_size : ℕ
  pub psr_size : ℕ
  pub gpr_count : ℕ
  pub xr_count : ℕ
  pub bits_size : ℕ → ℕ
  pub flags_layout : List ℕ

-- `temp` is a new cell of the stack that holds a byte.
pub data Ptr : Type 0 where
  gpr xr flag : ℕ → Ptr
  pc : Ptr
  ram ram32 temp : ℕ → Ptr

abbrev pub update : (ℕ → ℕ) → ℕ → ℕ → ℕ → ℕ
update f i v j = if j == i then v else f j

-- A word of RAM, on a host that stores words little-endian.
abbrev pub update32 : (ℕ → ℕ) → ℕ → ℕ → ℕ → ℕ
update32 f a v =
    update
      (update (update (update f a (v % 256)) (a + 1) (v / 2 ^ 8 % 256)) (a + 2) (v / 2 ^ 16 % 256))
      (a + 3) (v / 2 ^ 24 % 256)

-- How a piece of code ends: it runs on with its value, the function returns with a code, or the
-- emitter function stopped the program (`exit`, a failed `assert`).
pub data Ran (A : Type 0) : Type 0 where
  on : A → Guest → Ran A
  returned : ℕ → Guest → Ran A
  exited : Ran A

abbrev pub Code : Type 0 → Type 0
Code A = Guest → Ran A

abbrev pub then_run : {A B : Type 0} → Ran A → (A → Code B) → Ran B
then_run (on a s) f = f a s
then_run (returned r s) f = returned r s
then_run exited f = exited

infixl 5 ◌>>=◌ ◌>>◌
abbrev pub ◌>>=◌ : {A B : Type 0} → Code A → (A → Code B) → Code B
◌>>=◌ m f s = then_run (m s) f

abbrev pub ◌>>◌ : {A B : Type 0} → Code A → Code B → Code B
m >> k = m >>= λ _. k

abbrev pub pure : {A : Type 0} → A → Code A
pure a s = on a s

-- Code goes on behind code that runs on.
pub >>=-on :
    {A B : Type 0} (m : Code A) (f : A → Code B) (s s' : Guest) (a : A)
    → m s ≡ on a s'
    → (m >>= f) s ≡ f a s'
>>=-on m f s s' a e = ap (λ o. then_run o f) e

-- ReturnInst
abbrev pub return : {A : Type 0} → ℕ → Code A
return ret s = returned ret s

abbrev pub fails : {A : Type 0} → Code A
fails s = exited

module _ (info : ArchInfo) where
  unfoldable pub peek : Ptr → Guest → Value
  unfolding ram32le
  peek (Ptr.gpr i) s = record { size = info.bits_size i; word = s.gpr i }
  peek (Ptr.xr i) s = record { size = info.bits_size (info.gpr_count + i); word = s.xr i }
  peek (Ptr.flag i) s = record { size = 1; word = s.flag i }
  peek Ptr.pc s = record { size = info.address_size; word = s.pc }
  peek (Ptr.ram a) s = record { size = 8; word = s.ram a }
  peek (Ptr.ram32 a) s = record { size = 32; word = ram32le s.ram a }
  peek (Ptr.temp v) s = record { size = 8; word = v }

  -- LOAD
  abbrev pub load : Ptr → Code Value
  load p s = on (peek p s) s

-- StoreInst
unfoldable pub poke : Value → Ptr → Guest → Guest
poke v (Ptr.gpr i) s = record s { gpr = update s.gpr i v.word }
poke v (Ptr.xr i) s = record s { xr = update s.xr i v.word }
poke v (Ptr.flag i) s = record s { flag = update s.flag i v.word }
poke v Ptr.pc s = record s { pc = v.word }
poke v (Ptr.ram a) s = record s { ram = update s.ram a v.word }
poke v (Ptr.ram32 a) s = record s { ram = update32 s.ram a v.word }
poke v (Ptr.temp w) s = s

-- arch_store, which gives the value back.
abbrev pub store : Value → Ptr → Code Value
store v p s = on v (poke v p s)
