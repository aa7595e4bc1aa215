-- ===== src/Frontend/Memory.antt =====
-- The loads and stores of libcpu/frontend.cpp: RAM as aligned words of 32 bits, with bytes and halves
-- cut out of them.
pub mod Laws
pub mod Stores
pub mod RoundTrip
use libcpu.Base.{ℕ, ◌-◌, ◌^◌, Bool, if◌then◌else◌, not, sign_extend}
use libcpu.Frontend.Value.{Value, const_word, trunc, and, or, xor, shl, lshr, swap32}
use libcpu.Frontend.Code.{ArchInfo, Ptr, Code, ◌>>=◌, ◌>>◌, pure, load, store, peek, poke}

module _ (info : ArchInfo) where
  abbrev word : ℕ → Value
  word v = const_word info.word_size v

  -- arch_gep32: `getelementptr` extends the sign of its index to the 64 bits of a pointer, so an
  -- address in the upper half of its width lies before the start of RAM.
  abbrev gep32 : Value → Ptr
  gep32 a = Ptr.ram32 (sign_extend a.size 64 a.word)

  unfoldable pub arch_load32_aligned : Value → Code Value
  unfolding swap32 peek
  arch_load32_aligned a = do v ← load info (gep32 a); pure (if info.swapmem then swap32 v else v)

  unfoldable pub arch_store32_aligned : Value → Value → Code (Unit {0})
  unfolding swap32 poke
  arch_store32_aligned v a = do store (if info.swapmem then swap32 v else v) (gep32 a); pure tt

  unfoldable pub arch_get_shift8 : Value → Value
  unfolding and xor shl
  arch_get_shift8 addr =
      let shift = and addr (word 3) in
      shl (if not info.little_endian then xor shift (word 3) else shift) (word 3)

  unfoldable pub arch_get_shift16 : Value → Value
  unfolding and xor shl lshr
  arch_get_shift16 addr =
      let shift = and (lshr addr (word 1)) (word 1) in
      shl (if not info.little_endian then xor shift (word 1) else shift) (word 4)

  -- `AND(addr, CONST(~3ULL))`
  unfoldable pub aligned : Value → Value
  unfolding and
  aligned addr = and addr (word (2 ^ 64 - 4))

  unfoldable pub arch_load8 : Value → Code Value
  unfolding lshr trunc
  arch_load8 addr = do
    val ← arch_load32_aligned (aligned addr)
    pure (trunc 8 (lshr val (arch_get_shift8 addr)))

  unfoldable pub arch_load16_aligned : Value → Code Value
  unfolding lshr trunc
  arch_load16_aligned addr = do
    val ← arch_load32_aligned (aligned addr)
    pure (trunc 16 (lshr val (arch_get_shift16 addr)))

  -- The low bits that `ones` names of `val`, put at `shift` in the word.
  abbrev store_part : ℕ → Value → Value → Value → Code (Unit {0})
  store_part ones shift val addr = do
    let mask = xor (shl (word ones) shift) (word (2 ^ 64 - 1))
    loaded ← arch_load32_aligned (aligned addr)
    let old = and loaded mask
    arch_store32_aligned (or old (shl (and val (word ones)) shift)) (aligned addr)

  unfoldable pub arch_store8 : Value → Value → Code (Unit {0})
  unfolding and or xor shl
  arch_store8 val addr = store_part 255 (arch_get_shift8 addr) val addr

  unfoldable pub arch_store16 : Value → Value → Code (Unit {0})
  unfolding and or xor shl
  arch_store16 val addr = store_part 65535 (arch_get_shift16 addr) val addr
