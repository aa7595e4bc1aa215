-- ===== src/Frontend/Flags.antt =====
-- `arch_encode_bit`, `arch_decode_bit`, `arch_flags_encode` and `arch_flags_decode` of
-- libcpu/frontend.cpp: the flags as one word and back.
pub mod RoundTrip
use libcpu.Base.{ℕ, List, [], ◌∷◌}
use libcpu.Frontend.Value.{Value, consts, trunc, zext, or, shl, lshr}
use libcpu.Frontend.Code.{ArchInfo, Ptr, Code, ◌>>=◌, ◌>>◌, pure, load, store, peek, poke}

module _ (info : ArchInfo) where
  unfoldable pub arch_encode_bit : Value → Ptr → ℕ → ℕ → Code Value
  unfolding or shl zext peek
  arch_encode_bit flags bit shift width = do
    n ← load info bit
    pure (or flags (shl (zext width n) (consts width shift)))

  unfoldable pub arch_decode_bit : Value → Ptr → ℕ → ℕ → Code (Unit {0})
  unfolding lshr trunc poke
  arch_decode_bit flags bit shift width = do
    store (trunc 1 (lshr flags (consts width shift))) bit
    pure tt

  -- The loops over `flags_layout`.
  unfoldable pub encode_all : List ℕ → Value → Code Value
  unfolding arch_encode_bit
  encode_all [] flags = pure flags
  encode_all (shift ∷ shifts) flags = do
    flags' ← arch_encode_bit flags (Ptr.flag shift) shift info.psr_size
    encode_all shifts flags'

  unfoldable pub decode_all : List ℕ → Value → Code (Unit {0})
  unfolding arch_decode_bit
  decode_all [] flags = pure tt
  decode_all (shift ∷ shifts) flags = do
    arch_decode_bit flags (Ptr.flag shift) shift info.psr_size
    decode_all shifts flags

  unfoldable pub arch_flags_encode : Code Value
  unfolding encode_all
  arch_flags_encode = encode_all info.flags_layout (consts info.psr_size 0)

  unfoldable pub arch_flags_decode : Value → Code (Unit {0})
  unfolding decode_all
  arch_flags_decode flags = decode_all info.flags_layout flags
