-- ===== src/Frontend/Registers.antt =====
-- `arch_get_reg` and `arch_put_reg` of libcpu/frontend.cpp.
use libcpu.Base.{ℕ, ◌-◌, Bool, false, not, ◌&&◌, ◌==◌, leb, ltb, if◌then◌else◌}
use libcpu.Frontend.Value.{Value, consts, trunc, zext, sext, lshr}
use libcpu.Frontend.Code.{ArchInfo, Ptr, Code, ◌>>=◌, pure, fails, load, store, peek, poke}

module _ (info : ArchInfo) where
  -- The register of an index: an index past the GPRs is an XR, one past those fails the assertion.
  pub register_ptr : ℕ → Code Ptr
  register_ptr index =
      if leb info.gpr_count index
      then if leb info.xr_count (index - info.gpr_count)
        then fails
        else pure (Ptr.xr (index - info.gpr_count))
      else pure (Ptr.gpr index)

  -- R0 is always 0 on certain machines.
  abbrev is_zero_reg : ℕ → Bool
  is_zero_reg index = not (leb info.gpr_count index) && info.hardwire_gpr0 && index == 0

  unfoldable pub narrow : ℕ → ℕ → ℕ → Value → Value
  unfolding trunc lshr
  narrow bits shift size v =
      if not (bits == 0) && ltb bits size
      then if shift == 0 then trunc bits v else lshr (trunc bits v) (consts 32 shift)
      else v

  unfoldable pub arch_get_reg : ℕ → ℕ → ℕ → Code Value
  unfolding register_ptr narrow peek
  arch_get_reg index bits shift =
      if is_zero_reg index
      then pure (consts (if bits == 0 then info.bits_size index else bits) 0)
      else (do
        p ← register_ptr index
        v ← load info p
        pure (narrow bits shift (info.bits_size index) v))

  unfoldable pub widen : ℕ → Bool → ℕ → Value → Value
  unfolding sext zext
  widen bits signed size v =
      if not (bits == 0) && not (size == bits)
      then if signed then sext size v else zext size v
      else v

  unfoldable pub arch_put_reg : ℕ → Value → ℕ → Bool → Code Value
  unfolding register_ptr widen poke
  arch_put_reg index v bits signed = do
    p ← register_ptr index
    let v' = widen bits signed (info.bits_size index) v
    if is_zero_reg index then pure v' else store v' p

  -- R, LET
  unfoldable pub reg : ℕ → Code Value
  unfolding arch_get_reg
  reg i = arch_get_reg i 0 0

  unfoldable pub let_reg : ℕ → Value → Code Value
  unfolding arch_put_reg
  let_reg i v = arch_put_reg i v 0 false
