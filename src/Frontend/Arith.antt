-- ===== src/Frontend/Arith.antt =====
-- The flags that a result sets, `arch_shiftrotate` and `arch_adc` of libcpu/frontend.cpp.
pub mod Laws
use libcpu.Base.{ℕ, ◌-◌, ◌==◌, Bool, Option, none, some, if◌then◌else◌}
use libcpu.Frontend.Value.{Value, consts, trunc, zext, add, or, shl, lshr, icmp_eq, icmp_slt}
use libcpu.Frontend.Code.{ArchInfo, Ptr, Code, ◌>>=◌, ◌>>◌, pure, fails, load, store, peek, poke}

-- ptr_N, ptr_Z and ptr_C.
pub record Nzc : Type 0 where
  pub ptr_n : ℕ
  pub ptr_z : ℕ
  pub ptr_c : ℕ

module _ (info : ArchInfo) (nzc : Nzc) where
  -- SET_NZ
  unfoldable pub set_nz : Value → Code (Unit {0})
  unfolding icmp_slt icmp_eq poke
  set_nz t = do
    store (icmp_slt t (consts t.size 0)) (Ptr.flag nzc.ptr_n)
    store (icmp_eq t (consts t.size 0)) (Ptr.flag nzc.ptr_z)
    pure tt

  unfoldable pub shift_left : Bool → Value → Value → Value
  unfolding shl or zext
  shift_left rotate carry v =
      let v' = shl v (consts v.size 1) in if rotate then or v' (zext v'.size carry) else v'

  unfoldable pub shift_right : Bool → Value → Value → Value
  unfolding shl lshr or zext
  shift_right rotate carry v =
      let v' = lshr v (consts v.size 1) in
      if rotate then or v' (shl (zext v'.size carry) (consts v'.size (v'.size - 1))) else v'

  -- The carry is read before it is written.
  unfoldable pub arch_shiftrotate : Ptr → Ptr → Bool → Bool → Code Value
  unfolding shift_left shift_right icmp_slt trunc peek poke
  arch_shiftrotate dst src left rotate = do
    v ← load info src
    carry ← load info (Ptr.flag nzc.ptr_c)
    let c = if left then icmp_slt v (consts v.size 0) else trunc 1 v
    store c (Ptr.flag nzc.ptr_c)
    store (if left then shift_left rotate carry v else shift_right rotate carry v) dst

  abbrev carry_in : Bool → Bool → Code Value
  carry_in plus_carry plus_one =
      if plus_carry
      then load info (Ptr.flag nzc.ptr_c)
      else pure (consts 1 (if plus_one then 1 else 0))

  -- `dst` may be NULL.
  abbrev store_if : Value → Option Ptr → Code Value
  store_if v none = pure v
  store_if v (some p) = store v p

  -- Only 8 bits are supported.
  unfoldable pub arch_adc : Option Ptr → Ptr → Value → Bool → Bool → Code Value
  unfolding add zext lshr trunc peek poke
  arch_adc dst src v plus_carry plus_one = do
    c ← carry_in plus_carry plus_one
    if v.size == 8
        then (do
          a ← load info src
          let v1 = add (add (zext 16 a) (zext 16 v)) (zext 16 c)
          store (trunc 1 (lshr v1 (consts 16 8))) (Ptr.flag nzc.ptr_c)
          store_if (trunc 8 v1) dst)
        else fails
