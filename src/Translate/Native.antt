-- ===== src/Translate/Native.antt =====
-- How the function that `cpu_translate_all` builds runs: its blocks, the switch of its dispatch block
-- and its return blocks (libcpu/translate_all.cpp, libcpu/basicblock.cpp).
use mathlib.Core.Option
use package.native.Mathlib.Nat.{mod-eq_of_lt}
use libcpu.Base.{
  ==_self, ◌≡◌, ap, ==_iff, Bool-cases, inl, inr, sym, arith, true, ◌<◌, ◌^◌, refl, ℕ, zero, suc,
  Option, none, some, List, [], ◌∷◌, ◌==◌, is_case, if◌then◌else◌,
}
use libcpu.Translate.Builder.{Target, Trace, same_target, contents, emit_store_pc_return}
use libcpu.Translate.All.{Block}
use libcpu.Translate.Meaning.{Machine, constant, run, run_block, follow, follow_from}

abbrev pub starts : List Block → List ℕ
starts [] = []
starts (b ∷ bs) = b.start ∷ starts bs

unfoldable pub find_trace : List Block → ℕ → Option Trace
find_trace [] a = none
find_trace (b ∷ bs) a = let rest = find_trace bs a in if a == b.start then some b.trace else rest

is_case_later : (a x : ℕ) (xs : List ℕ) → is_case a xs ≡ true → is_case a (x ∷ xs) ≡ true
is_case_later a x xs h = ground arith

-- The switch of the dispatch block: its cases are constants, its default is `bb_ret`.
module _ {S : Type 0} (m : Machine S) where
  abbrev pub dispatched : ℕ → List Block → Target
  dispatched pc [] = Target.ret
  dispatched pc (b ∷ bs) =
      let rest = dispatched pc bs in if pc == constant m b.start then Target.label b.start else rest

  -- Below `2 ^ address_size` the cases are the addresses.
  pub dispatched_lem :
      (pc : ℕ) (blocks : List Block)
      → ((a : ℕ) → is_case a (starts blocks) ≡ true → a < 2 ^ m.address_size)
      → dispatched pc blocks ≡ (if is_case pc (starts blocks) then Target.label pc else Target.ret)
  dispatched_lem pc [] h = refl
  dispatched_lem pc (b ∷ bs) h = elim (Bool-cases (pc == b.start)) [
    | inl e ↦
        let here : b.start < 2 ^ m.address_size = h b.start (rw (==_self b.start) refl) in
        rw (mod-eq_of_lt here, e) (ap Target.label (sym ((==_iff pc b.start).0 e)))
    | inr e ↦
        let here : b.start < 2 ^ m.address_size = h b.start (rw (==_self b.start) refl) in
        rw (mod-eq_of_lt here, e)
          (dispatched_lem pc bs (λ a k. h a (is_case_later a b.start (starts bs) k)))
  ]

module _ {S : Type 0} (m : Machine S) (blocks : List Block) where
  -- The blocks that are not translated code: the switch, and a block that stores the PC and
  -- returns.
  unfoldable pub resolve : Target × S → Target × S
  resolve (Target.dispatch, s) = (dispatched m (m.pc_of s) blocks, s)
  resolve (Target.leaving a, s) = (Target.ret, m.set_pc (constant m a) s)
  resolve p = p

  -- From a label to the next one, or out of the function.
  unfoldable pub next_label : Option (Target × S) → Option (Target × S)
  unfolding resolve
  next_label none = none
  next_label (some p) = some (resolve p)

  unfoldable pub enter_block : ℕ → S → Option Trace → Option (Target × S)
  unfolding next_label
  enter_block a s none = none
  enter_block a s (some trace) = next_label (run_block m trace (Target.label a) s)

  -- At most `n` blocks; `none` is a block that is missing or has no terminator.
  unfoldable pub native : ℕ → Target × S → Option (Target × S)
  unfolding enter_block find_trace
  native zero p = some p
  native (suc n) (Target.label a, s) =
      Option.bind (enter_block a s (find_trace blocks a)) (native n)
  native (suc n) p = some p

-- The block that `lookup_basicblock` makes for an address without a label stores the address and
-- returns.
leaving_lem :
    {S : Type 0} (m : Machine S) (a : ℕ) (s : S)
    → run_block m (emit_store_pc_return (Target.leaving a) a Target.ret) (Target.leaving a) s
      ≡ some (Target.ret, m.set_pc (constant m a) s)
unfolding run_block contents same_target run follow follow_from
leaving_lem m a s = rw (==_self a) refl
