-- ===== src/Fapra/Tag/Laws.antt =====
use mathlib.Core.Path.{subst}
-- What the tagger and the translator may rely on, and the calls that are followed.
use libcpu.Base.{
  ◌-◌, ◌/◌, ◌<◌, ◌≤◌, ◌&&◌, &&-both, Bool, true, Bool-cases, inl, inr, sym, ◌∙◌, ==_iff,
  bit_or_comm, ℕ, ◌+◌, ◌*◌, ◌%◌, ◌^◌, ◌≡◌, refl, ◌==◌, Option, none, some, [], ◌∷◌, arith,
  bit_or-eq-add, bit_and-low, is_case, if-cases, ◌|||◌, ◌<<<◌,
}
use libcpu.Frontend.{ram32le}
use libcpu.Tag.Flags.{tag_call, new_pc_none}
use libcpu.Tag.Arch.{Written, IsWritten, tag_of}
use libcpu.Translate.Guest.{IsKind}
use libcpu.Translate.Frontends.{
  tag_continue-IsKind, tag_ret-IsKind, tag_branch-IsKind, tag_call-IsKind, tag_cond_branch-IsKind,
}
use libcpu.Fapra.Tag.{
  arch_fapra_tag_instr, call_target, plain_opcodes, opc, rd, ra, imm, before, ldih, ldil, jmp, bra,
  bz, bnz, call, bl,
}

-- What is stored is complete and fits together, if the program does not exit.
abbrev IsStored : Option Written → Type 0
IsStored none = Unit
IsStored (some w) = IsWritten w × IsKind (tag_of w)

-- The FAPRA frontend stores all that its tags need, and its tags fit together, for any memory and
-- address, unless it exits.
pub arch_fapra_tag_instr-IsStored :
    (ram : ℕ → ℕ) (pc : ℕ) (w : Written)
    → arch_fapra_tag_instr ram pc ≡ some w
    → IsWritten w × IsKind (tag_of w)
arch_fapra_tag_instr-IsStored ram pc w e = subst IsStored e stored
  where
    stored : IsStored (arch_fapra_tag_instr ram pc)
    stored =
        let ins = ram32le ram pc in
        unfold arch_fapra_tag_instr in
        if-cases IsStored (is_case (opc ins) plain_opcodes) _ _
          (λ _. (record { tag_set = cc; next_set = cc; new_set = λ h. cc h }, tag_continue-IsKind))
          (λ _.
            if-cases IsStored (opc ins == jmp) _ _
              (λ _. (record { tag_set = cc; next_set = cc; new_set = λ h. cc h }, tag_ret-IsKind))
              (λ _.
                if-cases IsStored (opc ins == bra) _ _
                  (λ _.
                    (record { tag_set = cc; next_set = cc; new_set = λ h. cc }, tag_branch-IsKind))
                  (λ _.
                    if-cases IsStored (is_case (opc ins) (bz ∷ bnz ∷ [])) _ _
                      (λ _. (
                        record { tag_set = cc; next_set = cc; new_set = λ h. cc },
                        tag_cond_branch-IsKind,
                      ))
                      (λ _.
                        if-cases IsStored (opc ins == call) _ _
                          (λ _. (
                            record { tag_set = cc; next_set = cc; new_set = λ h. cc },
                            tag_call-IsKind,
                          ))
                          (λ _.
                            if-cases IsStored (opc ins == bl) _ _
                              (λ _. (
                                record { tag_set = cc; next_set = cc; new_set = λ h. cc },
                                tag_call-IsKind,
                              ))
                              (λ _. tt))))))

halves : (high low : ℕ) → (imm high <<< 16) ||| imm low ≡ high % 2 ^ 16 * 2 ^ 16 + low % 2 ^ 16
halves high low =
    rw
      (bit_and-low 16 high, bit_and-low 16 low, bit_or_comm (high % 2 ^ 16 * 2 ^ 16) (low % 2 ^ 16))
      (omega (arith, bit_or-eq-add 16 (low % 2 ^ 16) (high % 2 ^ 16) (omega arith)))

-- The two instructions before a call load its register: LDIH, then LDIL.
abbrev pub IsLoaded : ℕ → ℕ → ℕ → Type 0
IsLoaded high low ins =
    (high / 2 ^ 26 ≡ 0x20)
    × (low / 2 ^ 26 ≡ 0x21)
    × (high / 2 ^ 21 % 32 ≡ low / 2 ^ 21 % 32)
    × (high / 2 ^ 21 % 32 ≡ ins / 2 ^ 16 % 32)

abbrev loads : ℕ → ℕ → ℕ → Bool
loads high low ins =
    (opc high == ldih) && (opc low == ldil) && (rd high == rd low) && (rd high == ra ins)

same_test : (x y u w : ℕ) → (x == y) ≡ true → x ≡ u → y ≡ w → u ≡ w
same_test x y u w h p q = sym p ∙ (==_iff x y).0 h ∙ q

loads-IsLoaded : (high low ins : ℕ) → loads high low ins ≡ true → IsLoaded high low ins
loads-IsLoaded high low ins h =
    let (front, own) = &&-both _ _ h in
    let (fronts, same) = &&-both _ _ front in
    let (oh, ol) = &&-both _ _ fronts in
    (
      (==_iff _ _).0 oh,
      (==_iff _ _).0 ol,
      same_test _ _ _ _ same (bit_and-low 5 (high / 2 ^ 21)) (bit_and-low 5 (low / 2 ^ 21)),
      same_test _ _ _ _ own (bit_and-low 5 (high / 2 ^ 21)) (bit_and-low 5 (ins / 2 ^ 16)),
    )

IsLoaded-loads : (high low ins : ℕ) → IsLoaded high low ins → loads high low ins ≡ true
IsLoaded-loads high low ins h =
    let same : rd high ≡ rd low =
      bit_and-low 5 (high / 2 ^ 21) ∙ h.2 ∙ sym (bit_and-low 5 (low / 2 ^ 21)) in
    let own : rd high ≡ ra ins =
      bit_and-low 5 (high / 2 ^ 21) ∙ h.3 ∙ sym (bit_and-low 5 (ins / 2 ^ 16)) in
    rw (h.0, h.1, (==_iff _ _).1 same, (==_iff _ _).1 own) refl

back : (pc n : ℕ) → n ≤ pc → 0 < n → pc < 2 ^ 64 → n < 2 ^ 64 → before pc n ≡ pc - n
back pc n h k small m = omega arith

-- What is stored for a call of this address.
abbrev pub calls : ℕ → ℕ → Option Written
calls pc target = some (record {
  bytes = 4;
  tag = some tag_call;
  new_pc = some target;
  next_pc = some ((pc + 4) % 2 ^ 64);
})

-- A FAPRA call with two instructions before it is tagged as a call of the address whose halves are
-- the low halves of these two if they are LDIH and LDIL and load the register that is called; if
-- they do not, it is tagged as a call of a target that is not known.
pub arch_fapra_tag_instr-call :
    (ram : ℕ → ℕ) (pc high low : ℕ)
    → 8 ≤ pc
    → pc < 2 ^ 64
    → high ≡ ram32le ram (pc - 8)
    → low ≡ ram32le ram (pc - 4)
    → ram32le ram pc / 2 ^ 26 ≡ 0x33
    → (IsLoaded high low (ram32le ram pc)
        → arch_fapra_tag_instr ram pc ≡ calls pc (high % 2 ^ 16 * 2 ^ 16 + low % 2 ^ 16))
      × (¬ IsLoaded high low (ram32le ram pc) → arch_fapra_tag_instr ram pc ≡ calls pc new_pc_none)
unfolding arch_fapra_tag_instr call_target
arch_fapra_tag_instr-call ram pc high low room small eh el called =
    let far = back pc 8 room (omega arith) small (omega arith) in
    let near = back pc 4 (omega arith) (omega arith) small (omega arith) in
    (
      (λ loaded.
          rw
            (
              called,
              far,
              near,
              ← eh,
              ← el,
              IsLoaded-loads high low (ram32le ram pc) loaded,
              halves high low,
            )
            refl),
      (λ other. elim (Bool-cases (loads high low (ram32le ram pc))) [
        | inl e ↦ absurd (other (loads-IsLoaded high low (ram32le ram pc) e))
        | inr e ↦ rw (called, far, near, ← eh, ← el, e) refl
      ]),
    )
