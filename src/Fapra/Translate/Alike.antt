-- ===== src/Fapra/Translate/Alike.antt =====
-- The switch of `arch_fapra_translate_instr` (arch/fapra/fapra_translate.cpp) against a table of what
-- the opcodes do.
use libcpu.Base.{
  ℕ, ◌≡◌, refl, Bool, true, false, Option, none, some, List, [], ◌∷◌, ◌==◌, ==_iff, if◌then◌else◌,
}
use libcpu.Frontend.Code.{Ran, Guest, Code, on, exited}
use libcpu.Fapra.Isa.{effect_of}
use libcpu.Fapra.Translate.{switch}

-- How the code ends where the processor gets so far, or does not.
abbrev pub ended : Option Guest → Ran (Unit {0})
ended none = exited
ended (some g) = on tt g

-- Two tables with the same labels, whose entries for the opcode `o` agree.
abbrev pub Alike : ℕ → Guest → List (ℕ × Code (Unit {0})) → List (ℕ × Guest) → Type 0
Alike o g [] [] = Unit
Alike o g [] (y ∷ ys) = ⊥
Alike o g (x ∷ xs) [] = ⊥
Alike o g (x ∷ xs) (y ∷ ys) =
    (x.0 ≡ y.0) × (o ≡ y.0 → Path (Ran (Unit {0})) (x.1 g) (on tt y.1)) × Alike o g xs ys

choose :
    (t : Bool) (c k : Code (Unit {0})) (g : Guest) (u w : Option Guest)
    → (t ≡ true → c g ≡ ended u)
    → k g ≡ ended w
    → (if t then c else k) g ≡ ended (if t then u else w)
choose true c k g u w p q = p refl
choose false c k g u w p q = q

pub switch-Alike :
    (o : ℕ) (g : Guest) (xs : List (ℕ × Code (Unit {0}))) (ys : List (ℕ × Guest))
    → Alike o g xs ys
    → switch o xs g ≡ ended (effect_of o ys)
switch-Alike o g [] [] h = refl
switch-Alike o g [] (y ∷ ys) h = absurd h
switch-Alike o g (x ∷ xs) [] h = absurd h
switch-Alike o g (x ∷ xs) (y ∷ ys) h = rw h.0 (
    choose (o == y.0) x.1 (switch o xs) g (some y.1) (effect_of o ys)
      (λ e. h.1 ((==_iff o y.0).0 e)) (switch-Alike o g xs ys h.2))
