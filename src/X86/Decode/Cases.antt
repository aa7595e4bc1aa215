-- ===== src/X86/Decode/Cases.antt =====
-- The results of a round and of the decoder's loop, and how a round is followed.
use libcpu.Base.{ℕ, suc, ◌≡◌, ◌⊎◌, inl, inr, refl, sym, ◌∙◌}
use libcpu.X86.Instr.{X86Instr}
use libcpu.X86.Decode.{
  Cursor, Round, Found, Decoded, round, find, finish, start_cursor, arch_x86_decode_instr,
}

pub Round-cases :
    (r : Round)
    → (r ≡ Round.illegal)
      ⊎ ((c : Cursor) × (d : ℕ) × (o : ℕ) × (r ≡ Round.leave c d o))
      ⊎ ((c : Cursor) × (r ≡ Round.again c))
Round-cases Round.illegal = inl refl
Round-cases (Round.leave c d o) = inr (inl (c, d, o, refl))
Round-cases (Round.again c) = inr (inr (c, refl))

pub Found-cases :
    (f : Found)
    → (f ≡ Found.illegal)
      ⊎ (f ≡ Found.out_of_fuel)
      ⊎ ((c : Cursor) × (d : ℕ) × (o : ℕ) × (f ≡ Found.found c d o))
Found-cases Found.illegal = inl refl
Found-cases Found.out_of_fuel = inr (inl refl)
Found-cases (Found.found c d o) = inr (inr (c, d, o, refl))

module _ (ram : ℕ → ℕ) (use_intel fuel : ℕ) (c : Cursor) where
  pub find-illegal :
      round ram use_intel c ≡ Round.illegal → find ram use_intel (suc fuel) c ≡ Found.illegal
  unfolding find
  find-illegal r = rw (find, r) refl

  pub find-leave :
      (c' : Cursor) (decode opcode : ℕ)
      → round ram use_intel c ≡ Round.leave c' decode opcode
      → find ram use_intel (suc fuel) c ≡ Found.found c' decode opcode
  unfolding find
  find-leave c' decode opcode r = rw (find, r) refl

  pub find-again :
      (c' : Cursor)
      → round ram use_intel c ≡ Round.again c'
      → find ram use_intel (suc fuel) c ≡ find ram use_intel fuel c'
  unfolding find
  find-again c' r = rw (find, r) refl

module _ (ram : ℕ → ℕ) (use_intel fuel pc : ℕ) where
  decode-illegal :
      find ram use_intel fuel (start_cursor ram use_intel pc) ≡ Found.illegal
      → arch_x86_decode_instr ram use_intel fuel pc ≡ Decoded.illegal
  unfolding arch_x86_decode_instr
  decode-illegal r = rw (arch_x86_decode_instr, r) refl

  decode-out_of_fuel :
      find ram use_intel fuel (start_cursor ram use_intel pc) ≡ Found.out_of_fuel
      → arch_x86_decode_instr ram use_intel fuel pc ≡ Decoded.out_of_fuel
  unfolding arch_x86_decode_instr
  decode-out_of_fuel r = rw (arch_x86_decode_instr, r) refl

  pub decode-found :
      (c : Cursor) (d o : ℕ)
      → find ram use_intel fuel (start_cursor ram use_intel pc) ≡ Found.found c d o
      → arch_x86_decode_instr ram use_intel fuel pc
        ≡ Decoded.decoded (finish ram use_intel pc c d o)
  unfolding arch_x86_decode_instr
  decode-found c d o r = rw (arch_x86_decode_instr, r) refl

  -- A decoded instruction is finished from what the loop found.
  pub decoded-finish :
      (i : X86Instr)
      → arch_x86_decode_instr ram use_intel fuel pc ≡ Decoded.decoded i
      → (c : Cursor) × (d : ℕ) × (o : ℕ) × (find ram use_intel fuel (start_cursor ram use_intel pc)
          ≡ Found.found c d o)
        × (i ≡ finish ram use_intel pc c d o)
  decoded-finish i e =
      elim (Found-cases (find ram use_intel fuel (start_cursor ram use_intel pc))) [
        | inl r ↦ absurd (cc (decode-illegal r, e))
        | inr (inl r) ↦ absurd (cc (decode-out_of_fuel r, e))
        | inr (inr (c, d, o, r)) ↦
            let same : Decoded.decoded i ≡ Decoded.decoded (finish ram use_intel pc c d o) =
              sym e ∙ decode-found c d o r in
            (c, d, o, r, cc same)
      ]
