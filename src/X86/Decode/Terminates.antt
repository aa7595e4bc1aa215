-- ===== src/X86/Decode/Terminates.antt =====
-- The decoder's loop ends.
use libcpu.Base.{
  ℕ, zero, suc, ◌+◌, ◌%◌, ◌<◌, ◌≤◌, ◌≡◌, ◌≢◌, ◌⊎◌, inl, inr, refl, ap, ◌∙◌, false, arith,
}
use libcpu.Tag.Flags.{addr_mod}
use libcpu.X86.Field.{decode_class_prefix, get_field, x86_decode_group}
use libcpu.X86.Decode.{
  Cursor, Round, Found, Decoded, round, find, table_entry, take_prefix, take_group, start_cursor,
  arch_x86_decode_instr,
}
use libcpu.X86.Decode.Classes.{is_class, is_prefix, prefix-one, prefix_lem, group_lem, round-again}
use libcpu.X86.Decode.Cases.{Round-cases, Found-cases}
use libcpu.X86.Decode.Bounds.{IsInBounds, round-IsInBounds, start_cursor-IsInBounds}

module _ (ram : ℕ → ℕ) (use_intel : ℕ) (bytes : (a : ℕ) → ram a < 256) where
  abbrev Ends : ℕ → Cursor → Type 0
  Ends fuel c = find ram use_intel fuel c ≢ Found.out_of_fuel

  taken_group :
      (d : ℕ) (c : Cursor)
      → 2 ≤ get_field d x86_decode_group
      → 2 ≤ (take_group ram use_intel d c).decode_group
  unfolding take_group
  taken_group d c h = h

  -- A round that leaves, or a further one that ends.
  find-suc :
      (fuel : ℕ) (c : Cursor)
      → ((c' : Cursor) → round ram use_intel c ≡ Round.again c' → Ends fuel c')
      → Ends (suc fuel) c
  unfolding find
  find-suc fuel c next = elim (Round-cases (round ram use_intel c)) [
    | inl e ↦ rw (find, e) (λ h. cc h)
    | inr (inl (c', d, o, e)) ↦ rw (find, e) (λ h. cc h)
    | inr (inr (c', e)) ↦ rw (find, e) (next c' e)
  ]

  group_round : (fuel : ℕ) (c : Cursor) → IsInBounds c → 2 ≤ c.decode_group → 1 ≤ fuel → Ends fuel c
  group_round zero c b high h = absurd (omega arith)
  group_round (suc fuel) c b high h = find-suc fuel c (λ c' e.
      elim (round-again ram use_intel c c' e) [
        | inl (class, _) ↦ absurd (
            omega
              (arith, (prefix_lem c.decode_group c.instr_byte b.group_bound b.byte_bound class).0))
        | inr (class, _) ↦ absurd (
            omega
              (arith, (group_lem c.decode_group c.instr_byte b.group_bound b.byte_bound class).0))
      ])

  -- The entry is not a prefix: at most one more round, in a group.
  opcode_round :
      (fuel : ℕ) (c : Cursor)
      → IsInBounds c
      → is_class (table_entry c.decode_group c.instr_byte) decode_class_prefix ≡ false
      → 2 ≤ fuel
      → Ends fuel c
  unfolding take_group
  opcode_round zero c b plain h = absurd (omega arith)
  opcode_round (suc fuel) c b plain h = find-suc fuel c (λ c' e.
      elim (round-again ram use_intel c c' e) [
        | inl (class, _) ↦ cc (class, plain)
        | inr (class, e') ↦
            group_round fuel c' (round-IsInBounds ram use_intel bytes c c' e b)
              (rw e' (
                taken_group _ c
                  (group_lem c.decode_group c.instr_byte b.group_bound b.byte_bound class).1))
              (omega arith)
      ])

  second_table_round :
      (fuel : ℕ) (c : Cursor) → IsInBounds c → c.decode_group ≡ 1 → 2 ≤ fuel → Ends fuel c
  second_table_round fuel c b one h =
      opcode_round fuel c b
        (ground (arith, prefix_lem c.decode_group c.instr_byte b.group_bound b.byte_bound)) h

  -- The byte that the loop looks at after `n` more prefixes.
  abbrev upcoming : Cursor → ℕ → ℕ
  upcoming c zero = c.instr_byte
  upcoming c (suc n) = ram ((c.pc + n) % addr_mod)

  upcoming-take_prefix :
      (n d : ℕ) (c : Cursor)
      → c.pc < addr_mod
      → upcoming (take_prefix ram use_intel d c) n ≡ upcoming c (suc n)
  unfolding take_prefix
  upcoming-take_prefix zero d c inside = ap ram (omega arith)
  upcoming-take_prefix (suc n) d c inside = ap ram (omega arith)

  take_prefix_group :
      (d : ℕ) (c : Cursor)
      → c.decode_group ≡ 0
      → ((take_prefix ram use_intel d c).decode_group ≡ 1)
        ⊎ ((take_prefix ram use_intel d c).decode_group ≡ 0)
  unfolding take_prefix
  take_prefix_group d c first = ground arith

  take_prefix_inside : (d : ℕ) (c : Cursor) → (take_prefix ram use_intel d c).pc < addr_mod
  unfolding take_prefix
  take_prefix_inside d c = omega arith

  prefix_rounds :
      (n fuel : ℕ) (c : Cursor)
      → IsInBounds c
      → c.decode_group ≡ 0
      → c.pc < addr_mod
      → is_prefix (upcoming c n) ≡ false
      → n + 2 ≤ fuel
      → Ends fuel c
  prefix_rounds n zero c b first inside plain h = absurd (omega arith)
  prefix_rounds zero (suc fuel) c b first inside plain h =
      opcode_round (suc fuel) c b
        (rw first (prefix-one c.instr_byte (ground (arith, b.byte_bound)) ∙ plain)) h
  prefix_rounds (suc n) (suc fuel) c b first inside plain h = find-suc fuel c (λ c' e.
      let b' = round-IsInBounds ram use_intel bytes c c' e b in
      let d = table_entry c.decode_group c.instr_byte in
      elim (round-again ram use_intel c c' e) [
        | inl (class, e') ↦ elim (take_prefix_group d c first) [
          | inl one ↦ second_table_round fuel c' b' (rw e' one) (omega arith)
          | inr still ↦
              prefix_rounds n fuel c' b' (rw e' still) (rw e' (take_prefix_inside d c))
                (rw e' (ap is_prefix (upcoming-take_prefix n d c inside) ∙ plain)) (omega arith)
        ]
        | inr (class, e') ↦
            group_round fuel c' b'
              (rw e' (
                taken_group d c
                  (group_lem c.decode_group c.instr_byte b.group_bound b.byte_bound class).1))
              (omega arith)
      ])

upcoming-start :
    (ram : ℕ → ℕ) (use_intel : ℕ) (bytes : (a : ℕ) → ram a < 256) (n pc : ℕ)
    → pc < addr_mod
    → upcoming ram use_intel bytes (start_cursor ram use_intel pc) n ≡ ram ((pc + n) % addr_mod)
upcoming-start ram use_intel bytes zero pc inside = ap ram (omega arith)
upcoming-start ram use_intel bytes (suc n) pc inside = ap ram (omega arith)

-- For a memory of bytes: where the byte `n` places behind `pc` is not a prefix (0x0F, a segment
-- override, a size override, LOCK or REP), the decoder needs no more than `n + 2` rounds of its
-- loop: it returns.
pub arch_x86_decode_instr-ends :
    (ram : ℕ → ℕ) (use_intel n fuel pc : ℕ)
    → ((a : ℕ) → ram a < 256)
    → pc < addr_mod
    → is_prefix (ram ((pc + n) % addr_mod)) ≡ false
    → n + 2 ≤ fuel
    → arch_x86_decode_instr ram use_intel fuel pc ≢ Decoded.out_of_fuel
unfolding arch_x86_decode_instr
arch_x86_decode_instr-ends ram use_intel n fuel pc bytes inside plain h =
    let ends =
      prefix_rounds ram use_intel bytes n fuel (start_cursor ram use_intel pc)
        (start_cursor-IsInBounds ram use_intel bytes pc) refl (omega arith)
        (ap is_prefix (upcoming-start ram use_intel bytes n pc inside) ∙ plain) h in
    elim (Found-cases (find ram use_intel fuel (start_cursor ram use_intel pc))) [
      | inl e ↦ rw (arch_x86_decode_instr, e) (λ h. cc h)
      | inr (inl e) ↦ absurd (ends e)
      | inr (inr (c, d, o, e)) ↦ rw (arch_x86_decode_instr, e) (λ h. cc h)
    ]
