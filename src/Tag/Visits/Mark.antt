-- ===== src/Tag/Visits/Mark.antt =====
-- The first visit of an address: it is marked, then what may run after it is visited.
use mathlib.Core.Path.{subst}
use native.Mathlib.Decide.{ℕ_discrete}
use libcpu.Base.{
  has, ap, ℕ, ◌≡◌, ◌⊎◌, inl, inr, true, false, List, [], ◌∷◌, arith, bit_or, OneOf, refl,
  has-bit_or, ◌∙◌,
}
use libcpu.Tag.Flags.{tag_code}
use libcpu.Tag.Store.{Cpu, Tagging, is_inside_code_area, or_tag, is_code, get_tag}
use libcpu.Tag.Store.Laws.{
  IsSized, uncoded-or_tag_le, is_code-or_tag, has_tag-or_tag, tags_dirty-or_tag,
  file_entries-or_tag, get_tag-or_tag,
}
use libcpu.Tag.Arch.{Written, tag_of}
use libcpu.Tag.Flow.{Flow, Reach, here, step, Reach-trans, Reach-start_inside}
use libcpu.Tag.Visits.{Visits, Unlimited, IsLow, LabelsNext, tagger_tags, other_tags}

module _ (cpu : Cpu) (tag_instr : ℕ → Written) (s : Tagging) (sized : IsSized cpu s) where
  -- Nothing is done at an address outside the code area, or at one that is code already.
  pub Visits-known :
      (pc : ℕ)
      → (is_inside_code_area cpu pc ≡ false) ⊎ (is_code cpu s pc ≡ true)
      → Visits cpu tag_instr s s (pc ∷ [])
  Visits-known pc known = record {
    sized = sized;
    fewer = omega arith;
    same_dirty = refl;
    same_entries = refl;
    keeps = λ a h. h;
    keeps_tags = λ a t h. h;
    sound = λ a h. inl h;
    hits = λ u q o i. ground arith;
    closed = λ u a q h f i. inl h;
    low = λ h. h;
    labels = λ a h. inl h;
  }

  -- Under the depth limit a call may return with nothing visited.
  pub Visits-limited : (pc : ℕ) → ¬ Unlimited cpu → Visits cpu tag_instr s s (pc ∷ [])
  Visits-limited pc limited = record {
    sized = sized;
    fewer = omega arith;
    same_dirty = refl;
    same_entries = refl;
    keeps = λ a h. h;
    keeps_tags = λ a t h. h;
    sound = λ a h. inl h;
    hits = λ u. absurd (limited u);
    closed = λ u. absurd (limited u);
    low = λ h. h;
    labels = λ a h. inl h;
  }

  module _ (pc t : ℕ) (inside : is_inside_code_area cpu pc ≡ true) (new : is_code cpu s pc ≡ false)
      (own : t ≡ tag_of (tag_instr pc)) where
    marked-cases :
        (a : ℕ)
        → is_code cpu (or_tag cpu s pc (bit_or t tag_code)) a ≡ true
        → (is_code cpu s a ≡ true) ⊎ (pc ≡ a)
    marked-cases a h = ground (arith, is_code-or_tag cpu s sized pc (bit_or t tag_code) a)

    marked_self : is_code cpu (or_tag cpu s pc (bit_or t tag_code)) pc ≡ true
    marked_self = ground (
      arith,
      is_code-or_tag cpu s sized pc (bit_or t tag_code) pc,
      has-bit_or t tag_code tag_code,
    )

    mark_bits :
        (mask : ℕ)
        → has tagger_tags mask ≡ false
        → has (bit_or t tag_code) mask ≡ has (tag_of (tag_instr pc)) mask
    mark_bits mask free = ground (
      arith,
      has-bit_or t tag_code mask,
      has-bit_or other_tags tag_code mask,
      ap (λ x. has x mask) own,
    )

    marked-IsLow : IsLow cpu tag_instr s → IsLow cpu tag_instr (or_tag cpu s pc (bit_or t tag_code))
    marked-IsLow h a mask free = elim (ℕ_discrete pc a) [
      | yes e ↦ ground (
        arith,
        get_tag-or_tag cpu s sized pc (bit_or t tag_code) pc,
        has-bit_or (get_tag cpu s pc) (bit_or t tag_code) mask,
        mark_bits mask free,
        h pc mask free,
        marked_self,
      )
      | no ne ↦ ground (
        arith,
        get_tag-or_tag cpu s sized pc (bit_or t tag_code) a,
        h a mask free,
        is_code-or_tag cpu s sized pc (bit_or t tag_code) a,
      )
    ]

    pub Visits-mark :
        {s' : Tagging} (qs : List ℕ)
        → ((q : ℕ) → OneOf q qs → Flow cpu tag_instr pc q)
        → ((q : ℕ) → Flow cpu tag_instr pc q → OneOf q qs)
        → Visits cpu tag_instr (or_tag cpu s pc (bit_or t tag_code)) s' qs
        → LabelsNext cpu tag_instr pc s'
        → Visits cpu tag_instr s s' (pc ∷ [])
    Visits-mark {s'} qs flows all v labelled = record {
      sized = v.sized;
      fewer = omega (arith, v.fewer, uncoded-or_tag_le cpu s sized pc (bit_or t tag_code));
      same_dirty = v.same_dirty ∙ tags_dirty-or_tag cpu s pc (bit_or t tag_code);
      same_entries = v.same_entries ∙ file_entries-or_tag cpu s pc (bit_or t tag_code);
      keeps =
          λ a h. v.keeps a (ground (arith, is_code-or_tag cpu s sized pc (bit_or t tag_code) a));
      keeps_tags =
          λ a m h. v.keeps_tags a m (has_tag-or_tag cpu s sized pc (bit_or t tag_code) a m h);
      sound = λ a h. from_marked a (v.sound a h);
      hits = λ u q o i. hit q o;
      closed = λ u a q h f i. elim (v.closed u a q h f i) [
        | inl m ↦ elim (marked-cases a m) [
          | inl old ↦ inl old
          | inr e ↦ inr (v.hits u q (all q (rw e f)) i)
        ]
        | inr c ↦ inr c
      ];
      low = λ h. v.low (marked-IsLow h);
      labels = λ a h. elim (v.labels a h) [
        | inl m ↦ elim (marked-cases a m) [
          | inl old ↦ inl old
          | inr e ↦ inr (subst (λ x. LabelsNext cpu tag_instr x s') e labelled)
        ]
        | inr l ↦ inr l
      ];
    }
      where
        hit : (q : ℕ) → OneOf q (pc ∷ []) → is_code cpu s' q ≡ true
        hit q (inl e) = rw e (v.keeps pc marked_self)
        hit q (inr f) = absurd f

        from_marked :
            (a : ℕ)
            → (is_code cpu (or_tag cpu s pc (bit_or t tag_code)) a ≡ true)
              ⊎ ((q : ℕ) × OneOf q qs × Reach cpu tag_instr q a)
            → (is_code cpu s a ≡ true) ⊎ ((q : ℕ) × OneOf q (pc ∷ []) × Reach cpu tag_instr q a)
        from_marked a (inl m) = elim (marked-cases a m) [
          | inl old ↦ inl old
          | inr e ↦ inr (pc, inl refl, rw (← e) (here inside))
        ]
        from_marked a (inr (q, o, r)) = inr (
          pc,
          inl refl,
          Reach-trans cpu tag_instr
              (step (here inside) (flows q o) (Reach-start_inside cpu tag_instr r)) r,
        )
