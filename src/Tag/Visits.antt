-- ===== src/Tag/Visits.antt =====
-- What a part of the search does to the tags: a calculus that follows the sequence of the code.
pub mod Mark
use libcpu.Base.{
  ℕ, ◌+◌, ◌≤◌, ◌<◌, ◌≡◌, ◌⊎◌, inl, inr, Bool, true, false, not, ◌&&◌, ◌||◌, List, [], ◌∷◌, ◌++◌,
  arith, if◌then◌else◌, has, bit_or, OneOf, refl, sym, ap, has-part, has-bit_or, Bool-cases, ◌∙◌,
  ◌==◌, ==_iff,
}
use libcpu.Tag.Flags.{tag_code, tag_conditional, tag_after_cond, codegen_tag_limit}
use libcpu.Tag.Store.{Cpu, Tagging, is_inside_code_area, or_tag, get_tag, is_code, array}
use libcpu.Tag.Store.Laws.{
  tags_dirty-or_tag, file_entries-or_tag, IsSized, uncoded, or_tag-IsSized, uncoded-or_tag_le,
  is_code-or_tag, has_tag-or_tag, get_tag-or_tag,
}
use libcpu.Tag.Arch.{Written, tag_of, next_pc_of}
use libcpu.Tag.Flow.{Flow, Reach}

pub OneOf-append : (q : ℕ) (xs ys : List ℕ) → OneOf q (xs ++ ys) → OneOf q xs ⊎ OneOf q ys
OneOf-append q [] ys h = inr h
OneOf-append q (x ∷ xs) ys (inl e) = inl (inl e)
OneOf-append q (x ∷ xs) ys (inr h) = elim (OneOf-append q xs ys h) [
  | inl k ↦ inl (inr k)
  | inr k ↦ inr k
]

pub OneOf-append_left : (q : ℕ) (xs ys : List ℕ) → OneOf q xs → OneOf q (xs ++ ys)
OneOf-append_left q (x ∷ xs) ys (inl e) = inl e
OneOf-append_left q (x ∷ xs) ys (inr h) = inr (OneOf-append_left q xs ys h)
OneOf-append_left q [] ys h = absurd h

pub OneOf-append_right : (q : ℕ) (xs ys : List ℕ) → OneOf q ys → OneOf q (xs ++ ys)
OneOf-append_right q [] ys h = h
OneOf-append_right q (x ∷ xs) ys h = inr (OneOf-append_right q xs ys h)

-- CPU_CODEGEN_TAG_LIMIT is off.
abbrev pub Unlimited : Cpu → Type 0
Unlimited cpu = has cpu.flags_codegen codegen_tag_limit ≡ false

-- The tags that the tagger adds to those of the instruction, without TAG_CODE.
abbrev pub other_tags : ℕ
other_tags = 0x7f00

-- The tags of the tagger.
abbrev pub tagger_tags : ℕ
tagger_tags = bit_or other_tags tag_code

-- Below its own tags the tagger keeps the instruction's, at code, and nothing elsewhere.
abbrev pub IsLow : Cpu → (ℕ → Written) → Tagging → Type 0
IsLow cpu tag_instr s =
    (a mask : ℕ)
    → has tagger_tags mask ≡ false
    → has (get_tag cpu s a) mask ≡ (is_code cpu s a && has (tag_of (tag_instr a)) mask)

-- Inside the code area, what follows a conditional instruction is labelled.
abbrev pub LabelsNext : Cpu → (ℕ → Written) → ℕ → Tagging → Type 0
LabelsNext cpu tag_instr a s =
    has (tag_of (tag_instr a)) tag_conditional ≡ true
    → is_inside_code_area cpu (next_pc_of (tag_instr a)) ≡ true
    → has (get_tag cpu s (next_pc_of (tag_instr a))) tag_after_cond ≡ true

module _ (cpu : Cpu) (tag_instr : ℕ → Written) where
  -- The search went through the addresses `qs` and all that it found from there.
  pub record Visits (s s' : Tagging) (qs : List ℕ) : Type 0 where
    pub sized : IsSized cpu s'
    pub fewer : uncoded s' ≤ uncoded s
    pub same_dirty : s'.tags_dirty ≡ s.tags_dirty
    pub same_entries : s'.file_entries ≡ s.file_entries
    pub keeps : (a : ℕ) → is_code cpu s a ≡ true → is_code cpu s' a ≡ true
    pub keeps_tags : (a t : ℕ) → has (get_tag cpu s a) t ≡ true → has (get_tag cpu s' a) t ≡ true
    pub sound :
        (a : ℕ)
        → is_code cpu s' a ≡ true
        → (is_code cpu s a ≡ true) ⊎ ((q : ℕ) × OneOf q qs × Reach cpu tag_instr q a)
    pub hits :
        Unlimited cpu
        → (q : ℕ) → OneOf q qs
        → is_inside_code_area cpu q ≡ true
        → is_code cpu s' q ≡ true
    pub closed :
        Unlimited cpu
        → (a q : ℕ) → is_code cpu s' a ≡ true
        → Flow cpu tag_instr a q
        → is_inside_code_area cpu q ≡ true
        → (is_code cpu s a ≡ true) ⊎ (is_code cpu s' q ≡ true)
    pub low : IsLow cpu tag_instr s → IsLow cpu tag_instr s'
    pub labels :
        (a : ℕ) → is_code cpu s' a ≡ true → (is_code cpu s a ≡ true) ⊎ LabelsNext cpu tag_instr a s'

  pub Visits-refl : (s : Tagging) → IsSized cpu s → Visits s s []
  Visits-refl s sized = record {
    sized = sized;
    fewer = omega arith;
    same_dirty = refl;
    same_entries = refl;
    keeps = λ a h. h;
    keeps_tags = λ a t h. h;
    sound = λ a h. inl h;
    hits = λ u q h. absurd h;
    closed = λ u a q h f i. inl h;
    low = λ h. h;
    labels = λ a h. inl h;
  }

  pub Visits-or_tag :
      (s : Tagging) (a t : ℕ)
      → IsSized cpu s
      → bit_or t other_tags ≡ other_tags
      → Visits s (or_tag cpu s a t) []
  Visits-or_tag s a t sized part = record {
    sized = or_tag-IsSized cpu s sized a t;
    fewer = uncoded-or_tag_le cpu s sized a t;
    same_dirty = tags_dirty-or_tag cpu s a t;
    same_entries = file_entries-or_tag cpu s a t;
    keeps = λ b h. sym (same_code b) ∙ h;
    keeps_tags = λ b m h. has_tag-or_tag cpu s sized a t b m h;
    sound = λ b h. inl (same_code b ∙ h);
    hits = λ u q h. absurd h;
    closed = λ u b q h f i. inl (same_code b ∙ h);
    low = λ h b mask free.
        same_low b mask free
        ∙ h b mask free
        ∙ ap (λ x. x && has (tag_of (tag_instr b)) mask) (same_code b);
    labels = λ b h. inl (same_code b ∙ h);
  }
    where
      same_code : (b : ℕ) → is_code cpu s b ≡ is_code cpu (or_tag cpu s a t) b
      same_code b =
          ground (arith, is_code-or_tag cpu s sized a t b, has-part t other_tags tag_code part)

      same_low :
          (b mask : ℕ)
          → has tagger_tags mask ≡ false
          → has (get_tag cpu (or_tag cpu s a t) b) mask ≡ has (get_tag cpu s b) mask
      same_low b mask free = ground (
        arith,
        get_tag-or_tag cpu s sized a t b,
        has-bit_or (get_tag cpu s b) t mask,
        has-part t other_tags mask part,
        has-bit_or other_tags tag_code mask,
      )

  pub Visits-append :
      {s s1 s2 : Tagging} (xs ys : List ℕ)
      → Visits s s1 xs
      → Visits s1 s2 ys
      → Visits s s2 (xs ++ ys)
  Visits-append {s} {s1} {s2} xs ys v w = record {
    sized = w.sized;
    fewer = omega arith;
    same_dirty = w.same_dirty ∙ v.same_dirty;
    same_entries = w.same_entries ∙ v.same_entries;
    keeps = λ a h. w.keeps a (v.keeps a h);
    keeps_tags = λ a t h. w.keeps_tags a t (v.keeps_tags a t h);
    sound = λ a h. from_either a (w.sound a h);
    hits = λ u q h i. elim (OneOf-append q xs ys h) [
      | inl k ↦ w.keeps q (v.hits u q k i)
      | inr k ↦ w.hits u q k i
    ];
    closed = λ u a q h f i. elim (w.closed u a q h f i) [
      | inl old ↦ elim (v.closed u a q old f i) [ inl o ↦ inl o | inr c ↦ inr (w.keeps q c) ]
      | inr c ↦ inr c
    ];
    low = λ h. w.low (v.low h);
    labels = λ a h. elim (w.labels a h) [
      | inl old ↦ elim (v.labels a old) [
        | inl o ↦ inl o
        | inr l ↦ inr (λ c i. w.keeps_tags _ tag_after_cond (l c i))
      ]
      | inr l ↦ inr l
    ];
  }
    where
      FoundFrom : ℕ → Type 0
      FoundFrom a =
          (is_code cpu s a ≡ true) ⊎ ((q : ℕ) × OneOf q (xs ++ ys) × Reach cpu tag_instr q a)

      from_left :
          (a : ℕ)
          → (is_code cpu s a ≡ true) ⊎ ((q : ℕ) × OneOf q xs × Reach cpu tag_instr q a)
          → FoundFrom a
      from_left a (inl h) = inl h
      from_left a (inr (q, o, r)) = inr (q, OneOf-append_left q xs ys o, r)

      from_either :
          (a : ℕ)
          → (is_code cpu s1 a ≡ true) ⊎ ((q : ℕ) × OneOf q ys × Reach cpu tag_instr q a)
          → FoundFrom a
      from_either a (inl h) = from_left a (v.sound a h)
      from_either a (inr (q, o, r)) = inr (q, OneOf-append_right q xs ys o, r)
