-- ===== src/Tag/Start/Exact.antt =====
-- The tagged code is exactly the reachable code, with the tags of its instructions.
use mathlib.Core.Option
use libcpu.Base.{
  refl, has, zero-has, false, ◌&&◌, ℕ, ◌-◌, ◌≡◌, ◌⊎◌, inl, inr, true, Option, some, List, [], ◌∷◌,
  ◌++◌, replicate, arith, OneOf, length-replicate, get_or-replicate, ap, get_or, sym, ◌∙◌,
}
use libcpu.Tag.Flags.{tag_unknown, tag_code, tag_after_cond}
use libcpu.Tag.Store.{Cpu, Tagging, is_code, get_tag, is_inside_code_area}
use libcpu.Tag.Store.Laws.{IsSized}
use libcpu.Tag.Arch.{Written, tag_of}
use libcpu.Tag.Flow.{Flow, Reach, here, step}
use libcpu.Tag.Visits.{
  Visits, Unlimited, IsLow, LabelsNext, OneOf-append, OneOf-append_left, OneOf-append_right,
}

is_code-same_tag :
    (cpu : Cpu) (s s' : Tagging) (a : ℕ) → s.tag ≡ s'.tag → is_code cpu s a ≡ is_code cpu s' a
unfolding is_code get_tag
is_code-same_tag cpu s s' a e = rw e

get_tag-same_tag :
    (cpu : Cpu) (s s' : Tagging) (a mask : ℕ)
    → s.tag ≡ s'.tag
    → has (get_tag cpu s a) mask ≡ has (get_tag cpu s' a) mask
unfolding get_tag
get_tag-same_tag cpu s s' a mask e = rw e

module _ (cpu : Cpu) (tag_instr : ℕ → Written) where
  -- The code is what can be reached from one of the entries `es`; it has the tags of its instructions,
  -- and what follows a conditional one is labelled.
  pub record IsExact (es : List ℕ) (s : Tagging) : Type 0 where
    pub sized : IsSized cpu s
    pub only : (a : ℕ) → is_code cpu s a ≡ true → (e : ℕ) × OneOf e es × Reach cpu tag_instr e a
    pub all : (e a : ℕ) → OneOf e es → Reach cpu tag_instr e a → is_code cpu s a ≡ true
    pub low : IsLow cpu tag_instr s
    pub labels : (a : ℕ) → is_code cpu s a ≡ true → LabelsNext cpu tag_instr a s

  -- One more search.
  module _ {s s' : Tagging} {es : List ℕ} (pc : ℕ) (unlimited : Unlimited cpu)
      (exact : IsExact es s) (v : Visits cpu tag_instr s s' (pc ∷ [])) where
    known-step :
        (a q : ℕ)
        → is_code cpu s a ≡ true
        → Flow cpu tag_instr a q
        → is_inside_code_area cpu q ≡ true
        → is_code cpu s q ≡ true
    known-step a q c f i = let (e, o, r) = exact.only a c in exact.all e q o (step r f i)

    reached :
        {e a : ℕ} → Reach cpu tag_instr e a → OneOf e (es ++ pc ∷ []) → is_code cpu s' a ≡ true
    reached {e} (here i) o = elim (OneOf-append e es (pc ∷ []) o) [
      | inl k ↦ v.keeps e (exact.all e e k (here i))
      | inr k ↦ v.hits unlimited e k i
    ]
    reached (step {a = a} {q = q} r f i) o = elim (v.closed unlimited a q (reached r o) f i) [
      | inl old ↦ v.keeps q (known-step a q old f i)
      | inr c ↦ c
    ]

    found :
        (a : ℕ)
        → (is_code cpu s a ≡ true) ⊎ ((q : ℕ) × OneOf q (pc ∷ []) × Reach cpu tag_instr q a)
        → (e : ℕ) × OneOf e (es ++ pc ∷ []) × Reach cpu tag_instr e a
    found a (inl c) = let (e, o, r) = exact.only a c in (e, OneOf-append_left e es (pc ∷ []) o, r)
    found a (inr (q, o, r)) = (q, OneOf-append_right q es (pc ∷ []) o, r)

    pub IsExact-Visits : IsExact (es ++ pc ∷ []) s'
    IsExact-Visits = record {
      sized = v.sized;
      only = λ a c. found a (v.sound a c);
      all = λ e a o r. reached r o;
      low = v.low exact.low;
      labels = λ a c. elim (v.labels a c) [
        | inl old ↦ (λ cond i. v.keeps_tags _ tag_after_cond (exact.labels a old cond i))
        | inr l ↦ l
      ];
    }

  pub IsExact-same_tag :
      {es : List ℕ} {s : Tagging} (s' : Tagging) → s.tag ≡ s'.tag → IsExact es s → IsExact es s'
  IsExact-same_tag {s} s' e exact = record {
    sized = rw (← e) exact.sized;
    only = λ a c. exact.only a (is_code-same_tag cpu s s' a e ∙ c);
    all = λ x a o r. sym (is_code-same_tag cpu s s' a e) ∙ exact.all x a o r;
    low = λ a mask free.
        sym (get_tag-same_tag cpu s s' a mask e)
        ∙ exact.low a mask free
        ∙ ap (λ x. x && has (tag_of (tag_instr a)) mask) (is_code-same_tag cpu s s' a e);
    labels = λ a c cond i.
        sym (get_tag-same_tag cpu s s' _ tag_after_cond e)
        ∙ exact.labels a (is_code-same_tag cpu s s' a e ∙ c) cond i;
  }

  -- A fresh array holds no code.
  pub IsExact-fresh :
      (s : Tagging)
      → s.tag ≡ some (replicate (cpu.code_end - cpu.code_start) tag_unknown)
      → IsExact [] s
  IsExact-fresh s e = record {
    sized = rw e (length-replicate (cpu.code_end - cpu.code_start) tag_unknown);
    only = λ a c. absurd (blank a c);
    all = λ x a o r. absurd o;
    low = λ a mask free. rw (blank_tag a mask, not_code a) refl;
    labels = λ a c. absurd (blank a c);
  }
    where
      blank_tag : (a mask : ℕ) → has (get_tag cpu s a) mask ≡ false
      blank_tag a mask =
          unfold get_tag in
          ground (
            arith,
            ap (λ (t : Option (List ℕ)). get_or (Option.get_or t []) (a - cpu.code_start) 0) e,
            get_or-replicate (cpu.code_end - cpu.code_start) (a - cpu.code_start) tag_unknown,
            zero-has mask,
          )

      not_code : (a : ℕ) → is_code cpu s a ≡ false
      not_code a = unfold is_code in blank_tag a tag_code

      blank : (a : ℕ) → is_code cpu s a ≡ true → ⊥
      blank a c = cc (not_code a, c)
