-- ===== src/Translate/Alike.antt =====
-- Tags that TAG_TRANSLATED alone tells apart, as those before and after a block of
-- `cpu_translate_all` (libcpu/translate_all.cpp): the guest means the same by them.
use libcpu.Base.{
  ℕ, zero, suc, ◌<◌, ◌≡◌, refl, sym, ap, ◌∙◌, true, false, arith, has, ◌|||◌, has-bit_or, has-part,
}
use libcpu.Tag.Store.{Cpu, Tagging, or_tag, get_tag, is_code, is_start_of_basicblock, label_tags}
use libcpu.Tag.Store.Laws.{IsSized, get_tag-or_tag}
use libcpu.Tag.Arch.{Locals}
use libcpu.Tag.Flags.{
  tag_continue, tag_call, tag_branch, tag_ret, tag_conditional, tag_delay_slot, tag_trap,
  tag_translated, tag_code,
}
use libcpu.Tag.Visits.{tagger_tags}
use libcpu.Translate.Meaning.{Machine}
use libcpu.Translate.Guest.{Config, at, trapped, IsKind, destination, guest_step, guest_from}

abbrev pub IsAlike : (ℕ → ℕ) → (ℕ → ℕ) → Type 0
IsAlike t t' = (pc mask : ℕ) → has tag_translated mask ≡ false → has (t' pc) mask ≡ has (t pc) mask

pub or_tag-IsAlike :
    (cpu : Cpu) (s : Tagging) (a : ℕ)
    → IsSized cpu s
    → IsAlike (get_tag cpu s) (get_tag cpu (or_tag cpu s a tag_translated))
or_tag-IsAlike cpu s a sized pc mask h = ground (
  arith,
  get_tag-or_tag cpu s sized a tag_translated pc,
  has-bit_or (get_tag cpu s pc) tag_translated mask,
)

-- A tag of the same kind, at least without the tagger's own tags.
pub IsKind-same :
    (x y : ℕ)
    → ((mask : ℕ) → has tagger_tags mask ≡ false → has y mask ≡ has x mask)
    → IsKind x
    → IsKind y
IsKind-same x y same k = record {
  exclusive =
      rw
        (
          same tag_delay_slot refl,
          same tag_continue refl,
          same (tag_branch ||| tag_call ||| tag_ret) refl,
          same tag_trap refl,
        )
        k.exclusive;
  slot_jumps =
      rw (same tag_delay_slot refl, same (tag_branch ||| tag_call ||| tag_ret) refl) k.slot_jumps;
}

module _ (t t' : ℕ → ℕ) (alike : IsAlike t t') where
  module _ {S : Type 0} (m : Machine S) (locals : ℕ → Locals) (length : ℕ → ℕ) where
    guest_step-alike :
        (pc : ℕ) (s : S) → guest_step m t' locals length pc s ≡ guest_step m t locals length pc s
    unfolding guest_step destination
    guest_step-alike pc s =
        rw
          (
            alike pc tag_delay_slot refl,
            alike pc tag_conditional refl,
            alike pc (tag_branch ||| tag_call ||| tag_ret) refl,
            alike pc (tag_call ||| tag_branch) refl,
            alike pc tag_trap refl,
          )
          refl

    pub guest_from-alike :
        (n : ℕ) (c : Config S)
        → guest_from m t' locals length n c ≡ guest_from m t locals length n c
    unfolding guest_from
    guest_from-alike zero c = refl
    guest_from-alike (suc n) (at pc s) =
        ap (guest_from m t' locals length n) (guest_step-alike pc s)
        ∙ guest_from-alike n (guest_step m t locals length pc s)
    guest_from-alike (suc n) (trapped s) = refl

-- What the translator relies on: the tags of code fit together, code that runs on after a
-- conditional instruction is the start of a block, and the code goes on at higher addresses.
pub record IsTagged (cpu : Cpu) (locals : ℕ → Locals) (s : Tagging) : Type 0 where
  pub sized : IsSized cpu s
  pub kinds : (pc : ℕ) → is_code cpu s pc ≡ true → IsKind (get_tag cpu s pc)
  pub after_cond :
      (pc : ℕ)
      → is_code cpu s pc ≡ true
      → has (get_tag cpu s pc) tag_conditional ≡ true
      → is_code cpu s (locals pc).next_pc ≡ true
      → is_start_of_basicblock cpu s (locals pc).next_pc ≡ true
  pub advances : (pc : ℕ) → is_code cpu s pc ≡ true → pc < (locals pc).next_pc

module _ (cpu : Cpu) (s s' : Tagging) (alike : IsAlike (get_tag cpu s) (get_tag cpu s')) where
  pub is_code-alike : (pc : ℕ) → is_code cpu s' pc ≡ is_code cpu s pc
  unfolding is_code
  is_code-alike pc = alike pc tag_code refl

  is_start-alike : (pc : ℕ) → is_start_of_basicblock cpu s' pc ≡ is_start_of_basicblock cpu s pc
  unfolding is_start_of_basicblock
  is_start-alike pc = rw (alike pc label_tags refl, alike pc tag_code refl) refl

  pub IsTagged-alike :
      (locals : ℕ → Locals) → IsSized cpu s' → IsTagged cpu locals s → IsTagged cpu locals s'
  IsTagged-alike locals sized w = record {
    sized = sized;
    kinds = λ pc h.
        IsKind-same _ _
          (λ mask free. alike pc mask (has-part tag_translated tagger_tags mask refl free))
          (w.kinds pc (sym (is_code-alike pc) ∙ h));
    after_cond = λ pc h c n.
        is_start-alike (locals pc).next_pc
        ∙ w.after_cond pc (sym (is_code-alike pc) ∙ h) (sym (alike pc tag_conditional refl) ∙ c)
            (sym (is_code-alike (locals pc).next_pc) ∙ n);
    advances = λ pc h. w.advances pc (sym (is_code-alike pc) ∙ h);
  }
