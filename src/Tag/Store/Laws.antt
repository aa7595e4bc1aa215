-- ===== src/Tag/Store/Laws.antt =====
-- What reading a tag after `or_tag` gives.
use libcpu.Base.{
  ℕ, zero, suc, ◌+◌, ◌-◌, ◌≤◌, ◌<◌, ◌≡◌, ap, inl, inr, true, false, ◌&&◌, ◌||◌, List, [], ◌∷◌,
  arith, ◌==◌, if◌then◌else◌, Option-cases, has, has-bit_or, bit_or, length, length-set, get_or,
  get_or-set_self, get_or-set_ne,
}
use native.Mathlib.Decide.{ℕ_discrete}
use libcpu.Tag.Flags.{tag_code}
use libcpu.Tag.Store.{Cpu, Tagging, array, is_inside_code_area, or_tag, get_tag, is_code, or_item}

-- The array covers the code area.
abbrev pub IsSized : Cpu → Tagging → Type 0
IsSized cpu s = length (array s) ≡ cpu.code_end - cpu.code_start

-- The items that carry no TAG_CODE.
abbrev pub uncoded_items : List ℕ → ℕ
uncoded_items [] = 0
uncoded_items (x ∷ xs) = (if has x tag_code then 0 else 1) + uncoded_items xs

abbrev pub uncoded : Tagging → ℕ
uncoded s = uncoded_items (array s)

pub uncoded-le-length : (xs : List ℕ) → uncoded_items xs ≤ length xs
uncoded-le-length [] = omega arith
uncoded-le-length (x ∷ xs) = ground (arith, uncoded-le-length xs)

uncoded-or_item_le : (xs : List ℕ) (i t : ℕ) → uncoded_items (or_item i t xs) ≤ uncoded_items xs
uncoded-or_item_le [] i t = omega arith
uncoded-or_item_le (x ∷ xs) zero t = ground (arith, has-bit_or x t tag_code)
uncoded-or_item_le (x ∷ xs) (suc i) t = omega (arith, uncoded-or_item_le xs i t)

-- Marking an item that had no TAG_CODE makes them fewer.
uncoded-or_item_lt :
    (xs : List ℕ) (i t : ℕ)
    → i < length xs
    → has (get_or xs i 0) tag_code ≡ false
    → has t tag_code ≡ true
    → uncoded_items (or_item i t xs) < uncoded_items xs
uncoded-or_item_lt [] i t h p q = absurd (omega arith)
uncoded-or_item_lt (x ∷ xs) zero t h p q = ground (arith, has-bit_or x t tag_code)
uncoded-or_item_lt (x ∷ xs) (suc i) t h p q =
    omega (arith, uncoded-or_item_lt xs i t (omega arith) p q)

get_or-or_item :
    (xs : List ℕ) (i t j : ℕ)
    → i < length xs
    → get_or (or_item i t xs) j 0 ≡ (if i == j then bit_or (get_or xs j 0) t else get_or xs j 0)
get_or-or_item xs i t j h = elim (ℕ_discrete i j) [
  | yes e ↦ ground (arith, get_or-set_self xs i (bit_or (get_or xs i 0) t) 0 h)
  | no ne ↦ ground (arith, get_or-set_ne xs i j (bit_or (get_or xs i 0) t) 0 ne)
]

pub tags_dirty-or_tag :
    (cpu : Cpu) (s : Tagging) (a t : ℕ) → (or_tag cpu s a t).tags_dirty ≡ s.tags_dirty
unfolding or_tag
tags_dirty-or_tag cpu s a t = ground arith

pub file_entries-or_tag :
    (cpu : Cpu) (s : Tagging) (a t : ℕ) → (or_tag cpu s a t).file_entries ≡ s.file_entries
unfolding or_tag
file_entries-or_tag cpu s a t = ground arith

module _ (cpu : Cpu) (s : Tagging) (sized : IsSized cpu s) where
  array-or_tag :
      (a t : ℕ)
      → array (or_tag cpu s a t)
        ≡ (if is_inside_code_area cpu a then or_item (a - cpu.code_start) t (array s) else array s)
  unfolding or_tag
  array-or_tag a t = elim (Option-cases s.tag) [ inl e ↦ ground arith | inr (xs, e) ↦ ground arith ]

  inside_index : (a : ℕ) → is_inside_code_area cpu a ≡ true → a - cpu.code_start < length (array s)
  unfolding is_inside_code_area
  inside_index a h = ground arith

  pub or_tag-IsSized : (a t : ℕ) → IsSized cpu (or_tag cpu s a t)
  or_tag-IsSized a t = ground (
    arith,
    ap length (array-or_tag a t),
    length-set (array s) (a - cpu.code_start) (bit_or (get_or (array s) (a - cpu.code_start) 0) t),
  )

  pub uncoded-or_tag_le : (a t : ℕ) → uncoded (or_tag cpu s a t) ≤ uncoded s
  uncoded-or_tag_le a t = ground (
    arith,
    ap uncoded_items (array-or_tag a t),
    uncoded-or_item_le (array s) (a - cpu.code_start) t,
  )

  pub uncoded-or_tag_lt :
      (a t : ℕ)
      → is_inside_code_area cpu a ≡ true
      → is_code cpu s a ≡ false
      → has t tag_code ≡ true
      → uncoded (or_tag cpu s a t) < uncoded s
  unfolding is_code get_tag
  uncoded-or_tag_lt a t inside new coded = ground (
    arith,
    ap uncoded_items (array-or_tag a t),
    inside_index a inside,
    uncoded-or_item_lt (array s) (a - cpu.code_start) t,
  )

  -- `or_tag` adds its bits at its own address, if that lies in the code area, and nowhere else.
  pub get_tag-or_tag :
      (a t b : ℕ)
      → get_tag cpu (or_tag cpu s a t) b ≡ (
          if is_inside_code_area cpu a && (a == b)
          then bit_or (get_tag cpu s b) t
          else get_tag cpu s b)
  unfolding get_tag is_inside_code_area
  get_tag-or_tag a t b = ground (
    arith,
    ap (λ (xs : List ℕ). get_or xs (b - cpu.code_start) 0) (array-or_tag a t),
    inside_index a,
    get_or-or_item (array s) (a - cpu.code_start) t (b - cpu.code_start),
  )

  pub is_code-or_tag :
      (a t b : ℕ)
      → is_code cpu (or_tag cpu s a t) b
        ≡ (is_code cpu s b || (has t tag_code && is_inside_code_area cpu a && (a == b)))
  unfolding is_code
  is_code-or_tag a t b =
      ground (arith, get_tag-or_tag a t b, has-bit_or (get_tag cpu s b) t tag_code)

  -- No tag bit is lost.
  pub has_tag-or_tag :
      (a t b m : ℕ)
      → has (get_tag cpu s b) m ≡ true
      → has (get_tag cpu (or_tag cpu s a t) b) m ≡ true
  has_tag-or_tag a t b m h = ground (arith, get_tag-or_tag a t b, has-bit_or (get_tag cpu s b) t m)
