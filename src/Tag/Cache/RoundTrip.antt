-- ===== src/Tag/Cache/RoundTrip.antt =====
-- Reading the entry cache back.
use libcpu.Base.{
  ℕ, ◌+◌, ◌-◌, ◌*◌, ◌/◌, ◌%◌, ◌^◌, ◌<◌, ◌≡◌, refl, some, List, [], ◌∷◌, ◌++◌, bit_and, arith,
  bit_or-eq-add, bit_or-zero, bit_and-low, ◌∙◌, ap,
}
use mathlib.Core.List.{map}
use libcpu.Tag.Flags.{new_pc_none}
use libcpu.Tag.Cache.{int_to_addr, read_entry, read_entries, entry_bytes}

abbrev IsByte : ℕ → Type 0
IsByte a = a < 2 ^ 8

-- Four bytes are the little-endian number that they spell, with the sign of an `int`.
read_entry_sum :
    (a b c d : ℕ)
    → IsByte a
    → IsByte b
    → IsByte c
    → IsByte d
    → read_entry (some a) (some b) (some c) (some d)
      ≡ int_to_addr (a + b * 2 ^ 8 + c * 2 ^ 16 + d * 2 ^ 24)
unfolding read_entry
read_entry_sum a b c d ha hb hc hd = ground (
  arith,
  bit_or-zero a,
  bit_or-eq-add 8 a b (omega arith),
  bit_or-eq-add 16 (a + b * 2 ^ 8) c (omega arith),
  bit_or-eq-add 24 (a + b * 2 ^ 8 + c * 2 ^ 16) d (omega arith),
  bit_or-eq-add 24 (a + b * 2 ^ 8 + c * 2 ^ 16) (d + 2 ^ 40 - 2 ^ 8) (omega arith),
)

-- What an entry reads back as: its low 32 bits, with the sign of an `int`.
abbrev pub reloaded : ℕ → ℕ
reloaded pc = int_to_addr (pc % 2 ^ 32)

bit_and_byte : (a : ℕ) → bit_and a 0xff ≡ a % 2 ^ 8
bit_and_byte a = bit_and-low 8 a

four_bytes :
    (pc : ℕ)
    → pc % 2 ^ 8
        + pc / 2 ^ 8 % 2 ^ 8 * 2 ^ 8
        + pc / 2 ^ 16 % 2 ^ 8 * 2 ^ 16
        + pc / 2 ^ 24 % 2 ^ 8 * 2 ^ 24
      ≡ pc % 2 ^ 32
four_bytes pc = omega arith

read_entry_lem :
    (pc : ℕ)
    → read_entry
        (some (bit_and pc 0xff))
        (some (bit_and (pc / 2 ^ 8) 0xff))
        (some (bit_and (pc / 2 ^ 16) 0xff))
        (some (bit_and (pc / 2 ^ 24) 0xff))
      ≡ reloaded pc
read_entry_lem pc = simp bit_and_byte (
    read_entry_sum (pc % 2 ^ 8) (pc / 2 ^ 8 % 2 ^ 8) (pc / 2 ^ 16 % 2 ^ 8) (pc / 2 ^ 24 % 2 ^ 8)
      (omega arith) (omega arith) (omega arith) (omega arith)
    ∙ ap int_to_addr (four_bytes pc))

read_entries-entry_bytes :
    (pc : ℕ) (rest : List ℕ)
    → read_entries (entry_bytes pc ++ rest) ≡ reloaded pc ∷ read_entries rest
unfolding read_entries entry_bytes
read_entries-entry_bytes pc rest = ap (λ (t : ℕ). t ∷ read_entries rest) (read_entry_lem pc)

-- The file after `tag_start` wrote its entries.
abbrev pub entries_file : List ℕ → List ℕ
entries_file [] = []
entries_file (pc ∷ pcs) = entry_bytes pc ++ entries_file pcs

-- A file that `tag_start` wrote reads back as its entries in order, each reduced to its low 32 bits
-- and sign-extended, and one more entry that is NEW_PC_NONE.
pub read_entries-entries_file :
    (pcs : List ℕ) → read_entries (entries_file pcs) ≡ map reloaded pcs ++ new_pc_none ∷ []
read_entries-entries_file [] = unfold read_entries in refl
read_entries-entries_file (pc ∷ pcs) =
    read_entries-entry_bytes pc (entries_file pcs)
    ∙ ap (λ (t : List ℕ). reloaded pc ∷ t) (read_entries-entries_file pcs)
