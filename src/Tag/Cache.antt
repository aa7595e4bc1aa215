-- ===== src/Tag/Cache.antt =====
-- The entry cache of libcpu/tag.cpp: `tag_start` appends each entry as four bytes, and
-- `init_tagging` reads them back with `fgetc`. The name of the file (a digest of the code) and the
-- file system are outside: a file is the list of its bytes.
pub mod RoundTrip
use libcpu.Base.{
  ℕ, ◌+◌, ◌-◌, ◌*◌, ◌/◌, ◌%◌, ◌^◌, Option, none, some, List, [], ◌∷◌, ltb, if◌then◌else◌, bit_and,
  bit_or,
}

-- An `int` (its 32 bits) converted to `addr_t`.
abbrev pub int_to_addr : ℕ → ℕ
int_to_addr w = if ltb w (2 ^ 31) then w else w + (2 ^ 64 - 2 ^ 32)

-- The 32 bits of the `int` that `fgetc` returns: a byte, or EOF, which is -1.
abbrev fgetc : Option ℕ → ℕ
fgetc none = 2 ^ 32 - 1
fgetc (some b) = b

-- `fgetc(f) << (i*8)`, converted for the `|=`.
abbrev shifted : ℕ → Option ℕ → ℕ
shifted i c = int_to_addr (fgetc c * 2 ^ (i * 8) % 2 ^ 32)

unfoldable pub read_entry : Option ℕ → Option ℕ → Option ℕ → Option ℕ → ℕ
read_entry a b c d =
    bit_or (bit_or (bit_or (bit_or 0 (shifted 0 a)) (shifted 1 b)) (shifted 2 c)) (shifted 3 d)

-- `while (!feof(f))`: the end of the file is seen only by a read that goes past it.
unfoldable pub read_entries : List ℕ → List ℕ
unfolding read_entry
read_entries (a ∷ b ∷ c ∷ d ∷ rest) =
    read_entry (some a) (some b) (some c) (some d) ∷ read_entries rest
read_entries (a ∷ b ∷ c ∷ []) = read_entry (some a) (some b) (some c) none ∷ []
read_entries (a ∷ b ∷ []) = read_entry (some a) (some b) none none ∷ []
read_entries (a ∷ []) = read_entry (some a) none none none ∷ []
read_entries [] = read_entry none none none none ∷ []

-- `fputc((pc >> (i*8))&0xFF, cpu->file_entries)` for i from 0 to 3.
unfoldable pub entry_bytes : ℕ → List ℕ
entry_bytes pc =
    bit_and pc 0xff
    ∷ bit_and (pc / 2 ^ 8) 0xff
    ∷ bit_and (pc / 2 ^ 16) 0xff
    ∷ bit_and (pc / 2 ^ 24) 0xff
    ∷ []
