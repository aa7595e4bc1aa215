-- ===== src/Frontend/Memory/Laws.antt =====
-- A byte that the code of `arch_load8` and `arch_store8` (libcpu/frontend.cpp) cuts out of a word is a
-- byte of RAM, for either endianness of the guest, with words swapped or not.
use libcpu.Base.{
  ℕ, zero, suc, ◌+◌, ◌-◌, ◌*◌, ◌/◌, ◌%◌, ◌^◌, ◌<◌, ◌≡◌, ◌∙◌, refl, ap, bit_and, bit_or, Bool, true,
  false, not, arith, bit_xor, bit_and-low, bit_and_comm, bit_or-eq-add, sign_extend, ltb,
}
use Prim.Native.Nat.{bit_and-bitwise}
use libcpu.Frontend.{ram32le}
use libcpu.Frontend.Value.{Value}
use libcpu.Frontend.Value.Laws.{word4, bit_and-split, byte0, byte1, byte2, byte3, swap32-word4}
use libcpu.Frontend.Code.{ArchInfo, Guest, on}
use libcpu.Frontend.Memory.{arch_load32_aligned, arch_get_shift8, aligned, arch_load8}

-- A guest with words of 32 bits.
abbrev pub wide : ArchInfo → Bool → Bool → ArchInfo
wide info le sw = record info { word_size = 32; little_endian = le; swapmem = sw }

abbrev pub word32 : ℕ → Value
word32 n = record { size = 32; word = n }

-- Byte `j` of a word, counted in the word and in RAM.
abbrev pub index_of : Bool → ℕ → ℕ
index_of true j = j
index_of false j = 3 - j

abbrev pub lane : Bool → Bool → ℕ → ℕ
lane true sw j = index_of (not sw) j
lane false sw j = index_of sw j

flip : (j : ℕ) → j < 4 → bit_xor j 3 ≡ 3 - j
flip zero h = refl
flip (suc zero) h = refl
flip (suc (suc zero)) h = refl
flip (suc (suc (suc zero))) h = refl
flip (suc (suc (suc (suc j)))) h = absurd (omega arith)

pub none_left : (j : ℕ) → bit_and j 0 ≡ 0
none_left j = bit_and_comm j 0 ∙ bit_and-bitwise 0 j

module _ (info : ArchInfo) (sw : Bool) (q j : ℕ) (small : q < 536870912) (within : j < 4) where
  pub aligned_lem : (le : Bool) → aligned (wide info le sw) (word32 (j + q * 4)) ≡ word32 (q * 4)
  unfolding aligned
  aligned_lem le = ap word32 (
      bit_and-split 2 j q 0 1073741823 within (omega arith)
      ∙ rw (bit_and-low 30 q, none_left j) (omega arith))

  low_bits : bit_and (j + q * 4) 3 ≡ j
  low_bits = bit_and-low 2 (j + q * 4) ∙ omega arith

  pub arch_get_shift8_lem :
      (le : Bool)
      → arch_get_shift8 (wide info le sw) (word32 (j + q * 4)) ≡ word32 (8 * index_of le j)
  unfolding arch_get_shift8
  arch_get_shift8_lem true = rw low_bits (ap word32 (omega arith))
  arch_get_shift8_lem false = rw (low_bits, flip j within) (ap word32 (omega arith))

-- An address in the lower half is its own index.
pub low_index : (n : ℕ) → n < 2147483648 → sign_extend 32 64 n ≡ n
low_index n h = let low : ltb n 2147483648 ≡ true = ground arith in rw low refl

-- A word of RAM.
module _ (g : Guest) (bytes : (a : ℕ) → g.ram a < 256) (q : ℕ) (small : q < 536870912) where
  abbrev r : ℕ → ℕ
  r k = g.ram (q * 4 + k)

  -- The word that is loaded, swapped or not.
  abbrev pub loaded : Bool → ℕ
  loaded false = word4 (r 0) (r 1) (r 2) (r 3)
  loaded true = word4 (r 3) (r 2) (r 1) (r 0)

  in_range : (k : ℕ) → k < 4 → (q * 4 + k) % 18446744073709551616 ≡ q * 4 + k
  in_range k h = omega arith

  ram32le_lem : ram32le g.ram (q * 4) ≡ loaded false
  unfolding ram32le
  ram32le_lem =
      rw
        (
          in_range 0 (omega arith),
          in_range 1 (omega arith),
          in_range 2 (omega arith),
          in_range 3 (omega arith),
        )
        (ap (λ (t : ℕ). bit_or (bit_or t (r 2 * 65536)) (r 3 * 16777216))
            (bit_or-eq-add 8 (r 0) (r 1) (bytes _))
          ∙ ap (λ (t : ℕ). bit_or t (r 3 * 16777216))
              (bit_or-eq-add 16 (r 0 + r 1 * 256) (r 2)
                (omega (arith, bytes (q * 4 + 0), bytes (q * 4 + 1))))
          ∙ bit_or-eq-add 24 (r 0 + r 1 * 256 + r 2 * 65536) (r 3)
              (omega (arith, bytes (q * 4 + 0), bytes (q * 4 + 1), bytes (q * 4 + 2)))
          ∙ omega arith)

  pub arch_load32_aligned_lem :
      (info : ArchInfo) (le sw : Bool)
      → arch_load32_aligned (wide info le sw) (word32 (q * 4)) g ≡ on (word32 (loaded sw)) g
  unfolding arch_load32_aligned
  arch_load32_aligned_lem info le false = rw (low_index (q * 4) (omega arith), ram32le_lem)
  arch_load32_aligned_lem info le true = rw (
    low_index (q * 4) (omega arith),
    ram32le_lem,
    swap32-word4 (r 0) (r 1) (r 2) (r 3) (bytes _) (bytes _) (bytes _) (bytes _),
  )

  byte_of :
      (b : ℕ → ℕ) (k : ℕ)
      → ((a : ℕ) → b a < 256)
      → k < 4
      → word4 (b 0) (b 1) (b 2) (b 3) / 2 ^ (8 * k) % 256 ≡ b k
  byte_of b zero p h = omega (arith, byte0 (b 0) (b 1) (b 2) (b 3) (p 0) (p 1) (p 2) (p 3))
  byte_of b (suc zero) p h = byte1 (b 0) (b 1) (b 2) (b 3) (p 0) (p 1) (p 2) (p 3)
  byte_of b (suc (suc zero)) p h = byte2 (b 0) (b 1) (b 2) (b 3) (p 0) (p 1) (p 2) (p 3)
  byte_of b (suc (suc (suc zero))) p h = byte3 (b 0) (b 1) (b 2) (b 3) (p 0) (p 1) (p 2) (p 3)
  byte_of b (suc (suc (suc (suc k)))) p h = absurd (omega arith)

  pub twice : (j : ℕ) → j < 4 → 3 - (3 - j) ≡ j
  twice j h = omega arith

  below : (j : ℕ) → 3 - j < 4
  below j = omega arith

  -- The byte that is cut out.
  picked :
      (le sw : Bool) (j : ℕ) → j < 4 → loaded sw / 2 ^ (8 * index_of le j) % 256 ≡ r (lane le sw j)
  picked true false j h = byte_of r j (λ a. bytes _) h
  picked true true j h = byte_of (λ k. r (3 - k)) j (λ a. bytes _) h
  picked false false j h = byte_of r (3 - j) (λ a. bytes _) (below j)
  picked false true j h =
      byte_of (λ k. r (3 - k)) (3 - j) (λ a. bytes _) (below j) ∙ ap r (twice j h)

  pub arch_load8_lem :
      (info : ArchInfo) (le sw : Bool) (j : ℕ)
      → j < 4
      → arch_load8 (wide info le sw) (word32 (j + q * 4)) g
        ≡ on (record { size = 8; word = g.ram (q * 4 + lane le sw j) }) g
  unfolding arch_load8
  arch_load8_lem info le sw j h =
      rw
        (
          aligned_lem info sw q j small h le,
          arch_load32_aligned_lem info le sw,
          arch_get_shift8_lem info sw q j small h le,
          picked le sw j h,
        )
        refl
