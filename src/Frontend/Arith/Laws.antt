-- ===== src/Frontend/Arith/Laws.antt =====
-- What the code of `arch_shiftrotate` and `arch_adc` (libcpu/frontend.cpp) computes on bytes.
use libcpu.Base.{
  ℕ, ◌+◌, ◌*◌, ◌/◌, ◌%◌, ◌<◌, ◌≡◌, ◌∙◌, bit_or, Bool, true, false, Option, none, some,
  if◌then◌else◌, arith, ltb, bit_or-eq-add, bit_or_comm,
}
use libcpu.Frontend.Value.{Value, bool_word}
use libcpu.Frontend.Code.{ArchInfo, Guest, Ptr, on, peek, poke}
use libcpu.Frontend.Arith.{Nzc, arch_shiftrotate, arch_adc}

abbrev pub byte : ℕ → Value
byte n = record { size = 8; word = n }

abbrev pub bit : ℕ → Value
bit n = record { size = 1; word = n }

-- Half the range is added to both sides of a signed comparison.
pub slt_zero : (n : ℕ) → n < 256 → bool_word (ltb ((n + 128) % 256) 128) ≡ n / 128
slt_zero n h = ground arith

-- The byte shifted, with the carry shifted in if it is rotated, and the bit that is shifted out.
abbrev pub shifted_byte : Bool → Bool → ℕ → ℕ → ℕ
shifted_byte true rotate c n = if rotate then n * 2 % 256 + c else n * 2 % 256
shifted_byte false rotate c n = if rotate then n / 2 + 128 * c else n / 2

abbrev pub shifted_out : Bool → ℕ → ℕ
shifted_out true n = n / 128
shifted_out false n = n % 2

rotated_left : (n c : ℕ) → n < 256 → c < 2 → bit_or (n * 2 % 256) c ≡ n * 2 % 256 + c
rotated_left n c small bit =
    let even : n * 2 % 256 ≡ n % 128 * 2 = omega arith in
    rw even (bit_or_comm _ c ∙ bit_or-eq-add 1 c (n % 128) bit ∙ omega arith)

rotated_right : (n c : ℕ) → n < 256 → c < 2 → bit_or (n / 2) (c * 128 % 256) ≡ n / 2 + 128 * c
rotated_right n c small bit =
    let high : c * 128 % 256 ≡ c * 128 = omega arith in
    rw high (bit_or-eq-add 7 (n / 2) c (omega arith) ∙ omega arith)

sum16 : (a b c : ℕ) → a < 256 → b < 256 → c < 2 → ((a + b) % 65536 + c) % 65536 ≡ a + b + c
sum16 a b c p q r = omega arith

ninth : (a b c : ℕ) → a < 256 → b < 256 → c < 2 → (a + b + c) / 256 % 2 ≡ (a + b + c) / 256
ninth a b c p q r = omega arith

module _ (info : ArchInfo) (nzc : Nzc) (g : Guest) where
  -- The guest with the carry flag written.
  abbrev pub carried : ℕ → Guest
  carried c = poke (bit c) (Ptr.flag nzc.ptr_c) g

  -- For a byte and a carry of one bit, the code of `arch_shiftrotate` gives the byte shifted or
  -- rotated through the carry, stores it at the destination, and stores the bit that leaves the byte
  -- in the carry flag.
  pub arch_shiftrotate_lem :
      (dst src : Ptr) (left rotate : Bool) (n : ℕ)
      → peek info src g ≡ byte n
      → n < 256
      → g.flag nzc.ptr_c < 2
      → arch_shiftrotate info nzc dst src left rotate g
        ≡ on (byte (shifted_byte left rotate (g.flag nzc.ptr_c) n)) (
            poke
              (byte (shifted_byte left rotate (g.flag nzc.ptr_c) n))
              dst
              (carried (shifted_out left n)))
  unfolding arch_shiftrotate
  arch_shiftrotate_lem dst src true true n at small carry =
      rw (at, slt_zero n small, rotated_left n (g.flag nzc.ptr_c) small carry)
  arch_shiftrotate_lem dst src true false n at small carry = rw (at, slt_zero n small)
  arch_shiftrotate_lem dst src false true n at small carry =
      rw (at, rotated_right n (g.flag nzc.ptr_c) small carry)
  arch_shiftrotate_lem dst src false false n at small carry = rw at

  -- The carry that goes in.
  abbrev pub carry_of : Bool → Bool → ℕ
  carry_of true plus_one = g.flag nzc.ptr_c
  carry_of false true = 1
  carry_of false false = 0

  abbrev pub written : Option Ptr → ℕ → Guest → Guest
  written none r s = s
  written (some p) r s = poke (byte r) p s

  -- For bytes and a carry of one bit, the code of `arch_adc` gives the low byte of the sum with the
  -- carry that is asked for, stores it if there is a destination, and stores the ninth bit of the sum
  -- in the carry flag.
  pub arch_adc_lem :
      (dst : Option Ptr) (src : Ptr) (plus_carry plus_one : Bool) (a b : ℕ)
      → peek info src g ≡ byte a
      → a < 256
      → b < 256
      → g.flag nzc.ptr_c < 2
      → arch_adc info nzc dst src (byte b) plus_carry plus_one g
        ≡ on (byte ((a + b + carry_of plus_carry plus_one) % 256)) (
            written dst
              ((a + b + carry_of plus_carry plus_one) % 256)
              (carried ((a + b + carry_of plus_carry plus_one) / 256)))
  unfolding arch_adc
  arch_adc_lem none src true one a b at p q c =
      rw (at, sum16 a b (g.flag nzc.ptr_c) p q c, ninth a b (g.flag nzc.ptr_c) p q c)
  arch_adc_lem none src false true a b at p q c =
      rw (at, sum16 a b 1 p q (omega arith), ninth a b 1 p q (omega arith))
  arch_adc_lem none src false false a b at p q c =
      rw (at, sum16 a b 0 p q (omega arith), ninth a b 0 p q (omega arith))
  arch_adc_lem (some dst) src true one a b at p q c =
      rw (at, sum16 a b (g.flag nzc.ptr_c) p q c, ninth a b (g.flag nzc.ptr_c) p q c)
  arch_adc_lem (some dst) src false true a b at p q c =
      rw (at, sum16 a b 1 p q (omega arith), ninth a b 1 p q (omega arith))
  arch_adc_lem (some dst) src false false a b at p q c =
      rw (at, sum16 a b 0 p q (omega arith), ninth a b 0 p q (omega arith))
