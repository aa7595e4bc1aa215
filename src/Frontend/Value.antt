-- ===== src/Frontend/Value.antt =====
-- The integers that the emitted code computes with, and the operators of libcpu/frontend.h. A value
-- has its width and a number below `2 ^ width`; an operator is the LLVM instruction of its name.
pub mod Laws
use libcpu.Base.{
  ℕ, ◌+◌, ◌-◌, ◌%◌, ◌^◌, ◌/◌, ◌*◌, bit_and, bit_or, bit_xor, Bool, not, ◌==◌, ltb, if◌then◌else◌,
  sign_extend,
}

pub record Value : Type 0 where
  pub size : ℕ
  pub word : ℕ

abbrev pub bool_word : Bool → ℕ
bool_word b = if b then 1 else 0

-- CONSTs
abbrev pub consts : ℕ → ℕ → Value
consts s v = record { size = s; word = v % 2 ^ s }

abbrev pub true_value : Value
true_value = consts 1 1

abbrev pub false_value : Value
false_value = consts 1 0

unfoldable pub trunc : ℕ → Value → Value
trunc s v = record { size = s; word = v.word % 2 ^ s }

unfoldable pub zext : ℕ → Value → Value
zext s v = record { size = s; word = v.word }

unfoldable pub sext : ℕ → Value → Value
sext s v = record { size = s; word = sign_extend v.size s v.word }

unfoldable pub add : Value → Value → Value
add a b = record { size = a.size; word = (a.word + b.word) % 2 ^ a.size }

unfoldable pub sub : Value → Value → Value
sub a b = record { size = a.size; word = (a.word + 2 ^ a.size - b.word) % 2 ^ a.size }

unfoldable pub and : Value → Value → Value
and a b = record { size = a.size; word = bit_and a.word b.word }

unfoldable pub or : Value → Value → Value
or a b = record { size = a.size; word = bit_or a.word b.word }

unfoldable pub xor : Value → Value → Value
xor a b = record { size = a.size; word = bit_xor a.word b.word }

-- The shifts are by less than the width.
unfoldable pub shl : Value → Value → Value
shl a b = record { size = a.size; word = a.word * 2 ^ b.word % 2 ^ a.size }

unfoldable pub lshr : Value → Value → Value
lshr a b = record { size = a.size; word = a.word / 2 ^ b.word }

unfoldable pub mul : Value → Value → Value
mul a b = record { size = a.size; word = a.word * b.word % 2 ^ a.size }

-- The sign bit is copied.
unfoldable pub ashr : Value → Value → Value
ashr a b = record {
  size = a.size;
  word = sign_extend (a.size - b.word) a.size (a.word / 2 ^ b.word);
}

unfoldable pub icmp_ne : Value → Value → Value
icmp_ne a b = record { size = 1; word = bool_word (not (a.word == b.word)) }

unfoldable pub icmp_eq : Value → Value → Value
icmp_eq a b = record { size = 1; word = bool_word (a.word == b.word) }

-- Signed: half the range is added to both sides.
unfoldable pub icmp_slt : Value → Value → Value
icmp_slt a b =
    let half = 2 ^ (a.size - 1) in
    record {
      size = 1;
      word = bool_word (ltb ((a.word + half) % 2 ^ a.size) ((b.word + half) % 2 ^ a.size));
    }

-- The byte swap of 32 bits, `llvm.bswap`.
unfoldable pub swap32 : Value → Value
swap32 v =
    let byte = λ (k : ℕ). v.word / 2 ^ (8 * k) % 256 in
    record { size = v.size; word = byte 3 + byte 2 * 2 ^ 8 + byte 1 * 2 ^ 16 + byte 0 * 2 ^ 24 }

-- NOT
unfoldable pub not1 : Value → Value
unfolding xor
not1 a = xor a true_value

-- The shortcuts with a constant of the guest's word size.
module _ (word_size : ℕ) where
  -- CONST
  abbrev pub const_word : ℕ → Value
  const_word v = consts word_size v

  unfoldable pub complement : Value → Value
  unfolding xor
  complement x = xor x (const_word (2 ^ 64 - 1))

  unfoldable pub inc : Value → Value
  unfolding add
  inc a = add a (const_word 1)

  unfoldable pub dec : Value → Value
  unfolding sub
  dec a = sub a (const_word 1)
