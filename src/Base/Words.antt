-- ===== src/Base/Words.antt =====
-- The bit operators of C on unsigned words.
use Prim.Native.Nat.{ℕ, ◌+◌, ◌-◌, ◌*◌, ◌/◌, ◌^◌, bit_and, bit_or}
use libcpu.Base.Tests.{ltb, if◌then◌else◌}

infixl 55 ◌|||◌
infixl 60 ◌&&&◌
infixl 75 ◌<<<◌ ◌>>>◌
abbrev pub ◌|||◌ : ℕ → ℕ → ℕ
a ||| b = bit_or a b

abbrev pub ◌&&&◌ : ℕ → ℕ → ℕ
a &&& b = bit_and a b

abbrev pub ◌<<<◌ : ℕ → ℕ → ℕ
x <<< k = x * 2 ^ k

abbrev pub ◌>>>◌ : ℕ → ℕ → ℕ
x >>> k = x / 2 ^ k

-- `x &= ~mask` on a `uint64_t`.
abbrev pub clear64 : ℕ → ℕ → ℕ
clear64 x mask = bit_and x (2 ^ 64 - 1 - mask)

-- The low `w` bits, read as a signed number, in a word of `v` bits.
abbrev pub sign_extend : ℕ → ℕ → ℕ → ℕ
sign_extend w v x = if ltb x (2 ^ (w - 1)) then x else x + (2 ^ v - 2 ^ w)
