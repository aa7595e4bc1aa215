-- ===== src/Frontend/Value/Laws.antt =====
-- Words of 32 bits as four bytes, and what the bit operators and the byte swap do to these.
use libcpu.Base.{
  ℕ, zero, suc, ◌+◌, ◌*◌, ◌/◌, ◌%◌, ◌^◌, ◌<◌, ◌≡◌, refl, ap, sym, bit_and, bit_or, bit_and_step,
  bit_or_step, arith,
}
use native.Mathlib.Nat.{pow-suc}
use libcpu.Frontend.Value.{swap32}

abbrev pub word4 : ℕ → ℕ → ℕ → ℕ → ℕ
word4 b0 b1 b2 b3 = b0 + 256 * (b1 + 256 * (b2 + 256 * b3))

double : (y k : ℕ) → y * 2 ^ suc k ≡ 2 * (y * 2 ^ k)
double y k = omega (arith, ap (λ (t : ℕ). y * t) (pow-suc 2 k))

halves : (x y k : ℕ) → (x + y * 2 ^ suc k) / 2 ≡ x / 2 + y * 2 ^ k
halves x y k = omega (arith, double y k)

at_zero : (y : ℕ) → 0 + y * 1 ≡ y
at_zero y = omega arith

-- The operators work on the low `k` bits and on the rest apart.
pub bit_and-split :
    (k x y m n : ℕ)
    → x < 2 ^ k
    → m < 2 ^ k
    → bit_and (x + y * 2 ^ k) (m + n * 2 ^ k) ≡ bit_and x m + bit_and y n * 2 ^ k
bit_and-split zero x y m n p q =
    let e : x ≡ 0 = omega arith in
    let e' : m ≡ 0 = omega arith in rw (e, e', at_zero y, at_zero n) (sym (at_zero (bit_and y n)))
bit_and-split (suc k) x y m n p q = omega (
  arith,
  bit_and_step (x + y * 2 ^ suc k) (m + n * 2 ^ suc k),
  ap (λ (t : ℕ). bit_and t ((m + n * 2 ^ suc k) / 2)) (halves x y k),
  ap (λ (t : ℕ). bit_and (x / 2 + y * 2 ^ k) t) (halves m n k),
  bit_and_step x m,
  double y k,
  double n k,
  double (bit_and y n) k,
  bit_and-split k (x / 2) y (m / 2) n (omega (arith, pow-suc 2 k)) (omega (arith, pow-suc 2 k)),
)

bit_or-split :
    (k x y m n : ℕ)
    → x < 2 ^ k
    → m < 2 ^ k
    → bit_or (x + y * 2 ^ k) (m + n * 2 ^ k) ≡ bit_or x m + bit_or y n * 2 ^ k
bit_or-split zero x y m n p q =
    let e : x ≡ 0 = omega arith in
    let e' : m ≡ 0 = omega arith in rw (e, e', at_zero y, at_zero n) (sym (at_zero (bit_or y n)))
bit_or-split (suc k) x y m n p q = omega (
  arith,
  bit_or_step (x + y * 2 ^ suc k) (m + n * 2 ^ suc k),
  ap (λ (t : ℕ). bit_or t ((m + n * 2 ^ suc k) / 2)) (halves x y k),
  ap (λ (t : ℕ). bit_or (x / 2 + y * 2 ^ k) t) (halves m n k),
  bit_or_step x m,
  double y k,
  double n k,
  double (bit_or y n) k,
  bit_or-split k (x / 2) y (m / 2) n (omega (arith, pow-suc 2 k)) (omega (arith, pow-suc 2 k)),
)

turned : (y : ℕ) → 256 * y ≡ y * 256
turned y = omega arith

and_256 :
    (x y m n : ℕ)
    → x < 256
    → m < 256
    → bit_and (x + 256 * y) (m + 256 * n) ≡ bit_and x m + 256 * bit_and y n
and_256 x y m n p q = rw (turned y, turned n, turned (bit_and y n)) (bit_and-split 8 x y m n p q)

or_256 :
    (x y m n : ℕ)
    → x < 256
    → m < 256
    → bit_or (x + 256 * y) (m + 256 * n) ≡ bit_or x m + 256 * bit_or y n
or_256 x y m n p q = rw (turned y, turned n, turned (bit_or y n)) (bit_or-split 8 x y m n p q)

module _ (a0 a1 a2 a3 b0 b1 b2 b3 : ℕ) (p0 : a0 < 256) (p1 : a1 < 256) (p2 : a2 < 256)
    (q0 : b0 < 256) (q1 : b1 < 256) (q2 : b2 < 256) where
  pub bit_and-word4 :
      bit_and (word4 a0 a1 a2 a3) (word4 b0 b1 b2 b3)
      ≡ word4 (bit_and a0 b0) (bit_and a1 b1) (bit_and a2 b2) (bit_and a3 b3)
  bit_and-word4 =
      rw (and_256 a0 _ b0 _ p0 q0, and_256 a1 _ b1 _ p1 q1, and_256 a2 _ b2 _ p2 q2) refl

  pub bit_or-word4 :
      bit_or (word4 a0 a1 a2 a3) (word4 b0 b1 b2 b3)
      ≡ word4 (bit_or a0 b0) (bit_or a1 b1) (bit_or a2 b2) (bit_or a3 b3)
  bit_or-word4 = rw (or_256 a0 _ b0 _ p0 q0, or_256 a1 _ b1 _ p1 q1, or_256 a2 _ b2 _ p2 q2) refl

-- The bytes of a word.
module _ (b0 b1 b2 b3 : ℕ) (q0 : b0 < 256) (q1 : b1 < 256) (q2 : b2 < 256) (q3 : b3 < 256) where
  pub byte0 : word4 b0 b1 b2 b3 % 256 ≡ b0
  byte0 = omega arith

  pub byte1 : word4 b0 b1 b2 b3 / 256 % 256 ≡ b1
  byte1 = omega arith

  pub byte2 : word4 b0 b1 b2 b3 / 65536 % 256 ≡ b2
  byte2 = omega arith

  pub byte3 : word4 b0 b1 b2 b3 / 16777216 % 256 ≡ b3
  byte3 = omega arith

  pub swap32-word4 :
      swap32 (record { size = 32; word = word4 b0 b1 b2 b3 })
      ≡ record { size = 32; word = word4 b3 b2 b1 b0 }
  unfolding swap32
  swap32-word4 = ap (λ (w : ℕ). record { size = 32; word = w }) (omega arith)
