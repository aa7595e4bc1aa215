-- ===== src/Base/Bits.antt =====
-- The bits of a number, and what `&` and `|` do to each of them, at every width.
-- A test `x & mask` of C is `has x mask`.
use Prim.Native.Nat.{ℕ, zero, suc, ◌+◌, ◌-◌, ◌*◌, ◌/◌, ◌%◌, ◌≤◌, ◌<◌, ◌^◌, min, max}
use Prim.Native.Nat.{
  bit_and, bit_or, bit_xor, differ, digits, bit_and-bitwise, bit_or-bitwise, bit_xor-bitwise,
}
use mathlib.Core.Path.{◌≡◌, refl, sym, ap, ◌∙◌}
use mathlib.Core.Bool.{Bool, false, not, ◌||◌}
use native.Mathlib.Decide.{dec_le}
use native.Mathlib.Omega.{arith}
use native.Mathlib.Nat.{le_refl, pow-suc, one-le-pow}
use libcpu.Base.Tests.{◌==◌}

-- The native operations are recursions on binary digits with fuel; fuel past the number is idle.
module _ (z : ℕ → ℕ) (f : ℕ → ℕ → ℕ) where
  idle_fuel : (n a b : ℕ) → a ≤ n → digits z f (suc n) a b ≡ digits z f n a b
  idle_fuel zero zero b h = refl
  idle_fuel zero (suc a) b h = absurd (omega arith)
  idle_fuel (suc n) zero b h = refl
  idle_fuel (suc n) (suc a) b h =
      let rest = idle_fuel n (suc a / 2) (b / 2) (omega arith) in
      ap (λ (t : ℕ). t * 2 + f (suc a % 2) (b % 2)) rest

  fuel-eq-number : (n a b : ℕ) → a ≤ n → digits z f n a b ≡ digits z f a a b
  fuel-eq-number zero a b h = let e : a ≡ 0 = omega arith in rw e
  fuel-eq-number (suc n) a b h = elim (dec_le a n) [
    | yes small ↦ idle_fuel n a b small ∙ fuel-eq-number n a b small
    | no large ↦ let e : a ≡ suc n = omega arith in rw e
  ]

pub bit_or_step : (a b : ℕ) → bit_or a b ≡ max (a % 2) (b % 2) + 2 * bit_or (a / 2) (b / 2)
bit_or_step zero b = omega (arith, bit_or-bitwise 0 b, bit_or-bitwise 0 (b / 2))
bit_or_step (suc a) b = omega (
  arith,
  bit_or-bitwise (suc a) b,
  bit_or-bitwise (suc a / 2) (b / 2),
  fuel-eq-number (λ y. y) max a (suc a / 2) (b / 2) (omega arith),
)

pub bit_and_step : (a b : ℕ) → bit_and a b ≡ min (a % 2) (b % 2) + 2 * bit_and (a / 2) (b / 2)
bit_and_step zero b = omega (arith, bit_and-bitwise 0 b, bit_and-bitwise 0 (b / 2))
bit_and_step (suc a) b = omega (
  arith,
  bit_and-bitwise (suc a) b,
  bit_and-bitwise (suc a / 2) (b / 2),
  fuel-eq-number (λ y. 0) min a (suc a / 2) (b / 2) (omega arith),
)

bit_xor_step : (a b : ℕ) → bit_xor a b ≡ differ (a % 2) (b % 2) + 2 * bit_xor (a / 2) (b / 2)
bit_xor_step zero b = omega (arith, bit_xor-bitwise 0 b, bit_xor-bitwise 0 (b / 2))
bit_xor_step (suc a) b = omega (
  arith,
  bit_xor-bitwise (suc a) b,
  bit_xor-bitwise (suc a / 2) (b / 2),
  fuel-eq-number (λ y. y) differ a (suc a / 2) (b / 2) (omega arith),
)

differ-le : (x y : ℕ) → differ x y ≤ x + y
differ-le zero y = omega arith
differ-le (suc x) zero = omega arith
differ-le (suc x) (suc y) = omega (arith, differ-le x y)

differ-bit : (x y : ℕ) → x < 2 → y < 2 → differ x y < 2
differ-bit zero y p q = q
differ-bit (suc x) zero p q = p
differ-bit (suc x) (suc y) p q = omega (arith, differ-le x y)

-- The operators keep the width.
pub bit_and-lt : (k a b : ℕ) → a < 2 ^ k → b < 2 ^ k → bit_and a b < 2 ^ k
bit_and-lt zero a b p q =
    let e : a ≡ 0 = omega arith in let e' : b ≡ 0 = omega arith in rw (e, e') (omega arith)
bit_and-lt (suc k) a b p q = omega (
  arith,
  bit_and_step a b,
  pow-suc 2 k,
  bit_and-lt k (a / 2) (b / 2) (omega (arith, pow-suc 2 k)) (omega (arith, pow-suc 2 k)),
)

pub bit_or-lt : (k a b : ℕ) → a < 2 ^ k → b < 2 ^ k → bit_or a b < 2 ^ k
bit_or-lt zero a b p q =
    let e : a ≡ 0 = omega arith in let e' : b ≡ 0 = omega arith in rw (e, e') (omega arith)
bit_or-lt (suc k) a b p q = omega (
  arith,
  bit_or_step a b,
  pow-suc 2 k,
  bit_or-lt k (a / 2) (b / 2) (omega (arith, pow-suc 2 k)) (omega (arith, pow-suc 2 k)),
)

differ-one : (x : ℕ) → x < 2 → differ x 1 ≡ 1 - x
differ-one zero h = refl
differ-one (suc zero) h = refl
differ-one (suc (suc x)) h = absurd (omega arith)

-- All bits are turned.
pub bit_xor-ones : (k a : ℕ) → a < 2 ^ k → bit_xor a (2 ^ k - 1) ≡ 2 ^ k - 1 - a
bit_xor-ones zero a h = let e : a ≡ 0 = omega arith in rw e refl
bit_xor-ones (suc k) a h =
    let odd : (2 ^ suc k - 1) % 2 ≡ 1 = omega (arith, pow-suc 2 k) in
    let half : (2 ^ suc k - 1) / 2 ≡ 2 ^ k - 1 = omega (arith, pow-suc 2 k) in
    omega (
      arith,
      bit_xor_step a (2 ^ suc k - 1),
      ap (λ (t : ℕ). differ (a % 2) t) odd,
      ap (λ (t : ℕ). bit_xor (a / 2) t) half,
      differ-one (a % 2) (omega arith),
      bit_xor-ones k (a / 2) (omega (arith, pow-suc 2 k)),
      pow-suc 2 k,
    )

pub bit_xor-lt : (k a b : ℕ) → a < 2 ^ k → b < 2 ^ k → bit_xor a b < 2 ^ k
bit_xor-lt zero a b p q =
    let e : a ≡ 0 = omega arith in let e' : b ≡ 0 = omega arith in rw (e, e') (omega arith)
bit_xor-lt (suc k) a b p q = omega (
  arith,
  bit_xor_step a b,
  differ-bit (a % 2) (b % 2) (omega arith) (omega arith),
  pow-suc 2 k,
  bit_xor-lt k (a / 2) (b / 2) (omega (arith, pow-suc 2 k)) (omega (arith, pow-suc 2 k)),
)

-- Bit `k` of `a`, as 0 or 1.
abbrev pub bit_at : ℕ → ℕ → ℕ
bit_at a zero = a % 2
bit_at a (suc k) = bit_at (a / 2) k

pub bit_at-bit_or : (k a b : ℕ) → bit_at (bit_or a b) k ≡ max (bit_at a k) (bit_at b k)
bit_at-bit_or zero a b = omega (arith, bit_or_step a b)
bit_at-bit_or (suc k) a b =
    let half : bit_or a b / 2 ≡ bit_or (a / 2) (b / 2) = omega (arith, bit_or_step a b) in
    rw half (bit_at-bit_or k (a / 2) (b / 2))

pub bit_at-bit_and : (k a b : ℕ) → bit_at (bit_and a b) k ≡ min (bit_at a k) (bit_at b k)
bit_at-bit_and zero a b = omega (arith, bit_and_step a b)
bit_at-bit_and (suc k) a b =
    let half : bit_and a b / 2 ≡ bit_and (a / 2) (b / 2) = omega (arith, bit_and_step a b) in
    rw half (bit_at-bit_and k (a / 2) (b / 2))

bit_at-zero : (k : ℕ) → bit_at 0 k ≡ 0
bit_at-zero zero = refl
bit_at-zero (suc k) = bit_at-zero k

-- Numbers with the same bits are equal.
bits_ext_fuel : (n a b : ℕ) → a ≤ n → b ≤ n → ((k : ℕ) → bit_at a k ≡ bit_at b k) → a ≡ b
bits_ext_fuel zero a b p q h = omega arith
bits_ext_fuel (suc n) a b p q h =
    omega (arith, h 0, bits_ext_fuel n (a / 2) (b / 2) (omega arith) (omega arith) (λ k. h (suc k)))

pub bits_ext : (a b : ℕ) → ((k : ℕ) → bit_at a k ≡ bit_at b k) → a ≡ b
bits_ext a b = bits_ext_fuel (a + b) a b (omega arith) (omega arith)

pub bit_and-bit_or : (a b m : ℕ) → bit_and (bit_or a b) m ≡ bit_or (bit_and a m) (bit_and b m)
bit_and-bit_or a b m = bits_ext _ _ λ k. omega (
  arith,
  bit_at-bit_and k (bit_or a b) m,
  bit_at-bit_or k a b,
  bit_at-bit_or k (bit_and a m) (bit_and b m),
  bit_at-bit_and k a m,
  bit_at-bit_and k b m,
)

pub bit_and_comm : (a b : ℕ) → bit_and a b ≡ bit_and b a
bit_and_comm a b = bits_ext _ _ λ k. omega (arith, bit_at-bit_and k a b, bit_at-bit_and k b a)

pub bit_or_comm : (a b : ℕ) → bit_or a b ≡ bit_or b a
bit_or_comm a b = bits_ext _ _ λ k. omega (arith, bit_at-bit_or k a b, bit_at-bit_or k b a)

pub bit_or-zero : (b : ℕ) → bit_or 0 b ≡ b
bit_or-zero b = bits_ext _ _ λ k. omega (arith, bit_at-bit_or k 0 b, bit_at-zero k)

bit_or_bounds_fuel : (n a b : ℕ) → a ≤ n → (a ≤ bit_or a b) × (b ≤ bit_or a b)
bit_or_bounds_fuel zero a b p = let e : a ≡ 0 = omega arith in rw e (omega (arith, bit_or-zero b))
bit_or_bounds_fuel (suc n) zero b p = omega (arith, bit_or-zero b)
bit_or_bounds_fuel (suc n) (suc a) b p =
    omega (arith, bit_or_step (suc a) b, bit_or_bounds_fuel n (suc a / 2) (b / 2) (omega arith))

pub bit_or_bounds : (a b : ℕ) → (a ≤ bit_or a b) × (b ≤ bit_or a b)
bit_or_bounds a b = bit_or_bounds_fuel a a b (le_refl _)

-- `x & mask`, read as a condition.
abbrev pub has : ℕ → ℕ → Bool
has x mask = not (bit_and x mask == 0)

pub has-bit_or : (a b m : ℕ) → has (bit_or a b) m ≡ (has a m || has b m)
has-bit_or a b m =
    rw bit_and-bit_or
      (ground (arith, bit_or_bounds (bit_and a m) (bit_and b m), bit_or-zero (bit_and b m)))

-- A mask of several bits tests for any of them.
pub has-mask_or : (x a b : ℕ) → has x (bit_or a b) ≡ (has x a || has x b)
has-mask_or x a b =
    rw (bit_and_comm x (bit_or a b), bit_and_comm x a, bit_and_comm x b) (has-bit_or a b x)

-- The bits of a part are bits of the whole.
pub has-part : (t u mask : ℕ) → bit_or t u ≡ u → has u mask ≡ false → has t mask ≡ false
has-part t u mask part h = ground (arith, has-bit_or t u mask, ap (λ x. has x mask) part)

-- A number below `2 ^ k` or'ed with a multiple of `2 ^ k` is their sum.
pub bit_or-eq-add : (k x y : ℕ) → x < 2 ^ k → bit_or x (y * 2 ^ k) ≡ x + y * 2 ^ k
bit_or-eq-add zero x y fits =
    let e : x ≡ 0 = omega arith in rw e (omega (arith, bit_or-zero (y * 1)))
bit_or-eq-add (suc k) x y fits =
    let double : y * 2 ^ suc k ≡ 2 * (y * 2 ^ k) =
      omega (arith, ap (λ (t : ℕ). y * t) (pow-suc 2 k)) in
    rw double (
      omega (
        arith,
        bit_or_step x (2 * (y * 2 ^ k)),
        ap (λ (t : ℕ). bit_or (x / 2) t) half,
        bit_or-eq-add k (x / 2) y (omega (arith, pow-suc 2 k)),
      ))
  where
    half : 2 * (y * 2 ^ k) / 2 ≡ y * 2 ^ k
    half = omega arith

zero-bit_and : (b : ℕ) → bit_and b 0 ≡ 0
zero-bit_and b = rw bit_and_comm (bit_and-bitwise 0 b)

-- A mask of `k` ones keeps the remainder by `2 ^ k`.
low_ones : (k r q : ℕ) → r < 2 ^ k → bit_and (r + q * 2 ^ k) (2 ^ k - 1) ≡ r
low_ones zero r q fits = rw zero-bit_and (omega arith)
low_ones (suc k) r q fits =
    let double : q * 2 ^ suc k ≡ 2 * (q * 2 ^ k) =
      omega (arith, ap (λ (t : ℕ). q * t) (pow-suc 2 k)) in
    let half : (r + 2 * (q * 2 ^ k)) / 2 ≡ r / 2 + q * 2 ^ k = omega arith in
    let ones : (2 ^ suc k - 1) / 2 ≡ 2 ^ k - 1 = omega (arith, pow-suc 2 k) in
    rw double (
      omega (
        arith,
        bit_and_step (r + 2 * (q * 2 ^ k)) (2 ^ suc k - 1),
        ap (λ (t : ℕ). bit_and t ((2 ^ suc k - 1) / 2)) half,
        ap (λ (t : ℕ). bit_and (r / 2 + q * 2 ^ k) t) ones,
        pow-suc 2 k,
        one-le-pow k 2,
        low_ones k (r / 2) q (omega (arith, pow-suc 2 k)),
      ))

pub bit_and-low : (k a : ℕ) → bit_and a (2 ^ k - 1) ≡ a % 2 ^ k
bit_and-low k a =
    let parts : a % 2 ^ k + a / 2 ^ k * 2 ^ k ≡ a = grind (arith, one-le-pow k 2) in
    ap (λ (t : ℕ). bit_and t (2 ^ k - 1)) (sym parts)
    ∙ low_ones k (a % 2 ^ k) (a / 2 ^ k) (grind (arith, one-le-pow k 2))

bit_and-zero : (b : ℕ) → bit_and 0 b ≡ 0
bit_and-zero b = bits_ext _ _ λ k. omega (arith, bit_at-bit_and k 0 b, bit_at-zero k)

bit_and_swap : (a b c : ℕ) → bit_and (bit_and a b) c ≡ bit_and (bit_and a c) b
bit_and_swap a b c = bits_ext _ _ λ k. omega (
  arith,
  bit_at-bit_and k (bit_and a b) c,
  bit_at-bit_and k a b,
  bit_at-bit_and k (bit_and a c) b,
  bit_at-bit_and k a c,
)

-- What is not set is not set after more bits are cleared.
pub has-bit_and : (x k m : ℕ) → has x m ≡ false → has (bit_and x k) m ≡ false
has-bit_and x k m clear =
    let none_left : bit_and x m ≡ 0 = ground arith in
    rw (bit_and_swap x k m, none_left, bit_and-zero k) refl

pub zero-has : (mask : ℕ) → has 0 mask ≡ false
zero-has mask = rw bit_and-zero refl
