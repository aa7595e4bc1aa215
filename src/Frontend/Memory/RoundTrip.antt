-- ===== src/Frontend/Memory/RoundTrip.antt =====
-- `arch_store8`, then `arch_load8` (libcpu/frontend.cpp), at any two addresses.
use libcpu.Base.{
  ℕ, ◌+◌, ◌*◌, ◌/◌, ◌%◌, ◌<◌, ◌≡◌, ◌∙◌, ap, Bool, true, false, ◌==◌, if◌then◌else◌, arith,
}
use mathlib.Core.Path.{subst}
use libcpu.Frontend.Code.{Ran, ArchInfo, Guest, on, update, >>=-on, ◌>>=◌}
use libcpu.Frontend.Memory.{arch_load8, arch_store8}
use libcpu.Frontend.Memory.Laws.{wide, word32, lane, arch_load8_lem}
use libcpu.Frontend.Memory.Stores.{arch_store8_lem}

-- The byte of RAM that has the address.
abbrev pub place : Bool → Bool → ℕ → ℕ
place le sw a = a / 4 * 4 + lane le sw (a % 4)

lane-lt : (le sw : Bool) (j : ℕ) → j < 4 → lane le sw j < 4
lane-lt true true j h = omega arith
lane-lt true false j h = h
lane-lt false true j h = h
lane-lt false false j h = omega arith

lane-injective : (le sw : Bool) (i j : ℕ) → i < 4 → j < 4 → lane le sw i ≡ lane le sw j → i ≡ j
lane-injective true true i j p q e = omega arith
lane-injective true false i j p q e = e
lane-injective false true i j p q e = e
lane-injective false false i j p q e = omega arith

place-injective : (le sw : Bool) (a b : ℕ) → place le sw b ≡ place le sw a → b ≡ a
place-injective le sw a b e =
    let rest : b % 4 ≡ a % 4 =
      lane-injective le sw (b % 4) (a % 4) (omega arith) (omega arith)
        (omega (arith, lane-lt le sw (b % 4) (omega arith), lane-lt le sw (a % 4) (omega arith))) in
    omega (arith, ap (lane le sw) rest)

agree : (x y u w : ℕ) → (x ≡ y → u ≡ w) → (u ≡ w → x ≡ y) → (x == y) ≡ (u == w)
agree x y u w f h = ground arith

same_place : (le sw : Bool) (a b : ℕ) → (place le sw b == place le sw a) ≡ (b == a)
same_place le sw a b =
    agree (place le sw b) (place le sw a) b a (place-injective le sw a b) (ap (place le sw))

split : (a : ℕ) → a % 4 + a / 4 * 4 ≡ a
split a = omega arith

module _ (info : ArchInfo) (le sw : Bool) (g : Guest) (bytes : (a : ℕ) → g.ram a < 256) (a : ℕ)
    (p : a < 2147483648) where
  pub arch_load8_at :
      arch_load8 (wide info le sw) (word32 a) g
      ≡ on (record { size = 8; word = g.ram (place le sw a) }) g
  arch_load8_at =
      subst
        (λ (x : ℕ).
          arch_load8 (wide info le sw) (word32 x) g
          ≡ on (record { size = 8; word = g.ram (place le sw a) }) g)
        (split a) (arch_load8_lem g bytes (a / 4) (omega arith) info le sw (a % 4) (omega arith))

  pub arch_store8_at :
      (v : ℕ)
      → arch_store8 (wide info le sw) (word32 v) (word32 a) g
        ≡ on tt (record g { ram = update g.ram (place le sw a) (v % 256) })
  arch_store8_at v =
      subst
        (λ (x : ℕ).
          Path (Ran (Unit {0})) (arch_store8 (wide info le sw) (word32 v) (word32 x) g)
            (on tt (record g { ram = update g.ram (place le sw a) (v % 256) })))
        (split a) (arch_store8_lem info g bytes (a / 4) (omega arith) v le sw (a % 4) (omega arith))

module _ (info : ArchInfo) (le sw : Bool) (g : Guest) (bytes : (a : ℕ) → g.ram a < 256) where
  -- For a guest with words of 32 bits and addresses below 2^31, of either endianness and with words swapped or not: after the
  -- code of `arch_store8` for an address, the code of `arch_load8` gives the low byte of the value
  -- at that address, and at any other the byte that RAM had; of RAM that one byte is changed (a RAM
  -- of bytes).
  pub arch_load8-arch_store8 :
      (v a b : ℕ)
      → a < 2147483648
      → b < 2147483648
      → (arch_store8 (wide info le sw) (word32 v) (word32 a) >>= λ _.
            arch_load8 (wide info le sw) (word32 b))
          g
        ≡ on
            (record { size = 8; word = if b == a then v % 256 else g.ram (place le sw b) })
            (record g { ram = update g.ram (place le sw a) (v % 256) })
  arch_load8-arch_store8 v a b p q =
      let g' = record g { ram = update g.ram (place le sw a) (v % 256) } in
      >>=-on (arch_store8 (wide info le sw) (word32 v) (word32 a))
        (λ _. arch_load8 (wide info le sw) (word32 b)) g g' tt
        (arch_store8_at info le sw g bytes a p v)
      ∙ arch_load8_at info le sw g' (λ i. ground (arith, bytes i)) b q
      ∙ ap
          (λ (t : Bool).
            on (record { size = 8; word = if t then v % 256 else g.ram (place le sw b) }) g')
          (same_place le sw a b)
