-- ===== src/Frontend/Memory/Stores.antt =====
-- `arch_store8` (libcpu/frontend.cpp) changes one byte of RAM.
use libcpu.Base.{
  ℕ, zero, suc, ◌+◌, ◌-◌, ◌*◌, ◌%◌, ◌^◌, ◌<◌, ◌≡◌, ◌∙◌, refl, ap, bit_and, bit_or, Bool, true,
  false, not, ◌==◌, if◌then◌else◌, arith, bit_xor, bit_and-low, bit_and-lt, bit_or_comm,
  bit_or-zero,
}
use libcpu.Frontend.Value.{Value, swap32}
use mathlib.Core.Path.{fun_ext}
use libcpu.Frontend.Value.Laws.{
  byte0, byte1, byte2, byte3, word4, bit_and-word4, bit_or-word4, swap32-word4,
}
use libcpu.Frontend.Code.{Ran, ArchInfo, Guest, on, update, update32, poke}
use libcpu.Frontend.Memory.{arch_store32_aligned, arch_store8}
use libcpu.Frontend.Memory.Laws.{
  low_index, wide, word32, lane, index_of, none_left, loaded, aligned_lem, arch_load32_aligned_lem,
  arch_get_shift8_lem, twice,
}

keep : (b : ℕ) → b < 256 → bit_and b 255 ≡ b
keep b h = bit_and-low 8 b ∙ omega arith

rest : (b : ℕ) → bit_or b 0 ≡ b
rest b = bit_or_comm b 0 ∙ bit_or-zero b

-- What the code makes of the word `w`, and of the byte `v` at byte `k`.
abbrev replace : ℕ → ℕ → ℕ → ℕ
replace w v k =
    bit_or (bit_and w (bit_xor (255 * 2 ^ (8 * k) % 4294967296) 4294967295))
      (bit_and v 255 * 2 ^ (8 * k) % 4294967296)

-- Bytes that are kept where the mask is 255, and a byte in the place where it is 0.
abbrev kept : ℕ → ℕ → ℕ → ℕ
kept b m w = bit_or (bit_and b m) w

keeps : (b : ℕ) → b < 256 → kept b 255 0 ≡ b
keeps b h = rw (rest (bit_and b 255)) (keep b h)

takes : (b w : ℕ) → kept b 0 w ≡ w
takes b w = rw (none_left b) (bit_or-zero w)

module _ (b : ℕ → ℕ) (p : (a : ℕ) → b a < 256) (v : ℕ) where
  by_bytes :
      (m0 m1 m2 m3 w0 w1 w2 w3 : ℕ)
      → m0 < 256
      → m1 < 256
      → m2 < 256
      → w0 < 256
      → w1 < 256
      → w2 < 256
      → bit_or (bit_and (word4 (b 0) (b 1) (b 2) (b 3)) (word4 m0 m1 m2 m3)) (word4 w0 w1 w2 w3)
        ≡ word4 (kept (b 0) m0 w0) (kept (b 1) m1 w1) (kept (b 2) m2 w2) (kept (b 3) m3 w3)
  by_bytes m0 m1 m2 m3 w0 w1 w2 w3 h0 h1 h2 k0 k1 k2 =
      rw (bit_and-word4 (b 0) (b 1) (b 2) (b 3) m0 m1 m2 m3 (p 0) (p 1) (p 2) h0 h1 h2) (
        bit_or-word4 _ _ _ (bit_and (b 3) m3) w0 w1 w2 w3 (bit_and-lt 8 (b 0) m0 (p 0) h0)
          (bit_and-lt 8 (b 1) m1 (p 1) h1) (bit_and-lt 8 (b 2) m2 (p 2) h2) k0 k1 k2)

  replace_lem :
      (k : ℕ)
      → k < 4
      → replace (word4 (b 0) (b 1) (b 2) (b 3)) v k
        ≡ word4
            (update b k (v % 256) 0)
            (update b k (v % 256) 1)
            (update b k (v % 256) 2)
            (update b k (v % 256) 3)
  replace_lem zero h =
      let placed : v % 256 * 1 % 4294967296 ≡ word4 (v % 256) 0 0 0 = omega arith in
      rw (bit_and-low 8 v, placed)
        (by_bytes 0 255 255 255 (v % 256) 0 0 0 (omega arith) (omega arith) (omega arith)
            (omega arith) (omega arith) (omega arith)
          ∙ rw (takes (b 0) (v % 256), keeps (b 1) (p 1), keeps (b 2) (p 2), keeps (b 3) (p 3))
              refl)
  replace_lem (suc zero) h =
      let placed : v % 256 * 256 % 4294967296 ≡ word4 0 (v % 256) 0 0 = omega arith in
      rw (bit_and-low 8 v, placed)
        (by_bytes 255 0 255 255 0 (v % 256) 0 0 (omega arith) (omega arith) (omega arith)
            (omega arith) (omega arith) (omega arith)
          ∙ rw (keeps (b 0) (p 0), takes (b 1) (v % 256), keeps (b 2) (p 2), keeps (b 3) (p 3))
              refl)
  replace_lem (suc (suc zero)) h =
      let placed : v % 256 * 65536 % 4294967296 ≡ word4 0 0 (v % 256) 0 = omega arith in
      rw (bit_and-low 8 v, placed)
        (by_bytes 255 255 0 255 0 0 (v % 256) 0 (omega arith) (omega arith) (omega arith)
            (omega arith) (omega arith) (omega arith)
          ∙ rw (keeps (b 0) (p 0), keeps (b 1) (p 1), takes (b 2) (v % 256), keeps (b 3) (p 3))
              refl)
  replace_lem (suc (suc (suc zero))) h =
      let placed : v % 256 * 16777216 % 4294967296 ≡ word4 0 0 0 (v % 256) = omega arith in
      rw (bit_and-low 8 v, placed)
        (by_bytes 255 255 255 0 0 0 0 (v % 256) (omega arith) (omega arith) (omega arith)
            (omega arith) (omega arith) (omega arith)
          ∙ rw (keeps (b 0) (p 0), keeps (b 1) (p 1), keeps (b 2) (p 2), takes (b 3) (v % 256))
              refl)
  replace_lem (suc (suc (suc (suc k)))) h = absurd (omega arith)

-- The four bytes of a word, stored.
update32_lem :
    (f n : ℕ → ℕ) (s a : ℕ)
    → ((k : ℕ) → n k < 256)
    → update32 f s (word4 (n 0) (n 1) (n 2) (n 3)) a ≡ (
        if a == s + 3
        then n 3
        else if a == s + 2
        then n 2
        else if a == s + 1
        then n 1
        else if a == s
        then n 0
        else f a)
update32_lem f n s a h =
    rw
      (
        byte0 (n 0) (n 1) (n 2) (n 3) (h 0) (h 1) (h 2) (h 3),
        byte1 (n 0) (n 1) (n 2) (n 3) (h 0) (h 1) (h 2) (h 3),
        byte2 (n 0) (n 1) (n 2) (n 3) (h 0) (h 1) (h 2) (h 3),
        byte3 (n 0) (n 1) (n 2) (n 3) (h 0) (h 1) (h 2) (h 3),
      )
      refl

-- One of four cells in a row.
pick :
    (f : ℕ → ℕ) (s k x a : ℕ)
    → k < 4
    → (if a == s + 3
        then update (λ i. f (s + i)) k x 3
        else if a == s + 2
        then update (λ i. f (s + i)) k x 2
        else if a == s + 1
        then update (λ i. f (s + i)) k x 1
        else if a == s
        then update (λ i. f (s + i)) k x 0
        else f a)
      ≡ update f (s + k) x a
pick f s zero x a h = grind arith
pick f s (suc zero) x a h = grind arith
pick f s (suc (suc zero)) x a h = grind arith
pick f s (suc (suc (suc zero))) x a h = grind arith
pick f s (suc (suc (suc (suc k)))) x a h = absurd (omega arith)

one_changed :
    (f : ℕ → ℕ) (s k x : ℕ)
    → ((a : ℕ) → f a < 256)
    → k < 4
    → x < 256
    → (λ (a : ℕ).
        update32 f s
          (word4
            (update (λ i. f (s + i)) k x 0)
            (update (λ i. f (s + i)) k x 1)
            (update (λ i. f (s + i)) k x 2)
            (update (λ i. f (s + i)) k x 3))
          a)
      ≡ update f (s + k) x
one_changed f s k x p h small = fun_ext λ a.
    update32_lem f (update (λ i. f (s + i)) k x) s a (λ i. ground (arith, p (s + i)))
    ∙ pick f s k x a h

-- The four bytes after the change, in the order of the word and in the other.
abbrev changed : (ℕ → ℕ) → ℕ → ℕ → ℕ
changed b k x = word4 (update b k x 0) (update b k x 1) (update b k x 2) (update b k x 3)

abbrev backwards : (ℕ → ℕ) → ℕ → ℕ → ℕ
backwards b k x = word4 (update b k x 3) (update b k x 2) (update b k x 1) (update b k x 0)

turned : (b : ℕ → ℕ) (k x : ℕ) → k < 4 → backwards (λ i. b (3 - i)) k x ≡ changed b (3 - k) x
turned b zero x h = refl
turned b (suc zero) x h = refl
turned b (suc (suc zero)) x h = refl
turned b (suc (suc (suc zero))) x h = refl
turned b (suc (suc (suc (suc k)))) x h = absurd (omega arith)

module _ (info : ArchInfo) (g : Guest) (bytes : (a : ℕ) → g.ram a < 256) (q : ℕ)
    (small : q < 536870912) (v : ℕ) where
  abbrev r : ℕ → ℕ
  r k = g.ram (q * 4 + k)

  small_cell : (k i : ℕ) → update (λ i. r (3 - i)) k (v % 256) i < 256
  small_cell k i = ground (arith, bytes (q * 4 + (3 - i)))

  one :
      (k : ℕ)
      → k < 4
      → Path
          (Ran (Unit {0}))
          (on tt (record g { ram = update32 g.ram (q * 4) (changed r k (v % 256)) }))
          (on tt (record g { ram = update g.ram (q * 4 + k) (v % 256) }))
  one k h =
      ap (λ (f : ℕ → ℕ). on tt (record g { ram = f }))
        (one_changed g.ram (q * 4) k (v % 256) bytes h (omega arith))

  -- Where the word that is stored has byte `k` replaced.
  arch_store32_aligned_lem :
      (le sw : Bool) (k : ℕ)
      → k < 4
      → arch_store32_aligned
          (wide info le sw)
          (word32 (replace (loaded g bytes q small sw) v k))
          (word32 (q * 4))
          g
        ≡ on tt (record g { ram = update g.ram (q * 4 + index_of (not sw) k) (v % 256) })
  unfolding arch_store32_aligned poke swap32
  arch_store32_aligned_lem le false k h =
      rw (low_index (q * 4) (omega arith), replace_lem r (λ a. bytes _) v k h) (one k h)
  arch_store32_aligned_lem le true k h =
      rw
        (
          low_index (q * 4) (omega arith),
          replace_lem (λ i. r (3 - i)) (λ a. bytes _) v k h,
          ap (λ (w : Value). w.word)
              (swap32-word4 (update (λ i. r (3 - i)) k (v % 256) 0)
                (update (λ i. r (3 - i)) k (v % 256) 1) (update (λ i. r (3 - i)) k (v % 256) 2)
                (update (λ i. r (3 - i)) k (v % 256) 3) (small_cell k 0) (small_cell k 1)
                (small_cell k 2) (small_cell k 3)),
          turned r k (v % 256) h,
        )
        (one (3 - k) (omega arith))

  in_word : (le : Bool) (j : ℕ) → j < 4 → index_of le j < 4
  in_word true j h = h
  in_word false j h = omega arith

  lane_lem : (le sw : Bool) (j : ℕ) → j < 4 → index_of (not sw) (index_of le j) ≡ lane le sw j
  lane_lem true sw j h = refl
  lane_lem false false j h = refl
  lane_lem false true j h = twice g bytes q small j h

  -- One byte of RAM changes, to the low byte of the value.
  pub arch_store8_lem :
      (le sw : Bool) (j : ℕ)
      → j < 4
      → arch_store8 (wide info le sw) (word32 v) (word32 (j + q * 4)) g
        ≡ on tt (record g { ram = update g.ram (q * 4 + lane le sw j) (v % 256) })
  unfolding arch_store8
  arch_store8_lem le sw j h =
      rw
        (
          aligned_lem info sw q j small h le,
          arch_load32_aligned_lem g bytes q small info le sw,
          arch_get_shift8_lem info sw q j small h le,
        )
        (arch_store32_aligned_lem le sw (index_of le j) (in_word le j h)
          ∙ ap (λ (k : ℕ). on tt (record g { ram = update g.ram (q * 4 + k) (v % 256) }))
              (lane_lem le sw j h))
