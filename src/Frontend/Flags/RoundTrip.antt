-- ===== src/Frontend/Flags/RoundTrip.antt =====
-- The flags survive `arch_flags_encode` and `arch_flags_decode` (libcpu/frontend.cpp).
use libcpu.Base.{
  ℕ, zero, suc, ◌*◌, ◌/◌, ◌%◌, ◌^◌, ◌<◌, ◌≤◌, ◌≡◌, ◌∙◌, refl, ap, sym, bit_or, Bool, true, false,
  ◌==◌, ==_iff, List, [], ◌∷◌, is_case, if◌then◌else◌, arith, bit_at, bit_at-bit_or, ◌||◌,
}
use native.Mathlib.Nat.{pow-suc, pow-succ', one-le-pow, mod-eq_of_lt, zero-mod, div-div-eq-div-mul}
use Prim.Native.Nat.{max}
use libcpu.Frontend.Value.{Value}
use libcpu.Frontend.Code.{ArchInfo, Guest, update, on}
use libcpu.Frontend.Flags.{encode_all, decode_all, arch_flags_encode, arch_flags_decode}

lt-pow : (s : ℕ) → s < 2 ^ s
lt-pow zero = omega arith
lt-pow (suc s) = omega (arith, lt-pow s, pow-suc 2 s)

pow-twice : (s w : ℕ) → s < w → 2 * 2 ^ s ≤ 2 ^ w
pow-twice s zero h = absurd (omega arith)
pow-twice zero (suc w) h = omega (arith, pow-suc 2 w, one-le-pow w 2)
pow-twice (suc s) (suc w) h = omega (arith, pow-suc 2 w, pow-suc 2 s, pow-twice s w (omega arith))

bit_at-zero : (i : ℕ) → bit_at 0 i ≡ 0
bit_at-zero zero = refl
bit_at-zero (suc i) = bit_at-zero i

same-suc : (i s : ℕ) → (suc i == suc s) ≡ (i == s)
same-suc i s = ground arith

double : (f s : ℕ) → f * 2 ^ suc s ≡ 2 * (f * 2 ^ s)
double f s = omega (arith, ap (λ (t : ℕ). f * t) (pow-suc 2 s))

-- Bit `s` alone.
bit_at-pow : (s i f : ℕ) → f < 2 → bit_at (f * 2 ^ s) i ≡ (if i == s then f else 0)
bit_at-pow zero zero f h = omega arith
bit_at-pow zero (suc i) f h =
    let none_left : f * 1 / 2 ≡ 0 = omega arith in
    let other : (suc i == 0) ≡ false = ground arith in rw (none_left, other) (bit_at-zero i)
bit_at-pow (suc s) zero f h =
    let other : (0 == suc s) ≡ false = ground arith in rw other (omega (arith, double f s))
bit_at-pow (suc s) (suc i) f h =
    let half : f * 2 ^ suc s / 2 ≡ f * 2 ^ s = omega (arith, double f s) in
    rw (half, same-suc i s) (bit_at-pow s i f h)

bit_at-div : (s w : ℕ) → w / 2 ^ s % 2 ≡ bit_at w s
bit_at-div zero w = omega arith
bit_at-div (suc s) w = rw (pow-succ' 2 s, ← div-div-eq-div-mul w 2 (2 ^ s)) (bit_at-div s (w / 2))

-- The flags of a layout are bits, at shifts below the width of the word.
abbrev pub IsLayout : ℕ → (ℕ → ℕ) → List ℕ → Type 0
IsLayout w flag [] = Unit
IsLayout w flag (s ∷ ss) = (s < w) × (flag s < 2) × IsLayout w flag ss

shift-small : (s w : ℕ) → s < w → s % 2 ^ w ≡ s
shift-small s w h = mod-eq_of_lt (omega (arith, lt-pow w))

flag-small : (f s w : ℕ) → f < 2 → s < w → f * 2 ^ s % 2 ^ w ≡ f * 2 ^ s
flag-small zero s w bit h = mod-eq_of_lt (omega (arith, one-le-pow w 2))
flag-small (suc zero) s w bit h = mod-eq_of_lt (omega (arith, pow-twice s w h, one-le-pow s 2))
flag-small (suc (suc f)) s w bit h = absurd (omega arith)

merge :
    (b c : Bool) (a fs fi m x : ℕ)
    → (b ≡ true → fs ≡ fi)
    → m ≡ max a (if b then fs else 0)
    → x ≡ (if c then max m fi else m)
    → x ≡ (if b || c then max a fi else a)
merge true true a fs fi m x same one more = omega (arith, same refl)
merge true false a fs fi m x same one more = omega (arith, same refl)
merge false true a fs fi m x same one more = omega arith
merge false false a fs fi m x same one more = omega arith

last :
    (b c : Bool) (wi bit old : ℕ)
    → (b ≡ true → bit ≡ wi)
    → (if c then wi else if b then bit else old) ≡ (if b || c then wi else old)
last true true wi bit old same = refl
last true false wi bit old same = same refl
last false true wi bit old same = refl
last false false wi bit old same = refl

only :
    (c : Bool) (wi z f old : ℕ)
    → wi ≡ (if c then max z f else z)
    → z ≡ 0
    → (if c then wi else old) ≡ (if c then f else old)
only true wi z f old same none_set = omega arith
only false wi z f old same none_set = refl

module _ (info : ArchInfo) (g : Guest) where
  -- The word after some flags more.
  abbrev encoded : List ℕ → ℕ → ℕ
  encoded [] acc = acc
  encoded (s ∷ ss) acc = encoded ss (bit_or acc (g.flag s * 2 ^ s))

  encode_all_lem :
      (ss : List ℕ) (acc : ℕ)
      → IsLayout info.psr_size g.flag ss
      → encode_all info ss (record { size = info.psr_size; word = acc }) g
        ≡ on (record { size = info.psr_size; word = encoded ss acc }) g
  unfolding encode_all
  encode_all_lem [] acc h = refl
  encode_all_lem (s ∷ ss) acc h =
      rw (shift-small s info.psr_size h.0, flag-small (g.flag s) s info.psr_size h.1 h.0)
        (encode_all_lem ss (bit_or acc (g.flag s * 2 ^ s)) h.2)

  bit_at-encoded :
      (ss : List ℕ) (acc i : ℕ)
      → IsLayout info.psr_size g.flag ss
      → bit_at (encoded ss acc) i
        ≡ (if is_case i ss then max (bit_at acc i) (g.flag i) else bit_at acc i)
  bit_at-encoded [] acc i h = refl
  bit_at-encoded (s ∷ ss) acc i h =
      let more = bit_at-encoded ss (bit_or acc (g.flag s * 2 ^ s)) i h.2 in
      let one = bit_at-bit_or i acc (g.flag s * 2 ^ s) in
      let alone = bit_at-pow s i (g.flag s) h.1 in
      merge (i == s) (is_case i ss) (bit_at acc i) (g.flag s) (g.flag i) _ _
        (λ e. sym (ap g.flag ((==_iff i s).0 e))) (one ∙ ap (max (bit_at acc i)) alone) more

  decode_all_lem :
      (ss : List ℕ) (w : ℕ) (k : Guest) (i : ℕ)
      → IsLayout info.psr_size g.flag ss
      → (k' : Guest) × (decode_all info ss (record { size = info.psr_size; word = w }) k ≡ on tt k')
        × (k'.flag i ≡ (if is_case i ss then bit_at w i else k.flag i))
  unfolding decode_all
  decode_all_lem [] w k i h = (k, refl, refl)
  decode_all_lem (s ∷ ss) w k i h =
      let bit : w / 2 ^ (s % 2 ^ info.psr_size) % 2 ≡ bit_at w s =
        rw (shift-small s info.psr_size h.0) (bit_at-div s w) in
      let (k', run, flags) =
        decode_all_lem ss w
          (record k { flag = update k.flag s (w / 2 ^ (s % 2 ^ info.psr_size) % 2) }) i h.2 in
      (
        k',
        run,
        flags
            ∙ last (i == s) (is_case i ss) _ _ _
                (λ e. bit ∙ sym (ap (bit_at w) ((==_iff i s).0 e))),
      )

  -- For flags of bits at shifts below the width of the flags' word: the code of `arch_flags_encode`
  -- gives a word and changes nothing, and that of `arch_flags_decode` of this word, in any guest,
  -- leaves each flag of the layout as it was encoded, and the others alone.
  pub arch_flags_decode-arch_flags_encode :
      (k : Guest) (i : ℕ)
      → IsLayout info.psr_size g.flag info.flags_layout
      → (w : Value) × (arch_flags_encode info g ≡ on w g)
        × (k' : Guest) × (arch_flags_decode info w k ≡ on tt k')
        × (k'.flag i ≡ (if is_case i info.flags_layout then g.flag i else k.flag i))
  unfolding arch_flags_encode arch_flags_decode
  arch_flags_decode-arch_flags_encode k i h =
      let word = encoded info.flags_layout 0 in
      let (k', run, flags) = decode_all_lem info.flags_layout word k i h in
      (
        record { size = info.psr_size; word = word },
        rw zero-mod (encode_all_lem info.flags_layout 0 h),
        k',
        run,
        flags
            ∙ only (is_case i info.flags_layout) _ _ _ _ (bit_at-encoded info.flags_layout 0 i h)
                (bit_at-zero i),
      )
