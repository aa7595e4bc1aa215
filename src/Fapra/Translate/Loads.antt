-- ===== src/Fapra/Translate/Loads.antt =====
-- The registers, loads and stores of the code that `arch_fapra_translate_instr`
-- (arch/fapra/fapra_translate.cpp) emits.
use libcpu.Base.{
  ℕ, ◌+◌, ◌*◌, ◌/◌, ◌%◌, ◌<◌, ◌≡◌, refl, true, false, bit_and, leb, arith, bit_and-low,
  bit_or-eq-add,
}
use libcpu.Frontend.{ram32le}
use libcpu.Frontend.Value.{Value}
use libcpu.Frontend.Value.Laws.{word4}
use libcpu.Frontend.Code.{Ran, Guest, update, update32, on, peek, poke}
use libcpu.Frontend.Registers.{reg, let_reg, arch_put_reg}
use libcpu.Frontend.Memory.{arch_load32_aligned, arch_store32_aligned}
use libcpu.Frontend.Memory.Laws.{low_index}
use libcpu.Frontend.Memory.RoundTrip.{place, arch_load8_at, arch_store8_at}
use libcpu.Fapra.Tag.{rd, ra}
use libcpu.Fapra.Arch.{arch_fapra_info}
use libcpu.Fapra.Isa.{words, set, d, sum}
use libcpu.Fapra.Translate.{put, address, load32, load8, store32, store8}

abbrev pub word32 : ℕ → Value
word32 n = record { size = 32; word = n }

-- Registers are words and RAM is bytes.
pub record IsWords (g : Guest) : Type 0 where
  pub gpr_word : (i : ℕ) → g.gpr i < words
  pub ram_byte : (k : ℕ) → g.ram k < 256

pub reg_lem : (g : Guest) (i : ℕ) → i < 32 → reg arch_fapra_info i g ≡ on (word32 (g.gpr i)) g
unfolding reg
reg_lem g i h = let inside : leb 32 i ≡ false = ground arith in rw inside refl

pub put_lem :
    (g : Guest) (i : ℕ) (v : ℕ)
    → i < 32
    → Path (Ran (Unit {0})) (put i (word32 v) g) (on tt (set i v g))
unfolding let_reg poke
put_lem g i v h = let inside : leb 32 i ≡ false = ground arith in rw inside refl

pub field_lem : (n : ℕ) → bit_and n 31 < 32
field_lem n = omega (arith, bit_and-low 5 n)

-- The word that is loaded.
pub ram32le_lem :
    (ram : ℕ → ℕ) (k : ℕ)
    → ((i : ℕ) → ram i < 256)
    → k < words
    → ram32le ram k ≡ word4 (ram k) (ram (k + 1)) (ram (k + 2)) (ram (k + 3))
unfolding ram32le
ram32le_lem ram k bytes h =
    let q0 : (k + 0) % 18446744073709551616 ≡ k = omega arith in
    let q1 : (k + 1) % 18446744073709551616 ≡ k + 1 = omega arith in
    let q2 : (k + 2) % 18446744073709551616 ≡ k + 2 = omega arith in
    let q3 : (k + 3) % 18446744073709551616 ≡ k + 3 = omega arith in
    let below : ram k + ram (k + 1) * 256 < 65536 = omega (arith, bytes k, bytes (k + 1)) in
    let below' : ram k + ram (k + 1) * 256 + ram (k + 2) * 65536 < 16777216 =
      omega (arith, bytes k, bytes (k + 1), bytes (k + 2)) in
    rw
      (
        q0,
        q1,
        q2,
        q3,
        bit_or-eq-add 8 (ram k) (ram (k + 1)) (bytes k),
        bit_or-eq-add 16 (ram k + ram (k + 1) * 256) (ram (k + 2)) below,
        bit_or-eq-add 24 (ram k + ram (k + 1) * 256 + ram (k + 2) * 65536) (ram (k + 3)) below',
      )
      (omega arith)

module _ (g : Guest) (w : IsWords g) (ins pc : ℕ) where
  pub address_lem : address ins g ≡ on (word32 (sum ins pc g)) g
  unfolding address
  address_lem = rw (reg_lem g (ra ins) (field_lem _)) refl

module _ (g : Guest) (w : IsWords g) (ins pc : ℕ) (low : sum ins pc g < 2147483648) where
  abbrev s : ℕ
  s = sum ins pc g

  address_at : address ins g ≡ on (word32 s) g
  address_at = address_lem g w ins pc

  s_word : s < words
  s_word = omega (arith, low)

  pub ldw_lem :
      Path
        (Ran (Unit {0}))
        (load32 ins g)
        (on tt (set (rd ins) (word4 (g.ram s) (g.ram (s + 1)) (g.ram (s + 2)) (g.ram (s + 3))) g))
  unfolding load32 arch_load32_aligned arch_put_reg poke peek
  ldw_lem =
      let inside : leb 32 (rd ins) ≡ false = ground (arith, field_lem (ins / 2097152)) in
      rw (address_at, low_index s low, ram32le_lem g.ram s w.ram_byte s_word, inside) refl

  pub stw_lem :
      Path
        (Ran (Unit {0}))
        (store32 ins g)
        (on tt (record g { ram = update32 g.ram s (d ins pc g) }))
  unfolding store32 arch_store32_aligned poke
  stw_lem = rw (reg_lem g (rd ins) (field_lem _), address_at, low_index s low) refl

  same_place : (n : ℕ) → place true false n ≡ n
  same_place n = omega arith

  pub ldb_lem : Path (Ran (Unit {0})) (load8 ins g) (on tt (set (rd ins) (g.ram s) g))
  unfolding load8 arch_put_reg poke
  ldb_lem =
      let inside : leb 32 (rd ins) ≡ false = ground (arith, field_lem (ins / 2097152)) in
      rw
        (
          address_at,
          arch_load8_at arch_fapra_info true false g w.ram_byte s low,
          inside,
          same_place s,
        )
        refl

  pub stb_lem :
      Path
        (Ran (Unit {0}))
        (store8 ins g)
        (on tt (record g { ram = update g.ram s (d ins pc g % 256) }))
  unfolding store8
  stb_lem =
      rw
        (
          reg_lem g (rd ins) (field_lem _),
          address_at,
          arch_store8_at arch_fapra_info true false g w.ram_byte s low (d ins pc g),
          same_place s,
        )
        refl
