-- ===== src/X86/ModRm/Sib.antt =====
-- When a SIB byte follows the ModR/M byte.
use libcpu.Base.{
  ℕ, ◌<◌, ◌≤◌, ◌≡◌, inl, inr, refl, ◌∙◌, Bool, true, false, not, ◌&&◌, [], ◌∷◌, ◌|||◌, ◌<<<◌, ◌==◌,
  has, is_case, all_below, all_below-test, same_bit, same_bit→eq, has-bit_or, has-bit_and, arith,
  get_or, Bool-cases, clear64, ◌-◌, ◌^◌,
}
use libcpu.X86.Flags.{
  sib, dir_reversed, src_mem, dst_mem, src_mem_disp_word, src_mem_disp_dword, dst_mem_disp_word,
  dst_mem_disp_dword,
}
use libcpu.X86.Instr.{X86Instr, addr_size_override, has_flag}
use libcpu.X86.ModRm.{
  decode_modrm_addr_modes, modrm_flags, selector, rm_mod, mod_dst_decode, mod_src_decode,
}

abbrev sib_case : ℕ → Bool
sib_case sel = is_case sel ((4 ||| rm_mod 0) ∷ (4 ||| rm_mod 1) ∷ (4 ||| rm_mod 2) ∷ [])

modrm_flags-sib :
    (sel mem dw dd flags : ℕ)
    → has flags sib ≡ false
    → has dw sib ≡ false
    → has dd sib ≡ false
    → has (modrm_flags sel mem dw dd flags) sib ≡ sib_case sel
modrm_flags-sib sel mem dw dd flags hf hw hd = ground (
  arith,
  has-bit_or flags dd sib,
  has-bit_or flags dw sib,
  has-bit_or flags sib sib,
  has-bit_or flags (dd ||| sib) sib,
  has-bit_or dd sib sib,
  has-bit_or (clear64 flags mem) dd sib,
  has-bit_or (clear64 flags mem) dw sib,
  has-bit_and flags (2 ^ 64 - 1 - mem) sib hf,
)

-- The two selectors agree on all values of the three fields.
sib_table :
    all_below 2 (λ a. all_below 4 (λ m. all_below 8 (λ r.
      same_bit (sib_case ((a <<< 16) ||| (m <<< 8) ||| r)) ((a == 0) && (r == 4) && not (m == 3)))))
    ≡ true
unfolding all_below
sib_table = refl

sib_case-selector :
    (a m r : ℕ)
    → a < 2
    → m < 4
    → r < 8
    → sib_case ((a <<< 16) ||| (m <<< 8) ||| r) ≡ ((a == 0) && (r == 4) && not (m == 3))
sib_case-selector a m r ha hm hr = same_bit→eq _ _ (
    all_below-test 8
      (λ r.
        same_bit (sib_case ((a <<< 16) ||| (m <<< 8) ||| r)) ((a == 0) && (r == 4) && not (m == 3)))
      r
      (all_below-test 4
        (λ m. all_below 8 (λ r.
          same_bit (sib_case ((a <<< 16) ||| (m <<< 8) ||| r))
            ((a == 0) && (r == 4) && not (m == 3))))
        m
        (all_below-test 2
          (λ a. all_below 4 (λ m. all_below 8 (λ r.
            same_bit (sib_case ((a <<< 16) ||| (m <<< 8) ||| r))
              ((a == 0) && (r == 4) && not (m == 3)))))
          a sib_table ha)
        hm)
      hr)

mod_decode-sib :
    (m : ℕ)
    → (has (get_or mod_dst_decode m 0) sib ≡ false) × (has (get_or mod_src_decode m 0) sib ≡ false)
mod_decode-sib m = ground arith

-- For an instruction without the SIB flag, with fields in their bits: the ModR/M byte sets the SIB
-- flag exactly if the addresses have 32 bits, `rm` is 4 and `mod` is not 3. So `mod` is inside
-- `sib_dst_decode` and `sib_src_decode` whenever a SIB byte is fetched.
pub decode_modrm_addr_modes-sib :
    (i : X86Instr)
    → addr_size_override i ≤ 1
    → i.mod_field ≤ 3
    → i.rm < 8
    → has_flag i sib ≡ false
    → has_flag (decode_modrm_addr_modes i) sib
      ≡ ((addr_size_override i == 0) && (i.rm == 4) && not (i.mod_field == 3))
unfolding decode_modrm_addr_modes
decode_modrm_addr_modes-sib i ha hm hr clear =
    let dst_clear : has (i.flags ||| get_or mod_dst_decode i.mod_field 0) sib ≡ false = ground (
      arith,
      has-bit_or i.flags (get_or mod_dst_decode i.mod_field 0) sib,
      mod_decode-sib i.mod_field,
    ) in
    let src_clear : has (i.flags ||| get_or mod_src_decode i.mod_field 0) sib ≡ false = ground (
      arith,
      has-bit_or i.flags (get_or mod_src_decode i.mod_field 0) sib,
      mod_decode-sib i.mod_field,
    ) in
    let same =
      sib_case-selector (addr_size_override i) i.mod_field i.rm (omega arith) (omega arith) hr in
    elim (Bool-cases (has_flag i dir_reversed)) [
      | inl dst ↦
          rw (decode_modrm_addr_modes, dst)
            (modrm_flags-sib (selector i) dst_mem dst_mem_disp_word dst_mem_disp_dword _ dst_clear
                refl refl
              ∙ same)
      | inr src ↦
          rw (decode_modrm_addr_modes, src)
            (modrm_flags-sib (selector i) src_mem src_mem_disp_word src_mem_disp_dword _ src_clear
                refl refl
              ∙ same)
    ]
