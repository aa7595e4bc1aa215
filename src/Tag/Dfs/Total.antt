-- ===== src/Tag/Dfs/Total.antt =====
-- `tag_recursive` returns and visits its address, for a frontend that stores what its tags need.
use mathlib.Core.Path.{subst}
use libcpu.Base.{
  ℕ, zero, suc, ◌+◌, ◌<◌, ◌≡◌, ◌⊎◌, inl, inr, true, false, ◌&&◌, [], ◌∷◌, arith, has, bit_or, ◌==◌,
  Bool-cases, has-bit_or,
}
use libcpu.Tag.Flags.{tag_code, tag_after_cond, codegen_tag_limit, limit_tagging_dfs}
use libcpu.Tag.Store.{Cpu, Tagging, or_tag, get_tag, is_code, is_inside_code_area}
use libcpu.Tag.Store.Laws.{IsSized, uncoded, uncoded-or_tag_lt}
use libcpu.Tag.Arch.{Written, Locals, store, IsWritten, next_pc_of}
use libcpu.Tag.Dfs.{Outcome, loop, enter, tag_recursive, mark}
use libcpu.Tag.Dfs.Phases.{Returns, Returns-map, Calls}
use libcpu.Tag.Dfs.Search.{after_list, body-Visits, mark-Visits, mark_labels}
use libcpu.Tag.Visits.{Visits, Visits-append, LabelsNext}
use libcpu.Tag.Flow.{Reach}
use libcpu.Tag.Visits.Mark.{Visits-known, Visits-limited, Visits-mark}
use libcpu.Tag.Dfs.Follow.{Flow-after_list, after_list-Flow, tag-store, next_pc-store}

module _ (cpu : Cpu) (tag_instr : ℕ → Written) where
  -- What the search leaves, whether or not it is limited.
  pub record Marks (s : Tagging) (pc : ℕ) (s' : Tagging) : Type 0 where
    pub sized : IsSized cpu s'
    pub same_dirty : s'.tags_dirty ≡ s.tags_dirty
    pub same_entries : s'.file_entries ≡ s.file_entries
    pub keeps_tags : (a t : ℕ) → has (get_tag cpu s a) t ≡ true → has (get_tag cpu s' a) t ≡ true
    pub sound :
        (a : ℕ) → is_code cpu s' a ≡ true → (is_code cpu s a ≡ true) ⊎ Reach cpu tag_instr pc a

  Marks-Visits :
      (s : Tagging) (pc : ℕ) (s' : Tagging) → Visits cpu tag_instr s s' (pc ∷ []) → Marks s pc s'
  Marks-Visits s pc s' v = record {
    sized = v.sized;
    same_dirty = v.same_dirty;
    same_entries = v.same_entries;
    keeps_tags = v.keeps_tags;
    sound = λ a h. elim (v.sound a h) [
      | inl old ↦ inl old
      | inr (q, inl e, r) ↦ inr (rw (← e) r)
      | inr (q, inr none, r) ↦ absurd none
    ];
  }

module _ (cpu : Cpu) (tag_instr : ℕ → Written) (written : (pc : ℕ) → IsWritten (tag_instr pc))
    (indeterminate : Locals) where
  marked_room :
      (fuel pc : ℕ) (s : Tagging) (tag : ℕ)
      → IsSized cpu s
      → uncoded s < suc fuel
      → is_inside_code_area cpu pc ≡ true
      → is_code cpu s pc ≡ false
      → uncoded (or_tag cpu s pc (bit_or tag tag_code)) < fuel
  marked_room fuel pc s tag sized room inside new =
      let coded : has (bit_or tag tag_code) tag_code ≡ true =
        ground (arith, has-bit_or tag tag_code tag_code) in
      omega (arith, uncoded-or_tag_lt cpu s sized pc (bit_or tag tag_code) inside new coded)

  enter-Visits :
      (bound : ℕ) (run : ℕ → Locals → ℕ → Tagging → Outcome) (level : ℕ)
      → Calls cpu tag_instr bound (run level indeterminate)
      → Calls cpu tag_instr bound (enter cpu tag_instr indeterminate run level)
  unfolding enter
  enter-Visits bound run level calls q s sized room =
      elim (Bool-cases (has cpu.flags_codegen codegen_tag_limit && (level == limit_tagging_dfs))) [
        | inl e ↦ rw e (Visits-limited cpu tag_instr s sized q (λ u. ground arith))
        | inr e ↦ rw e (calls q s sized room)
      ]

  -- The instruction is marked, then what may run after it is visited.
  marked-Visits :
      (l0 : Locals) (pc : ℕ) (s s' : Tagging)
      → IsSized cpu s
      → is_inside_code_area cpu pc ≡ true
      → is_code cpu s pc ≡ false
      → Visits cpu tag_instr
          (mark cpu (store (tag_instr pc) l0) pc s)
          s'
          (after_list cpu tag_instr (store (tag_instr pc) l0))
      → Visits cpu tag_instr s s' (pc ∷ [])
  marked-Visits l0 pc s s' sized inside new v =
      let l = store (tag_instr pc) l0 in
      let qs = after_list cpu tag_instr l in
      let labelled : LabelsNext cpu tag_instr pc s' = λ cond next_inside.
        v.keeps_tags (next_pc_of (tag_instr pc)) tag_after_cond (
          subst (λ x. has (get_tag cpu (mark cpu l pc s) x) tag_after_cond ≡ true)
            (next_pc-store (written pc) l0)
            (mark_labels cpu tag_instr l pc s sized (rw (tag-store (written pc) l0) cond)
              (rw (next_pc-store (written pc) l0) next_inside))) in
      Visits-mark cpu tag_instr s sized pc l.tag inside new (tag-store (written pc) l0) qs
        (Flow-after_list cpu tag_instr written pc l0) (after_list-Flow cpu tag_instr written pc l0)
        (Visits-append cpu tag_instr [] qs (mark-Visits cpu tag_instr l pc s sized) v) labelled

  loop-Visits :
      (fuel level : ℕ) (l : Locals)
      → Calls cpu tag_instr fuel (loop cpu tag_instr indeterminate fuel level l)
  unfolding loop
  loop-Visits zero level l pc s sized room = absurd (omega arith)
  loop-Visits (suc fuel) level l pc s sized room = elim (Bool-cases (is_inside_code_area cpu pc)) [
    | inr out ↦ rw out (Visits-known cpu tag_instr s sized pc (inl out))
    | inl inside ↦ elim (Bool-cases (is_code cpu s pc)) [
      | inl old ↦ rw (inside, old) (Visits-known cpu tag_instr s sized pc (inr old))
      | inr new ↦
          rw (inside, new)
            (Returns-map
              (λ s'.
                Visits cpu tag_instr (mark cpu (store (tag_instr pc) l) pc s) s'
                  (after_list cpu tag_instr (store (tag_instr pc) l)))
              (λ s'. Visits cpu tag_instr s s' (pc ∷ [])) _
              (λ s' v. marked-Visits l pc s s' sized inside new v)
              (body-Visits cpu tag_instr fuel _ _
                (enter-Visits fuel (loop cpu tag_instr indeterminate fuel) (level + 1)
                  (loop-Visits fuel (level + 1) indeterminate))
                (loop-Visits fuel level (store (tag_instr pc) l)) (store (tag_instr pc) l) pc s
                sized (marked_room fuel pc s (store (tag_instr pc) l).tag sized room inside new)))
    ]
  ]

  pub tag_recursive-Visits :
      (fuel level : ℕ)
      → Calls cpu tag_instr fuel (tag_recursive cpu tag_instr indeterminate fuel level)
  unfolding tag_recursive
  tag_recursive-Visits fuel level =
      enter-Visits fuel (loop cpu tag_instr indeterminate fuel) level
        (loop-Visits fuel level indeterminate)

  -- For a frontend that stores what its tags need, any flags (also with the depth of the search
  -- limited), any level, an array of the size of the code area, and more fuel than that array has
  -- addresses that are not code: `tag_recursive` returns, it keeps the size of the array, every tag
  -- bit that was set, `tags_dirty` and the cache file, and all code that it marks is reachable
  -- from `pc`.
  pub tag_recursive-Marks :
      (fuel level pc : ℕ) (s : Tagging)
      → IsSized cpu s
      → uncoded s < fuel
      → Returns
          (tag_recursive cpu tag_instr indeterminate fuel level pc s)
          (Marks cpu tag_instr s pc)
  tag_recursive-Marks fuel level pc s sized room =
      Returns-map (λ s'. Visits cpu tag_instr s s' (pc ∷ [])) (Marks cpu tag_instr s pc) _
        (Marks-Visits cpu tag_instr s pc) (tag_recursive-Visits fuel level pc s sized room)
