-- ===== src/Tag/Start/Runs.antt =====
-- `tag_start` marks exactly the code that its entries and those of the cache reach.
use mathlib.Core.List.{append-nil, append_assoc}
use libcpu.Base.{◌≢◌}
use libcpu.Tag.Start.Exact.{IsExact, IsExact-Visits, IsExact-same_tag, IsExact-fresh}
use libcpu.Base.{
  ℕ, ◌-◌, ◌<◌, ◌≡◌, refl, inl, inr, true, false, Option, none, some, List, [], ◌∷◌, ◌++◌, has,
  bit_or, replicate, arith, Option-cases,
}
use libcpu.Tag.Flags.{tag_unknown, tag_entry, debug_singlestep, debug_singlestep_bb}
use libcpu.Tag.Store.{Cpu, Tagging, or_tag, array}
use libcpu.Tag.Store.Laws.{IsSized, uncoded, uncoded-le-length}
use libcpu.Tag.Arch.{Written, Locals, IsWritten}
use libcpu.Tag.Cache.{read_entries}
use libcpu.Tag.Dfs.{Outcome, done}
use libcpu.Tag.Dfs.Phases.{Returns, Returns-map, Returns-bind}
use libcpu.Tag.Dfs.Total.{tag_recursive-Visits}
use libcpu.Tag.Visits.{Visits, Visits-append, Visits-or_tag, Unlimited}
use libcpu.Tag.Start.{
  CacheFile, tag_start, start_with, start_all, init_tagging, load_cache, tag_entry_point,
  save_entry,
}

module _ (cpu : Cpu) (tag_instr : ℕ → Written) (written : (pc : ℕ) → IsWritten (tag_instr pc))
    (indeterminate : Locals) (fuel : ℕ) (enough : cpu.code_end - cpu.code_start < fuel)
    (unlimited : Unlimited cpu) where
  room :
      (s : Tagging) (pc : ℕ)
      → IsSized cpu (or_tag cpu s pc tag_entry)
      → uncoded (or_tag cpu s pc tag_entry) < fuel
  room s pc sized = omega (arith, uncoded-le-length (array (or_tag cpu s pc tag_entry)))

  pub tag_entry_point-IsExact :
      (es : List ℕ) (pc : ℕ) (s : Tagging)
      → IsExact cpu tag_instr es s
      → Returns
          (tag_entry_point cpu tag_instr indeterminate fuel pc s)
          (IsExact cpu tag_instr (es ++ pc ∷ []))
  unfolding tag_entry_point
  tag_entry_point-IsExact es pc s exact =
      let saved = save_entry cpu tag_instr indeterminate fuel pc s in
      let same : s.tag ≡ saved.tag = unfold save_entry in ground arith in
      let exact' : IsExact cpu tag_instr es saved =
        IsExact-same_tag cpu tag_instr {s = s} saved same exact in
      let v = Visits-or_tag cpu tag_instr saved pc tag_entry exact'.sized refl in
      Returns-map (λ s'. Visits cpu tag_instr (or_tag cpu saved pc tag_entry) s' (pc ∷ [])) _ _
        (λ s' w.
          IsExact-Visits cpu tag_instr pc unlimited exact'
            (Visits-append cpu tag_instr [] (pc ∷ []) v w))
        (tag_recursive-Visits cpu tag_instr written indeterminate fuel 0 pc _ v.sized
          (room saved pc v.sized))

  module _ (runs : has cpu.flags_debug (bit_or debug_singlestep debug_singlestep_bb) ≡ false) where
    start_with-IsExact :
        (es : List ℕ) (init : Tagging → Outcome) (pc : ℕ) (s : Tagging)
        → (s.tag ≢ none → IsExact cpu tag_instr es s)
        → (s.tag ≡ none
            → Returns (init (record s { tags_dirty = true })) (IsExact cpu tag_instr es))
        → Returns
            (start_with cpu tag_instr indeterminate fuel init pc s)
            (IsExact cpu tag_instr (es ++ pc ∷ []))
    unfolding start_with
    start_with-IsExact es init pc s old new = rw runs (
        Returns-bind (IsExact cpu tag_instr es) (IsExact cpu tag_instr (es ++ pc ∷ []))
          (elim s.tag [
            | none ↦ init (record s { tags_dirty = true })
            | some tags ↦ done (record s { tags_dirty = true })
          ])
          (tag_entry_point cpu tag_instr indeterminate fuel pc) first
          (λ s' exact. tag_entry_point-IsExact es pc s' exact))
      where
        first :
            Returns
              (elim s.tag [
                | none ↦ init (record s { tags_dirty = true })
                | some tags ↦ done (record s { tags_dirty = true })
              ])
              (IsExact cpu tag_instr es)
        first = elim (Option-cases s.tag) [
          | inl e ↦ rw e (new e)
          | inr (tags, e) ↦ rw e (
              IsExact-same_tag cpu tag_instr {s = s} (record s { tags_dirty = true }) refl
                (old (λ n. cc (n, e))))
        ]

    start_all-IsExact :
        (es pcs : List ℕ) (s : Tagging)
        → IsExact cpu tag_instr es s
        → Returns
            (start_all cpu tag_instr indeterminate fuel pcs s)
            (IsExact cpu tag_instr (es ++ pcs))
    unfolding start_all
    start_all-IsExact es [] s exact = rw append-nil exact
    start_all-IsExact es (pc ∷ pcs) s exact =
        Returns-bind (IsExact cpu tag_instr (es ++ pc ∷ []))
          (IsExact cpu tag_instr (es ++ pc ∷ pcs))
          (start_with cpu tag_instr indeterminate fuel (λ s. done s) pc s)
          (start_all cpu tag_instr indeterminate fuel pcs)
          (start_with-IsExact es (λ s. done s) pc s (λ _. exact)
            (λ _.
              IsExact-same_tag cpu tag_instr {s = s} (record s { tags_dirty = true }) refl exact))
          (λ s' exact'. rw (← regroup) (start_all-IsExact (es ++ pc ∷ []) pcs s' exact'))
      where
        regroup : (es ++ pc ∷ []) ++ pcs ≡ es ++ pc ∷ pcs
        regroup = rw append_assoc

    -- The entries that a fresh start takes from the cache.
    abbrev pub cached : CacheFile → List ℕ
    cached cache = elim cache.content [ none ↦ [] | some bytes ↦ read_entries bytes ]

    abbrev pub blank : Tagging → Tagging
    blank s = record s {
      tag = some (replicate (cpu.code_end - cpu.code_start) tag_unknown);
      file_entries = none;
    }

    pub load_cache-IsExact :
        (content : Option (List ℕ)) (s : Tagging)
        → Returns
            (load_cache cpu tag_instr indeterminate fuel content (blank s))
            (IsExact cpu tag_instr (elim content [ none ↦ [] | some bytes ↦ read_entries bytes ]))
    unfolding load_cache
    load_cache-IsExact none s = IsExact-fresh cpu tag_instr (blank s) refl
    load_cache-IsExact (some bytes) s =
        start_all-IsExact [] (read_entries bytes) (blank s)
          (IsExact-fresh cpu tag_instr (blank s) refl)

    init_tagging-IsExact :
        (cache : CacheFile) (s : Tagging)
        → cache.can_append ≡ true
        → Returns
            (init_tagging cpu tag_instr indeterminate fuel cache s)
            (IsExact cpu tag_instr (cached cache))
    unfolding init_tagging
    init_tagging-IsExact cache s can =
        rw (unlimited, can)
          (Returns-bind (IsExact cpu tag_instr (cached cache))
            (IsExact cpu tag_instr (cached cache))
            (load_cache cpu tag_instr indeterminate fuel cache.content (blank s))
            (λ s'. done (record s' { file_entries = some [] })) (load_cache-IsExact cache.content s)
            (λ s' exact.
              IsExact-same_tag cpu tag_instr {s = s'} (record s' { file_entries = some [] }) refl
                exact))

    -- The first `tag_start` on a machine (no array yet, the search not limited, no single-stepping,
    -- the cache file can be appended to), with fuel above the size of the code area and a frontend
    -- that stores what its tags need: it returns, and an address is marked as code exactly if it is
    -- reachable, by the frontend's control flow inside the code area, from the entry or from one of
    -- the entries read from the cache file. Code has the tag bits that the frontend gave it, and an
    -- address of the code area after a conditional instruction is labelled.
    pub tag_start-IsExact :
        (cache : CacheFile) (pc : ℕ) (s : Tagging)
        → s.tag ≡ none
        → cache.can_append ≡ true
        → Returns
            (tag_start cpu tag_instr indeterminate fuel cache pc s)
            (IsExact cpu tag_instr (cached cache ++ pc ∷ []))
    unfolding tag_start
    tag_start-IsExact cache pc s null can =
        start_with-IsExact (cached cache) (init_tagging cpu tag_instr indeterminate fuel cache) pc s
          (λ e. absurd (e null))
          (λ _. init_tagging-IsExact cache (record s { tags_dirty = true }) can)

    -- A later `tag_start`, with the search not limited, no single-stepping, fuel above the size of
    -- the code area and a frontend that stores what its tags need, on an array where exactly the
    -- code reachable from `es` is marked, with its frontend's tag bits and the labels after its
    -- conditional instructions: it returns, and this holds for `es` and the new entry.
    pub tag_start-IsExact_again :
        (cache : CacheFile) (pc : ℕ) (es : List ℕ) (s : Tagging)
        → s.tag ≢ none
        → IsExact cpu tag_instr es s
        → Returns
            (tag_start cpu tag_instr indeterminate fuel cache pc s)
            (IsExact cpu tag_instr (es ++ pc ∷ []))
    unfolding tag_start
    tag_start-IsExact_again cache pc es s there exact =
        start_with-IsExact es (init_tagging cpu tag_instr indeterminate fuel cache) pc s
          (λ _. exact) (λ e. absurd (there e))
