-- ===== src/Run/Ends.antt =====
-- `cpu_run` (libcpu/interface.cpp) returns, for a guest that comes to an end.
use libcpu.Base.{ℕ, ◌+◌, ◌*◌, ◌≤◌, ◌<◌, ◌≡◌, ◌≢◌, ◌⊎◌, true, false, List, [], ◌∷◌, ◌==◌}
use libcpu.Tag.Store.{Cpu, Tagging, is_inside_code_area}
use libcpu.Tag.Dfs.{Outcome}
use libcpu.Run.{Compiled, Engine, Built, Round, Ended, jit_return_funcnotfound, cpu_run}

-- `rank` is how far the guest is from its end.
module _ {S : Type 0} (cpu : Cpu) (get_pc : S → ℕ) (rank : S → ℕ) where
  abbrev pub Left : ℕ → S → Type 0
  Left ret s = (ret ≢ jit_return_funcnotfound) ⊎ (is_inside_code_area cpu (get_pc s) ≡ false)

  -- The run ended before its fuel, and the searches of the tagger did: it returns with a code other
  -- than JIT_RETURN_FUNCNOTFOUND or outside the code area, or the program exits.
  abbrev pub Ends : Ended S → Type 0
  Ends (Ended.runs_on s) = ⊥
  Ends (Ended.stopped ret s) = Left ret s
  Ends (Ended.exits s) = Unit
  Ends (Ended.tags_on s) = ⊥

  -- A function takes the guest no further from its end, and closer to it where it moves the PC.
  abbrev pub IsProgress : Compiled S → Type 0
  IsProgress f =
      ((s : S) → rank (f s).left ≤ rank s)
      × ((s : S) → get_pc (f s).left ≢ get_pc s → rank (f s).left < rank s)

  -- Entered at an address, it does not ask for the function that starts there, if that is in the
  -- code area.
  abbrev pub GoesFrom : ℕ → Compiled S → Type 0
  GoesFrom pc f =
      (s : S)
      → get_pc s ≡ pc
      → ((f s).ret == jit_return_funcnotfound) ≡ true
      → is_inside_code_area cpu (get_pc (f s).left) ≡ true
      → (get_pc (f s).left == pc) ≡ false

  abbrev pub AllProgress : List (Compiled S) → Type 0
  AllProgress [] = Unit
  AllProgress (f ∷ fs) = IsProgress f × AllProgress fs

  -- For tags as they are kept: the tagger ends. Where it returns it has set `tags_dirty`, what is
  -- built next goes on from the address, and it keeps the tags.
  abbrev pub Tags : (Tagging → Type 0) → (Tagging → Built S) → (ℕ → Tagging → Outcome) → Type 0
  Tags Kept build cpu_tag =
      (pc : ℕ) (t : Tagging)
      → Kept t
      → (cpu_tag pc t ≢ Outcome.out_of_fuel)
        × ((t' : Tagging)
            → cpu_tag pc t ≡ Outcome.done t'
            → (t'.tags_dirty ≡ true) × GoesFrom pc (build t').code × Kept t')

  -- For tags as they are kept: the translator keeps them, and its function makes progress.
  abbrev pub Builds : (Tagging → Type 0) → (Tagging → Built S) → Type 0
  Builds Kept build =
      (t : Tagging)
      → Kept t
      → IsProgress (build t).code × Kept (record (build t).tags { tags_dirty = false })

  -- How the loop over the functions ends.
  abbrev Closer : S → Round S → Type 0
  Closer s (Round.returns ret s') = Left ret s'
  Closer s (Round.moved s') = rank s' < rank s
  Closer s (Round.not_found s') = (rank s' ≤ rank s) × (get_pc s' ≡ get_pc s)

  abbrev FoundOne : Round S → Type 0
  FoundOne (Round.not_found s') = ⊥
  FoundOne (Round.moved s') = Unit
  FoundOne (Round.returns ret s') = Unit

  module _ (build : Tagging → Built S) (cpu_tag : ℕ → Tagging → Outcome) (Kept : Tagging → Type 0)
      (builds : Builds Kept build) where
    module _ (tags : Tags Kept build cpu_tag) where
      -- Both: with the tags as they come, and with tags that `cpu_tag` just made for the PC.
      abbrev EndsWithin : ℕ → Type 0
      EndsWithin fuel =
          ((e : Engine S) (s : S)
            → Kept e.tagging
            → AllProgress e.functions
            → 2 * rank s + 1 < fuel
            → Ends (cpu_run cpu get_pc build cpu_tag fuel e s))
          × ((e : Engine S) (s : S)
              → Kept e.tagging
              → AllProgress e.functions
              → e.tagging.tags_dirty ≡ true
              → GoesFrom (get_pc s) (build e.tagging).code
              → 2 * rank s < fuel
              → Ends (cpu_run cpu get_pc build cpu_tag fuel e s))
