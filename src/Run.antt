-- ===== src/Run.antt =====
-- The loop of `cpu_run` (libcpu/interface.cpp), which runs the translated functions, and tags and
-- translates more code where none of them goes on. `fuel` bounds its rounds: a guest need not stop.
pub mod Ends
use libcpu.Base.{false, ℕ, zero, suc, Bool, not, List, [], ◌∷◌, ◌++◌, ◌==◌, if◌then◌else◌}
use libcpu.Tag.Store.{Cpu, Tagging, is_inside_code_area}
use libcpu.Tag.Arch.{Written, Locals}
use libcpu.Tag.Dfs.{Outcome, done, exited, out_of_fuel}
use libcpu.Tag.Start.{CacheFile, tag_start}

abbrev pub jit_return_noerr : ℕ
jit_return_noerr = 0

abbrev pub jit_return_funcnotfound : ℕ
jit_return_funcnotfound = 1

abbrev pub jit_return_singlestep : ℕ
jit_return_singlestep = 2

abbrev pub jit_return_trap : ℕ
jit_return_trap = 3

-- A translated function, on the guest's registers and memory: its return code and what it leaves.
pub record Returned (S : Type 0) : Type 0 where
  pub ret : ℕ
  pub left : S

abbrev pub Compiled : Type 0 → Type 0
Compiled S = S → Returned S

-- The fields of `cpu_t` that the loop uses: the tags and the functions so far.
pub record Engine (S : Type 0) : Type 0 where
  pub tagging : Tagging
  pub functions : List (Compiled S)

-- A new function, and the tags with what was translated.
pub record Built (S : Type 0) : Type 0 where
  pub code : Compiled S
  pub tags : Tagging

-- How the loop over the functions ends.
pub data Round (S : Type 0) : Type 0 where
  returns : ℕ → S → Round S
  moved not_found : S → Round S

-- `exits` is a call of `exit`; `runs_on` and `tags_on` are loops that ran out of fuel.
pub data Ended (S : Type 0) : Type 0 where
  stopped : ℕ → S → Ended S
  exits runs_on tags_on : S → Ended S

-- `get_pc` is the frontend's, `cpu_translate_function` makes a function of the tags.
module _ {S : Type 0} (cpu : Cpu) (get_pc : S → ℕ)
    (cpu_translate_function : Tagging → Built S) where
  unfoldable pub cpu_translate : Engine S → Engine S
  cpu_translate e =
      let built = cpu_translate_function e.tagging in
      if e.tagging.tags_dirty
      then record {
        tagging = record built.tags { tags_dirty = false };
        functions = e.functions ++ built.code ∷ [];
      }
      else e

  -- The loop over the functions.
  unfoldable pub try_functions : List (Compiled S) → ℕ → S → Round S
  try_functions [] orig_pc s = Round.not_found s
  try_functions (f ∷ fs) orig_pc s =
      let r = f s in
      let rest = try_functions fs orig_pc r.left in
      if not (r.ret == jit_return_funcnotfound)
      then Round.returns r.ret r.left
      else if not (is_inside_code_area cpu (get_pc r.left))
      then Round.returns r.ret r.left
      else if not (get_pc r.left == orig_pc)
      then Round.moved r.left
      else rest

  -- `cpu_tag`
  module _ (cpu_tag : ℕ → Tagging → Outcome) where
    unfoldable pub cpu_run : ℕ → Engine S → S → Ended S
    unfolding cpu_translate try_functions
    cpu_run zero e s = Ended.runs_on s
    cpu_run (suc fuel) e s =
        let e' = cpu_translate e in
        elim (try_functions e'.functions (get_pc s) s) [
          | Round.returns ret s' ↦ Ended.stopped ret s'
          | Round.moved s' ↦ cpu_run fuel e' s'
          | Round.not_found s' ↦ elim (cpu_tag (get_pc s') e'.tagging) [
            | Outcome.done t ↦ cpu_run fuel (record e' { tagging = t }) s'
            | Outcome.exited ↦ Ended.exits s'
            | Outcome.out_of_fuel ↦ Ended.tags_on s'
          ]
        ]
