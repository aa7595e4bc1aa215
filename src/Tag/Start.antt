-- ===== src/Tag/Start.antt =====
-- `tag_start` and `init_tagging` of libcpu/tag.cpp.
-- `fuel` bounds the rounds of each search; more than the size of the code area is enough.
pub mod Exact
pub mod Runs
pub mod Blocks
use mathlib.Core.Option
use libcpu.Base.{
  ℕ, ◌-◌, Bool, true, false, not, Option, none, some, List, [], ◌∷◌, ◌++◌, if◌then◌else◌, has,
  bit_or, replicate,
}
use libcpu.Tag.Flags.{
  tag_unknown, tag_entry, codegen_tag_limit, debug_singlestep, debug_singlestep_bb,
}
use libcpu.Tag.Store.{Cpu, Tagging, or_tag}
use libcpu.Tag.Arch.{Written, Locals}
use libcpu.Tag.Cache.{read_entries, entry_bytes}
use libcpu.Tag.Dfs.{Outcome, done, exited, ◌>>=◌, tag_recursive}

-- The cache file of the code: its bytes if `fopen(cache_fn, "r")` opens it, and whether
-- `fopen(cache_fn, "a")` does.
pub record CacheFile : Type 0 where
  pub content : Option (List ℕ)
  pub can_append : Bool

module _ (cpu : Cpu) (tag_instr : ℕ → Written) (indeterminate : Locals) (fuel : ℕ) where
  -- The entry is appended to the cache file, if one is open.
  pub save_entry : ℕ → Tagging → Tagging
  save_entry pc s =
      if not (has cpu.flags_codegen codegen_tag_limit)
      then record s { file_entries = Option.map (λ bytes. bytes ++ entry_bytes pc) s.file_entries }
      else s

  -- `tag_start` after the array is there.
  pub tag_entry_point : ℕ → Tagging → Outcome
  unfolding save_entry
  tag_entry_point pc s =
      tag_recursive cpu tag_instr indeterminate fuel 0 pc
        (or_tag cpu (save_entry pc s) pc tag_entry)

  -- `init` is what the call does where `cpu->tag` is null.
  pub start_with : (Tagging → Outcome) → ℕ → Tagging → Outcome
  unfolding tag_entry_point
  start_with init pc s =
      let s' = record s { tags_dirty = true } in
      if has cpu.flags_debug (bit_or debug_singlestep debug_singlestep_bb)
      then done s'
      else (do s'' ← elim s'.tag [ none ↦ init s' | some tags ↦ done s' ]; tag_entry_point pc s'')

  -- The calls of `tag_start` on the entries of the cache. The array is there, so these do not
  -- initialise.
  pub start_all : List ℕ → Tagging → Outcome
  unfolding start_with
  start_all [] s = done s
  start_all (pc ∷ pcs) s = do s' ← start_with (λ s. done s) pc s; start_all pcs s'

  pub load_cache : Option (List ℕ) → Tagging → Outcome
  unfolding start_all
  load_cache none s = done s
  load_cache (some bytes) s = start_all (read_entries bytes) s

  pub init_tagging : CacheFile → Tagging → Outcome
  unfolding load_cache
  init_tagging cache s =
      let s' = record s { tag = some (replicate (cpu.code_end - cpu.code_start) tag_unknown) } in
      if not (has cpu.flags_codegen codegen_tag_limit)
      then (do
        s'' ← load_cache cache.content (record s' { file_entries = none })
        if cache.can_append then done (record s'' { file_entries = some [] }) else exited)
      else done s'

  unfoldable pub tag_start : CacheFile → ℕ → Tagging → Outcome
  unfolding init_tagging
  tag_start cache pc s = start_with (init_tagging cache) pc s
