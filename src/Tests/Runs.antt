-- ===== src/Tests/Runs.antt =====
-- The run loop.
use libcpu.Base.{ℕ, suc, ◌-◌, ◌≡◌, refl, Bool, true, false, [], ltb, if◌then◌else◌}
use libcpu.Tag.Flags.{debug_singlestep}
use libcpu.Tag.Store.{Cpu, Tagging, is_inside_code_area}
use libcpu.Tag.Dfs.{Outcome}
use libcpu.Tag.Start.{tag_start}
use libcpu.M6502.Tag.{tag_instr}
use libcpu.Run.{Compiled, Engine, Built, Ended, jit_return_funcnotfound, jit_return_trap, cpu_run}
use libcpu.Run.Ends.{Ends}
use libcpu.Tests.Machine.{ram_6502, cpu_6502, fresh, locals, no_cache}

-- Code that goes on by one address.
abbrev counts : Tagging → Built ℕ
counts t = record { code = λ s. record { ret = jit_return_funcnotfound; left = suc s }; tags = t }

abbrev cpu_tag : ℕ → Tagging → Outcome
cpu_tag pc t = tag_start cpu_6502 (tag_instr ram_6502) locals 10 no_cache pc t

abbrev engine : Engine ℕ
engine = record { tagging = record fresh { tags_dirty = true }; functions = [] }

-- It leaves the code area at 9.
cpu_run-counts :
    cpu_run cpu_6502 (λ s. s) counts cpu_tag 20 engine 6 ≡ Ended.stopped jit_return_funcnotfound 9
unfolding cpu_run is_inside_code_area
cpu_run-counts = refl

-- A guest that comes to its end at 9, single-stepped.
abbrev cpu_stepped : Cpu
cpu_stepped = record cpu_6502 { flags_debug = debug_singlestep }

abbrev step : Compiled ℕ
step s =
    if ltb s 9
    then record { ret = jit_return_funcnotfound; left = suc s }
    else record { ret = jit_return_trap; left = s }

abbrev ends_at_9 : Tagging → Built ℕ
ends_at_9 t = record { code = step; tags = t }

abbrev step_tag : ℕ → Tagging → Outcome
step_tag pc t = tag_start cpu_stepped (tag_instr ram_6502) locals 10 no_cache pc t

abbrev rank : ℕ → ℕ
rank s = 9 - s

abbrev is_dirty : Outcome → Bool
is_dirty (Outcome.done t) = t.tags_dirty
is_dirty Outcome.exited = true
is_dirty Outcome.out_of_fuel = false

-- Nothing is tagged or translated before.
abbrev empty : Engine ℕ
empty = record { tagging = fresh; functions = [] }
