-- ===== src/Tests/Translator.antt =====
-- The translator.
use libcpu.Base.{ℕ, ◌≡◌, refl, true, Option, some, none, List, [], ◌∷◌, arith}
use libcpu.Tag.Store.{
  Tagging, is_code, is_inside_code_area, get_tag, or_tag, is_start_of_basicblock,
}
use mathlib.Core.Path.{subst}
use libcpu.Tag.Dfs.{done, tag_recursive}
use libcpu.Tag.Dfs.Phases.{Returns}
use libcpu.Tag.Start.{tag_start}
use libcpu.Tag.Start.Exact.{IsExact}
use libcpu.Tag.Start.Runs.{tag_start-IsExact}
use libcpu.Translate.Builder.{Target, Trace}
use libcpu.Translate.All.{
  Translation, cpu_translate_all, locals_at, null_pointers, fill, fill_block,
}
use libcpu.Translate.Meaning.{Machine, run_block}
use libcpu.Translate.SingleStep.{cpu_translate_singlestep}
use libcpu.Translate.SingleStep.Steps.{cpu_translate_singlestep-IsLeftAt}
use libcpu.Translate.Guest.{guest_step, at}
use libcpu.Translate.Native.{starts, resolve}
use libcpu.Translate.Alike.{IsTagged}
use libcpu.Translate.Runs.{Matches, RunsTo, cpu_translate_all-RunsTo}
use libcpu.Translate.Total.{fill_ends}
use libcpu.Translate.Tagged.{IsForward, IsExact-IsTagged}
use libcpu.Translate.Frontends.{NoSlot, tag_call-IsKind, tag_instr-IsForward, x86_tag_switch-IsKind}
use libcpu.Tag.Arch.{tag_of}
use libcpu.X86.Instr.{zero_instr}
use libcpu.X86.Tag
use libcpu.Translate.Refines.{Simulates}
use libcpu.Translate.Function.{fill_block-Simulates}
use libcpu.Translate.Guest.{guest_step, IsKind}
use libcpu.Frontend.Code.{Guest}
use libcpu.M6502.Step.{machine_6502, machine_6502-KeepsPc}
use libcpu.M6502.Tag.{tag_instr}
use libcpu.M6502.Tag.Laws.{tag_instr-IsWritten}
use libcpu.Tests.Machine.{ram_6502, ram_6502-bytes, cpu_6502, fresh, locals, no_cache}

-- The 6502 at the start of its program.
abbrev start : Guest
start = record { gpr = λ i. 3; xr = λ i. 0; flag = λ i. 0; pc = 0; ram = ram_6502 }

abbrev machine : Machine Guest
machine = machine_6502 ram_6502

abbrev lengths : ℕ → ℕ
lengths pc = (tag_instr ram_6502 pc).bytes

-- What `tag_start` leaves for the program.
abbrev tagged : Tagging
tagged = record {
  tag = some (4264 ∷ 0 ∷ 2948 ∷ 386 ∷ 0 ∷ 0 ∷ 1160 ∷ 0 ∷ 0 ∷ []);
  tags_dirty = true;
  file_entries = some (0 ∷ 0 ∷ 0 ∷ 0 ∷ []);
}

tag_start-tagged : tag_start cpu_6502 (tag_instr ram_6502) locals 10 no_cache 0 fresh ≡ done tagged
unfolding tag_start tag_recursive libcpu.Tag.Arch.store tag_instr is_inside_code_area is_code
    get_tag or_tag libcpu.Tag.Cache.entry_bytes
tag_start-tagged = refl

tagged-IsExact : IsExact cpu_6502 (tag_instr ram_6502) (0 ∷ []) tagged
tagged-IsExact =
    subst (λ o. Returns o (IsExact cpu_6502 (tag_instr ram_6502) (0 ∷ []))) tag_start-tagged
      (tag_start-IsExact cpu_6502 (tag_instr ram_6502) (tag_instr-IsWritten ram_6502) locals 10
        (omega arith) refl refl no_cache 0 fresh refl refl)

tagged-IsTagged : IsTagged cpu_6502 (locals_at (tag_instr ram_6502) locals) tagged
tagged-IsTagged =
    IsExact-IsTagged cpu_6502 (tag_instr ram_6502) (tag_instr-IsWritten ram_6502) locals
      (tag_instr-IsForward cpu_6502 ram_6502 ram_6502-bytes (omega arith)).0 (0 ∷ []) tagged
      tagged-IsExact

cpu_translate_all-RunsTo_example :
    (f : Translation) × (cpu_translate_all cpu_6502 (tag_instr ram_6502) locals lengths 10 tagged
      ≡ some f)
    × RunsTo machine cpu_6502
        (tag_instr ram_6502)
        locals
        lengths
        tagged
        (starts f.blocks)
        f
        3
        (resolve machine f.blocks (Target.dispatch, start))
        (at 0 start)
unfolding machine_6502
cpu_translate_all-RunsTo_example =
    cpu_translate_all-RunsTo machine cpu_6502 (tag_instr ram_6502) locals lengths tagged 10 3 start
      (machine_6502-KeepsPc ram_6502) (omega arith) tagged-IsTagged (omega arith)

fill_ends_example :
    (trace : Trace) × (fill cpu_6502
        (tag_instr ram_6502)
        locals
        lengths
        (0 ∷ [])
        tagged
        10
        3
        null_pointers
        (Target.label 0)
      ≡ some trace)
unfolding is_code get_tag is_inside_code_area
fill_ends_example =
    fill_ends cpu_6502 (tag_instr ram_6502) locals lengths (0 ∷ []) tagged tagged-IsTagged.advances
      10 3 null_pointers (Target.label 0) refl (omega arith)

block_starts : Option Translation → List ℕ
block_starts (some f) = starts f.blocks
block_starts none = []

starts_program :
    block_starts (cpu_translate_all cpu_6502 (tag_instr ram_6502) locals lengths 10 tagged)
    ≡ 0 ∷ 2 ∷ 3 ∷ 6 ∷ []
unfolding block_starts cpu_translate_all is_code get_tag is_inside_code_area tag_instr
    libcpu.Tag.Arch.store or_tag is_start_of_basicblock
starts_program = refl

tag_instr-IsForward_example :
    IsForward cpu_6502 (tag_instr ram_6502) × ((pc : ℕ) → NoSlot (tag_of (tag_instr ram_6502 pc)))
tag_instr-IsForward_example = tag_instr-IsForward cpu_6502 ram_6502 ram_6502-bytes (omega arith)

fill_block-Simulates_example :
    (trace : Trace) × (fill_block cpu_6502 (tag_instr ram_6502) locals lengths (0 ∷ []) tagged 10 3
      ≡ some trace)
    × Simulates machine cpu_6502 (tag_instr ram_6502) locals lengths (0 ∷ []) tagged 3 3 trace
unfolding is_code get_tag is_inside_code_area
fill_block-Simulates_example =
    fill_block-Simulates machine cpu_6502 (tag_instr ram_6502) locals lengths (0 ∷ []) 10
      (omega arith) tagged 3 tagged-IsTagged refl

x86_tag_switch-IsKind_example :
    IsKind (tag_of (libcpu.X86.Tag.tag_switch (record zero_instr { opcode = 0 }) 16))
    × NoSlot (tag_of (libcpu.X86.Tag.tag_switch (record zero_instr { opcode = 0 }) 16))
x86_tag_switch-IsKind_example = x86_tag_switch-IsKind (record zero_instr { opcode = 0 }) 16

-- 3: JSR $0002
cpu_translate_singlestep-IsLeftAt_example :
    (q : Target × Guest) × (run_block machine
        (cpu_translate_singlestep (tag_instr ram_6502) locals lengths 3)
        (Target.label 3)
        start
      ≡ some q)
    × Matches machine []
        (guest_step machine
          (λ a. (locals_at (tag_instr ram_6502) locals a).tag)
          (locals_at (tag_instr ram_6502) locals)
          lengths
          3
          start)
        (resolve machine [] q)
unfolding tag_instr libcpu.Tag.Arch.store
cpu_translate_singlestep-IsLeftAt_example =
    cpu_translate_singlestep-IsLeftAt machine (tag_instr ram_6502) locals lengths 3 start
      (machine_6502-KeepsPc ram_6502) tag_call-IsKind (λ e. cc e)
