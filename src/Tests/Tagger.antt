-- ===== src/Tests/Tagger.antt =====
-- The tagger.
use libcpu.Base.{
  ◌+◌, ◌%◌, ◌^◌, ◌≤◌, ◌≡◌, refl, Bool, true, false, none, some, List, [], ◌∷◌, ◌++◌, arith, has,
  ◌==◌, replicate, bit_or,
}
use mathlib.Core.List.{map}
use libcpu.Tag.Flags.{tag_conditional, tag_unknown, tag_code, new_pc_none}
use libcpu.Tag.Store.{Cpu, Tagging, is_code, is_inside_code_area, or_tag, get_tag}
use libcpu.Tag.Store.Laws.{get_tag-or_tag}
use libcpu.Tag.Arch.{Written, Locals, IsWritten, tag_of, new_pc_of, next_pc_of}
use libcpu.Tag.Cache.{read_entries}
use libcpu.Tag.Cache.RoundTrip.{read_entries-entries_file, reloaded, entries_file}
use libcpu.Tag.Dfs.{Outcome, done, tag_recursive}
use libcpu.Tag.Dfs.Phases.{Returns}
use libcpu.Tag.Dfs.Total.{Marks, tag_recursive-Marks}
use libcpu.Tag.Start.{tag_start}
use libcpu.Tag.Store.{is_start_of_basicblock}
use libcpu.Tag.Start.Blocks.{tag_start-block}
use libcpu.Base.{false}
use libcpu.Tag.Start.Exact.{IsExact, IsExact-fresh}
use libcpu.Tag.Start.Runs.{tag_start-IsExact, tag_start-IsExact_again}
use libcpu.M6502.Tag.{tag_instr}
use libcpu.M6502.Tag.Laws.{tag_instr-IsWritten, tag_instr_lem}
use libcpu.Tests.Machine.{ram_6502, ram_6502-bytes, cpu_6502, fresh, locals, no_cache}

tag_start-IsExact_example :
    Returns
      (tag_start cpu_6502 (tag_instr ram_6502) locals 10 no_cache 0 fresh)
      (IsExact cpu_6502 (tag_instr ram_6502) (0 ∷ []))
tag_start-IsExact_example =
    tag_start-IsExact cpu_6502 (tag_instr ram_6502) (tag_instr-IsWritten ram_6502) locals 10
      (omega arith) refl refl no_cache 0 fresh refl refl

abbrev blank : Tagging
blank = record { tag = some (replicate 9 tag_unknown); tags_dirty = false; file_entries = none }

tag_start-IsExact_again_example :
    Returns
      (tag_start cpu_6502 (tag_instr ram_6502) locals 10 no_cache 3 blank)
      (IsExact cpu_6502 (tag_instr ram_6502) (3 ∷ []))
tag_start-IsExact_again_example =
    tag_start-IsExact_again cpu_6502 (tag_instr ram_6502) (tag_instr-IsWritten ram_6502) locals 10
      (omega arith) refl refl no_cache 3 [] blank (λ e. cc e)
      (IsExact-fresh cpu_6502 (tag_instr ram_6502) blank refl)

-- CPU_CODEGEN_TAG_LIMIT
abbrev limited : Cpu
limited = record cpu_6502 { flags_codegen = 4 }

tag_recursive-Marks_example :
    Returns
      (tag_recursive limited (tag_instr ram_6502) locals 10 0 0 blank)
      (Marks limited (tag_instr ram_6502) blank 0)
tag_recursive-Marks_example =
    tag_recursive-Marks limited (tag_instr ram_6502) (tag_instr-IsWritten ram_6502) locals 10 0 0
      blank refl (omega arith)

get_tag-or_tag_example :
    get_tag cpu_6502 (or_tag cpu_6502 blank 3 tag_code) 3
    ≡ bit_or (get_tag cpu_6502 blank 3) tag_code
unfolding is_inside_code_area
get_tag-or_tag_example = get_tag-or_tag cpu_6502 blank refl 3 tag_code 3

read_entries-entries_file_example :
    read_entries (entries_file (0x1234 ∷ 0x80000000 ∷ []))
    ≡ map reloaded (0x1234 ∷ 0x80000000 ∷ []) ++ new_pc_none ∷ []
read_entries-entries_file_example = read_entries-entries_file (0x1234 ∷ 0x80000000 ∷ [])

tag_instr-IsWritten_example : IsWritten (tag_instr ram_6502 6)
tag_instr-IsWritten_example = tag_instr-IsWritten ram_6502 6

tag_instr_lem_example :
    (1 ≤ (tag_instr ram_6502 0).bytes)
    × ((tag_instr ram_6502 0).bytes ≤ 3)
    × (next_pc_of (tag_instr ram_6502 0) ≡ (0 + (tag_instr ram_6502 0).bytes) % 2 ^ 64)
    × (has (tag_of (tag_instr ram_6502 0)) tag_conditional ≡ (ram_6502 0 % 32 == 16))
    × (ram_6502 0 % 32 ≡ 16
        → (new_pc_of (tag_instr ram_6502 0) + 126) % 2 ^ 64
          ≡ (0 + (ram_6502 ((0 + 1) % 2 ^ 64) + 128) % 256) % 2 ^ 64)
tag_instr_lem_example = tag_instr_lem ram_6502 0 ram_6502-bytes

-- The program is code at its four instructions.
marked : Outcome → List Bool
marked (done s) =
    is_code cpu_6502 s 0
    ∷ is_code cpu_6502 s 1
    ∷ is_code cpu_6502 s 2
    ∷ is_code cpu_6502 s 3
    ∷ is_code cpu_6502 s 6
    ∷ []
marked _ = []

marked_program :
    marked (tag_recursive cpu_6502 (tag_instr ram_6502) locals 10 0 0 blank)
    ≡ true ∷ false ∷ true ∷ true ∷ true ∷ []
unfolding marked tag_recursive is_inside_code_area is_code get_tag libcpu.Tag.Arch.store tag_instr
    or_tag
marked_program = refl

tag_start-block_example :
    Returns
      (tag_start cpu_6502 (tag_instr ram_6502) locals 10 no_cache 3 blank)
      (λ s'. is_start_of_basicblock cpu_6502 s' 3 ≡ true)
tag_start-block_example =
    tag_start-block cpu_6502 (tag_instr ram_6502) (tag_instr-IsWritten ram_6502) locals 10
      (omega arith) refl no_cache 3 (replicate 9 tag_unknown) blank refl refl refl
      (unfold is_inside_code_area in refl)
