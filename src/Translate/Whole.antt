-- ===== src/Translate/Whole.antt =====
-- The tagger and the translator together (libcpu/tag.cpp, libcpu/translate_all.cpp).
use libcpu.Base.{ℕ, ◌≡◌, some}
use libcpu.Tag.Store.{Cpu, Tagging}
use libcpu.Tag.Arch.{Written, Locals}
use libcpu.Translate.Builder.{Target}
use libcpu.Translate.All.{Translation, cpu_translate_all}
use libcpu.Translate.Meaning.{Machine}
use libcpu.Translate.Guest.{at}
use libcpu.Translate.Native.{starts, resolve}
use libcpu.Translate.Runs.{RunsTo}

module _ {S : Type 0} (m : Machine S) (cpu : Cpu) (tag_instr : ℕ → Written) (indeterminate : Locals)
    (length : ℕ → ℕ) where
  -- The tagged code is translated, and what is built for it runs at most `n` blocks from the PC of `st`
  -- as the guest does.
  abbrev pub IsTranslated : ℕ → ℕ → S → Tagging → Type 0
  IsTranslated fuel n st s =
      (f : Translation) × (cpu_translate_all cpu tag_instr indeterminate length fuel s ≡ some f)
      × RunsTo m cpu tag_instr indeterminate length s (starts f.blocks) f n
          (resolve m f.blocks (Target.dispatch, st)) (at (m.pc_of st) st)
