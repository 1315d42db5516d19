-- ===== src/Tests/Recovery.antt =====
-- Concrete recoveries: salvaged writes, resume messages, notes, slots and a calibration.
use llamacli.Prelude.{
  min, false, ◌≡◌, refl, List, [], ◌∷◌, ◌++◌, ◌⊎◌, none, some, true, lit, arith, length, contains,
  text_eq,
}
use llamacli.Compaction.SystemText.{starts_with, index_of}
use llamacli.Agent.Failures.{new_turn}
use llamacli.Agent.Recover.Salvaged.{
  FileEvent, salvage, tool_write, file_after, after_events, meant, AllHaveText, events-on_disk,
}
use llamacli.Agent.ToolCall.{dispatch, auto_approve_tools}
use llamacli.Agent.ToolCall.Approved.{Untouched, dispatch-Untouched}
use mathlib.Core.List.{Perm}
use llamacli.Calibration.{ParsedServerArgs, CalibrationReading, Tuned, no_change}
use llamacli.UpdateSlots.{
  sanitize, is_safe, Tree, Slot, slot_name, slot_at, save_slot, created, restore_slot, dist_after,
  prune_slots, removed_slots,
}
use llamacli.UpdateSlots.Kept.{restore_slot-save_slot, prune_slots-IsNewer, IsNewer}
use llamacli.Tests.Turns.{start, call, reads}

abbrev events : List FileEvent
events =
    salvage (record { path = lit "a.ts"; partial_content = lit "one " })
    ∷ salvage (record { path = lit "b.ts"; partial_content = lit "other" })
    ∷ tool_write (record {
      appends = true;
      file = record { path = lit "a.ts"; partial_content = lit "two " };
    })
    ∷ salvage (record { path = lit "a.ts"; partial_content = lit "three" })
    ∷ []

events-AllHaveText : AllHaveText events
unfolding lit
events-AllHaveText = (omega arith, (omega arith, (tt, (omega arith, tt))))

events-on_disk_example :
    file_after (lit "a.ts") (lit "old") (after_events start events new_turn).writes
    ≡ meant (lit "a.ts") false (lit "old") events
events-on_disk_example = events-on_disk (lit "old") (lit "a.ts") start events events-AllHaveText

meant_events : meant (lit "a.ts") false (lit "old") events ≡ lit "one two three"
unfolding lit text_eq
meant_events = refl

dispatch-Untouched_example :
    Untouched start (dispatch 8192 1 0 call (reads 0) start)
    ⊎ ((reads 0).allowed ≡ true)
    ⊎ (contains auto_approve_tools call.name ≡ true)
dispatch-Untouched_example = dispatch-Untouched 8192 1 0 call (reads 0) start

abbrev running : ParsedServerArgs
running = record no_change { gpu_layers = some 32; context_size = some 16384 }

abbrev reading : CalibrationReading
reading = record {
  free_mib = some 2023;
  total_mib = some 8192;
  model_bytes = 5776000000;
  layers = 34;
  kv_elements_per_token = 8192;
  trained_context = 131072;
  moe = none;
  unified_memory = false;
  cpu_count = 8;
}

abbrev tuned : Tuned
tuned = record { context_size = 8192; cache_type = lit "q8_0" }

abbrev old_slot : Slot
old_slot = record { name = lit "v-1-a"; mtime = 5; is_directory = true; files = [] }

abbrev build : Tree
build = record { path = lit "index.js"; content = lit "run" } ∷ []

restore_slot-save_slot_example :
    (root' : List Slot) × (save_slot (some (lit "2")) (lit "b") 9 build (old_slot ∷ [])
      ≡ created root')
    × (dist_after (restore_slot (slot_name (some (lit "2")) (lit "b")) root') [] ≡ build)
unfolding slot_at slot_name sanitize is_safe lit text_eq index_of starts_with
restore_slot-save_slot_example =
    restore_slot-save_slot (some (lit "2")) (lit "b") 9 build [] (old_slot ∷ []) refl
      (omega arith, tt) refl refl

prune_slots-IsNewer_example :
    (length (prune_slots (old_slot ∷ [])) ≡ min 3 1)
    × Perm (prune_slots (old_slot ∷ []) ++ removed_slots (old_slot ∷ [])) (old_slot ∷ [])
    × IsNewer (prune_slots (old_slot ∷ [])) (removed_slots (old_slot ∷ []))
prune_slots-IsNewer_example = prune_slots-IsNewer (old_slot ∷ [])
