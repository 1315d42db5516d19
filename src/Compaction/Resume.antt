-- ===== src/Compaction/Resume.antt =====
-- The resume message (src/compaction/compactor.ts): `stripResumePrefix` and `buildResumePrompt`.
use llamacli.Prelude.{
  ℕ, zero, suc, List, [], ◌∷◌, ◌++◌, map, Bool, true, false, not, ◌&&◌, ◌==◌, ltb, length, take,
  drop, keep, if◌then◌else◌, Option, none, some, Text, lit, is_empty,
}
use llamacli.Compaction.Message.{join, non_empty}
use llamacli.Compaction.Checkpoint.{
  Checkpoint, Reason, auto_threshold, manual, plan_progress, PlanStep, StepStatus, done,
  in_progress, todo, FileEntry, FileStatus, modified, read, PendingCall,
}
use llamacli.Compaction.SystemText.{trim, trim_start, starts_with, index_of}
use llamacli.Compaction.Run.{or_text}

-- The text behind the next `]`.
unfoldable pub after_bracket : Text → Option Text
after_bracket [] = none
after_bracket (c ∷ s) = let rest = after_bracket s in if c == 93 then some s else rest

unfoldable pub after_literal : Text → Text → Option Text
after_literal h s = if starts_with h s then some (drop (length h) s) else none

abbrev pub then_literal : Text → Option Text → Option Text
then_literal h none = none
then_literal h (some s) = after_literal h (trim_start s)

abbrev pub then_bracket : Option Text → Option Text
then_bracket none = none
then_bracket (some s) = after_bracket s

-- One match of `\s*\[resuming[^\]]*\]\s*previous goal:\s*` at the start, and the text behind it.
unfoldable pub one_prefix : Text → Option Text
one_prefix s =
    elim (then_literal (lit "previous goal:")
      (then_bracket (after_literal (lit "[resuming") (trim_start s)))) [
        | none ↦ none
        | some rest ↦ some (trim_start rest)
      ]

-- The number is fuel: each match consumes, so the length is enough.
unfoldable pub strip_prefixes : ℕ → Text → Text
strip_prefixes zero s = s
strip_prefixes (suc fuel) s = elim (one_prefix s) [
  | none ↦ s
  | some rest ↦ strip_prefixes fuel rest
]

-- `s.split(separator)[0]`
unfoldable pub before_first : Text → Text → Text
before_first separator s = elim (index_of separator s) [ none ↦ s | some i ↦ take i s ]

unfoldable pub strip_resume_prefix : Text → Text
strip_resume_prefix goal =
    or_text (trim (before_first (lit "\n\nremaining steps:") (strip_prefixes (length goal) goal)))
      (lit "(unknown)")

abbrev pub is_open : PlanStep → Bool
is_open s = elim s.status [ done ↦ false | in_progress ↦ true | todo ↦ true ]

abbrev pub status_text : StepStatus → Text
status_text done = lit "done"
status_text in_progress = lit "in_progress"
status_text todo = lit "todo"

abbrev pub file_status_text : FileStatus → Text
file_status_text modified = lit "modified"
file_status_text read = lit "read"

unfoldable pub step_line : PlanStep → Text
step_line s = lit "- (" ++ (status_text s.status ++ (lit ") " ++ s.description))

unfoldable pub file_line : FileEntry → Text
file_line f = lit "- (" ++ (file_status_text f.status ++ (lit ") " ++ f.path))

abbrev pub reason_text : Reason → Text
reason_text plan_progress = lit "resuming previous session"
reason_text auto_threshold = lit "resuming after compaction"
reason_text manual = lit "resuming after compaction"

-- A heading and the lines under it, or nothing where there are no lines.
unfoldable pub section_text : Text → List Text → Text
section_text heading [] = []
section_text heading (l ∷ ls) = heading ++ (lit "\n" ++ join (lit "\n") (l ∷ ls))

abbrev pub is_nil {ℓ} : {A : Type ℓ} → List A → Bool
is_nil [] = true
is_nil (x ∷ xs) = false

unfoldable pub steps_text : List PlanStep → Text
steps_text steps =
    or_text (section_text (lit "remaining steps:") (map step_line (keep is_open steps))) (
      if is_nil steps
      then lit "No plan was recorded for this work."
      else lit "All plan steps were already done — re-verifying before wrapping up.")

abbrev pub resume_summary_max_chars : ℕ
resume_summary_max_chars = 4000

unfoldable pub summary_part : Bool → Option Text → Text
summary_part false summary = []
summary_part true none = []
summary_part true (some s) =
    if is_empty s
    then []
    else lit "summary of the previous session:\n"
      ++ (if ltb resume_summary_max_chars (length s)
          then take resume_summary_max_chars s ++ lit " …"
          else s)

unfoldable pub notes_part : Bool → Text → Text
notes_part include notes =
    if include && not (is_empty notes)
    then lit "working notes (findings recorded before; trust these over re-deriving them):\n"
      ++ notes
    else []

unfoldable pub pending_part : Option PendingCall → Text
pending_part none = []
pending_part (some p) =
    lit "interrupted tool call: " ++ (p.name ++ (lit " (" ++ (p.reason ++ lit ")")))

unfoldable pub resume_lines : Bool → Text → Checkpoint → List Text
resume_lines include notes c =
    (lit "[" ++ (reason_text c.reason ++ (lit "] previous goal: " ++ strip_resume_prefix c.goal)))
    ∷ steps_text c.steps
    ∷ summary_part include c.summary
    ∷ notes_part include notes
    ∷ section_text (lit "recent actions:") (map (λ a. lit "- " ++ a) c.recent_actions)
    ∷ pending_part c.pending_tool_call
    ∷ section_text (lit "files touched:") (map file_line c.files)
    ∷ lit
        "Continue the task from where it stopped. If it is already complete, verify that and report the result."
    ∷ []

unfoldable pub build_resume_prompt : Bool → Text → Option Checkpoint → Option Text
build_resume_prompt include notes none = none
build_resume_prompt include notes (some c) =
    some (join (lit "\n\n") (non_empty (resume_lines include notes c)))
