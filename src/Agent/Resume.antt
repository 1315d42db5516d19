-- ===== src/Agent/Resume.antt =====
-- `injectResumeContextIfPending`: a checkpoint on disk is folded into the conversation once.
pub mod Once
use llamacli.Prelude.{
  List, [], ◌∷◌, Option, none, some, Bool, true, false, ◌&&◌, not, if◌then◌else◌, Text, lit,
}
use llamacli.Compaction.Message.{ChatMessage, user, plain, text_of}
use llamacli.Compaction.Checkpoint.{Checkpoint, Reason, auto_threshold, manual, plan_progress}
use llamacli.Compaction.Resume.{build_resume_prompt, strip_resume_prefix, is_nil}
use llamacli.Compaction.SystemText.{starts_with, split_system_message}
use llamacli.Compaction.Tail.{is_user}
use llamacli.Agent.State.{LoopState}

abbrev pub is_plan_progress : Reason → Bool
is_plan_progress plan_progress = true
is_plan_progress auto_threshold = false
is_plan_progress manual = false

abbrev pub first_text : List ChatMessage → Text
first_text [] = []
first_text (m ∷ ms) = text_of m.content

abbrev pub has_summary : List ChatMessage → Bool
has_summary ms = elim (split_system_message (first_text ms)).summary [
  | none ↦ false
  | some t ↦ true
]

abbrev pub is_resume_message : ChatMessage → Bool
is_resume_message m =
    is_user m && elim m.content [ none ↦ false | some t ↦ starts_with (lit "[resuming") t ]

-- A resume message at the end is replaced, so that no two follow each other.
unfoldable pub with_resume : Text → List ChatMessage → List ChatMessage
with_resume text [] = plain user text ∷ []
with_resume text (m ∷ []) =
    if is_resume_message m then record m { content = some text } ∷ [] else m ∷ plain user text ∷ []
with_resume text (m ∷ n ∷ ms) = m ∷ with_resume text (n ∷ ms)

abbrev pub goal_after : Option Text → Checkpoint → Option Text
goal_after none c = some (strip_resume_prefix c.goal)
goal_after (some g) c = some g

-- The checkpoint is consumed: its text, its goal and its plan move into the loop.
unfoldable pub resume_from : Text → Checkpoint → LoopState → LoopState
resume_from text c s = record s {
  messages = with_resume text s.messages;
  goal = goal_after s.goal c;
  plan = if is_nil c.steps then s.plan else c.steps;
  disk = none;
}

unfoldable pub resume_with : Option Text → Checkpoint → LoopState → LoopState
resume_with none c s = s
resume_with (some text) c s = resume_from text c s

unfoldable pub resume_pending : Option Checkpoint → LoopState → LoopState
resume_pending none s = s
resume_pending (some c) s =
    if is_plan_progress c.reason && not (is_nil s.plan)
    then s
    else resume_with (build_resume_prompt (not (has_summary s.messages)) s.notes (some c)) c s

unfoldable pub inject_resume : LoopState → LoopState
inject_resume s = resume_pending s.disk s
