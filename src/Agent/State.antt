-- ===== src/Agent/State.antt =====
-- The state of the agent loop (src/agent/loop.ts, `AgentLoop`) and the thresholds it reads. The files
-- under .llamacli/state are fields: `disk` is checkpoint.json and `notes` what `readNotes` answers.
use llamacli.Prelude.{
  ℕ, ◌+◌, ltb, is_some, List, [], ◌∷◌, ◌++◌, Option, none, some, Bool, ◌&&◌, take, if◌then◌else◌,
  Text, lit,
}
use llamacli.Hermes.{CircuitBreaker}
use llamacli.Compaction.Message.{ChatMessage, user, plain}
use llamacli.Compaction.Checkpoint.{Checkpoint, Reason, PlanStep, FileEntry, PendingCall}
use llamacli.Compaction.SystemText.{starts_with, index_of}
use llamacli.Compaction.Tail.{Fraction, is_user}
use llamacli.Agent.Progress.{ProgressTracker}
use llamacli.Agent.Record.{recent_actions}

pub record LoopState : Type 0 where
  pub messages : List ChatMessage
  pub queued_messages : List Text
  pub plan : List PlanStep
  pub goal : Option Text
  pub files_touched : List FileEntry
  pub executed_tool_log : List Text
  pub check_failures : List (Text × ℕ)
  pub last_compaction_used : Option ℕ
  pub warned_window_too_small : Bool
  pub cancel_requested : Bool
  pub breaker : CircuitBreaker
  pub progress : ProgressTracker
  pub disk : Option Checkpoint
  pub notes : Text

pub record Thresholds : Type 0 where
  pub context_window_tokens : ℕ
  pub auto_trigger_ratio : Fraction
  pub min_growth_fraction : Fraction
  pub post_compaction_target_ratio : Fraction
  pub summary_max_tokens : Option ℕ
  pub summary_deadline_ms : ℕ

unfoldable pub push : ChatMessage → LoopState → LoopState
push m s = record s { messages = s.messages ++ (m ∷ []) }

unfoldable pub push_user : Text → LoopState → LoopState
unfolding push
push_user text s = push (plain user text) s

unfoldable pub push_users : List Text → LoopState → LoopState
push_users [] s = s
push_users (t ∷ ts) s = push_users ts (push_user t s)

-- The first user message whose content is no resume message.
unfoldable pub first_request : List ChatMessage → Option Text
first_request [] = none
first_request (m ∷ ms) =
    let rest = first_request ms in
    if is_user m
    then elim m.content [
      | none ↦ rest
      | some t ↦ if starts_with (lit "[resuming") t then rest else some t
    ]
    else rest

unfoldable pub goal_of : Option Text → List ChatMessage → Text
goal_of (some g) ms = g
goal_of none ms = elim (first_request ms) [ none ↦ lit "(unknown)" | some t ↦ take 200 t ]

unfoldable pub current_goal_summary : LoopState → Text
current_goal_summary s = goal_of s.goal s.messages

-- What `compact` and `cancelCurrentTurn` save; the list `recentActions` is absent when it is empty.
unfoldable pub checkpoint_of : Reason → Option PendingCall → Text → LoopState → Checkpoint
checkpoint_of reason pending timestamp s = record {
  timestamp = timestamp;
  reason = reason;
  goal = current_goal_summary s;
  steps = s.plan;
  files = s.files_touched;
  pending_tool_call = pending;
  must_preserve = [];
  summary = none;
  recent_actions = recent_actions s.plan s.executed_tool_log;
}

-- ASCII letters in lower case: how a pattern with the flag `i` compares.
unfoldable pub fold_case : Text → Text
fold_case [] = []
fold_case (c ∷ s) = (if ltb 64 c && ltb c 91 then c + 32 else c) ∷ fold_case s

-- `/literal/i.test(s)`
unfoldable pub mentions : Text → Text → Bool
mentions literal s = is_some (index_of (fold_case literal) (fold_case s))
