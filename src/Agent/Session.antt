-- ===== src/Agent/Session.antt =====
-- The entry points of `AgentLoop` besides `send`, and the steps of a session. The chain of tasks runs
-- them one after the other, so a session is a sequence of whole steps; only `queueMessage` and
-- `cancelCurrentTurn` may come at any time, and a turn takes those with its rounds.
pub mod Reached
use llamacli.Prelude.{
  ℕ, ◌*◌, ◌||◌, List, [], ◌∷◌, Option, none, some, Bool, true, false, ◌&&◌, not, leb, ltb, length,
  ◌==◌, if◌then◌else◌, Text,
}
use llamacli.Hermes.{reset, new_breaker, default_breaker}
use llamacli.Compaction.Message.{ChatMessage, system, plain, role_eq}
use llamacli.Compaction.Checkpoint.{Checkpoint, manual, auto_threshold}
use llamacli.Compaction.Tail.{Fraction, default_tail_budget_fraction}
use llamacli.Agent.Budget.{reaches}
use llamacli.Agent.Progress.{ProgressGuardOptions, new_tracker, reset_tracker}
use llamacli.Agent.State.{LoopState, Thresholds}
use llamacli.Agent.Compact.{Attempt, compact, maybe_compact_loop}
use llamacli.Agent.Failures.{new_turn}
use llamacli.Agent.Recover.{cancel_current_turn}
use llamacli.Agent.Resume.{inject_resume, is_plan_progress}
use llamacli.Compaction.Resume.{is_nil}
use llamacli.Agent.Turn.{
  LoopOptions, Round, TurnRun, waiting, ended, run_turn, send, queue_all, reset_guards,
}
use llamacli.Agent.Turn.LinkedTurn.{state_of}

-- A new loop in a project whose state files hold `disk` and `notes`.
unfoldable pub new_loop : Text → ProgressGuardOptions → ℕ → Option Checkpoint → Text → LoopState
new_loop prompt guard now disk notes = record {
  messages = plain system prompt ∷ [];
  queued_messages = [];
  plan = [];
  goal = none;
  files_touched = [];
  executed_tool_log = [];
  check_failures = [];
  last_compaction_used = none;
  warned_window_too_small = false;
  cancel_requested = false;
  breaker = new_breaker default_breaker now;
  progress = new_tracker guard now;
  disk = disk;
  notes = notes;
}

unfoldable pub force_compact : Thresholds → (ℕ → Attempt) → LoopState → LoopState
force_compact th attempts s = (compact th manual none default_tail_budget_fraction attempts s).state

unfoldable pub save_state_on_quit : Thresholds → (ℕ → Attempt) → LoopState → LoopState
save_state_on_quit th attempts s =
    if leb (length s.messages) 1 then s else force_compact th attempts s

abbrev pub at_least : Fraction → Fraction → Bool
at_least f g = leb (g.num * f.den) (f.num * g.den)

-- An unset or zero ratio falls back to the ordinary check.
unfoldable pub warm_compact :
    Thresholds → Option Fraction → ℕ → (ℕ → Attempt) → LoopState → LoopState
warm_compact th none used attempts s = (maybe_compact_loop th none used attempts s).state
warm_compact th (some warm) used attempts s =
    if (warm.num == 0) || at_least warm th.auto_trigger_ratio
    then (maybe_compact_loop th none used attempts s).state
    else if reaches used th.context_window_tokens warm
    then (compact th auto_threshold none default_tail_budget_fraction attempts s).state
    else s

unfoldable pub clear_plan : LoopState → LoopState
clear_plan s = record s { plan = []; disk = none; notes = [] }

abbrev pub starts_with_system : List ChatMessage → Bool
starts_with_system [] = false
starts_with_system (m ∷ ms) = role_eq m.role system

-- `restoreSnapshot` of messages of the right shape; anything else leaves the session alone.
unfoldable pub restore_snapshot : List ChatMessage → LoopState → LoopState
restore_snapshot ms s = if starts_with_system ms then record s { messages = ms } else s

-- Whether `injectResumeContextIfPending` answers true.
abbrev pub resumes_from : LoopState → Bool
resumes_from s = elim s.disk [
  | none ↦ false
  | some c ↦ not (is_plan_progress c.reason && not (is_nil s.plan))
]

-- `resumeIfCheckpointExists`: the turn runs only where something was resumed.
unfoldable pub resume_if_checkpoint_exists : LoopOptions → List Round → ℕ → LoopState → LoopState
resume_if_checkpoint_exists o rounds now s =
    let fresh = reset_guards now s in
    if resumes_from fresh
    then state_of (run_turn o rounds new_turn (inject_resume fresh))
    else fresh

-- One step of a session.
pub data Step (o : LoopOptions) : LoopState → LoopState → Type 0 where
  sends :
      (rounds : List Round) (text : Text) (now : ℕ) (s : LoopState)
      → Step o s (state_of (send o rounds text now s))
  resumed :
      (rounds : List Round) (now : ℕ) (s : LoopState)
      → Step o s (resume_if_checkpoint_exists o rounds now s)
  queues : (text : Text) (s : LoopState) → Step o s (queue_all (text ∷ []) s)
  compacts :
      (attempts : ℕ → Attempt) (s : LoopState)
      → Step o s (force_compact o.turn.thresholds attempts s)
  warms :
      (warm : Option Fraction) (used : ℕ) (attempts : ℕ → Attempt) (s : LoopState)
      → Step o s (warm_compact o.turn.thresholds warm used attempts s)
  quits :
      (attempts : ℕ → Attempt) (s : LoopState)
      → Step o s (save_state_on_quit o.turn.thresholds attempts s)
  cancels : (timestamp : Text) (s : LoopState) → Step o s (cancel_current_turn timestamp s)
  clears : (s : LoopState) → Step o s (clear_plan s)

-- The states that a session passes through from `start`.
pub data Reach (o : LoopOptions) (start : LoopState) : LoopState → Type 0 where
  here : Reach o start start
  there : (s s' : LoopState) → Reach o start s → Step o s s' → Reach o start s'
