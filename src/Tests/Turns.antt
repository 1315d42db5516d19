-- ===== src/Tests/Turns.antt =====
-- A concrete session: a busy backend, a tool call and its result, and a compaction.
use llamacli.Prelude.{
  text_eq, ℕ, ◌*◌, ◌-◌, ◌≤◌, ◌≡◌, refl, List, [], ◌∷◌, none, some, true, false, lit,
}
use llamacli.Compaction.Message.{system, user, assistant, ToolCall, ChatMessage, plain}
use llamacli.Compaction.Checkpoint.{manual, modified}
use llamacli.Compaction.Run.{replied}
use llamacli.Agent.Progress.{
  ProgressGuardOptions, default_progress_guard, check_progress, is_stalled, on_compaction,
  mark_progress, reset_tracker, new_tracker,
}
use llamacli.Agent.Progress.Stall.{
  TrackerEvent, progressed, compacted_once, checked_at, tracker_after, tracker_step, NudgedIn,
  compaction_count, stop-NudgedIn,
}
use llamacli.Agent.Record.{touched_status}
use llamacli.Agent.Record.Kept.{touch_all, IsModified, touch_all-IsModified}
use llamacli.Agent.State.{LoopState, Thresholds, push_users, mentions, fold_case}
use llamacli.Agent.Compact.{Attempt, compact, maybe_compact_loop}
use llamacli.Agent.Compact.Frame.{EndedTo, compact-EndedTo}
use llamacli.Agent.Budget.{maybe_compact, reaches}
use llamacli.Compaction.SystemText.{index_of, starts_with}
use llamacli.Agent.CallWorld.{CallWorld, parsed, steps_of, returned}
use llamacli.Agent.Failures.{TurnVars, new_turn}
use llamacli.Agent.Recover.{on_chat_error, is_overflow, is_truncation, is_connect_timeout}
use llamacli.Agent.Turn.{
  LoopOptions, Round, Answer, chat_failed, chat_replied, waiting, run_turn, send, after_round,
  turn_step, after_verdict, drain, queue_all, request_round, on_answer,
}
use llamacli.Agent.Turn.Retries.{failures, spent, IsWithin, waiting-IsWithin}
use llamacli.Agent.Turn.Varied.{IsVaried}
use llamacli.Agent.Turn.Repeats.{said, waiting-IsVaried}
use llamacli.Agent.Turn.LinkedTurn.{state_of}
use llamacli.Agent.Linked.Context.{IsLinkedIn}
use llamacli.Agent.Linked.Newest.{EndsWith, compact-EndsWith}
use llamacli.Agent.Session.{new_loop, here, there, sends}
use llamacli.Agent.Session.Reached.{Reach-IsLinked}

abbrev limits : Thresholds
limits = record {
  context_window_tokens = 8192;
  auto_trigger_ratio = record { num = 6; den = 10 };
  min_growth_fraction = record { num = 5; den = 100 };
  post_compaction_target_ratio = record { num = 4; den = 10 };
  summary_max_tokens = none;
  summary_deadline_ms = 0;
}

abbrev options : LoopOptions
options = record {
  turn = record { thresholds = limits; enable_thinking = false };
  guard = default_progress_guard;
  auto_resume = true;
}

abbrev attempt : ℕ → Attempt
attempt n = record {
  overhead = 100;
  timestamp = lit "t";
  chat = λ r d. replied (some (lit "summary")) false;
  used_after = some 500;
}

abbrev pub call : ToolCall
call = record { id = lit "1"; name = lit "read_file"; arguments = lit "{}" }

abbrev pub reads : ℕ → CallWorld
reads k = record {
  cancels = none;
  now = 10;
  used = 100;
  attempts = attempt;
  allowed = true;
  state_args = parsed none (steps_of []);
  clock = lit "10:00";
  timestamp = lit "t";
  plan_saved = true;
  is_elided = false;
  path = some (lit "a.ts");
  quoted_path = lit "\"a.ts\"";
  summary = lit "a.ts";
  elided_arguments = [];
  path_exists = true;
  outcome = returned (lit "text") none;
  check = none;
  commit = none;
}

abbrev round_of : Answer → Round
round_of a = record {
  queued = [];
  now = 10;
  used = 100;
  attempts = attempt;
  cancels = none;
  answer = a;
  error_world = record { before = 100; after = 100; attempts = attempt; write_ok = true };
  calls = reads;
}

abbrev busy : Round
busy = round_of (
    chat_failed
      (record { message = lit "Chat stream connection timed out after 5s"; salvaged = none }))

abbrev calls_tool : Round
calls_tool = round_of (chat_replied (some (lit "Reading")) (call ∷ []))

abbrev pub start : LoopState
start = new_loop (lit "base") default_progress_guard 0 none []

abbrev two_rounds : List Round
two_rounds = busy ∷ calls_tool ∷ []

abbrev session_end : LoopState
session_end = state_of (send options two_rounds (lit "fix it") 5 start)

Reach-IsLinked_example : IsLinkedIn session_end
Reach-IsLinked_example =
    Reach-IsLinked options (lit "base") default_progress_guard 0 none [] session_end
      (there start session_end here (sends two_rounds (lit "fix it") 5 start))

compact-EndedTo_example :
    EndedTo manual none 8192 4 start
      (compact limits manual none (record { num = 4; den = 10 }) attempt start)
compact-EndedTo_example =
    compact-EndedTo limits manual none (record { num = 4; den = 10 }) attempt start

abbrev asks : ChatMessage
asks = record { role = assistant; content = none; tool_calls = call ∷ []; tool_call_id = none }

abbrev mid_batch : LoopState
mid_batch = record start {
  messages = plain system (lit "base") ∷ plain user (lit "hi") ∷ asks ∷ [];
}

compact-EndsWith_example :
    EndsWith asks
      (compact limits manual none (record { num = 4; den = 10 }) attempt mid_batch).state.messages
compact-EndsWith_example =
    compact-EndsWith limits manual none (record { num = 4; den = 10 }) attempt mid_batch
      (plain system (lit "base") ∷ plain user (lit "hi") ∷ []) asks refl refl refl

abbrev stalled : List TrackerEvent
stalled =
    compacted_once
    ∷ compacted_once
    ∷ checked_at 200000
    ∷ compacted_once
    ∷ compacted_once
    ∷ progressed 5
    ∷ []

abbrev quick_guard : ProgressGuardOptions
quick_guard = record { minutes = 1; compactions = 2 }

stop-NudgedIn_example :
    (n : NudgedIn quick_guard 0 stalled) × (2 ≤ compaction_count n.since)
    × (1 * 60000 ≤ 300000 - n.at)
unfolding check_progress is_stalled tracker_after tracker_step on_compaction mark_progress
    reset_tracker new_tracker
stop-NudgedIn_example = stop-NudgedIn quick_guard 0 300000 stalled refl

touch_all-IsModified_example : IsModified (lit "a") (
    touch_all
      ((lit "read_file", some (lit "a")) ∷ [])
      (record { path = lit "a"; status = modified } ∷ []))
unfolding lit touched_status text_eq
touch_all-IsModified_example =
    touch_all-IsModified (lit "a") ((lit "read_file", some (lit "a")) ∷ [])
      (record { path = lit "a"; status = modified } ∷ []) refl

abbrev after_busy : TurnVars
after_busy = record new_turn { timeout_retries = 1 }

busy_waits : run_turn options (busy ∷ []) new_turn start ≡ waiting after_busy start
unfolding run_turn after_round turn_step after_verdict check_progress is_stalled drain push_users
    queue_all new_loop new_tracker request_round on_answer on_chat_error maybe_compact_loop
    maybe_compact reaches new_turn is_overflow is_truncation is_connect_timeout mentions fold_case
    index_of starts_with lit
busy_waits = refl

waiting-IsWithin_example : IsWithin after_busy × (failures (busy ∷ []) ≡ spent after_busy)
waiting-IsWithin_example = waiting-IsWithin options (busy ∷ []) after_busy start start busy_waits

waiting-IsVaried_example : IsVaried (said (busy ∷ []))
waiting-IsVaried_example = waiting-IsVaried options (busy ∷ []) after_busy start start busy_waits
