-- ===== src/Agent/Turn.antt =====
-- A turn: `runUntilIdle` and `send`. The turn is run over the list of what the world answers in each
-- pass of its loop, a `Round`; a turn that needs a further round than the list has is `waiting`.
pub mod Retries
pub mod LinkedCalls
pub mod LinkedTurn
pub mod Varied
pub mod Repeats
use llamacli.Prelude.{
  ℕ, suc, List, [], ◌∷◌, ◌++◌, Option, none, some, Bool, false, ◌&&◌, not, all, ltb, leb, length,
  take, keep, if◌then◌else◌, Text, text_eq, is_empty,
}
use llamacli.Hermes.{CallRecord, StopReason, should_stop, record_call, reset}
use llamacli.Compaction.Message.{ToolCall, ChatMessage, assistant}
use llamacli.Compaction.SystemText.{trim}
use llamacli.Compaction.Run.{collapse_spaces}
use llamacli.Compaction.Resume.{is_nil}
use llamacli.Agent.Progress.{
  ProgressGuardOptions, ProgressVerdict, verdict_ok, nudge, verdict_stop, check_progress,
  progress_nudge_text, reset_tracker,
}
use llamacli.Agent.Record.{is_done}
use llamacli.Agent.State.{LoopState, push, push_user, push_users}
use llamacli.Agent.Compact.{Attempt, MaybeCompacted, maybe_compact_loop}
use llamacli.Agent.Failures.{
  TurnVars, new_turn, TurnEnding, finished, stopped_no_progress, cancelled, interrupted,
  stopped_repeating, stopped_breaker, Next, again, ends, ChatError, ErrorWorld, TurnOptions,
}
use llamacli.Agent.Recover.{on_chat_error, cancel_current_turn}
use llamacli.Agent.Resume.{inject_resume}
use llamacli.Agent.CallWorld.{CallWorld}
use llamacli.Agent.ToolCall.{dispatch, pending_of}

pub data Answer : Type 0 where
  chat_failed : ChatError → Answer
  -- the content, behind `stripToolCallTemplateLeak`, and the calls of the assistant's message
  chat_replied : Option Text → List ToolCall → Answer

pub record Round : Type 0 where
  -- what `queueMessage` got since the last round
  pub queued : List Text
  pub now : ℕ
  pub used : ℕ
  pub attempts : ℕ → Attempt
  -- the time of an Esc during the request
  pub cancels : Option Text
  pub answer : Answer
  pub error_world : ErrorWorld
  pub calls : ℕ → CallWorld

pub record LoopOptions : Type 0 where
  pub turn : TurnOptions
  pub guard : ProgressGuardOptions
  pub auto_resume : Bool

pub data CallStep : Type 0 where
  answered : LoopState → CallStep
  resumes : LoopState → CallStep
  call_ends : TurnEnding → LoopState → CallStep

abbrev pub cancel_if : Option Text → LoopState → LoopState
cancel_if none s = s
cancel_if (some timestamp) s = cancel_current_turn timestamp s

-- The checks in front of a call: cancellation, the circuit breaker, the context. `s` has the call
-- recorded by the breaker.
unfoldable pub after_context :
    LoopOptions → ℕ → ℕ → ToolCall → CallWorld → MaybeCompacted → CallStep
after_context o at k call w m =
    if m.compacts
    then (if o.auto_resume then resumes (inject_resume m.state) else call_ends interrupted m.state)
    else answered (dispatch o.turn.thresholds.context_window_tokens at k call w m.state)

unfoldable pub after_breaker :
    LoopOptions → ℕ → ℕ → ToolCall → CallWorld → LoopState → Option StopReason → CallStep
after_breaker o at k call w s (some reason) = call_ends (stopped_breaker reason) s
after_breaker o at k call w s none =
    let call_record : CallRecord = record {
      tool_name = call.name;
      args_signature = call.arguments;
    } in
    after_context o at k call w (
      maybe_compact_loop o.turn.thresholds (some (pending_of call)) w.used w.attempts
        (record s { breaker = record_call s.breaker call_record w.now }))

unfoldable pub call_step : LoopOptions → ℕ → ℕ → ToolCall → CallWorld → LoopState → CallStep
call_step o at k call w before =
    let s = cancel_if w.cancels before in
    if s.cancel_requested
    then call_ends cancelled (record s { cancel_requested = false })
    else after_breaker o at k call w s (should_stop s.breaker w.now)

unfoldable pub after_call : (LoopState → CallStep) → CallStep → CallStep
after_call rest (answered s) = rest s
after_call rest (resumes s) = resumes s
after_call rest (call_ends e s) = call_ends e s

-- The calls of the message at place `at`, from number `k` on.
unfoldable pub run_calls :
    LoopOptions → (ℕ → CallWorld) → ℕ → ℕ → List ToolCall → LoopState → CallStep
run_calls o w at k [] s = answered s
run_calls o w at k (call ∷ calls) s =
    after_call (run_calls o w at (suc k) calls) (call_step o at k call (w k) s)

abbrev pub repeat_window : ℕ
repeat_window = 6

abbrev pub repeat_limit : ℕ
repeat_limit = 3

unfoldable pub normalize_for_repeat : Text → Text
normalize_for_repeat text = collapse_spaces false (trim text)

unfoldable pub shift_text : List Text → List Text
shift_text [] = []
shift_text (t ∷ ts) = ts

unfoldable pub push_recent : Text → List Text → List Text
push_recent t texts =
    let pushed : List Text = texts ++ (t ∷ []) in
    if ltb repeat_window (length pushed) then shift_text pushed else pushed

unfoldable pub repeats_of : Text → List Text → ℕ
repeats_of t texts = length (keep (text_eq t) texts)

-- A turn that ends with every step done leaves nothing to resume.
unfoldable pub finish : LoopState → LoopState
finish s =
    if not (is_nil s.plan) && all is_done s.plan
    then record s { plan = []; disk = none; notes = [] }
    else s

unfoldable pub after_calls : TurnVars → CallStep → Next
after_calls v (answered s) = again v s
after_calls v (resumes s) = again v s
after_calls v (call_ends e s) = ends e s

unfoldable pub act : LoopOptions → (ℕ → CallWorld) → ChatMessage → ℕ → TurnVars → LoopState → Next
act o w m at v s =
    if is_nil m.tool_calls
    then ends finished (finish s)
    else after_calls v (run_calls o w at 0 m.tool_calls s)

-- The repeated-response guard: `text` is the content, none for null or blank content.
unfoldable pub after_text :
    LoopOptions → (ℕ → CallWorld) → ChatMessage → ℕ → TurnVars → LoopState → Option Text → Next
after_text o w m at v s none = act o w m at v s
after_text o w m at v s (some text) =
    let t = normalize_for_repeat text in
    let recent = push_recent t v.recent_texts in
    if leb repeat_limit (repeats_of t recent)
    then ends (stopped_repeating (repeats_of t recent)) s
    else act o w m at (record v { recent_texts = recent }) s

unfoldable pub spoken : Option Text → Option Text
spoken none = none
spoken (some t) = if is_empty (trim t) then none else some t

unfoldable pub on_reply : LoopOptions → (ℕ → CallWorld) → ChatMessage → TurnVars → LoopState → Next
on_reply o w m v s = after_text o w m (length s.messages) v (push m s) (spoken m.content)

abbrev pub reply_of : Option Text → List ToolCall → ChatMessage
reply_of content calls = record {
  role = assistant;
  content = content;
  tool_calls = calls;
  tool_call_id = none;
}

unfoldable pub on_answer : LoopOptions → Round → Answer → TurnVars → LoopState → Next
on_answer o r (chat_failed e) v s = on_chat_error o.turn r.error_world e r.used v s
on_answer o r (chat_replied content calls) v s = on_reply o r.calls (reply_of content calls) v s

unfoldable pub drain : LoopState → LoopState
drain s = record (push_users s.queued_messages s) { queued_messages = [] }

unfoldable pub queue_all : List Text → LoopState → LoopState
queue_all texts s = record s { queued_messages = s.queued_messages ++ texts }

unfoldable pub request_round : LoopOptions → Round → TurnVars → LoopState → Next
request_round o r v s =
    on_answer o r r.answer v
      (cancel_if r.cancels (maybe_compact_loop o.turn.thresholds none r.used r.attempts s).state)

unfoldable pub after_verdict : LoopOptions → Round → ProgressVerdict → TurnVars → LoopState → Next
after_verdict o r verdict_ok v s = request_round o r v s
after_verdict o r nudge v s =
    request_round o r v (push_user (progress_nudge_text o.guard.minutes o.guard.compactions) s)
after_verdict o r verdict_stop v s = ends stopped_no_progress s

unfoldable pub turn_step : LoopOptions → Round → TurnVars → LoopState → Next
turn_step o r v before =
    let s = drain (queue_all r.queued before) in
    let checked = check_progress r.now s.progress in
    after_verdict o r checked.verdict v (record s { progress = checked.tracker })

pub data TurnRun : Type 0 where
  waiting : TurnVars → LoopState → TurnRun
  ended : TurnEnding → LoopState → TurnRun

unfoldable pub after_round : (TurnVars → LoopState → TurnRun) → Next → TurnRun
after_round rest (again v s) = rest v s
after_round rest (ends e s) = ended e s

unfoldable pub run_turn : LoopOptions → List Round → TurnVars → LoopState → TurnRun
run_turn o [] v s = waiting v s
run_turn o (r ∷ rs) v s = after_round (run_turn o rs) (turn_step o r v s)

abbrev pub some_text : Text → Option Text
some_text t = if is_empty t then none else some t

abbrev pub or_goal : Option Text → Option Text → Option Text
or_goal none g = g
or_goal (some g) h = some g

unfoldable pub reset_guards : ℕ → LoopState → LoopState
reset_guards now s = record s {
  breaker = reset s.breaker now;
  progress = reset_tracker now s.progress;
}

unfoldable pub begin_turn : Text → ℕ → LoopState → LoopState
begin_turn text now s =
    let resumed = inject_resume (reset_guards now s) in
    push_user text
      (record resumed { goal = or_goal resumed.goal (some_text (take 200 (trim text))) })

unfoldable pub send : LoopOptions → List Round → Text → ℕ → LoopState → TurnRun
send o rounds text now s = run_turn o rounds new_turn (begin_turn text now s)
