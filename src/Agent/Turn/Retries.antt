-- ===== src/Agent/Turn/Retries.antt =====
-- The failed requests of a turn and its four counters of retries.
use llamacli.Prelude.{
  length, ℕ, suc, ◌+◌, ◌≤◌, ◌<◌, ◌≡◌, refl, subst, List, [], ◌∷◌, Option, none, some, Bool, true,
  false, ◌&&◌, leb, ltb, if◌then◌else◌, Text, arith, if_intro,
}
use llamacli.Compaction.Message.{ChatMessage}
use llamacli.Compaction.Resume.{is_nil}
use llamacli.Agent.Progress.{ProgressVerdict, verdict_ok, nudge, verdict_stop, check_progress}
use llamacli.Agent.State.{LoopState, push}
use llamacli.Agent.CallWorld.{CallWorld}
use llamacli.Agent.Failures.{
  TurnVars, new_turn, Next, again, ends, ChatError, ErrorWorld, TurnOptions, SalvagedFileWrite,
  exceeds, min_tail_budget_fraction,
}
use llamacli.Agent.Recover.{
  on_chat_error, on_overflow, on_truncation, ask_for_chunks, save_prefix, is_overflow,
  is_truncation, is_connect_timeout, is_utf8_split,
}
use llamacli.Agent.Turn.{
  LoopOptions, Round, Answer, chat_failed, chat_replied, CallStep, answered, resumes, call_ends,
  after_calls, act, after_text, on_reply, on_answer, request_round, after_verdict, turn_step,
  TurnRun, waiting, ended, after_round, run_turn, run_calls, push_recent, normalize_for_repeat,
  repeats_of, reply_of, spoken, drain, queue_all,
}

abbrev pub spent : TurnVars → ℕ
spent v = v.overflow_retries + v.truncation_retries + v.timeout_retries + v.utf8_retries

abbrev pub IsWithin : TurnVars → Type 0
IsWithin v =
    (v.overflow_retries ≤ 8)
    × (v.truncation_retries ≤ 5)
    × (v.timeout_retries ≤ 1)
    × (v.utf8_retries ≤ 1)

-- Where the turn goes on, the counters are within their bounds and `n` retries are spent.
abbrev NextSpends : ℕ → Next → Type 0
NextSpends n (again v s) = IsWithin v × (spent v ≡ n)
NextSpends n (ends e s) = Unit

on_overflow-NextSpends :
    (o : TurnOptions) (w : ErrorWorld) (v : TurnVars) (s : LoopState)
    → IsWithin v
    → v.overflow_retries < 8
    → NextSpends (suc (spent v)) (on_overflow o w v s)
unfolding on_overflow
on_overflow-NextSpends o w v s h lt =
    if_intro (NextSpends _) (leb w.before w.after)
      (λ same.
        if_intro (NextSpends _) (exceeds v.tail_budget_fraction min_tail_budget_fraction)
          (λ more. ((omega arith, h.1, h.2, h.3), omega arith)) (λ least. tt))
      (λ shrunk. ((omega arith, h.1, h.2, h.3), omega arith))

on_truncation-NextSpends :
    (o : TurnOptions) (message : Text) (f : Option SalvagedFileWrite) (ok : Bool) (used : ℕ)
    (v : TurnVars) (s : LoopState)
    → IsWithin v
    → NextSpends (spent v) (on_truncation o message f ok used v s)
unfolding on_truncation ask_for_chunks save_prefix
on_truncation-NextSpends o message none ok used v s h = (h, refl)
on_truncation-NextSpends o message (some f) true used v s h = (h, refl)
on_truncation-NextSpends o message (some f) false used v s h = (h, refl)

on_chat_error-NextSpends :
    (o : TurnOptions) (w : ErrorWorld) (e : ChatError) (used : ℕ) (v : TurnVars) (s : LoopState)
    → IsWithin v
    → NextSpends (suc (spent v)) (on_chat_error o w e used v s)
unfolding on_chat_error
on_chat_error-NextSpends o w e used v s h =
    let P = NextSpends (suc (spent v)) in
    if_intro P s.cancel_requested (λ _. tt)
      (λ _.
        if_intro P (ltb v.overflow_retries 8 && is_overflow e.message)
          (λ a. on_overflow-NextSpends o w v s h (ground arith))
          (λ _.
            if_intro P (ltb v.truncation_retries 5 && is_truncation e.message)
              (λ a.
                let v' : TurnVars = record v { truncation_retries = suc v.truncation_retries } in
                subst
                  (λ n. NextSpends n (on_truncation o e.message e.salvaged w.write_ok used v' s))
                  {x = spent v'} {y = suc (spent v)} (omega arith)
                  (on_truncation-NextSpends o e.message e.salvaged w.write_ok used v' s
                    (h.0, ground arith, h.2, h.3)))
              (λ _.
                if_intro P (ltb v.timeout_retries 1 && is_connect_timeout e.message)
                  (λ a. ((h.0, h.1, ground arith, h.3), omega arith))
                  (λ _.
                    if_intro P (ltb v.utf8_retries 1 && is_utf8_split e.message)
                      (λ a. ((h.0, h.1, h.2, ground arith), omega arith)) (λ _. tt)))))

after_calls-NextSpends :
    (v : TurnVars) (c : CallStep) → IsWithin v → NextSpends (spent v) (after_calls v c)
unfolding after_calls
after_calls-NextSpends v (answered s) h = (h, refl)
after_calls-NextSpends v (resumes s) h = (h, refl)
after_calls-NextSpends v (call_ends e s) h = tt

act-NextSpends :
    (o : LoopOptions) (w : ℕ → CallWorld) (m : ChatMessage) (at : ℕ) (v : TurnVars) (s : LoopState)
    → IsWithin v
    → NextSpends (spent v) (act o w m at v s)
unfolding act
act-NextSpends o w m at v s h =
    if_intro (NextSpends (spent v)) (is_nil m.tool_calls) (λ _. tt)
      (λ _. after_calls-NextSpends v (run_calls o w at 0 m.tool_calls s) h)

after_text-NextSpends :
    (o : LoopOptions) (w : ℕ → CallWorld) (m : ChatMessage) (at : ℕ) (v : TurnVars) (s : LoopState)
    (text : Option Text)
    → IsWithin v
    → NextSpends (spent v) (after_text o w m at v s text)
unfolding after_text
after_text-NextSpends o w m at v s none h = act-NextSpends o w m at v s h
after_text-NextSpends o w m at v s (some t) h =
    let recent = push_recent (normalize_for_repeat t) v.recent_texts in
    if_intro (NextSpends (spent v)) (leb 3 (repeats_of (normalize_for_repeat t) recent)) (λ _. tt)
      (λ _. act-NextSpends o w m at (record v { recent_texts = recent }) s h)

abbrev pub is_failure : Answer → Bool
is_failure (chat_failed e) = true
is_failure (chat_replied content calls) = false

abbrev pub failure : Answer → ℕ
failure a = if is_failure a then 1 else 0

on_answer-NextSpends :
    (o : LoopOptions) (r : Round) (a : Answer) (v : TurnVars) (s : LoopState)
    → IsWithin v
    → NextSpends (failure a + spent v) (on_answer o r a v s)
unfolding on_answer on_reply
on_answer-NextSpends o r (chat_failed e) v s h =
    subst (λ n. NextSpends n (on_chat_error o.turn r.error_world e r.used v s)) {x = suc (spent v)}
      {y = 1 + spent v} (omega arith) (on_chat_error-NextSpends o.turn r.error_world e r.used v s h)
on_answer-NextSpends o r (chat_replied content calls) v s h =
    subst (λ n. NextSpends n (on_reply o r.calls (reply_of content calls) v s)) {x = spent v}
      {y = 0 + spent v} (omega arith)
      (after_text-NextSpends o r.calls (reply_of content calls) (length s.messages) v
        (push (reply_of content calls) s) (spoken content) h)

after_verdict-NextSpends :
    (o : LoopOptions) (r : Round) (d : ProgressVerdict) (v : TurnVars) (s : LoopState)
    → IsWithin v
    → NextSpends (failure r.answer + spent v) (after_verdict o r d v s)
unfolding after_verdict request_round
after_verdict-NextSpends o r verdict_ok v s h = on_answer-NextSpends o r r.answer v _ h
after_verdict-NextSpends o r nudge v s h = on_answer-NextSpends o r r.answer v _ h
after_verdict-NextSpends o r verdict_stop v s h = tt

turn_step-NextSpends :
    (o : LoopOptions) (r : Round) (v : TurnVars) (s : LoopState)
    → IsWithin v
    → NextSpends (failure r.answer + spent v) (turn_step o r v s)
unfolding turn_step
turn_step-NextSpends o r v before h =
    after_verdict-NextSpends o r
      (check_progress r.now (drain (queue_all r.queued before)).progress).verdict v _ h

-- The rounds whose request failed.
abbrev pub failures : List Round → ℕ
failures [] = 0
failures (r ∷ rs) = failure r.answer + failures rs

abbrev RunSpends : ℕ → TurnRun → Type 0
RunSpends n (waiting v s) = IsWithin v × (spent v ≡ n)
RunSpends n (ended e s) = Unit

after_round-RunSpends :
    (rest : TurnVars → LoopState → TurnRun) (n k : ℕ) (x : Next)
    → ((v : TurnVars) (s : LoopState) → IsWithin v → RunSpends (k + spent v) (rest v s))
    → NextSpends n x
    → RunSpends (k + n) (after_round rest x)
unfolding after_round
after_round-RunSpends rest n k (again v s) f (h, e) =
    subst (λ m. RunSpends (k + m) (rest v s)) e (f v s h)
after_round-RunSpends rest n k (ends e s) f h = tt

run_turn-RunSpends :
    (o : LoopOptions) (rs : List Round) (v : TurnVars) (s : LoopState)
    → IsWithin v
    → RunSpends (failures rs + spent v) (run_turn o rs v s)
unfolding run_turn
run_turn-RunSpends o [] v s h = (h, omega arith)
run_turn-RunSpends o (r ∷ rs) v s h =
    subst (λ n. RunSpends n (after_round (run_turn o rs) (turn_step o r v s)))
      {x = failures rs + (failure r.answer + spent v)} {y = failures (r ∷ rs) + spent v}
      (omega arith)
      (after_round-RunSpends (run_turn o rs) (failure r.answer + spent v) (failures rs)
        (turn_step o r v s) (λ v' s' h'. run_turn-RunSpends o rs v' s' h')
        (turn_step-NextSpends o r v s h))

-- A turn that is not over after some rounds has retried at most 8 overflows, 5 truncated tool calls, 1
-- timeout and 1 split character, by its counters, and the counters add up to the rounds whose chat
-- request has failed, whatever the state, the errors and the replies in between. So these are at most 15.
pub waiting-IsWithin :
    (o : LoopOptions) (rs : List Round) (v : TurnVars) (s s' : LoopState)
    → run_turn o rs new_turn s ≡ waiting v s'
    → IsWithin v × (failures rs ≡ spent v)
unfolding new_turn
waiting-IsWithin o rs v s s' e =
    let (within, count) =
      subst (RunSpends (failures rs + 0)) e
        (run_turn-RunSpends o rs new_turn s (omega arith, omega arith, omega arith, omega arith)) in
    (within, omega (arith, count))
