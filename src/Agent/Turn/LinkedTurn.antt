-- ===== src/Agent/Turn/LinkedTurn.antt =====
-- A whole turn keeps tool results with their calls: the requests, the retries and the batches.
use llamacli.Prelude.{
  ℕ, ◌≡◌, refl, sym, subst, List, [], ◌∷◌, ◌++◌, Option, none, some, Bool, true, false, ◌&&◌, leb,
  ltb, length, Text, arith, if_intro, IsIn, All, text_eq_refl,
}
use llamacli.Compaction.Message.{ChatMessage}
use llamacli.Compaction.Checkpoint.{auto_threshold}
use llamacli.Compaction.Resume.{is_nil}
use llamacli.Agent.Progress.{ProgressVerdict, verdict_ok, nudge, verdict_stop}
use llamacli.Agent.State.{LoopState, push}
use llamacli.Agent.Compact.{maybe_compact_loop}
use llamacli.Agent.CallWorld.{CallWorld}
use llamacli.Agent.Failures.{
  TurnVars, Next, again, ends, ChatError, ErrorWorld, TurnOptions, SalvagedFileWrite, exceeds,
  min_tail_budget_fraction, new_turn,
}
use llamacli.Agent.Recover.{
  on_chat_error, on_overflow, on_truncation, ask_for_chunks, save_prefix, is_overflow,
  is_truncation, is_connect_timeout, is_utf8_split,
}
use llamacli.Agent.Linked.{IsLinked, open_at_end-append, call_ids}
use llamacli.Agent.Linked.Calls.{HoldsIn}
use llamacli.Agent.Turn.{
  LoopOptions, Round, Answer, chat_failed, chat_replied, CallStep, answered, resumes, call_ends,
  cancel_if, run_calls, after_calls, act, after_text, on_reply, on_answer, request_round,
  after_verdict, turn_step, TurnRun, waiting, ended, after_round, run_turn, drain, queue_all,
  finish, reply_of, spoken, push_recent, normalize_for_repeat, repeats_of, begin_turn, reset_guards,
  send,
}
use llamacli.Agent.Linked.Context.{
  IsLinkedIn, compact-IsLinked, maybe_compact-IsLinked, push-IsLinked, push_user-IsLinked,
  push_users-IsLinked, inject_resume-IsLinked,
}
use llamacli.Agent.Turn.LinkedCalls.{CallLinked, cancel_if-messages, run_calls-CallLinked}

abbrev NextLinked : Next → Type 0
NextLinked (again v s) = IsLinkedIn s
NextLinked (ends e s) = IsLinkedIn s

on_overflow-NextLinked :
    (o : TurnOptions) (w : ErrorWorld) (v : TurnVars) (s : LoopState)
    → IsLinkedIn s
    → NextLinked (on_overflow o w v s)
unfolding on_overflow
on_overflow-NextLinked o w v s h =
    let h' =
      compact-IsLinked o.thresholds auto_threshold none v.tail_budget_fraction w.attempts s h in
    if_intro NextLinked (leb w.before w.after)
      (λ _.
        if_intro NextLinked (exceeds v.tail_budget_fraction min_tail_budget_fraction) (λ _. h')
          (λ _. h'))
      (λ _. h')

on_truncation-NextLinked :
    (o : TurnOptions) (message : Text) (f : Option SalvagedFileWrite) (ok : Bool) (used : ℕ)
    (v : TurnVars) (s : LoopState)
    → IsLinkedIn s
    → NextLinked (on_truncation o message f ok used v s)
unfolding on_truncation ask_for_chunks save_prefix
on_truncation-NextLinked o message none ok used v s h = push_user-IsLinked _ s h
on_truncation-NextLinked o message (some f) true used v s h = push_user-IsLinked _ s h
on_truncation-NextLinked o message (some f) false used v s h = push_user-IsLinked _ s h

on_chat_error-NextLinked :
    (o : TurnOptions) (w : ErrorWorld) (e : ChatError) (used : ℕ) (v : TurnVars) (s : LoopState)
    → IsLinkedIn s
    → NextLinked (on_chat_error o w e used v s)
unfolding on_chat_error
on_chat_error-NextLinked o w e used v s h =
    let P = NextLinked in
    if_intro P s.cancel_requested (λ _. h)
      (λ _.
        if_intro P (ltb v.overflow_retries 8 && is_overflow e.message)
          (λ _. on_overflow-NextLinked o w v s h)
          (λ _.
            if_intro P (ltb v.truncation_retries 5 && is_truncation e.message)
              (λ _. on_truncation-NextLinked o e.message e.salvaged w.write_ok used _ s h)
              (λ _.
                if_intro P (ltb v.timeout_retries 1 && is_connect_timeout e.message) (λ _. h)
                  (λ _.
                    if_intro P (ltb v.utf8_retries 1 && is_utf8_split e.message) (λ _. h)
                      (λ _. h)))))

IsIn-cons : (j : Text) (ids js : List Text) → All (IsIn ids) js → All (IsIn (j ∷ ids)) js
IsIn-cons j ids [] _ = tt
IsIn-cons j ids (k ∷ js) (h, hs) = (ground arith, IsIn-cons j ids js hs)

All-IsIn_self : (ids : List Text) → All (IsIn ids) ids
All-IsIn_self [] = tt
All-IsIn_self (j ∷ ids) = (ground (arith, text_eq_refl j), IsIn-cons j ids ids (All-IsIn_self ids))

after_calls-NextLinked :
    (ids : List Text) (v : TurnVars) (c : CallStep)
    → CallLinked ids c
    → NextLinked (after_calls v c)
unfolding after_calls
after_calls-NextLinked ids v (answered s) h = h.0
after_calls-NextLinked ids v (resumes s) h = h
after_calls-NextLinked ids v (call_ends e s) h = h

finish-messages : (s : LoopState) → (finish s).messages ≡ s.messages
unfolding finish
finish-messages s = if_intro (λ (x : LoopState). x.messages ≡ s.messages) _ (λ _. refl) (λ _. refl)

act-NextLinked :
    (o : LoopOptions) (w : ℕ → CallWorld) (m : ChatMessage) (at : ℕ) (v : TurnVars) (s : LoopState)
    → HoldsIn (call_ids m.tool_calls) s
    → NextLinked (act o w m at v s)
unfolding act
act-NextLinked o w m at v s h =
    if_intro NextLinked (is_nil m.tool_calls)
      (λ _. subst (IsLinked []) (sym (finish-messages s)) h.0)
      (λ _. after_calls-NextLinked (call_ids m.tool_calls) v (run_calls o w at 0 m.tool_calls s) (
        run_calls-CallLinked o at (call_ids m.tool_calls) w 0 m.tool_calls s
          (All-IsIn_self (call_ids m.tool_calls)) h))

after_text-NextLinked :
    (o : LoopOptions) (w : ℕ → CallWorld) (m : ChatMessage) (at : ℕ) (v : TurnVars) (s : LoopState)
    (text : Option Text)
    → HoldsIn (call_ids m.tool_calls) s
    → NextLinked (after_text o w m at v s text)
unfolding after_text
after_text-NextLinked o w m at v s none h = act-NextLinked o w m at v s h
after_text-NextLinked o w m at v s (some t) h =
    let recent = push_recent (normalize_for_repeat t) v.recent_texts in
    if_intro NextLinked (leb 3 (repeats_of (normalize_for_repeat t) recent)) (λ _. h.0)
      (λ _. act-NextLinked o w m at (record v { recent_texts = recent }) s h)

on_answer-NextLinked :
    (o : LoopOptions) (r : Round) (a : Answer) (v : TurnVars) (s : LoopState)
    → IsLinkedIn s
    → NextLinked (on_answer o r a v s)
unfolding on_answer on_reply push
on_answer-NextLinked o r (chat_failed e) v s h =
    on_chat_error-NextLinked o.turn r.error_world e r.used v s h
on_answer-NextLinked o r (chat_replied content calls) v s h =
    let m = reply_of content calls in
    after_text-NextLinked o r.calls m (length s.messages) v (push m s) (spoken content)
      (push-IsLinked m s refl h, open_at_end-append [] s.messages (m ∷ []))

request_round-NextLinked :
    (o : LoopOptions) (r : Round) (v : TurnVars) (s : LoopState)
    → IsLinkedIn s
    → NextLinked (request_round o r v s)
unfolding request_round
request_round-NextLinked o r v s h =
    let m = maybe_compact_loop o.turn.thresholds none r.used r.attempts s in
    on_answer-NextLinked o r r.answer v (cancel_if r.cancels m.state) (
      subst (IsLinked []) (sym (cancel_if-messages r.cancels m.state))
        (maybe_compact-IsLinked o.turn.thresholds none r.used r.attempts s h))

after_verdict-NextLinked :
    (o : LoopOptions) (r : Round) (d : ProgressVerdict) (v : TurnVars) (s : LoopState)
    → IsLinkedIn s
    → NextLinked (after_verdict o r d v s)
unfolding after_verdict
after_verdict-NextLinked o r verdict_ok v s h = request_round-NextLinked o r v s h
after_verdict-NextLinked o r nudge v s h =
    request_round-NextLinked o r v _ (push_user-IsLinked _ s h)
after_verdict-NextLinked o r verdict_stop v s h = h

turn_step-NextLinked :
    (o : LoopOptions) (r : Round) (v : TurnVars) (s : LoopState)
    → IsLinkedIn s
    → NextLinked (turn_step o r v s)
unfolding turn_step drain queue_all
turn_step-NextLinked o r v s h =
    after_verdict-NextLinked o r _ v _ (push_users-IsLinked (s.queued_messages ++ r.queued) _ h)

-- The state that a run of the turn stands at or ends with.
abbrev pub state_of : TurnRun → LoopState
state_of (waiting v s) = s
state_of (ended e s) = s

after_round-IsLinked :
    (rest : TurnVars → LoopState → TurnRun) (x : Next)
    → ((v : TurnVars) (s : LoopState) → IsLinkedIn s → IsLinkedIn (state_of (rest v s)))
    → NextLinked x
    → IsLinkedIn (state_of (after_round rest x))
unfolding after_round
after_round-IsLinked rest (again v s) f h = f v s h
after_round-IsLinked rest (ends e s) f h = h

-- In every conversation that a turn passes through or ends with, each tool result stands behind the
-- assistant message that made its call, with only further results between them, if it was so before the
-- turn: through compactions, resumes, retries, refused calls, elided arguments and early stops.
pub run_turn-IsLinked :
    (o : LoopOptions) (rs : List Round) (v : TurnVars) (s : LoopState)
    → IsLinkedIn s
    → IsLinkedIn (state_of (run_turn o rs v s))
unfolding run_turn
run_turn-IsLinked o [] v s h = h
run_turn-IsLinked o (r ∷ rs) v s h =
    after_round-IsLinked (run_turn o rs) (turn_step o r v s)
      (λ v' s' h'. run_turn-IsLinked o rs v' s' h') (turn_step-NextLinked o r v s h)

-- The same of a whole message of the user, the resumed checkpoint included.
pub send-IsLinked :
    (o : LoopOptions) (rs : List Round) (text : Text) (now : ℕ) (s : LoopState)
    → IsLinkedIn s
    → IsLinkedIn (state_of (send o rs text now s))
unfolding send begin_turn reset_guards
send-IsLinked o rs text now s h =
    run_turn-IsLinked o rs new_turn _ (push_user-IsLinked text _ (inject_resume-IsLinked _ h))
