-- ===== src/Agent/Turn/LinkedCalls.antt =====
-- The calls of one message: what they leave of the conversation.
use llamacli.Prelude.{
  ℕ, suc, ◌≡◌, refl, sym, subst, List, [], ◌∷◌, ◌⊎◌, inl, inr, Option, none, some, true, false,
  Text, if_intro, IsIn, All,
}
use llamacli.Hermes.{StopReason, should_stop}
use llamacli.Compaction.Message.{ToolCall}
use llamacli.Agent.State.{LoopState}
use llamacli.Agent.Compact.{MaybeCompacted}
use llamacli.Agent.CallWorld.{CallWorld}
use llamacli.Agent.Recover.{cancel_current_turn}
use llamacli.Agent.Linked.{call_ids}
use llamacli.Agent.Linked.Calls.{Holds, HoldsIn, dispatch-Holds}
use llamacli.Agent.Turn.{
  LoopOptions, CallStep, answered, resumes, call_ends, cancel_if, after_context, after_breaker,
  call_step, after_call, run_calls,
}
use llamacli.Agent.Linked.Context.{IsLinkedIn, maybe_compact_cases, inject_resume-IsLinked}

-- Within a batch whose calls are `ids` the results still answer them; outside it is linked.
abbrev pub CallLinked : List Text → CallStep → Type 0
CallLinked ids (answered s) = HoldsIn ids s
CallLinked ids (resumes s) = IsLinkedIn s
CallLinked ids (call_ends e s) = IsLinkedIn s

pub cancel_if-messages : (c : Option Text) (s : LoopState) → (cancel_if c s).messages ≡ s.messages
unfolding cancel_current_turn
cancel_if-messages none s = refl
cancel_if-messages (some t) s = refl

module _ (o : LoopOptions) (at : ℕ) (ids : List Text) where
  after_context-CallLinked :
      (k : ℕ) (call : ToolCall) (w : CallWorld) (m : MaybeCompacted) (s : LoopState)
      → IsIn ids call.id
      → HoldsIn ids s
      → ((m.compacts ≡ true) × IsLinkedIn m.state) ⊎ ((m.compacts ≡ false) × (m.state ≡ s))
      → CallLinked ids (after_context o at k call w m)
  unfolding after_context
  after_context-CallLinked k call w m s i h (inl (e, linked)) = rw e (
      if_intro (CallLinked ids) o.auto_resume (λ _. inject_resume-IsLinked m.state linked)
        (λ _. linked))
  after_context-CallLinked k call w m s i h (inr (e, same)) = rw e (
      dispatch-Holds o.turn.thresholds.context_window_tokens at k ids call w m.state i
        (subst (HoldsIn ids) (sym same) h))

  after_breaker-CallLinked :
      (k : ℕ) (call : ToolCall) (w : CallWorld) (s : LoopState) (reason : Option StopReason)
      → IsIn ids call.id
      → HoldsIn ids s
      → CallLinked ids (after_breaker o at k call w s reason)
  unfolding after_breaker
  after_breaker-CallLinked k call w s (some r) i h = h.0
  after_breaker-CallLinked k call w s none i h =
      after_context-CallLinked k call w _ _ i h
        (maybe_compact_cases o.turn.thresholds _ w.used w.attempts _ h.0)

  call_step-CallLinked :
      (k : ℕ) (call : ToolCall) (w : CallWorld) (s : LoopState)
      → IsIn ids call.id
      → HoldsIn ids s
      → CallLinked ids (call_step o at k call w s)
  unfolding call_step
  call_step-CallLinked k call w before i h =
      let s = cancel_if w.cancels before in
      let h' : HoldsIn ids s = subst (Holds ids) (sym (cancel_if-messages w.cancels before)) h in
      if_intro (CallLinked ids) s.cancel_requested (λ _. h'.0)
        (λ _. after_breaker-CallLinked k call w s (should_stop s.breaker w.now) i h')

  after_call-CallLinked :
      (rest : LoopState → CallStep) (c : CallStep)
      → ((s : LoopState) → HoldsIn ids s → CallLinked ids (rest s))
      → CallLinked ids c
      → CallLinked ids (after_call rest c)
  unfolding after_call
  after_call-CallLinked rest (answered s) f h = f s h
  after_call-CallLinked rest (resumes s) f h = h
  after_call-CallLinked rest (call_ends e s) f h = h

  pub run_calls-CallLinked :
      (w : ℕ → CallWorld) (k : ℕ) (calls : List ToolCall) (s : LoopState)
      → All (IsIn ids) (call_ids calls)
      → HoldsIn ids s
      → CallLinked ids (run_calls o w at k calls s)
  unfolding run_calls
  run_calls-CallLinked w k [] s _ h = h
  run_calls-CallLinked w k (call ∷ calls) s (i, is) h =
      after_call-CallLinked (run_calls o w at (suc k) calls) (call_step o at k call (w k) s)
        (λ s' h'. run_calls-CallLinked w (suc k) calls s' is h')
        (call_step-CallLinked k call (w k) s i h)
