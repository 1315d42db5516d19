-- ===== src/Agent/Turn/Repeats.antt =====
-- The repeated-response guard: what a turn that goes on has said lately.
use llamacli.Prelude.{
  ℕ, suc, ◌≡◌, refl, sym, ap, ◌∙◌, subst, List, [], ◌∷◌, ◌++◌, Option, none, some, Bool, true,
  false, ◌&&◌, leb, ltb, length, take_last, take_last-append, Text, arith, if_intro,
}
use mathlib.Core.List.{append-nil, append_assoc}
use llamacli.Compaction.Message.{ChatMessage}
use llamacli.Compaction.Resume.{is_nil}
use llamacli.Agent.Progress.{ProgressVerdict, verdict_ok, nudge, verdict_stop, check_progress}
use llamacli.Agent.State.{LoopState, push}
use llamacli.Agent.CallWorld.{CallWorld}
use llamacli.Agent.Failures.{
  TurnVars, new_turn, Next, again, ends, ChatError, ErrorWorld, TurnOptions, SalvagedFileWrite,
  exceeds, min_tail_budget_fraction,
}
use llamacli.Agent.Recover.{
  on_chat_error, on_overflow, on_truncation, ask_for_chunks, save_prefix, is_overflow,
  is_truncation, is_connect_timeout, is_utf8_split,
}
use llamacli.Agent.Turn.{
  LoopOptions, Round, Answer, chat_failed, chat_replied, CallStep, answered, resumes, call_ends,
  after_calls, act, after_text, on_reply, on_answer, request_round, after_verdict, turn_step,
  TurnRun, drain, queue_all, waiting, ended, after_round, run_turn, run_calls, push_recent,
  normalize_for_repeat, repeats_of, reply_of, spoken,
}
use llamacli.Agent.Turn.Varied.{push_recent-take_last, IsVaried, push-IsVaried, length-take_last}

-- The texts of the replies, normalized; blank replies and failed requests say nothing.
abbrev pub said_text : Option Text → List Text
said_text none = []
said_text (some t) = normalize_for_repeat t ∷ []

abbrev pub said_by : Answer → List Text
said_by (chat_failed e) = []
said_by (chat_replied content calls) = said_text (spoken content)

abbrev pub said : List Round → List Text
said [] = []
said (r ∷ rs) = said_by r.answer ++ said rs

abbrev Remembers : List Text → TurnVars → Type 0
Remembers hist v = (v.recent_texts ≡ take_last 6 hist) × IsVaried hist

abbrev NextRemembers : List Text → Next → Type 0
NextRemembers hist (again v s) = Remembers hist v
NextRemembers hist (ends e s) = Unit

after_calls-NextRemembers :
    (hist : List Text) (v : TurnVars) (c : CallStep)
    → Remembers hist v
    → NextRemembers hist (after_calls v c)
unfolding after_calls
after_calls-NextRemembers hist v (answered s) h = h
after_calls-NextRemembers hist v (resumes s) h = h
after_calls-NextRemembers hist v (call_ends e s) h = tt

act-NextRemembers :
    (o : LoopOptions) (w : ℕ → CallWorld) (m : ChatMessage) (at : ℕ) (hist : List Text)
    (v : TurnVars) (s : LoopState)
    → Remembers hist v
    → NextRemembers hist (act o w m at v s)
unfolding act
act-NextRemembers o w m at hist v s h =
    if_intro (NextRemembers hist) (is_nil m.tool_calls) (λ _. tt)
      (λ _. after_calls-NextRemembers hist v (run_calls o w at 0 m.tool_calls s) h)

after_text-NextRemembers :
    (o : LoopOptions) (w : ℕ → CallWorld) (m : ChatMessage) (at : ℕ) (hist : List Text)
    (v : TurnVars) (s : LoopState) (text : Option Text)
    → Remembers hist v
    → NextRemembers (hist ++ said_text text) (after_text o w m at v s text)
unfolding after_text
after_text-NextRemembers o w m at hist v s none h =
    subst (λ l. NextRemembers l (act o w m at v s)) (sym (append-nil hist))
      (act-NextRemembers o w m at hist v s h)
after_text-NextRemembers o w m at hist v s (some text) (recalls, varied) =
    let t = normalize_for_repeat text in
    let recent = push_recent t v.recent_texts in
    let whole : recent ≡ take_last 6 (hist ++ (t ∷ [])) =
      ap (push_recent t) recalls
      ∙ push_recent-take_last t (take_last 6 hist) (length-take_last 6 hist)
      ∙ take_last-append 6 hist (t ∷ []) in
    if_intro (NextRemembers (hist ++ (t ∷ []))) (leb 3 (repeats_of t recent)) (λ _. tt)
      (λ e.
        act-NextRemembers o w m at (hist ++ (t ∷ [])) (record v { recent_texts = recent }) s
          (
            whole,
            push-IsVaried hist t varied (subst (λ l. leb 3 (repeats_of t l) ≡ false) whole e),
          ))

-- A failed request leaves the texts alone.
on_overflow-NextRemembers :
    (o : TurnOptions) (w : ErrorWorld) (hist : List Text) (v : TurnVars) (s : LoopState)
    → Remembers hist v
    → NextRemembers hist (on_overflow o w v s)
unfolding on_overflow
on_overflow-NextRemembers o w hist v s h =
    if_intro (NextRemembers hist) (leb w.before w.after)
      (λ _.
        if_intro (NextRemembers hist) (exceeds v.tail_budget_fraction min_tail_budget_fraction)
          (λ _. h) (λ _. tt))
      (λ _. h)

on_truncation-NextRemembers :
    (o : TurnOptions) (message : Text) (f : Option SalvagedFileWrite) (ok : Bool) (used : ℕ)
    (hist : List Text) (v : TurnVars) (s : LoopState)
    → Remembers hist v
    → NextRemembers hist (on_truncation o message f ok used v s)
unfolding on_truncation ask_for_chunks save_prefix
on_truncation-NextRemembers o message none ok used hist v s h = h
on_truncation-NextRemembers o message (some f) true used hist v s h = h
on_truncation-NextRemembers o message (some f) false used hist v s h = h

on_chat_error-NextRemembers :
    (o : TurnOptions) (w : ErrorWorld) (e : ChatError) (used : ℕ) (hist : List Text) (v : TurnVars)
    (s : LoopState)
    → Remembers hist v
    → NextRemembers hist (on_chat_error o w e used v s)
unfolding on_chat_error
on_chat_error-NextRemembers o w e used hist v s h =
    let P = NextRemembers hist in
    if_intro P s.cancel_requested (λ _. tt)
      (λ _.
        if_intro P (ltb v.overflow_retries 8 && is_overflow e.message)
          (λ _. on_overflow-NextRemembers o w hist v s h)
          (λ _.
            if_intro P (ltb v.truncation_retries 5 && is_truncation e.message)
              (λ _.
                on_truncation-NextRemembers o e.message e.salvaged w.write_ok used hist
                  (record v { truncation_retries = suc v.truncation_retries }) s h)
              (λ _.
                if_intro P (ltb v.timeout_retries 1 && is_connect_timeout e.message) (λ _. h)
                  (λ _.
                    if_intro P (ltb v.utf8_retries 1 && is_utf8_split e.message) (λ _. h)
                      (λ _. tt)))))

on_answer-NextRemembers :
    (o : LoopOptions) (r : Round) (a : Answer) (hist : List Text) (v : TurnVars) (s : LoopState)
    → Remembers hist v
    → NextRemembers (hist ++ said_by a) (on_answer o r a v s)
unfolding on_answer on_reply
on_answer-NextRemembers o r (chat_failed e) hist v s h =
    subst (λ l. NextRemembers l (on_chat_error o.turn r.error_world e r.used v s))
      (sym (append-nil hist)) (on_chat_error-NextRemembers o.turn r.error_world e r.used hist v s h)
on_answer-NextRemembers o r (chat_replied content calls) hist v s h =
    after_text-NextRemembers o r.calls (reply_of content calls) (length s.messages) hist v
      (push (reply_of content calls) s) (spoken content) h

after_verdict-NextRemembers :
    (o : LoopOptions) (r : Round) (d : ProgressVerdict) (hist : List Text) (v : TurnVars)
    (s : LoopState)
    → Remembers hist v
    → NextRemembers (hist ++ said_by r.answer) (after_verdict o r d v s)
unfolding after_verdict request_round
after_verdict-NextRemembers o r verdict_ok hist v s h =
    on_answer-NextRemembers o r r.answer hist v _ h
after_verdict-NextRemembers o r nudge hist v s h = on_answer-NextRemembers o r r.answer hist v _ h
after_verdict-NextRemembers o r verdict_stop hist v s h = tt

turn_step-NextRemembers :
    (o : LoopOptions) (r : Round) (hist : List Text) (v : TurnVars) (s : LoopState)
    → Remembers hist v
    → NextRemembers (hist ++ said_by r.answer) (turn_step o r v s)
unfolding turn_step
turn_step-NextRemembers o r hist v s h =
    after_verdict-NextRemembers o r
      (check_progress r.now (drain (queue_all r.queued s)).progress).verdict hist v _ h

abbrev RunVaried : List Text → TurnRun → Type 0
RunVaried hist (waiting v s) = IsVaried hist
RunVaried hist (ended e s) = Unit

after_round-RunVaried :
    (rest : TurnVars → LoopState → TurnRun) (hist more : List Text) (x : Next)
    → ((v : TurnVars) (s : LoopState) → Remembers hist v → RunVaried (hist ++ more) (rest v s))
    → NextRemembers hist x
    → RunVaried (hist ++ more) (after_round rest x)
unfolding after_round
after_round-RunVaried rest hist more (again v s) f h = f v s h
after_round-RunVaried rest hist more (ends e s) f h = tt

run_turn-RunVaried :
    (o : LoopOptions) (rs : List Round) (hist : List Text) (v : TurnVars) (s : LoopState)
    → Remembers hist v
    → RunVaried (hist ++ said rs) (run_turn o rs v s)
unfolding run_turn
run_turn-RunVaried o [] hist v s h = subst IsVaried (sym (append-nil hist)) h.1
run_turn-RunVaried o (r ∷ rs) hist v s h =
    subst (λ l. RunVaried l (after_round (run_turn o rs) (turn_step o r v s)))
      (append_assoc hist (said_by r.answer) (said rs))
      (after_round-RunVaried (run_turn o rs) (hist ++ said_by r.answer) (said rs)
        (turn_step o r v s)
        (λ v' s' h'. run_turn-RunVaried o rs (hist ++ said_by r.answer) v' s' h')
        (turn_step-NextRemembers o r hist v s h))

-- A turn that is not over has not repeated itself: among the last six normalized non-blank texts of the
-- model in this turn no text occurs three times, whatever tool calls came with them.
pub waiting-IsVaried :
    (o : LoopOptions) (rs : List Round) (v : TurnVars) (s s' : LoopState)
    → run_turn o rs new_turn s ≡ waiting v s'
    → IsVaried (said rs)
unfolding new_turn repeats_of
waiting-IsVaried o rs v s s' e =
    subst (RunVaried (said rs)) e (run_turn-RunVaried o rs [] new_turn s (refl, λ t. omega arith))
