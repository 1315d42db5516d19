-- ===== src/Agent/Session/Reached.antt =====
-- An invariant of every session: what its steps keep.
use llamacli.Prelude.{ℕ, Option, none, some, if_intro, Text, inl, refl, leb, length, ◌||◌, ◌==◌}
use llamacli.Compaction.Checkpoint.{Checkpoint, manual, auto_threshold}
use llamacli.Compaction.Tail.{Fraction, default_tail_budget_fraction}
use llamacli.Agent.Budget.{reaches}
use llamacli.Agent.Progress.{ProgressGuardOptions}
use llamacli.Agent.State.{LoopState, Thresholds}
use llamacli.Agent.Compact.{Attempt}
use llamacli.Agent.Failures.{new_turn}
use llamacli.Agent.Recover.{cancel_current_turn}
use llamacli.Agent.Turn.{LoopOptions, queue_all, reset_guards}
use llamacli.Agent.Turn.LinkedTurn.{run_turn-IsLinked, send-IsLinked}
use llamacli.Agent.Resume.{inject_resume}
use llamacli.Agent.Linked.Context.{
  IsLinkedIn, compact-IsLinked, maybe_compact-IsLinked, inject_resume-IsLinked,
}
use llamacli.Agent.Session.{
  new_loop, force_compact, save_state_on_quit, warm_compact, at_least, clear_plan,
  resume_if_checkpoint_exists, resumes_from, Step, sends, resumed, queues, compacts, warms, quits,
  cancels, clears, Reach, here, there,
}

warm_compact-IsLinked :
    (th : Thresholds) (warm : Option Fraction) (used : ℕ) (attempts : ℕ → Attempt) (s : LoopState)
    → IsLinkedIn s
    → IsLinkedIn (warm_compact th warm used attempts s)
unfolding warm_compact
warm_compact-IsLinked th none used attempts s h = maybe_compact-IsLinked th none used attempts s h
warm_compact-IsLinked th (some warm) used attempts s h =
    if_intro IsLinkedIn ((warm.num == 0) || at_least warm th.auto_trigger_ratio)
      (λ _. maybe_compact-IsLinked th none used attempts s h)
      (λ _.
        if_intro IsLinkedIn (reaches used th.context_window_tokens warm)
          (λ _. compact-IsLinked th auto_threshold none default_tail_budget_fraction attempts s h)
          (λ _. h))

Step-IsLinked : (o : LoopOptions) (s s' : LoopState) → Step o s s' → IsLinkedIn s → IsLinkedIn s'
unfolding force_compact save_state_on_quit clear_plan resume_if_checkpoint_exists queue_all
    cancel_current_turn reset_guards
Step-IsLinked o _ _ (sends rounds text now s) h = send-IsLinked o rounds text now s h
Step-IsLinked o _ _ (resumed rounds now s) h =
    let fresh = reset_guards now s in
    if_intro IsLinkedIn (resumes_from fresh)
      (λ _.
        run_turn-IsLinked o rounds new_turn (inject_resume fresh) (inject_resume-IsLinked fresh h))
      (λ _. h)
Step-IsLinked o _ _ (queues text s) h = h
Step-IsLinked o _ _ (compacts attempts s) h =
    compact-IsLinked o.turn.thresholds manual none default_tail_budget_fraction attempts s h
Step-IsLinked o _ _ (warms warm used attempts s) h =
    warm_compact-IsLinked o.turn.thresholds warm used attempts s h
Step-IsLinked o _ _ (quits attempts s) h =
    if_intro IsLinkedIn (leb (length s.messages) 1) (λ _. h)
      (λ _.
        compact-IsLinked o.turn.thresholds manual none default_tail_budget_fraction attempts s h)
Step-IsLinked o _ _ (cancels timestamp s) h = h
Step-IsLinked o _ _ (clears s) h = h

Reach-IsLinkedIn :
    (o : LoopOptions) (start s : LoopState) → IsLinkedIn start → Reach o start s → IsLinkedIn s
Reach-IsLinkedIn o start _ h here = h
Reach-IsLinkedIn o start _ h (there s s' r step) =
    Step-IsLinked o s s' step (Reach-IsLinkedIn o start s h r)

-- In every state that a session reaches from a new loop, through any sequence of messages, queued
-- texts, resumes, compactions, cancels and cleared plans, but without restoring a snapshot, each tool
-- result of the conversation stands behind the assistant message that made its call, with only
-- further results between them.
pub Reach-IsLinked :
    (o : LoopOptions) (prompt : Text) (guard : ProgressGuardOptions) (now : ℕ)
    (disk : Option Checkpoint) (notes : Text) (s : LoopState)
    → Reach o (new_loop prompt guard now disk notes) s
    → IsLinkedIn s
unfolding new_loop
Reach-IsLinked o prompt guard now disk notes s r =
    Reach-IsLinkedIn o (new_loop prompt guard now disk notes) s (inl refl, tt) r
