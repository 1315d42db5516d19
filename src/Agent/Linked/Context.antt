-- ===== src/Agent/Linked/Context.antt =====
-- Pushed messages, compactions and resumes keep tool results with their calls.
use llamacli.Prelude.{
  ℕ, ◌≡◌, refl, sym, subst, List, [], ◌∷◌, ◌⊎◌, inl, inr, Option, none, some, true, false, ◌&&◌,
  Text, if_intro, not,
}
use llamacli.Compaction.Message.{ChatMessage, user, plain}
use llamacli.Compaction.Checkpoint.{Checkpoint, Reason, auto_threshold, PendingCall}
use llamacli.Compaction.Resume.{is_nil}
use llamacli.Compaction.Repair.{is_tool}
use llamacli.Compaction.Tail.{Fraction, default_tail_budget_fraction}
use llamacli.Agent.Budget.{maybe_compact}
use llamacli.Agent.State.{LoopState, Thresholds, push, push_user, push_users}
use llamacli.Agent.Compact.{Attempt, MaybeCompacted, compact, maybe_compact_loop}
use llamacli.Agent.Compact.Frame.{compact-EndedTo}
use llamacli.Agent.Resume.{
  inject_resume, resume_pending, resume_with, resume_from, with_resume, is_resume_message,
  is_plan_progress,
}
use llamacli.Agent.Linked.{IsLinked, IsLinked-append, open_after}
use llamacli.Agent.Linked.Compacted.{CompactedTo-IsLinked, FailedTo-IsLinked}

abbrev pub IsLinkedIn : LoopState → Type 0
IsLinkedIn s = IsLinked [] s.messages

pub compact-IsLinked :
    (th : Thresholds) (reason : Reason) (pending : Option PendingCall) (most : Fraction)
    (attempts : ℕ → Attempt) (s : LoopState)
    → IsLinkedIn s
    → IsLinkedIn (compact th reason pending most attempts s).state
compact-IsLinked th reason pending most attempts s h =
    elim (compact-EndedTo th reason pending most attempts s).1 [
      | inl (_, c) ↦ CompactedTo-IsLinked reason pending th.context_window_tokens s _ h c
      | inr (_, _, f, _) ↦ FailedTo-IsLinked reason pending th.context_window_tokens s _ h f
    ]

pub maybe_compact_cases :
    (th : Thresholds) (pending : Option PendingCall) (used : ℕ) (attempts : ℕ → Attempt)
    (s : LoopState)
    → IsLinkedIn s
    → let m = maybe_compact_loop th pending used attempts s in
      ((m.compacts ≡ true) × IsLinkedIn m.state) ⊎ ((m.compacts ≡ false) × (m.state ≡ s))
unfolding maybe_compact_loop
maybe_compact_cases th pending used attempts s h =
    if_intro
      (λ (m : MaybeCompacted).
        ((m.compacts ≡ true) × IsLinkedIn m.state) ⊎ ((m.compacts ≡ false) × (m.state ≡ s)))
      (maybe_compact s.last_compaction_used used th.context_window_tokens th.auto_trigger_ratio
        th.min_growth_fraction)
      (λ _. inl (
        refl,
        compact-IsLinked th auto_threshold pending default_tail_budget_fraction attempts s h,
      ))
      (λ _. inr (refl, refl))

pub maybe_compact-IsLinked :
    (th : Thresholds) (pending : Option PendingCall) (used : ℕ) (attempts : ℕ → Attempt)
    (s : LoopState)
    → IsLinkedIn s
    → IsLinkedIn (maybe_compact_loop th pending used attempts s).state
maybe_compact-IsLinked th pending used attempts s h =
    elim (maybe_compact_cases th pending used attempts s h) [
      | inl (_, linked) ↦ linked
      | inr (_, same) ↦ subst IsLinkedIn (sym same) h
    ]

pub push-IsLinked :
    (m : ChatMessage) (s : LoopState) → is_tool m ≡ false → IsLinkedIn s → IsLinkedIn (push m s)
unfolding push
push-IsLinked m s e h = IsLinked-append [] s.messages (m ∷ []) h (inl e, tt)

pub push_user-IsLinked :
    (text : Text) (s : LoopState) → IsLinkedIn s → IsLinkedIn (push_user text s)
unfolding push_user
push_user-IsLinked text s h = push-IsLinked (plain user text) s refl h

pub push_users-IsLinked :
    (ts : List Text) (s : LoopState) → IsLinkedIn s → IsLinkedIn (push_users ts s)
unfolding push_users
push_users-IsLinked [] s h = h
push_users-IsLinked (t ∷ ts) s h = push_users-IsLinked ts (push_user t s) (push_user-IsLinked t s h)

with_resume-IsLinked :
    (text : Text) (ids : List Text) (ms : List ChatMessage)
    → IsLinked ids ms
    → IsLinked ids (with_resume text ms)
unfolding with_resume
with_resume-IsLinked text ids [] h = (inl refl, tt)
with_resume-IsLinked text ids (m ∷ []) (h, _) =
    if_intro (IsLinked ids) (is_resume_message m) (λ _. (h, tt)) (λ _. (h, (inl refl, tt)))
with_resume-IsLinked text ids (m ∷ n ∷ ms) (h, hs) =
    (h, with_resume-IsLinked text (open_after ids m) (n ∷ ms) hs)

resume_with-IsLinked :
    (text : Option Text) (c : Checkpoint) (s : LoopState)
    → IsLinkedIn s
    → IsLinkedIn (resume_with text c s)
unfolding resume_with resume_from
resume_with-IsLinked none c s h = h
resume_with-IsLinked (some t) c s h = with_resume-IsLinked t [] s.messages h

resume_pending-IsLinked :
    (c : Option Checkpoint) (s : LoopState) → IsLinkedIn s → IsLinkedIn (resume_pending c s)
unfolding resume_pending
resume_pending-IsLinked none s h = h
resume_pending-IsLinked (some c) s h =
    if_intro IsLinkedIn (is_plan_progress c.reason && not (is_nil s.plan)) (λ _. h)
      (λ _. resume_with-IsLinked _ c s h)

pub inject_resume-IsLinked : (s : LoopState) → IsLinkedIn s → IsLinkedIn (inject_resume s)
unfolding inject_resume
inject_resume-IsLinked s h = resume_pending-IsLinked s.disk s h
