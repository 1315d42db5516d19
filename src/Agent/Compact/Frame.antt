-- ===== src/Agent/Compact/Frame.antt =====
-- What `compact` changes: all of the state it leaves, on success and on failure.
use llamacli.Prelude.{
  ℕ, zero, suc, ◌+◌, ◌≤◌, ◌≡◌, refl, sym, ap, subst, List, ◌∷◌, ◌++◌, ◌⊎◌, inl, inr, Option, some,
  Bool, false, Text, lit, is_empty, arith, Bool-cases,
}
use llamacli.Compaction.Message.{ChatMessage, system, plain, text_of}
use llamacli.Compaction.Checkpoint.{Checkpoint, Reason, PendingCall}
use llamacli.Compaction.SystemText.{compose_system_message}
use llamacli.Compaction.Notes.{notes_header}
use llamacli.Compaction.Tail.{Fraction, select_kept_tail}
use llamacli.Compaction.Repair.{repair_tail}
use llamacli.Compaction.Run.{
  Request, Reply, failed, replied, after_reply, compacted_of, run_compaction, system_text,
  summary_text,
}
use llamacli.Agent.Progress.{on_compaction}
use llamacli.Agent.State.{LoopState, Thresholds, checkpoint_of, current_goal_summary}
use llamacli.Agent.Compact.{
  baseline, Attempt, Tried, tried_ok, tried_error, with_notes, written, take_outcome, try_compact,
  sizes_of, options_of, Compaction, complete, gave_up, after_last, after_try, compact_from, compact,
  is_transient,
}

module _ (reason : Reason) (pending : Option PendingCall) (window : ℕ) where
  -- Of a failure the checkpoint on disk and the mark of the warning remain.
  pub record FailedTo (s s' : LoopState) : Type 0 where
    pub warned : Bool
    pub timestamp : Text
    pub same : s' ≡ record s {
      warned_window_too_small = warned;
      disk = some (checkpoint_of reason pending timestamp s);
    }

  -- The conversation after a success: one system message, and the repaired tail of the old one.
  pub record CompactedTo (s s' : LoopState) : Type 0 where
    pub warned : Bool
    pub disk : Option Checkpoint
    pub used : Option ℕ
    pub fraction : Fraction
    pub text : Text
    pub same :
        let kept = select_kept_tail s.messages window fraction in
        s' ≡ record s {
          messages = plain system text ∷ repair_tail kept.to_summarize kept.keep_tail;
          warned_window_too_small = warned;
          disk = disk;
          last_compaction_used = used;
          progress = on_compaction s.progress;
        }

  abbrev pub TriedTo : LoopState → Tried → Type 0
  TriedTo s (tried_ok s') = CompactedTo s s'
  TriedTo s (tried_error e s') = FailedTo s s'

  with_notes-first :
      (notes text : Text) (ms : List ChatMessage)
      → (text' : Text) × (with_notes notes (plain system text ∷ ms) ≡ plain system text' ∷ ms)
  unfolding with_notes
  with_notes-first notes text ms = elim (Bool-cases (is_empty notes)) [
    | inl e ↦ (text, rw e refl)
    | inr e ↦ (text ++ (lit "\n\n" ++ (notes_header ++ (lit "\n" ++ notes))), rw e refl)
  ]

  take_outcome-TriedTo :
      (used : Option ℕ) (warned : Bool) (timestamp : Text) (fraction : Fraction) (request : Request)
      (deadline : Option ℕ) (reply : Reply) (s : LoopState)
      → let run =
          after_reply s.messages
            (checkpoint_of reason pending timestamp s)
            (select_kept_tail s.messages window fraction)
            request
            deadline
            reply in
        TriedTo s (
          take_outcome used run.outcome
            (record s { warned_window_too_small = warned; disk = written s.disk run.events }))
  unfolding after_reply take_outcome written compacted_of
  take_outcome-TriedTo used warned timestamp fraction request deadline (failed e) s = record {
    warned = warned;
    timestamp = timestamp;
    same = refl;
  }
  take_outcome-TriedTo used warned timestamp fraction request deadline (replied content hit) s =
      let kept = select_kept_tail s.messages window fraction in
      let (text, first) =
        with_notes-first s.notes
          (compose_system_message (system_text s.messages) (summary_text (text_of content) hit))
          (repair_tail kept.to_summarize kept.keep_tail) in
      record {
        warned = warned;
        disk =
            written s.disk
              (after_reply s.messages (checkpoint_of reason pending timestamp s) kept request
                deadline (replied content hit)).events;
        used = baseline used s.last_compaction_used;
        fraction = fraction;
        text = text;
        same =
            ap
              (λ ms. record s {
                messages = ms;
                warned_window_too_small = warned;
                disk =
                    written s.disk
                      (after_reply s.messages (checkpoint_of reason pending timestamp s) kept
                        request deadline (replied content hit)).events;
                last_compaction_used = baseline used s.last_compaction_used;
                progress = on_compaction s.progress;
              })
              first;
      }

  -- A failure does not change what a second attempt sees.
  FailedTo-CompactedTo :
      (s s' s'' : LoopState) → FailedTo s s' → CompactedTo s' s'' → CompactedTo s s''
  FailedTo-CompactedTo s s' s'' f =
      subst (λ x. CompactedTo x s'' → CompactedTo s s'') (sym f.same)
        (λ c. record {
          warned = c.warned;
          disk = c.disk;
          used = c.used;
          fraction = c.fraction;
          text = c.text;
          same = c.same;
        })

  FailedTo-FailedTo : (s s' s'' : LoopState) → FailedTo s s' → FailedTo s' s'' → FailedTo s s''
  unfolding checkpoint_of current_goal_summary
  FailedTo-FailedTo s s' s'' f =
      subst (λ x. FailedTo x s'' → FailedTo s s'') (sym f.same)
        (λ g. record { warned = g.warned; timestamp = g.timestamp; same = g.same })

  -- What `compact` ends with after at most `most` requests in all.
  abbrev pub EndedTo : ℕ → LoopState → Compaction → Type 0
  EndedTo most s c =
      (c.requests ≤ most)
      × (((c.ending ≡ complete) × CompactedTo s c.state)
          ⊎ ((e : Text) × (c.ending ≡ gave_up e)
              × FailedTo s c.state
              × ((is_transient e ≡ false) ⊎ (c.requests ≡ most))))

  after_last-EndedTo :
      (n : ℕ) (s : LoopState) (t : Tried) → TriedTo s t → EndedTo n s (after_last n t)
  unfolding after_last
  after_last-EndedTo n s (tried_ok s') h = (omega arith, inl (refl, h))
  after_last-EndedTo n s (tried_error e s') h = (omega arith, inr (e, refl, h, inr refl))

  after_try-EndedTo :
      (retry : LoopState → Compaction) (n most : ℕ) (s : LoopState) (t : Tried)
      → n ≤ most
      → ((s' : LoopState) → EndedTo most s' (retry s'))
      → TriedTo s t
      → EndedTo most s (after_try retry n t)
  unfolding after_try after_last
  after_try-EndedTo retry n most s (tried_ok s') le again h = (le, inl (refl, h))
  after_try-EndedTo retry n most s (tried_error e s') le again h =
      elim (Bool-cases (is_transient e)) [
        | inr lasting ↦ rw lasting (le, inr (e, refl, h, inl lasting))
        | inl transient ↦ rw transient (
            let (le', ended) = again s' in
            (
              le',
              elim ended [
                | inl (done, c) ↦ inl (done, FailedTo-CompactedTo s s' _ h c)
                | inr (e', gave, f, last) ↦ inr (e', gave, FailedTo-FailedTo s s' _ h f, last)
              ],
            ))
      ]

  compact_from-EndedTo :
      (try : LoopState → ℕ → Tried) (left n : ℕ) (s : LoopState)
      → ((s' : LoopState) (k : ℕ) → TriedTo s' (try s' k))
      → EndedTo (suc (left + n)) s (compact_from try left n s)
  unfolding compact_from
  compact_from-EndedTo try zero n s h =
      subst (λ k. EndedTo k s (after_last (suc n) (try s n))) {x = suc n} {y = suc (0 + n)}
        (omega arith) (after_last-EndedTo (suc n) s (try s n) (h s n))
  compact_from-EndedTo try (suc left) n s h =
      after_try-EndedTo (compact_from try left (suc n)) (suc n) (suc (suc left + n)) s (try s n)
        (omega arith)
        (λ s'.
          subst (λ k. EndedTo k s' (compact_from try left (suc n) s')) {x = suc (left + suc n)}
            {y = suc (suc left + n)} (omega arith) (compact_from-EndedTo try left (suc n) s' h))
        (h s n)

try_compact-TriedTo :
    (th : Thresholds) (reason : Reason) (pending : Option PendingCall) (most : Fraction)
    (a : Attempt) (s : LoopState)
    → TriedTo reason pending th.context_window_tokens s (try_compact th reason pending most a s)
unfolding try_compact run_compaction options_of
try_compact-TriedTo th reason pending most a s =
    take_outcome-TriedTo reason pending th.context_window_tokens a.used_after _ a.timestamp
      (sizes_of th most a.overhead).tail_budget_fraction _ _ _ s

-- A compaction makes at most four requests. Either it succeeds, and of the loop's state only the
-- conversation, the baseline, the count of compactions, the checkpoint and the warning mark change, the
-- conversation into one system message and the repaired kept tail; or it gives up, on an error that is
-- not transient or after the fourth request, and then only the checkpoint on disk and the warning mark
-- change.
pub compact-EndedTo :
    (th : Thresholds) (reason : Reason) (pending : Option PendingCall) (most : Fraction)
    (attempts : ℕ → Attempt) (s : LoopState)
    → EndedTo reason pending th.context_window_tokens 4 s
        (compact th reason pending most attempts s)
unfolding compact
compact-EndedTo th reason pending most attempts s =
    compact_from-EndedTo reason pending th.context_window_tokens
      (λ s' n. try_compact th reason pending most (attempts n) s') 3 0 s
      (λ s' n. try_compact-TriedTo th reason pending most (attempts n) s')
