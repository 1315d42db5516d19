-- ===== src/Agent/Compact.antt =====
-- `AgentLoop.compact` and `maybeCompact`: a compaction with its retries. What the world answers in one
-- attempt is an `Attempt`; the model assumes that the checkpoint file can be written.
pub mod Frame
use llamacli.Prelude.{
  ℕ, zero, suc, ◌+◌, ◌-◌, List, [], ◌∷◌, ◌++◌, Option, none, some, Bool, true, false, ◌||◌, not,
  or_else, if◌then◌else◌, Text, lit, is_empty, ltb,
}
use llamacli.Compaction.Message.{ChatMessage}
use llamacli.Compaction.Checkpoint.{Checkpoint, Reason, auto_threshold, PendingCall}
use llamacli.Compaction.Notes.{notes_header}
use llamacli.Compaction.Tail.{Fraction, default_tail_budget_fraction}
use llamacli.Compaction.Run.{
  Request, Reply, Options, Outcome, threw, compacted, Event, wrote, asked, run_compaction,
}
use llamacli.Agent.Results.{decimal}
use llamacli.Agent.Progress.{on_compaction}
use llamacli.Agent.Budget.{Sizes, post_compaction_budget, target_of, maybe_compact}
use llamacli.Agent.State.{LoopState, Thresholds, checkpoint_of, mentions}

pub record Attempt : Type 0 where
  -- `estimateTokens` of the base prompt and the tools
  pub overhead : ℕ
  pub timestamp : Text
  pub chat : Request → Option ℕ → Reply
  -- `estimateTokens` of the compacted conversation, none where it throws
  pub used_after : Option ℕ

-- The text of the error, which names the deadline where there is one.
unfoldable pub error_text : Text → Option ℕ → Text
error_text message none = message
error_text message (some ms) =
    message ++ (lit " (summary deadline was " ++ (decimal ms ++ lit "ms)"))

unfoldable pub is_transient : Text → Bool
is_transient message =
    mentions (lit "chat stream connection timed out after") message
    || mentions (lit "invalid UTF-8 byte") message

-- The checkpoint file after the events of a run.
unfoldable pub written : Option Checkpoint → List Event → Option Checkpoint
written disk [] = disk
written disk (wrote c ∷ es) = written (some c) es
written disk (asked r d ∷ es) = written disk es

-- The notes go behind the content of the first message, where it has one.
unfoldable pub with_notes : Text → List ChatMessage → List ChatMessage
with_notes notes [] = []
with_notes notes (m ∷ ms) = if is_empty notes then m ∷ ms else elim m.content [
  | none ↦ m ∷ ms
  | some t ↦
      record m { content = some (t ++ (lit "\n\n" ++ (notes_header ++ (lit "\n" ++ notes)))) } ∷ ms
]

unfoldable pub sizes_of : Thresholds → Fraction → ℕ → Sizes
sizes_of th most overhead =
    post_compaction_budget
      (target_of th.context_window_tokens th.auto_trigger_ratio th.post_compaction_target_ratio)
      overhead th.context_window_tokens th.summary_max_tokens most

unfoldable pub options_of : Thresholds → Sizes → Options
options_of th sizes = record {
  context_window_tokens = th.context_window_tokens;
  tail_budget_fraction = sizes.tail_budget_fraction;
  summary_max_tokens_cap = sizes.summary_max_tokens;
  summary_deadline_ms = th.summary_deadline_ms;
}

pub data Tried : Type 0 where
  tried_ok : LoopState → Tried
  tried_error : Text → LoopState → Tried

-- An estimate that throws leaves the previous baseline.
abbrev pub baseline : Option ℕ → Option ℕ → Option ℕ
baseline none last = last
baseline (some n) last = some n

-- After the request: the error leaves the conversation alone.
unfoldable pub take_outcome : Option ℕ → Outcome → LoopState → Tried
take_outcome used_after (threw message deadline) s = tried_error (error_text message deadline) s
take_outcome used_after (compacted r) s = tried_ok (record s {
  messages = with_notes s.notes r.messages;
  last_compaction_used = baseline used_after s.last_compaction_used;
  progress = on_compaction s.progress;
})

unfoldable pub try_compact :
    Thresholds → Reason → Option PendingCall → Fraction → Attempt → LoopState → Tried
try_compact th reason pending most a s =
    let sizes = sizes_of th most a.overhead in
    let run =
      run_compaction a.chat s.messages (checkpoint_of reason pending a.timestamp s)
        (options_of th sizes) in
    take_outcome a.used_after run.outcome (record s {
      warned_window_too_small = sizes.warns || s.warned_window_too_small;
      disk = written s.disk run.events;
    })

abbrev pub max_compaction_retries : ℕ
max_compaction_retries = 3

pub data Ending : Type 0 where
  complete : Ending
  gave_up : Text → Ending

pub record Compaction : Type 0 where
  pub state : LoopState
  pub ending : Ending
  pub requests : ℕ

unfoldable pub after_last : ℕ → Tried → Compaction
after_last n (tried_ok s) = record { state = s; ending = complete; requests = n }
after_last n (tried_error e s) = record { state = s; ending = gave_up e; requests = n }

unfoldable pub after_try : (LoopState → Compaction) → ℕ → Tried → Compaction
after_try retry n (tried_ok s) = after_last n (tried_ok s)
after_try retry n (tried_error e s) =
    if is_transient e then retry s else after_last n (tried_error e s)

-- The first number counts the retries left, the second the requests before this one.
unfoldable pub compact_from : (LoopState → ℕ → Tried) → ℕ → ℕ → LoopState → Compaction
compact_from try zero n s = after_last (suc n) (try s n)
compact_from try (suc left) n s = after_try (compact_from try left (suc n)) (suc n) (try s n)

unfoldable pub compact :
    Thresholds → Reason → Option PendingCall → Fraction → (ℕ → Attempt) → LoopState → Compaction
compact th reason pending most attempts s =
    compact_from (λ s' n. try_compact th reason pending most (attempts n) s') max_compaction_retries
      0 s

pub record MaybeCompacted : Type 0 where
  pub state : LoopState
  pub compacts : Bool

-- `compacts` tells that a compaction ran, also where it failed.
unfoldable pub maybe_compact_loop :
    Thresholds → Option PendingCall → ℕ → (ℕ → Attempt) → LoopState → MaybeCompacted
maybe_compact_loop th pending used attempts s =
    if maybe_compact s.last_compaction_used used th.context_window_tokens th.auto_trigger_ratio
      th.min_growth_fraction
    then record {
      state = (compact th auto_threshold pending default_tail_budget_fraction attempts s).state;
      compacts = true;
    }
    else record { state = s; compacts = false }
