-- ===== src/Tests/Conversations.antt =====
-- Concrete conversations and their compaction.
use llamacli.Prelude.{
  ℕ, ◌<◌, ◌≡◌, ◌≢◌, ◌⊎◌, List, [], ◌∷◌, ◌++◌, Option, none, some, true, false, length, keep, drop,
  All, lit, arith,
}
use llamacli.Compaction.Message.{system, user, assistant, tool, ToolCall, ChatMessage, plain}
use llamacli.Compaction.Checkpoint.{Checkpoint, manual}
use llamacli.Compaction.Estimate.{Backend}
use llamacli.Compaction.Estimate.Remembered.{
  Count, counted, memo_after, IsMeasured, counted-IsMeasured,
}
use llamacli.Compaction.Tail.{Fraction, is_not_system, is_user, select_kept_tail, starts_with_user}
use llamacli.Compaction.Tail.Split.{select_kept_tail_splits}
use llamacli.Compaction.Tail.Aligned.{keep_tail-IsAligned}
use llamacli.Compaction.Sanitize.{
  sanitize_for_summary, IsPlain, NoRuns, sanitize_for_summary-IsPlain,
}
use llamacli.Compaction.Run.{Request, Reply, replied, Options, run_compaction}
use llamacli.Compaction.Run.Conversation.{
  IsSendable, IsSafe, Leaves, last_written, run_compaction-IsSendable, run_compaction-Leaves,
}

abbrev call : ToolCall
call = record { id = lit "1"; name = lit "read"; arguments = lit "{}" }

abbrev asks : ChatMessage
asks = record { role = assistant; content = none; tool_calls = call ∷ []; tool_call_id = none }

abbrev result : ChatMessage
result = record {
  role = tool;
  content = some (lit "text");
  tool_calls = [];
  tool_call_id = some (lit "1");
}

abbrev chat : List ChatMessage
chat = plain system (lit "base") ∷ plain user (lit "hi") ∷ asks ∷ result ∷ []

abbrev tenth : Fraction
tenth = record { num = 1; den = 10 }

chat_not_empty : keep is_not_system chat ≢ []
chat_not_empty e = ground arith

select_kept_tail_splits_example :
    ((select_kept_tail chat 40 tenth).to_summarize ++ (select_kept_tail chat 40 tenth).keep_tail
      ≡ keep is_not_system chat)
    × ((keep is_not_system chat ≡ []) ⊎ (0 < length (select_kept_tail chat 40 tenth).keep_tail))
select_kept_tail_splits_example = select_kept_tail_splits chat 40 tenth

keep_tail-IsAligned_example :
    (starts_with_user (select_kept_tail chat 40 tenth).keep_tail ≡ true)
    ⊎ ((select_kept_tail chat 40 tenth).to_summarize ≡ [])
    ⊎ All (λ m. is_user m ≡ false) (drop 1 (select_kept_tail chat 40 tenth).keep_tail)
keep_tail-IsAligned_example = keep_tail-IsAligned chat 40 tenth chat_not_empty

sanitize_for_summary-IsPlain_example :
    All IsPlain (sanitize_for_summary (asks ∷ result ∷ []))
    × NoRuns (sanitize_for_summary (asks ∷ result ∷ []))
sanitize_for_summary-IsPlain_example = sanitize_for_summary-IsPlain (asks ∷ result ∷ [])

abbrev counting : Backend
counting = record { id = 1; count_prompt_tokens = some (λ ms n. some (length ms)); tokenize = none }

abbrev count_of : List ChatMessage → Count
count_of ms = record { messages = ms; backend = counting; extra = []; tools = 0 }

counted-IsMeasured_example :
    IsMeasured
      (count_of chat ∷ count_of (asks ∷ []) ∷ [])
      (count_of chat)
      (counted (memo_after (count_of (asks ∷ []) ∷ [])) (count_of chat)).0
counted-IsMeasured_example = counted-IsMeasured (count_of (asks ∷ []) ∷ []) (count_of chat)

abbrev progress : Checkpoint
progress = record {
  timestamp = lit "t";
  reason = manual;
  goal = lit "g";
  steps = [];
  files = [];
  pending_tool_call = none;
  must_preserve = [];
  summary = none;
  recent_actions = [];
}

abbrev options : Options
options = record {
  context_window_tokens = 40;
  tail_budget_fraction = tenth;
  summary_max_tokens_cap = 0;
  summary_deadline_ms = 10;
}

abbrev answer : Request → Option ℕ → Reply
answer r d = replied (some (lit "All done. And")) true

run_compaction-IsSendable_example : IsSendable (run_compaction answer chat progress options).outcome
run_compaction-IsSendable_example = run_compaction-IsSendable answer chat progress options

run_compaction-Leaves_example :
    let run = run_compaction answer chat progress options in
    IsSafe false run.events × Leaves progress (last_written progress run.events) run.outcome
run_compaction-Leaves_example = run_compaction-Leaves answer chat progress progress options
