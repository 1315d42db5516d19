-- ===== src/Compaction/Run.antt =====
-- `runCompaction`: the checkpoint, the summary request and the compacted conversation. The backend is
-- an argument: a request and a deadline give a reply or an error. The clock is the argument `timestamp`.
pub mod Prompt
pub mod Conversation
pub mod Batch
use llamacli.Prelude.{
  ℕ, suc, ◌+◌, ◌-◌, ◌*◌, ◌/◌, max, min, List, [], ◌∷◌, ◌++◌, Option, none, some, Bool, true, false,
  ◌&&◌, not, ◌⊎◌, inl, inr, length, take, ltb, leb, any, find, map, if◌then◌else◌, Text, lit,
  is_empty, or_else,
}
use mathlib.Core.List.{reverse}
use llamacli.Compaction.Message.{
  Role, system, user, assistant, tool, role_eq, ChatMessage, plain, join, text_of, message_text,
}
use llamacli.Compaction.Checkpoint.{Checkpoint}
use llamacli.Compaction.Thresholds.{default_summary_max_tokens}
use llamacli.Compaction.Tail.{
  Fraction, Kept, select_kept_tail, sum_tokens, is_user, starts_with_user,
}
use llamacli.Compaction.Sanitize.{sanitize_for_summary}
use llamacli.Compaction.SystemText.{trim, is_space, compose_system_message}
use llamacli.Compaction.Trim.{trim_partial_summary}
use llamacli.Compaction.Repair.{
  is_tool, owner_from, starts_with_tool, drop_tools, with_owner, continue_after_compaction,
  with_user, repair_tail,
}

-- The fields of the summary request that the run decides.
pub record Request : Type 0 where
  pub messages : List ChatMessage
  pub max_tokens : ℕ

pub data Reply : Type 0 where
  failed : Text → Reply
  -- the content of the first choice, and `deadlineHit`
  replied : Option Text → Bool → Reply

-- The cap of the window, and of the caller; 0 is no cap.
unfoldable pub window_cap : ℕ → ℕ → ℕ
window_cap window cap =
    let default = max 256 (min default_summary_max_tokens (window / 4)) in
    if ltb 0 cap then max 128 (min default cap) else default

-- And of the input: `Math.ceil(tokens * 0.35)`.
unfoldable pub summary_max_tokens : ℕ → ℕ → ℕ → ℕ
summary_max_tokens window cap input =
    max 128 (min (window_cap window cap) ((35 * input + 99) / 100))

-- The oldest messages leave until the rest fits; one stays.
unfoldable pub drop_oldest : ℕ → List ChatMessage → List ChatMessage
drop_oldest budget [] = []
drop_oldest budget (m ∷ []) = m ∷ []
drop_oldest budget (m ∷ n ∷ ms) =
    let rest = drop_oldest budget (n ∷ ms) in
    if ltb budget (sum_tokens (m ∷ n ∷ ms)) then rest else m ∷ n ∷ ms

unfoldable pub input_budget : ℕ → ℕ → ℕ
input_budget window max_tokens = max 256 (window - max_tokens - 512)

abbrev pub has_language : ChatMessage → Bool
has_language m = is_user m && not (is_empty (trim (text_of m.content)))

unfoldable pub must_preserve_clause : List Text → Text
must_preserve_clause [] = lit "."
must_preserve_clause (f ∷ fs) =
    lit " and the following must-preserve facts:\n" ++ join (lit "\n") (f ∷ fs)

unfoldable pub summary_instruction : List Text → Bool → Text
summary_instruction facts language =
    lit
      "Summarize the conversation above for context compaction. Preserve verbatim any user-stated constraints, decisions"
    ++ (must_preserve_clause facts
        ++ (lit "\n\nWrite the summary in the same language the conversation above is written in"
            ++ ((if language
                  then []
                  else lit ", or in your own output language if the conversation has none")
                ++ (lit ". Keep any quoted user text in its original language."
                    ++ lit
                        "\n\nNow write the summary of the conversation above. Output only the summary."))))

abbrev is_system : ChatMessage → Bool
is_system m = role_eq m.role system

-- The text of the first system message.
unfoldable pub system_text : List ChatMessage → Text
system_text ms = elim (find is_system ms) [ none ↦ [] | some m ↦ text_of m.content ]

unfoldable pub summary_request : List ChatMessage → List ChatMessage → List Text → ℕ → ℕ → Request
summary_request messages to_summarize facts window cap =
    let input = sanitize_for_summary to_summarize in
    let max_tokens = summary_max_tokens window cap (sum_tokens input) in
    record {
      messages =
          plain system (system_text messages)
          ∷ (drop_oldest (input_budget window max_tokens) input
              ++ (plain user (summary_instruction facts (any has_language to_summarize)) ∷ []));
      max_tokens = max_tokens;
    }

unfoldable pub or_text : Text → Text → Text
or_text a b = if is_empty a then b else a

unfoldable pub summary_text : Text → Bool → Text
summary_text raw deadline_hit =
    if deadline_hit
    then or_text (trim_partial_summary raw) raw
    else or_text raw (lit "(summary unavailable)")

-- `text.replace(/\s+/g, " ")`; `within` tells that the last code unit was white space.
unfoldable pub collapse_spaces : Bool → Text → Text
collapse_spaces within [] = []
collapse_spaces within (c ∷ s) =
    let inside = collapse_spaces true s in
    let outside = collapse_spaces false s in
    if is_space c then (if within then inside else 32 ∷ inside) else c ∷ outside

abbrev pub role_text : Role → Text
role_text system = lit "system"
role_text user = lit "user"
role_text assistant = lit "assistant"
role_text tool = lit "tool"

unfoldable pub preview_line : ChatMessage → Text
preview_line m =
    let text = collapse_spaces false (trim (message_text m)) in
    let snippet =
      if ltb 70 (length text) then take 70 text ++ lit "…" else or_text text (lit "(empty)") in
    lit "[" ++ (role_text m.role ++ (lit "] " ++ snippet))

abbrev pub detail_preview_cap : ℕ
detail_preview_cap = 8

pub record Detail : Type 0 where
  pub dropped_count : ℕ
  pub dropped_tokens : ℕ
  pub dropped_preview : List Text
  -- the number of the line `…and N more`, 0 where there is none
  pub not_shown : ℕ
  pub kept_count : ℕ
  pub kept_tokens : ℕ
  pub summary : Text
  pub deadline_truncated : Bool

unfoldable pub detail_of : List ChatMessage → List ChatMessage → Text → Bool → Detail
detail_of to_summarize tail summary hit = record {
  dropped_count = length to_summarize;
  dropped_tokens = sum_tokens to_summarize;
  dropped_preview = map preview_line (take detail_preview_cap to_summarize);
  not_shown = length to_summarize - detail_preview_cap;
  kept_count = length tail;
  kept_tokens = sum_tokens tail;
  summary = summary;
  deadline_truncated = hit;
}

pub record Compacted : Type 0 where
  pub messages : List ChatMessage
  pub checkpoint : Checkpoint
  pub detail : Detail

-- The error keeps the deadline it names in its message.
pub data Outcome : Type 0 where
  threw : Text → Option ℕ → Outcome
  compacted : Compacted → Outcome

-- What a run does to the world, in order.
pub data Event : Type 0 where
  wrote : Checkpoint → Event
  asked : Request → Option ℕ → Event

pub record Run : Type 0 where
  pub events : List Event
  pub outcome : Outcome

-- A deadline of 0 is none.
unfoldable pub deadline_of : ℕ → Option ℕ
deadline_of ms = if ltb 0 ms then some ms else none

-- The checkpoint with its summary, where that is not empty.
unfoldable pub final_checkpoint : Checkpoint → Text → Checkpoint
final_checkpoint c summary = if is_empty summary then c else record c { summary = some summary }

unfoldable pub final_events : Checkpoint → Text → List Event
final_events c summary = if is_empty summary then [] else wrote (final_checkpoint c summary) ∷ []

unfoldable pub compacted_of : List ChatMessage → Checkpoint → Kept → Text → Bool → Compacted
compacted_of messages c kept summary hit =
    let tail = repair_tail kept.to_summarize kept.keep_tail in
    record {
      messages = plain system (compose_system_message (system_text messages) summary) ∷ tail;
      checkpoint = final_checkpoint c summary;
      detail = detail_of kept.to_summarize tail summary hit;
    }

pub record Options : Type 0 where
  pub context_window_tokens : ℕ
  pub tail_budget_fraction : Fraction
  pub summary_max_tokens_cap : ℕ
  pub summary_deadline_ms : ℕ

-- What follows the backend's answer.
unfoldable pub after_reply : List ChatMessage → Checkpoint → Kept → Request → Option ℕ → Reply → Run
after_reply messages c kept request deadline (failed message) = record {
  events = wrote c ∷ asked request deadline ∷ [];
  outcome = threw message deadline;
}
after_reply messages c kept request deadline (replied content hit) =
    let summary = summary_text (text_of content) hit in
    record {
      events = wrote c ∷ asked request deadline ∷ final_events c summary;
      outcome = compacted (compacted_of messages c kept summary hit);
    }

unfoldable pub run_compaction :
    (Request → Option ℕ → Reply) → List ChatMessage → Checkpoint → Options → Run
run_compaction chat messages c o =
    let kept = select_kept_tail messages o.context_window_tokens o.tail_budget_fraction in
    let request =
      summary_request messages kept.to_summarize c.must_preserve o.context_window_tokens
        o.summary_max_tokens_cap in
    let deadline = deadline_of o.summary_deadline_ms in
    after_reply messages c kept request deadline (chat request deadline)
