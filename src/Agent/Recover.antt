-- ===== src/Agent/Recover.antt =====
-- A failed request of a turn: the `catch` of `runUntilIdle`, with its four bounded kinds of retry.
pub mod Salvaged
use llamacli.Prelude.{
  ℕ, suc, ◌+◌, ◌-◌, ◌*◌, ◌/◌, max, List, [], ◌∷◌, ◌++◌, Option, none, some, Bool, true, false, ◌&&◌,
  ◌||◌, length, take, ltb, leb, if◌then◌else◌, Text, lit, text_eq,
}
use llamacli.Prelude.Int.{pos_part}
use llamacli.Hermes.{StopReason}
use llamacli.Compaction.Checkpoint.{auto_threshold, manual}
use llamacli.Compaction.Tail.{Fraction, default_tail_budget_fraction}
use llamacli.Agent.Results.{decimal}
use llamacli.Agent.Budget.{compute_max_tokens, max_fraction}
use llamacli.Agent.State.{LoopState, Thresholds, push_user, checkpoint_of, mentions}
use llamacli.Agent.Compact.{Attempt, compact}
use llamacli.Agent.Failures.{
  SalvagedFileWrite, FileWrite, TurnVars, new_turn, TurnEnding, finished, stopped_no_progress,
  cancelled, no_longer_fits, interrupted, unreachable, stopped_repeating, stopped_breaker, Next,
  again, ends, ChatError, ErrorWorld, TurnOptions, max_overflow_retries, max_truncation_retries,
  max_timeout_retries, max_utf8_retries, halve, min_tail_budget_fraction, min_shrink_factor,
  exceeds,
}

unfoldable pub is_overflow : Text → Bool
is_overflow message =
    mentions (lit "exceeds the available context size") message
    || mentions (lit "exceed_context_size_error") message

unfoldable pub is_truncation : Text → Bool
is_truncation message = mentions (lit "Failed to parse tool call arguments as JSON") message

unfoldable pub is_connect_timeout : Text → Bool
is_connect_timeout message = mentions (lit "chat stream connection timed out after") message

unfoldable pub is_utf8_split : Text → Bool
is_utf8_split message = mentions (lit "invalid UTF-8 byte") message

unfoldable pub summarize_error_for_display : Text → ℕ → Text
summarize_error_for_display message max_len =
    if leb (length message) max_len
    then message
    else take max_len message
      ++ (lit "... [" ++ (decimal (length message - max_len) ++ lit " more characters truncated]"))

-- A compaction is forced; where it does not shrink the conversation the kept tail gets smaller.
unfoldable pub on_overflow : TurnOptions → ErrorWorld → TurnVars → LoopState → Next
on_overflow o w v s =
    let s' = (compact o.thresholds auto_threshold none v.tail_budget_fraction w.attempts s).state in
    let v' = record v { overflow_retries = suc v.overflow_retries } in
    if leb w.before w.after
    then (if exceeds v.tail_budget_fraction min_tail_budget_fraction
        then again
            (record v' {
              tail_budget_fraction =
                  max_fraction min_tail_budget_fraction (halve v.tail_budget_fraction);
            })
            s'
        else ends no_longer_fits s')
    else again v' s'

-- `Math.max(512, Math.floor(computeMaxTokens(used) * factor))`
unfoldable pub request_max_tokens : TurnOptions → Fraction → ℕ → ℕ
request_max_tokens o f used = max 512 (
    pos_part (compute_max_tokens o.thresholds.context_window_tokens o.enable_thinking used)
    * f.num
    / f.den)

unfoldable pub chars_of : Text → List (Text × ℕ) → ℕ
chars_of path [] = 0
chars_of path ((p, n) ∷ ps) = let rest = chars_of path ps in if text_eq p path then n else rest

unfoldable pub set_chars : Text → ℕ → List (Text × ℕ) → List (Text × ℕ)
set_chars path n [] = (path, n) ∷ []
set_chars path n ((p, m) ∷ ps) =
    let rest = set_chars path n ps in if text_eq p path then (p, n) ∷ ps else (p, m) ∷ rest

unfoldable pub continue_text : SalvagedFileWrite → ℕ → Text
continue_text f total =
    lit "Your last tool call writing "
    ++ (f.path
        ++ (lit " was cut off before finishing, but the "
            ++ (decimal (length f.partial_content)
                ++ (lit
                      " characters it did generate were NOT lost — they've already been saved to the file ("
                    ++ (decimal total
                        ++ (lit
                              " characters on disk so far). Do not repeat any of that content and do not use write_file again for this path. Continue by calling append_file with path=\""
                            ++ (f.path
                                ++ lit
                                    "\" and content equal to ONLY what comes next, picking up exactly where the saved content leaves off, until the file is complete.")))))))

-- The prefix that was generated is written, and the model is asked for the rest.
unfoldable pub save_prefix : SalvagedFileWrite → TurnVars → LoopState → Next
save_prefix f v s =
    let already = chars_of f.path v.salvaged_chars in
    let total = already + length f.partial_content in
    again
      (record v {
        salvaged_chars = set_chars f.path total v.salvaged_chars;
        writes = v.writes ++ (record { appends = ltb 0 already; file = f } ∷ []);
      })
      (push_user (continue_text f total) s)

unfoldable pub chunk_text : Bool → ℕ → Text
chunk_text true budget =
    lit
      "STOP. You just tried to write the exact same content again and it was cut off at the exact same point — you did NOT shorten it. This is a hard limit, not a suggestion: your next reply can physically generate at most "
    ++ (decimal budget
        ++ (lit
              " characters of tool-call content before being cut off. Call write_file with ONLY the first part of the file (well under "
            ++ (decimal budget
                ++ lit
                    " characters) and STOP THERE — do not try to include the rest. You will be prompted to continue with append_file afterward.")))
chunk_text false budget =
    lit
      "Your last tool call's arguments were cut off before finishing (too long for the reply budget) and could not be parsed — nothing was written. Do not retry the same call. Instead, write this content in fixed-size chunks of no more than "
    ++ (decimal budget
        ++ (lit
              " characters each: call write_file once with the FIRST chunk (this creates/overwrites the file), then call append_file once per remaining chunk, in order, until the full content has been written. Each individual call's content argument must stay under the "
            ++ (decimal budget ++ lit "-character limit.")))

abbrev pub repeats_message : Option Text → Text → Bool
repeats_message none message = false
repeats_message (some last) message = text_eq message last

unfoldable pub shrink_after : Bool → Fraction → Fraction
shrink_after repeats f =
    if repeats then max_fraction min_shrink_factor (halve f) else record { num = 1; den = 1 }

-- `Math.floor(tokens * 4 * 0.5)`
unfoldable pub chunk_budget : ℕ → ℕ
chunk_budget tokens = tokens * 4 / 2

unfoldable pub ask_for_chunks : TurnOptions → Text → ℕ → TurnVars → LoopState → Next
ask_for_chunks o message used v s =
    let repeats = repeats_message v.last_truncation_message message in
    let factor = shrink_after repeats v.shrink_factor in
    again (record v { last_truncation_message = some message; shrink_factor = factor })
      (push_user (chunk_text repeats (chunk_budget (request_max_tokens o factor used))) s)

unfoldable pub on_truncation :
    TurnOptions → Text → Option SalvagedFileWrite → Bool → ℕ → TurnVars → LoopState → Next
on_truncation o message none write_ok used v s = ask_for_chunks o message used v s
on_truncation o message (some f) true used v s = save_prefix f v s
on_truncation o message (some f) false used v s = ask_for_chunks o message used v s

-- The errors in the order in which the source tests them.
unfoldable pub on_chat_error :
    TurnOptions → ErrorWorld → ChatError → ℕ → TurnVars → LoopState → Next
on_chat_error o w e used v s =
    if s.cancel_requested
    then ends cancelled (record s { cancel_requested = false })
    else if ltb v.overflow_retries max_overflow_retries && is_overflow e.message
    then on_overflow o w v s
    else if ltb v.truncation_retries max_truncation_retries && is_truncation e.message
    then on_truncation o e.message e.salvaged w.write_ok used
        (record v { truncation_retries = suc v.truncation_retries }) s
    else if ltb v.timeout_retries max_timeout_retries && is_connect_timeout e.message
    then again (record v { timeout_retries = suc v.timeout_retries }) s
    else if ltb v.utf8_retries max_utf8_retries && is_utf8_split e.message
    then again (record v { utf8_retries = suc v.utf8_retries }) s
    else ends (unreachable (summarize_error_for_display e.message 300)) s

-- Esc: the work is saved first, then the flag is what the turn notices.
unfoldable pub cancel_current_turn : Text → LoopState → LoopState
cancel_current_turn timestamp s = record s {
  cancel_requested = true;
  disk = some (checkpoint_of manual none timestamp s);
}
