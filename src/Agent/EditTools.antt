-- ===== src/Agent/EditTools.antt =====
-- The run of an ordinary tool in `runUntilIdle`: the caps, the record, the check after an edit, the git
-- checkpoint, and the arguments that leave the history.
use llamacli.Prelude.{
  ℕ, or_else, zero, suc, ◌-◌, ◌%◌, List, [], ◌∷◌, ◌++◌, Option, none, some, Bool, false, leb,
  is_some, if◌then◌else◌, Text, lit, text_eq, is_empty, contains,
}
use llamacli.Compaction.Message.{ToolCall, ChatMessage}
use llamacli.Compaction.SystemText.{index_of}
use llamacli.Agent.Results.{decimal, LineRange, cap_tool_result, cap_read_file_result}
use llamacli.Agent.Progress.{mark_progress}
use llamacli.Agent.Record.{push_executed_tool_log, record_file_touch}
use llamacli.Agent.State.{LoopState}
use llamacli.Agent.CallWorld.{
  ToolOutcome, tool_threw, returned, CallWorld, StateResult, push_result,
}

abbrev pub edit_tools : List Text
edit_tools = lit "write_file" ∷ lit "append_file" ∷ lit "edit_file" ∷ []

abbrev pub file_content_tools : List Text
file_content_tools = lit "write_file" ∷ lit "append_file" ∷ []

-- The place of the assistant message, and of the call in it, whose arguments are replaced.
unfoldable pub set_call : ℕ → Text → List ToolCall → List ToolCall
set_call k arguments [] = []
set_call zero arguments (c ∷ cs) = record c { arguments = arguments } ∷ cs
set_call (suc k) arguments (c ∷ cs) = c ∷ set_call k arguments cs

unfoldable pub elide_at : ℕ → ℕ → Text → List ChatMessage → List ChatMessage
elide_at at k arguments [] = []
elide_at zero k arguments (m ∷ ms) =
    record m { tool_calls = set_call k arguments m.tool_calls } ∷ ms
elide_at (suc at) k arguments (m ∷ ms) = m ∷ elide_at at k arguments ms

unfoldable pub fails_of : Text → List (Text × ℕ) → ℕ
fails_of path [] = 0
fails_of path ((p, n) ∷ ps) = let rest = fails_of path ps in if text_eq p path then n else rest

unfoldable pub set_fails : Text → ℕ → List (Text × ℕ) → List (Text × ℕ)
set_fails path n [] = (path, n) ∷ []
set_fails path n ((p, m) ∷ ps) =
    let rest = set_fails path n ps in if text_eq p path then (p, n) ∷ ps else (p, m) ∷ rest

unfoldable pub clear_fails : Text → List (Text × ℕ) → List (Text × ℕ)
clear_fails path [] = []
clear_fails path ((p, m) ∷ ps) =
    let rest = clear_fails path ps in if text_eq p path then rest else (p, m) ∷ rest

abbrev pub suffixes : ℕ → Option Text
suffixes zero = some (lit "th")
suffixes (suc zero) = some (lit "st")
suffixes (suc (suc zero)) = some (lit "nd")
suffixes (suc (suc (suc zero))) = some (lit "rd")
suffixes _ = none

-- A negative index has no suffix.
unfoldable pub ordinal : ℕ → Text
ordinal n =
    let v = n % 100 in
    let tens = if leb 20 v then suffixes ((v - 20) % 10) else none in
    decimal n ++ or_else tens (or_else (suffixes v) (lit "th"))

abbrev pub reflect_retry_escalate_at : ℕ
reflect_retry_escalate_at = 3

unfoldable pub reflect_text : ℕ → Text
reflect_text fails =
    if leb reflect_retry_escalate_at fails
    then lit "\n\n[reflect] This is the "
      ++ (ordinal fails
          ++ lit
              " consecutive failed check on this exact file — repeating the same edit will not help. Stop, re-read the actual error above line by line, and change your approach before touching this file again.")
    else []

unfoldable pub edit_path : ToolCall → CallWorld → Option Text
edit_path call w = if contains edit_tools call.name then w.path else none

unfoldable pub check_failed : Option Text → Bool
check_failed none = false
check_failed (some t) = is_some (index_of (lit "FAILED") t)

unfoldable pub check_part : Option Text → Text
check_part none = []
check_part (some t) = if is_empty t then [] else lit "\n\n" ++ t

unfoldable pub commit_part : Option Text → Text
commit_part none = []
commit_part (some hash) =
    lit "\n\n[checkpoint] committed as " ++ (hash ++ lit " — revertable with git revert/reset.")

-- After an edit: the check, the count of failures in a row, and the git checkpoint. `commit` is none
-- where checkpoints are off or nothing was committed.
unfoldable pub after_edit : Text → CallWorld → Text → LoopState → StateResult
after_edit path w content s =
    let fails = suc (fails_of path s.check_failures) in
    if check_failed w.check
    then record {
      state = record s { check_failures = set_fails path fails s.check_failures };
      text = content ++ (check_part w.check ++ reflect_text fails);
    }
    else record {
      state = record s {
        progress = if w.path_exists then mark_progress w.now s.progress else s.progress;
        check_failures = clear_fails path s.check_failures;
      };
      text = content ++ (check_part w.check ++ commit_part w.commit);
    }

unfoldable pub after_success : Option Text → CallWorld → Text → LoopState → StateResult
after_success none w content s = record { state = s; text = content }
after_success (some path) w content s = after_edit path w content s

unfoldable pub capped : Text → Option LineRange → CallWorld → ℕ → Text
capped content none w window = cap_tool_result content window
capped content (some range) w window = cap_read_file_result content range w.quoted_path window

unfoldable pub recorded : ToolCall → CallWorld → LoopState → LoopState
recorded call w s = record s {
  files_touched = record_file_touch call.name w.path s.files_touched;
  executed_tool_log =
      push_executed_tool_log (call.name ++ (lit "(" ++ (w.summary ++ lit ")"))) s.executed_tool_log;
}

unfoldable pub elided : ℕ → ℕ → ToolCall → CallWorld → LoopState → LoopState
elided at k call w s =
    if contains file_content_tools call.name
    then record s { messages = elide_at at k w.elided_arguments s.messages }
    else s

-- `executeTool` and what follows it, up to the pushed result.
unfoldable pub run_tool : ℕ → ℕ → ℕ → ToolCall → CallWorld → ToolOutcome → LoopState → LoopState
run_tool window at k call w (tool_threw e) s =
    push_result call (cap_tool_result (lit "ERROR: " ++ e) window) s
run_tool window at k call w (returned content range) s =
    let r =
      after_success (edit_path call w) w (capped content range w window) (recorded call w s) in
    push_result call r.text (elided at k call w r.state)
