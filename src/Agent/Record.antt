-- ===== src/Agent/Record.antt =====
-- What the agent loop records of its work (src/agent/loop.ts): the log of executed tools, the files
-- touched, and the parts of a checkpoint made of them. The arguments of a tool call are JSON; what the
-- JSON parser finds there is an argument here.
pub mod Kept
use llamacli.Prelude.{
  ℕ, ◌+◌, ◌-◌, List, [], ◌∷◌, ◌++◌, Option, none, some, Bool, true, false, ◌&&◌, length, drop, take,
  take_last, any, ltb, if◌then◌else◌, Text, lit, text_eq, is_empty,
}
use llamacli.Compaction.Checkpoint.{
  FileStatus, modified, read, FileEntry, PlanStep, StepStatus, done, in_progress, todo,
}

abbrev pub max_executed_tool_log : ℕ
max_executed_tool_log = 200

unfoldable pub push_executed_tool_log : Text → List Text → List Text
push_executed_tool_log description log =
    let pushed : List Text = log ++ (description ∷ []) in
    if ltb max_executed_tool_log (length pushed)
    then drop (length pushed - max_executed_tool_log) pushed
    else pushed

-- `FILE_TOOLS`
unfoldable pub file_tool_status : Text → Option FileStatus
file_tool_status name =
    if text_eq name (lit "read_file")
    then some read
    else if text_eq name (lit "write_file")
    then some modified
    else if text_eq name (lit "append_file")
    then some modified
    else if text_eq name (lit "edit_file")
    then some modified
    else none

-- `filesTouched`, a Map in the order of insertion.
unfoldable pub touched_status : Text → List FileEntry → Option FileStatus
touched_status path [] = none
touched_status path (f ∷ fs) =
    let rest = touched_status path fs in if text_eq f.path path then some f.status else rest

unfoldable pub set_status : Text → FileStatus → List FileEntry → List FileEntry
set_status path status [] = record { path = path; status = status } ∷ []
set_status path status (f ∷ fs) =
    let rest = set_status path status fs in
    if text_eq f.path path then record f { status = status } ∷ fs else f ∷ rest

abbrev pub is_modified : Option FileStatus → Bool
is_modified (some modified) = true
is_modified _ = false

abbrev pub is_read : FileStatus → Bool
is_read read = true
is_read modified = false

-- `path` is the `path` of the parsed arguments, none where they do not parse or have none.
unfoldable pub touch : Option FileStatus → Option Text → List FileEntry → List FileEntry
touch none path files = files
touch (some status) none files = files
touch (some status) (some path) files =
    if is_empty path
    then files
    else if is_read status && is_modified (touched_status path files)
    then files
    else set_status path status files

unfoldable pub record_file_touch : Text → Option Text → List FileEntry → List FileEntry
record_file_touch tool_name path files = touch (file_tool_status tool_name) path files

-- The last fifteen tool calls, where no plan was declared.
unfoldable pub recent_actions : List PlanStep → List Text → List Text
recent_actions [] log = take_last 15 log
recent_actions (s ∷ steps) log = []

abbrev pub is_done : PlanStep → Bool
is_done s = elim s.status [ done ↦ true | in_progress ↦ false | todo ↦ false ]

unfoldable pub done_count : List PlanStep → ℕ
done_count [] = 0
done_count (s ∷ ss) = (if is_done s then 1 else 0) + done_count ss
