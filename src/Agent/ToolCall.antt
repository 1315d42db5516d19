-- ===== src/Agent/ToolCall.antt =====
-- One tool call of a batch, behind the checks of the loop: the gates in front of it (`runUntilIdle`).
pub mod Approved
use llamacli.Prelude.{ℕ, List, [], ◌∷◌, ◌++◌, Bool, ◌&&◌, not, if◌then◌else◌, Text, lit, contains}
use llamacli.Compaction.Message.{ToolCall}
use llamacli.Compaction.Checkpoint.{PendingCall}
use llamacli.Agent.State.{LoopState}
use llamacli.Agent.CallWorld.{CallWorld, push_result}
use llamacli.Agent.StateTools.{apply_state_tool}
use llamacli.Agent.EditTools.{file_content_tools, run_tool}

abbrev pub auto_approve_tools : List Text
auto_approve_tools = lit "read_file" ∷ lit "note" ∷ lit "update_plan" ∷ lit "load_skill" ∷ []

-- Whether the user is asked: `decideToolApproval(name, alwaysAllowed) === "ask"`.
unfoldable pub asks : Text → List Text → Bool
asks name always_allowed =
    not (contains auto_approve_tools name) && not (contains always_allowed name)

abbrev pub agent_state_tools : List Text
agent_state_tools = lit "update_plan" ∷ lit "note" ∷ []

unfoldable pub denied_text : ToolCall → Text
denied_text call =
    lit "ERROR: refused — the user denied this tool call ("
    ++ (call.name
        ++ lit
            "). Do not retry the same call; either do the step another way or explain what you need.")

unfoldable pub elided_text : Text
elided_text =
    lit
      "ERROR: refused — the content argument is the placeholder that replaces an earlier write's content in this conversation, not real file content. Writing it would destroy the file. Call read_file on the path to see its current content, then write the actual content you intend."

-- The gates in front of a call, in the order of the source: approval, state tools, the placeholder.
unfoldable pub dispatch : ℕ → ℕ → ℕ → ToolCall → CallWorld → LoopState → LoopState
dispatch window at k call w s =
    let result = apply_state_tool call.name w w.state_args s in
    if not (contains agent_state_tools call.name) && asks call.name [] && not w.allowed
    then push_result call (denied_text call) s
    else if contains agent_state_tools call.name
    then push_result call result.text result.state
    else if contains file_content_tools call.name && w.is_elided
    then push_result call elided_text s
    else run_tool window at k call w w.outcome s

unfoldable pub pending_of : ToolCall → PendingCall
pending_of call = record {
  name = call.name;
  arguments_json = call.arguments;
  reason = lit "compaction threshold hit before this call could run";
}
