-- ===== src/Agent/CallWorld.antt =====
-- What the world answers round a tool call of `runUntilIdle`. The arguments of a call are JSON: what
-- the parser and the executor answer are fields here.
use llamacli.Prelude.{ℕ, List, [], Option, some, Bool, Text}
use llamacli.Compaction.Message.{ToolCall, tool}
use llamacli.Compaction.Checkpoint.{PlanStep}
use llamacli.Agent.Results.{LineRange}
use llamacli.Agent.State.{LoopState, push}
use llamacli.Agent.Compact.{Attempt}

-- What the arguments of a state tool hold: the steps, or the error where they are no list.
pub data Steps : Type 0 where
  steps_of : List PlanStep → Steps
  no_steps : Text → Steps

pub data StateArgs : Type 0 where
  parsed : Option Text → Steps → StateArgs
  bad_args : Text → StateArgs

pub data ToolOutcome : Type 0 where
  tool_threw : Text → ToolOutcome
  -- the content, and the line range of a partial read
  returned : Text → Option LineRange → ToolOutcome

pub record CallWorld : Type 0 where
  -- the time of an Esc before this call, none for no Esc
  pub cancels : Option Text
  pub now : ℕ
  pub used : ℕ
  pub attempts : ℕ → Attempt
  -- the answer of the approval gate, true where there is none
  pub allowed : Bool
  pub state_args : StateArgs
  pub clock : Text
  pub timestamp : Text
  pub plan_saved : Bool
  pub is_elided : Bool
  pub path : Option Text
  pub quoted_path : Text
  pub summary : Text
  pub elided_arguments : Text
  pub path_exists : Bool
  pub outcome : ToolOutcome
  -- the answers of `runPostEditCheck`, and the hash of `gitCheckpoint`
  pub check : Option Text
  pub commit : Option Text

unfoldable pub push_result : ToolCall → Text → LoopState → LoopState
unfolding push
push_result call content s =
    push
      (record { role = tool; content = some content; tool_calls = []; tool_call_id = some call.id })
      s

-- `applyStateTool`: the text for the model, and the state.
pub record StateResult : Type 0 where
  pub state : LoopState
  pub text : Text
