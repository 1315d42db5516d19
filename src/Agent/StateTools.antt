-- ===== src/Agent/StateTools.antt =====
-- `applyStateTool`: the tools note and update_plan.
use llamacli.Prelude.{
  List, [], ◌++◌, Option, none, some, ltb, length, if◌then◌else◌, Text, lit, text_eq, is_empty,
}
use llamacli.Compaction.Checkpoint.{Checkpoint, plan_progress, PlanStep}
use llamacli.Compaction.Notes.{append_note}
use llamacli.Compaction.SystemText.{trim}
use llamacli.Agent.Results.{decimal}
use llamacli.Agent.Progress.{mark_progress}
use llamacli.Agent.Record.{done_count}
use llamacli.Agent.State.{LoopState, checkpoint_of}
use llamacli.Agent.CallWorld.{
  StateArgs, parsed, bad_args, steps_of, no_steps, CallWorld, StateResult,
}

unfoldable pub take_note : Text → Option Text → LoopState → StateResult
take_note clock none s = record { state = s; text = lit "ERROR: note needs a non-empty `text`" }
take_note clock (some t) s =
    if is_empty (trim t)
    then record { state = s; text = lit "ERROR: note needs a non-empty `text`" }
    else record {
      state = record s { notes = append_note clock t s.notes };
      text = lit "noted (kept across compaction)";
    }

unfoldable pub plan_checkpoint : Text → List PlanStep → LoopState → Checkpoint
plan_checkpoint timestamp steps s = record (checkpoint_of plan_progress none timestamp s) {
  steps = steps;
  recent_actions = [];
}

unfoldable pub update_plan : CallWorld → List PlanStep → LoopState → StateResult
update_plan w steps s = record {
  state = record s {
    progress =
        if ltb (done_count s.plan) (done_count steps)
        then mark_progress w.now s.progress
        else s.progress;
    plan = steps;
    disk = if w.plan_saved then some (plan_checkpoint w.timestamp steps s) else s.disk;
  };
  text = lit "plan updated (" ++ (decimal (length steps) ++ lit " steps)");
}

unfoldable pub bad_state_args : Text → Text → LoopState → StateResult
bad_state_args name e s = record {
  state = s;
  text = lit "ERROR: invalid " ++ (name ++ (lit " arguments: " ++ e));
}

unfoldable pub apply_note : CallWorld → StateArgs → LoopState → StateResult
apply_note w (parsed text steps) s = take_note w.clock text s
apply_note w (bad_args e) s = bad_state_args (lit "note") e s

unfoldable pub apply_update_plan : CallWorld → StateArgs → LoopState → StateResult
apply_update_plan w (parsed text (steps_of steps)) s = update_plan w steps s
apply_update_plan w (parsed text (no_steps e)) s = bad_state_args (lit "update_plan") e s
apply_update_plan w (bad_args e) s = bad_state_args (lit "update_plan") e s

unfoldable pub apply_state_tool : Text → CallWorld → StateArgs → LoopState → StateResult
apply_state_tool name w args s =
    if text_eq name (lit "note")
    then apply_note w args s
    else if text_eq name (lit "update_plan")
    then apply_update_plan w args s
    else record { state = s; text = lit "ERROR: unhandled state tool " ++ name }
