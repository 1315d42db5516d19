-- ===== src/Agent/ToolCall/Approved.antt =====
-- The approval gate: what runs without it.
use llamacli.Prelude.{
  ℕ, ◌≡◌, refl, ◌⊎◌, inl, inr, [], Option, none, some, Bool, true, false, ◌&&◌, not, if_intro,
  Bool-cases, contains, Text, lit, arith, text_eq,
}
use llamacli.Compaction.Message.{ToolCall}
use llamacli.Agent.State.{LoopState}
use llamacli.Agent.CallWorld.{
  CallWorld, StateResult, StateArgs, parsed, bad_args, steps_of, no_steps, push_result,
}
use llamacli.Agent.StateTools.{
  apply_state_tool, apply_note, apply_update_plan, take_note, update_plan, bad_state_args,
}
use llamacli.Agent.EditTools.{file_content_tools}
use llamacli.Agent.ToolCall.{dispatch, asks, auto_approve_tools, agent_state_tools}

-- Nothing was executed: neither the log, nor the record of the files, nor that of the checks changed.
abbrev pub Untouched : LoopState → LoopState → Type 0
Untouched s s' =
    (s'.executed_tool_log ≡ s.executed_tool_log)
    × (s'.files_touched ≡ s.files_touched)
    × (s'.check_failures ≡ s.check_failures)

abbrev Allows : ToolCall → CallWorld → LoopState → LoopState → Type 0
Allows call w s s' =
    Untouched s s' ⊎ (w.allowed ≡ true) ⊎ (contains auto_approve_tools call.name ≡ true)

push_result-Untouched :
    (call : ToolCall) (content : Text) (s : LoopState) → Untouched s (push_result call content s)
unfolding push_result
push_result-Untouched call content s = (refl, refl, refl)

take_note-Untouched :
    (clock : Text) (text : Option Text) (s : LoopState) → Untouched s (take_note clock text s).state
unfolding take_note
take_note-Untouched clock none s = (refl, refl, refl)
take_note-Untouched clock (some t) s =
    if_intro (λ (r : StateResult). Untouched s r.state) _ (λ _. (refl, refl, refl))
      (λ _. (refl, refl, refl))

abbrev UntouchedBy : LoopState → StateResult → Type 0
UntouchedBy s r = Untouched s r.state

apply_note-Untouched :
    (w : CallWorld) (args : StateArgs) (s : LoopState) → UntouchedBy s (apply_note w args s)
unfolding apply_note bad_state_args
apply_note-Untouched w (parsed text steps) s = take_note-Untouched w.clock text s
apply_note-Untouched w (bad_args e) s = (refl, refl, refl)

apply_update_plan-Untouched :
    (w : CallWorld) (args : StateArgs) (s : LoopState) → UntouchedBy s (apply_update_plan w args s)
unfolding apply_update_plan bad_state_args update_plan
apply_update_plan-Untouched w (parsed text (steps_of steps)) s = (refl, refl, refl)
apply_update_plan-Untouched w (parsed text (no_steps e)) s = (refl, refl, refl)
apply_update_plan-Untouched w (bad_args e) s = (refl, refl, refl)

apply_state_tool-Untouched :
    (name : Text) (w : CallWorld) (args : StateArgs) (s : LoopState)
    → UntouchedBy s (apply_state_tool name w args s)
unfolding apply_state_tool
apply_state_tool-Untouched name w args s =
    if_intro (UntouchedBy s) (text_eq name (lit "note")) (λ _. apply_note-Untouched w args s)
      (λ _.
        if_intro (UntouchedBy s) (text_eq name (lit "update_plan"))
          (λ _. apply_update_plan-Untouched w args s) (λ _. (refl, refl, refl)))

-- The condition of the refusal holds where none of the three exceptions does.
gate_closes :
    (state auto allowed : Bool)
    → not state && (not auto && not false) && not allowed ≡ false
    → state ≡ false
    → allowed ≡ false
    → auto ≡ true
gate_closes state auto allowed e f g = ground arith

-- A tool call leaves the log of executed tools, the record of touched files and that of failed checks
-- as they are, unless the gate allowed it or its name is one of the tools approved in advance. A name
-- that is not known is not among those.
pub dispatch-Untouched :
    (window at k : ℕ) (call : ToolCall) (w : CallWorld) (s : LoopState)
    → Untouched s (dispatch window at k call w s)
      ⊎ (w.allowed ≡ true)
      ⊎ (contains auto_approve_tools call.name ≡ true)
unfolding dispatch asks push_result
dispatch-Untouched window at k call w s =
    let P = Allows call w s in
    if_intro P (not (contains agent_state_tools call.name) && asks call.name [] && not w.allowed)
      (λ _. inl (refl, refl, refl))
      (λ denied.
        if_intro P (contains agent_state_tools call.name)
          (λ _. inl (apply_state_tool-Untouched call.name w w.state_args s))
          (λ ordinary.
            if_intro P (contains file_content_tools call.name && w.is_elided)
              (λ _. inl (refl, refl, refl))
              (λ _. elim (Bool-cases w.allowed) [
                | inl yes_allowed ↦ inr (inl yes_allowed)
                | inr refused ↦ inr (
                    inr (
                      gate_closes (contains agent_state_tools call.name)
                        (contains auto_approve_tools call.name) w.allowed denied ordinary refused))
              ])))
