-- ===== src/Agent/Linked/Calls.antt =====
-- A tool call that is dispatched pushes one result for itself and leaves the open calls as they are.
use llamacli.Prelude.{
  ℕ, zero, suc, ◌≡◌, refl, sym, ap, ◌∙◌, subst, List, [], ◌∷◌, inr, Option, none, some, ◌&&◌, not,
  if◌then◌else◌, Text, lit, if_intro, IsIn, contains, text_eq,
}
use llamacli.Compaction.Message.{ChatMessage, ToolCall, role_eq, assistant}
use llamacli.Compaction.Repair.{is_tool}
use llamacli.Agent.State.{LoopState}
use llamacli.Agent.CallWorld.{
  CallWorld, StateArgs, parsed, bad_args, steps_of, no_steps, ToolOutcome, tool_threw, returned,
  StateResult, push_result,
}
use llamacli.Agent.StateTools.{
  apply_state_tool, apply_note, apply_update_plan, take_note, update_plan, bad_state_args,
}
use llamacli.Agent.EditTools.{
  set_call, elide_at, after_edit, after_success, recorded, elided, run_tool, capped, edit_path,
  check_failed, file_content_tools,
}
use llamacli.Agent.ToolCall.{dispatch, agent_state_tools, asks}
use llamacli.Agent.Linked.{
  IsLinked, IsLinked-append, open_at_end, open_after, open_at_end-append, call_ids,
}

-- The conversation is linked, and `ids` are the calls open at its end.
abbrev pub Holds : List Text → List ChatMessage → Type 0
Holds ids ms = IsLinked [] ms × (open_at_end [] ms ≡ ids)

abbrev pub HoldsIn : List Text → LoopState → Type 0
HoldsIn ids s = Holds ids s.messages

abbrev SameMessages : LoopState → StateResult → Type 0
SameMessages s r = r.state.messages ≡ s.messages

push_result-Holds :
    (ids : List Text) (call : ToolCall) (content : Text) (s : LoopState)
    → IsIn ids call.id
    → Holds ids s.messages
    → Holds ids (push_result call content s).messages
unfolding push_result
push_result-Holds ids call content s i (h, e) = (
  IsLinked-append [] s.messages _ h (inr (subst (λ j. IsIn j call.id) (sym e) i), tt),
  open_at_end-append [] s.messages _ ∙ e,
)

call_ids-set_call :
    (k : ℕ) (arguments : Text) (cs : List ToolCall)
    → call_ids (set_call k arguments cs) ≡ call_ids cs
unfolding set_call
call_ids-set_call k arguments [] = refl
call_ids-set_call zero arguments (c ∷ cs) = refl
call_ids-set_call (suc k) arguments (c ∷ cs) = ap (◌∷◌ c.id) (call_ids-set_call k arguments cs)

open_after-set_call :
    (ids : List Text) (k : ℕ) (arguments : Text) (m : ChatMessage)
    → open_after ids (record m { tool_calls = set_call k arguments m.tool_calls })
      ≡ open_after ids m
open_after-set_call ids k arguments m =
    ap (λ c. if is_tool m then ids else if role_eq m.role assistant then c else [])
      (call_ids-set_call k arguments m.tool_calls)

-- Eliding the arguments of a call changes neither its id nor what is open.
elide_at-IsLinked :
    (ids : List Text) (at k : ℕ) (arguments : Text) (ms : List ChatMessage)
    → IsLinked ids ms
    → IsLinked ids (elide_at at k arguments ms)
      × (open_at_end ids (elide_at at k arguments ms) ≡ open_at_end ids ms)
unfolding elide_at
elide_at-IsLinked ids at k arguments [] h = (h, refl)
elide_at-IsLinked ids zero k arguments (m ∷ ms) (h, hs) =
    let same = open_after-set_call ids k arguments m in
    ((h, subst (λ i. IsLinked i ms) (sym same) hs), ap (λ i. open_at_end i ms) same)
elide_at-IsLinked ids (suc at) k arguments (m ∷ ms) (h, hs) =
    let (linked, same) = elide_at-IsLinked (open_after ids m) at k arguments ms hs in
    ((h, linked), same)

elided-Holds :
    (ids : List Text) (at k : ℕ) (call : ToolCall) (w : CallWorld) (s : LoopState)
    → Holds ids s.messages
    → Holds ids (elided at k call w s).messages
unfolding elided
elided-Holds ids at k call w s (h, e) =
    if_intro (HoldsIn ids) (contains file_content_tools call.name)
      (λ _.
        let (linked, same) = elide_at-IsLinked [] at k w.elided_arguments s.messages h in
        (linked, same ∙ e))
      (λ _. (h, e))

-- The state tools and the bookkeeping of an edit do not touch the conversation.
take_note-messages :
    (clock : Text) (text : Option Text) (s : LoopState)
    → (take_note clock text s).state.messages ≡ s.messages
unfolding take_note
take_note-messages clock none s = refl
take_note-messages clock (some t) s = if_intro (SameMessages s) _ (λ _. refl) (λ _. refl)

apply_state_tool-messages :
    (name : Text) (w : CallWorld) (args : StateArgs) (s : LoopState)
    → (apply_state_tool name w args s).state.messages ≡ s.messages
unfolding apply_state_tool apply_note apply_update_plan update_plan bad_state_args
apply_state_tool-messages name w (parsed text (steps_of steps)) s =
    if_intro (SameMessages s) (text_eq name (lit "note")) (λ _. take_note-messages w.clock text s)
      (λ _. if_intro (SameMessages s) (text_eq name (lit "update_plan")) (λ _. refl) (λ _. refl))
apply_state_tool-messages name w (parsed text (no_steps e)) s =
    if_intro (SameMessages s) (text_eq name (lit "note")) (λ _. take_note-messages w.clock text s)
      (λ _. if_intro (SameMessages s) (text_eq name (lit "update_plan")) (λ _. refl) (λ _. refl))
apply_state_tool-messages name w (bad_args e) s =
    if_intro (SameMessages s) (text_eq name (lit "note")) (λ _. refl)
      (λ _. if_intro (SameMessages s) (text_eq name (lit "update_plan")) (λ _. refl) (λ _. refl))

after_success-messages :
    (path : Option Text) (w : CallWorld) (content : Text) (s : LoopState)
    → (after_success path w content s).state.messages ≡ s.messages
unfolding after_success after_edit
after_success-messages none w content s = refl
after_success-messages (some p) w content s =
    if_intro (SameMessages s) (check_failed w.check) (λ _. refl) (λ _. refl)

run_tool-Holds :
    (window at k : ℕ) (ids : List Text) (call : ToolCall) (w : CallWorld) (outcome : ToolOutcome)
    (s : LoopState)
    → IsIn ids call.id
    → Holds ids s.messages
    → Holds ids (run_tool window at k call w outcome s).messages
unfolding run_tool recorded
run_tool-Holds window at k ids call w (tool_threw e) s i h = push_result-Holds ids call _ s i h
run_tool-Holds window at k ids call w (returned content range) s i h =
    let r =
      after_success (edit_path call w) w (capped content range w window) (recorded call w s) in
    push_result-Holds ids call r.text (elided at k call w r.state) i (
      elided-Holds ids at k call w r.state (
        subst (Holds ids)
          (sym (
            after_success-messages (edit_path call w) w (capped content range w window)
              (recorded call w s)))
          h))

-- Whatever the gates, the tool and the checks answer, a call of the open batch pushes a result that is
-- linked to it, and the batch stays open.
pub dispatch-Holds :
    (window at k : ℕ) (ids : List Text) (call : ToolCall) (w : CallWorld) (s : LoopState)
    → IsIn ids call.id
    → Holds ids s.messages
    → Holds ids (dispatch window at k call w s).messages
unfolding dispatch
dispatch-Holds window at k ids call w s i h =
    let P = HoldsIn ids in
    if_intro P (not (contains agent_state_tools call.name) && asks call.name [] && not w.allowed)
      (λ _. push_result-Holds ids call _ s i h)
      (λ _.
        if_intro P (contains agent_state_tools call.name)
          (λ _.
            push_result-Holds ids call _ (apply_state_tool call.name w w.state_args s).state i
              (subst (Holds ids) (sym (apply_state_tool-messages call.name w w.state_args s)) h))
          (λ _.
            if_intro P (contains file_content_tools call.name && w.is_elided)
              (λ _. push_result-Holds ids call _ s i h)
              (λ _. run_tool-Holds window at k ids call w w.outcome s i h)))
