-- ===== src/Compaction/Repair.antt =====
-- What `runCompaction` does to the kept tail: results get their call back, and a user comes first.
use llamacli.Prelude.{
  List, [], ◌∷◌, ◌++◌, Option, none, some, Bool, false, ◌&&◌, length, ltb, any, if◌then◌else◌, Text,
  lit,
}
use mathlib.Core.List.{reverse}
use llamacli.Compaction.Message.{user, assistant, tool, role_eq, ChatMessage, plain}
use llamacli.Compaction.Tail.{is_user}

abbrev pub is_tool : ChatMessage → Bool
is_tool m = role_eq m.role tool

-- The tool results at the end of the part to summarize, and the message before them, where that is
-- an assistant message with calls. The list is given reversed, `after` is what was passed.
unfoldable pub owner_from : List ChatMessage → List ChatMessage → Option (List ChatMessage)
owner_from after [] = none
owner_from after (m ∷ older) =
    let further = owner_from (m ∷ after) older in
    if is_tool m
    then further
    else if role_eq m.role assistant && ltb 0 (length m.tool_calls)
    then some (m ∷ after)
    else none

unfoldable pub starts_with_tool : List ChatMessage → Bool
starts_with_tool [] = false
starts_with_tool (m ∷ ms) = is_tool m

unfoldable pub drop_tools : List ChatMessage → List ChatMessage
drop_tools [] = []
drop_tools (m ∷ ms) = let rest = drop_tools ms in if is_tool m then rest else m ∷ ms

unfoldable pub with_owner : List ChatMessage → List ChatMessage → List ChatMessage
with_owner to_summarize tail =
    if starts_with_tool tail
    then elim (owner_from [] (reverse to_summarize)) [ none ↦ tail | some owned ↦ owned ++ tail ]
    else tail

unfoldable pub continue_after_compaction : Text
continue_after_compaction =
    lit
      "[Earlier conversation was compacted — see the summary in the system message. Continue the current task.]"

unfoldable pub with_user : List ChatMessage → List ChatMessage
with_user tail = if any is_user tail then tail else plain user continue_after_compaction ∷ tail

unfoldable pub repair_tail : List ChatMessage → List ChatMessage → List ChatMessage
repair_tail to_summarize tail = with_user (drop_tools (with_owner to_summarize tail))
