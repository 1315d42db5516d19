-- ===== src/Compaction/Run/Batch.antt =====
-- A batch of tool results that the cut of `selectKeptTail` runs through.
use llamacli.Prelude.{
  ◌<◌, ◌≡◌, refl, ap, sym, ◌∙◌, subst, ◌++◌, List, [], ◌∷◌, length, All, All-append, arith, true,
  some,
}
use mathlib.Core.List.{
  reverse, reverse-cons, reverse-append, reverse-reverse, append_assoc, append-nil,
}
use llamacli.Compaction.Message.{ChatMessage, tool, assistant}
use llamacli.Compaction.Repair.{
  starts_with_tool, owner_from, drop_tools, with_owner, with_user, repair_tail,
}

abbrev IsTool : ChatMessage → Type 0
IsTool m = m.role ≡ tool

owner_from-tools :
    (tools rest after : List ChatMessage) (owner : ChatMessage)
    → All IsTool tools
    → owner.role ≡ assistant
    → 0 < length owner.tool_calls
    → owner_from after (tools ++ (owner ∷ rest)) ≡ some (owner ∷ (reverse tools ++ after))
unfolding owner_from
owner_from-tools [] rest after owner _ e h = ground arith
owner_from-tools (t ∷ ts) rest after owner (k, ks) e h =
    let step = owner_from-tools ts rest (t ∷ after) owner ks e h in
    let shape : reverse ts ++ (t ∷ after) ≡ reverse (t ∷ ts) ++ after =
      sym (append_assoc (reverse ts) (t ∷ []) after)
      ∙ ap (λ z. z ++ after) (sym (reverse-cons t ts)) in
    ground (arith, step, shape)

All-reverse-IsTool : (ms : List ChatMessage) → All IsTool ms → All IsTool (reverse ms)
All-reverse-IsTool [] h = h
All-reverse-IsTool (m ∷ ms) (h, hs) =
    subst (All IsTool) (sym (reverse-cons m ms))
      (All-append IsTool (reverse ms) (m ∷ []) (All-reverse-IsTool ms hs) (h, tt))

reverse-batch :
    (older tools : List ChatMessage) (owner : ChatMessage)
    → reverse (older ++ (owner ∷ tools)) ≡ reverse tools ++ (owner ∷ reverse older)
reverse-batch older tools owner =
    reverse-append older (owner ∷ tools)
    ∙ ap (λ z. z ++ reverse older) (reverse-cons owner tools)
    ∙ append_assoc (reverse tools) (owner ∷ []) (reverse older)

owner_from-batch :
    (older tools : List ChatMessage) (owner : ChatMessage)
    → All IsTool tools
    → owner.role ≡ assistant
    → 0 < length owner.tool_calls
    → owner_from [] (reverse (older ++ (owner ∷ tools))) ≡ some (owner ∷ tools)
owner_from-batch older tools owner h e calls =
    ap (owner_from []) (reverse-batch older tools owner)
    ∙ owner_from-tools (reverse tools) (reverse older) [] owner (All-reverse-IsTool tools h) e calls
    ∙ ap (λ z. some (owner ∷ z)) (append-nil (reverse (reverse tools)) ∙ reverse-reverse tools)

drop_tools-owner :
    (owner : ChatMessage) (ms : List ChatMessage)
    → owner.role ≡ assistant
    → drop_tools (owner ∷ ms) ≡ owner ∷ ms
unfolding drop_tools
drop_tools-owner owner ms e = ground arith

with_owner-batch :
    (older tools tail : List ChatMessage) (owner : ChatMessage)
    → starts_with_tool tail ≡ true
    → owner_from [] (reverse (older ++ (owner ∷ tools))) ≡ some (owner ∷ tools)
    → with_owner (older ++ (owner ∷ tools)) tail ≡ owner ∷ (tools ++ tail)
unfolding with_owner
with_owner-batch older tools tail owner s e = rw s (rw e refl)

-- When the cut falls inside a batch, behind an assistant message with calls and some of its results,
-- the whole batch comes back: the repaired tail has the assistant message, all results and all of the
-- kept tail, in order.
pub repair_tail-batch :
    (older tools tail : List ChatMessage) (owner : ChatMessage)
    → All IsTool tools
    → owner.role ≡ assistant
    → 0 < length owner.tool_calls
    → starts_with_tool tail ≡ true
    → repair_tail (older ++ (owner ∷ tools)) tail ≡ with_user (owner ∷ (tools ++ tail))
unfolding repair_tail
repair_tail-batch older tools tail owner h e calls s =
    ap (λ z. with_user (drop_tools z))
      (with_owner-batch older tools tail owner s (owner_from-batch older tools owner h e calls))
    ∙ ap with_user (drop_tools-owner owner (tools ++ tail) e)
