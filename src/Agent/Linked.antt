-- ===== src/Agent/Linked.antt =====
-- Tool results and the calls they answer: the shape of a conversation that a backend accepts.
pub mod Compacted
pub mod Newest
pub mod Calls
pub mod Context
use llamacli.Prelude.{
  ℕ, zero, suc, ◌≡◌, refl, sym, ap, ◌∙◌, subst, List, [], ◌∷◌, ◌++◌, ◌⊎◌, inl, inr, Option, none,
  some, Bool, true, false, if◌then◌else◌, contains, Text, arith, Bool-cases, if_intro, keep, any,
}
use llamacli.Compaction.Message.{
  Role, system, user, assistant, tool, role_eq, ToolCall, ChatMessage, plain,
}
use llamacli.Compaction.Repair.{is_tool, drop_tools, starts_with_tool}
use llamacli.Compaction.Tail.{is_not_system}
use llamacli.Agent.EditTools.{set_call, elide_at}

abbrev pub call_ids : List ToolCall → List Text
call_ids [] = []
call_ids (c ∷ cs) = c.id ∷ call_ids cs

-- The calls that a result behind this message may answer.
abbrev pub open_after : List Text → ChatMessage → List Text
open_after ids m =
    if is_tool m then ids else if role_eq m.role assistant then call_ids m.tool_calls else []

abbrev pub open_at_end : List Text → List ChatMessage → List Text
open_at_end ids [] = ids
open_at_end ids (m ∷ ms) = open_at_end (open_after ids m) ms

abbrev pub answers : List Text → Option Text → Bool
answers ids none = false
answers ids (some id) = contains ids id

-- Each tool result stands behind an assistant message that made its call, with only further results
-- between them. `ids` are the calls that are open before the first message.
abbrev pub IsLinked : List Text → List ChatMessage → Type 0
IsLinked ids [] = Unit
IsLinked ids (m ∷ ms) =
    ((is_tool m ≡ false) ⊎ (answers ids m.tool_call_id ≡ true)) × IsLinked (open_after ids m) ms

pub IsLinked-append :
    (ids : List Text) (xs ys : List ChatMessage)
    → IsLinked ids xs
    → IsLinked (open_at_end ids xs) ys
    → IsLinked ids (xs ++ ys)
IsLinked-append ids [] ys _ k = k
IsLinked-append ids (x ∷ xs) ys (h, hs) k = (h, IsLinked-append (open_after ids x) xs ys hs k)

pub IsLinked-suffix :
    (ids : List Text) (xs ys : List ChatMessage)
    → IsLinked ids (xs ++ ys)
    → IsLinked (open_at_end ids xs) ys
IsLinked-suffix ids [] ys h = h
IsLinked-suffix ids (x ∷ xs) ys (_, h) = IsLinked-suffix (open_after ids x) xs ys h

pub open_at_end-append :
    (ids : List Text) (xs ys : List ChatMessage)
    → open_at_end ids (xs ++ ys) ≡ open_at_end (open_at_end ids xs) ys
open_at_end-append ids [] ys = refl
open_at_end-append ids (x ∷ xs) ys = open_at_end-append (open_after ids x) xs ys

answers_nil : (o : Option Text) → answers [] o ≡ false
answers_nil none = refl
answers_nil (some id) = refl

open_after-tool : (ids : List Text) (m : ChatMessage) → is_tool m ≡ true → open_after ids m ≡ ids
open_after-tool ids m e = rw e refl

open_after-other :
    (ids js : List Text) (m : ChatMessage) → is_tool m ≡ false → open_after ids m ≡ open_after js m
open_after-other ids js m e = rw e refl

system_closes :
    (ids : List Text) (m : ChatMessage) → is_not_system m ≡ false → open_after ids m ≡ []
system_closes ids m e = ground arith

-- A first message that is no result is linked behind anything.
IsLinked-other :
    (ids js : List Text) (m : ChatMessage) (ms : List ChatMessage)
    → is_tool m ≡ false
    → IsLinked (open_after ids m) ms
    → IsLinked js (m ∷ ms)
IsLinked-other ids js m ms e h = (inl e, subst (λ i. IsLinked i ms) (open_after-other ids js m e) h)

-- What is linked with no call open before it is linked behind anything.
pub IsLinked-weaken : (ids : List Text) (ms : List ChatMessage) → IsLinked [] ms → IsLinked ids ms
IsLinked-weaken ids [] h = h
IsLinked-weaken ids (m ∷ ms) (inl e, hs) = IsLinked-other [] ids m ms e hs
IsLinked-weaken ids (m ∷ ms) (inr e, hs) = absurd (cc (e, answers_nil m.tool_call_id))

pub drop_tools-IsLinked :
    (ids js : List Text) (ms : List ChatMessage) → IsLinked ids ms → IsLinked js (drop_tools ms)
unfolding drop_tools
drop_tools-IsLinked ids js [] h = tt
drop_tools-IsLinked ids js (m ∷ ms) (h, hs) =
    if_intro (IsLinked js) (is_tool m)
      (λ e. drop_tools-IsLinked ids js ms (subst (λ i. IsLinked i ms) (open_after-tool ids m e) hs))
      (λ e. IsLinked-other ids js m ms e hs)

-- Without a system message among them.
pub keep-IsLinked :
    (ids : List Text) (ms : List ChatMessage)
    → IsLinked ids ms
    → IsLinked ids (keep is_not_system ms)
keep-IsLinked ids [] h = h
keep-IsLinked ids (m ∷ ms) (h, hs) =
    if_intro (IsLinked ids) (is_not_system m) (λ _. (h, keep-IsLinked (open_after ids m) ms hs))
      (λ e. keep-IsLinked ids ms (
        IsLinked-weaken ids ms
          (subst (λ i. IsLinked i ms) {x = open_after ids m} {y = []} (system_closes ids m e) hs)))
