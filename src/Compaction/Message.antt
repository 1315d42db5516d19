-- ===== src/Compaction/Message.antt =====
-- The messages of a conversation (src/backend/types.ts). A missing `tool_calls` is the empty list, and
-- `content: null` is none; the id that links a result to its call is kept as a text.
use llamacli.Prelude.{
  List, [], ◌∷◌, ◌++◌, Option, none, some, Bool, true, false, Text, lit, is_empty, if◌then◌else◌,
}

pub data Role : Type 0 where
  system user assistant tool : Role

pub record ToolCall : Type 0 where
  pub id : Text
  pub name : Text
  pub arguments : Text

pub record ChatMessage : Type 0 where
  pub role : Role
  pub content : Option Text
  pub tool_calls : List ToolCall
  pub tool_call_id : Option Text

abbrev pub role_eq : Role → Role → Bool
role_eq system system = true
role_eq user user = true
role_eq assistant assistant = true
role_eq tool tool = true
role_eq _ _ = false

abbrev pub plain : Role → Text → ChatMessage
plain r t = record { role = r; content = some t; tool_calls = []; tool_call_id = none }

-- `parts.join(sep)`
unfoldable pub join : Text → List Text → Text
join sep [] = []
join sep (t ∷ []) = t
join sep (t ∷ u ∷ ts) = t ++ (sep ++ join sep (u ∷ ts))

-- `parts.filter(Boolean)`: the empty texts leave.
unfoldable pub non_empty : List Text → List Text
non_empty [] = []
non_empty (t ∷ ts) = if is_empty t then non_empty ts else t ∷ non_empty ts

abbrev pub text_of : Option Text → Text
text_of none = []
text_of (some t) = t

-- `name(arguments)` of each call.
unfoldable pub call_texts : List ToolCall → List Text
call_texts [] = []
call_texts (c ∷ cs) = (c.name ++ (lit "(" ++ (c.arguments ++ lit ")"))) ∷ call_texts cs

unfoldable pub message_text : ChatMessage → Text
message_text m =
    let content = text_of m.content in
    let calls = join (lit "\n") (call_texts m.tool_calls) in
    if is_empty calls then content else content ++ (lit "\n" ++ calls)
