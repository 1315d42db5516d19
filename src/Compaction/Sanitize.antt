-- ===== src/Compaction/Sanitize.antt =====
-- `sanitizeForSummary`: the request for a summary holds no tool messages.
use llamacli.Prelude.{
  List, [], ◌∷◌, ◌++◌, Option, none, some, false, ◌≡◌, ◌≢◌, refl, sym, subst, ◌⊎◌, inl, inr, arith,
  Text, lit, if◌then◌else◌, All, Option-cases,
}
use llamacli.Compaction.Message.{
  Role, system, user, assistant, tool, role_eq, ToolCall, ChatMessage, plain, join, non_empty,
  text_of,
}

-- `[called tool NAME with ARGUMENTS]` of each call.
unfoldable pub called_texts : List ToolCall → List Text
called_texts [] = []
called_texts (c ∷ cs) =
    (lit "[called tool " ++ (c.name ++ (lit " with " ++ (c.arguments ++ lit "]"))))
    ∷ called_texts cs

-- One message made plain.
unfoldable pub convert_as : ChatMessage → Role → List ToolCall → ChatMessage
convert_as m assistant (c ∷ cs) =
    plain assistant
      (join (lit " ") (non_empty (text_of m.content ∷ join (lit " ") (called_texts (c ∷ cs)) ∷ [])))
convert_as m assistant [] = m
convert_as m tool calls = plain assistant (lit "[tool result] " ++ text_of m.content)
convert_as m system calls = m
convert_as m user calls = m

unfoldable pub convert : ChatMessage → ChatMessage
convert m = convert_as m m.role m.tool_calls

unfoldable pub both_texts : Option Text → Option Text → Option Text
both_texts (some a) (some b) = some (join (lit "\n") (non_empty (a ∷ b ∷ [])))
both_texts _ _ = none

-- The text of two neighbours of one role, where both have one.
unfoldable pub joined_text : ChatMessage → ChatMessage → Option Text
joined_text prev m = if role_eq prev.role m.role then both_texts prev.content m.content else none

-- The loop that merges runs of one role; `prev` is the last message of `merged`.
unfoldable pub merge_from : ChatMessage → List ChatMessage → List ChatMessage
merge_from prev [] = prev ∷ []
merge_from prev (m ∷ ms) = elim (joined_text prev m) [
  | none ↦ prev ∷ merge_from m ms
  | some t ↦ merge_from (record prev { content = some t }) ms
]

unfoldable pub merge_roles : List ChatMessage → List ChatMessage
merge_roles [] = []
merge_roles (m ∷ ms) = merge_from m ms

unfoldable pub convert_all : List ChatMessage → List ChatMessage
convert_all [] = []
convert_all (m ∷ ms) = convert m ∷ convert_all ms

unfoldable pub sanitize_for_summary : List ChatMessage → List ChatMessage
sanitize_for_summary ms = merge_roles (convert_all ms)

-- No tool message, and no calls in an assistant message.
abbrev pub IsPlain : ChatMessage → Type 0
IsPlain m = (m.role ≢ tool) × ((m.role ≢ assistant) ⊎ (m.tool_calls ≡ []))

-- Neighbours differ in role, or one of them has no text.
abbrev pub Differ : ChatMessage → ChatMessage → Type 0
Differ m n = (m.role ≢ n.role) ⊎ (m.content ≡ none) ⊎ (n.content ≡ none)

abbrev pub NoRuns : List ChatMessage → Type 0
NoRuns [] = Unit
NoRuns (m ∷ []) = Unit
NoRuns (m ∷ n ∷ ms) = Differ m n × NoRuns (n ∷ ms)

convert-IsPlain : (m : ChatMessage) → IsPlain (convert m)
unfolding convert convert_as
convert-IsPlain m = ground arith

convert_all-IsPlain : (ms : List ChatMessage) → All IsPlain (convert_all ms)
unfolding convert_all
convert_all-IsPlain [] = tt
convert_all-IsPlain (m ∷ ms) = (convert-IsPlain m, convert_all-IsPlain ms)

role_eq_iff : (a b : Role) → role_eq a b ≡ false → a ≢ b
role_eq_iff a b = ground arith

joined_none : (m n : ChatMessage) (t : Text) → joined_text m n ≡ some t → m.content ≡ none → ⊥
unfolding joined_text both_texts
joined_none m n t joined e = ground arith

merge_from-apart :
    (prev m : ChatMessage) (ms : List ChatMessage)
    → joined_text prev m ≡ none
    → merge_from prev (m ∷ ms) ≡ prev ∷ merge_from m ms
unfolding merge_from
merge_from-apart prev m ms e = ground arith

merge_from-joined :
    (prev m : ChatMessage) (ms : List ChatMessage) (t : Text)
    → joined_text prev m ≡ some t
    → merge_from prev (m ∷ ms) ≡ merge_from (record prev { content = some t }) ms
unfolding merge_from
merge_from-joined prev m ms t e = ground arith

merge_from-IsPlain :
    (prev : ChatMessage) (ms : List ChatMessage)
    → IsPlain prev
    → All IsPlain ms
    → All IsPlain (merge_from prev ms)
unfolding merge_from
merge_from-IsPlain prev [] h _ = (h, tt)
merge_from-IsPlain prev (m ∷ ms) h (k, ks) = elim (Option-cases (joined_text prev m)) [
  | inl apart ↦
      subst (All IsPlain) (sym (merge_from-apart prev m ms apart)) (h, merge_from-IsPlain m ms k ks)
  | inr (t, joined) ↦
      subst (All IsPlain) (sym (merge_from-joined prev m ms t joined))
        (merge_from-IsPlain (record prev { content = some t }) ms (h.0, h.1) ks)
]

merge_roles-IsPlain : (ms : List ChatMessage) → All IsPlain ms → All IsPlain (merge_roles ms)
unfolding merge_roles
merge_roles-IsPlain [] _ = tt
merge_roles-IsPlain (m ∷ ms) (h, hs) = merge_from-IsPlain m ms h hs

-- The first merged message has the role of the first message, and its missing text.
abbrev Heads : ChatMessage → List ChatMessage → Type 0
Heads m [] = ⊥
Heads m (n ∷ ns) = (n.role ≡ m.role) × (m.content ≡ none → n.content ≡ none)

merge_from-Heads : (m : ChatMessage) (ms : List ChatMessage) → Heads m (merge_from m ms)
unfolding merge_from
merge_from-Heads m [] = (refl, λ e. e)
merge_from-Heads m (n ∷ ms) = elim (Option-cases (joined_text m n)) [
  | inl apart ↦ subst (Heads m) (sym (merge_from-apart m n ms apart)) (refl, λ e. e)
  | inr (t, joined) ↦ subst (Heads m) (sym (merge_from-joined m n ms t joined)) (
      Heads-joined m n t (merge_from (record m { content = some t }) ms) joined
        (merge_from-Heads (record m { content = some t }) ms))
]
  where
    Heads-joined :
        (m n : ChatMessage) (t : Text) (ns : List ChatMessage)
        → joined_text m n ≡ some t
        → Heads (record m { content = some t }) ns
        → Heads m ns
    Heads-joined m n t [] joined h = absurd h
    Heads-joined m n t (x ∷ xs) joined (role, _) = (role, λ e. absurd (joined_none m n t joined e))

NoRuns-cons :
    (m n : ChatMessage) (ns : List ChatMessage)
    → joined_text m n ≡ none
    → Heads n ns
    → NoRuns ns
    → NoRuns (m ∷ ns)
unfolding joined_text both_texts
NoRuns-cons m n [] apart h _ = tt
NoRuns-cons m n (x ∷ xs) apart (role, content) h =
    (ground (arith, role_eq_iff m.role n.role, content), h)

NoRuns-merge_from : (prev : ChatMessage) (ms : List ChatMessage) → NoRuns (merge_from prev ms)
unfolding merge_from
NoRuns-merge_from prev [] = tt
NoRuns-merge_from prev (m ∷ ms) = elim (Option-cases (joined_text prev m)) [
  | inl apart ↦
      subst NoRuns (sym (merge_from-apart prev m ms apart)) (
        NoRuns-cons prev m (merge_from m ms) apart (merge_from-Heads m ms) (NoRuns-merge_from m ms))
  | inr (t, joined) ↦
      subst NoRuns (sym (merge_from-joined prev m ms t joined))
        (NoRuns-merge_from (record prev { content = some t }) ms)
]

NoRuns-merge_roles : (ms : List ChatMessage) → NoRuns (merge_roles ms)
unfolding merge_roles
NoRuns-merge_roles [] = tt
NoRuns-merge_roles (m ∷ ms) = NoRuns-merge_from m ms

-- What `sanitizeForSummary` makes of any slice of a conversation holds no tool result and no tool call,
-- and no two neighbours with texts have the same role. (The summary request takes a part of it, and has
-- the system message before and the instruction, a user message, behind.)
pub sanitize_for_summary-IsPlain :
    (ms : List ChatMessage)
    → All IsPlain (sanitize_for_summary ms) × NoRuns (sanitize_for_summary ms)
unfolding sanitize_for_summary
sanitize_for_summary-IsPlain ms = (
  merge_roles-IsPlain (convert_all ms) (convert_all-IsPlain ms),
  NoRuns-merge_roles (convert_all ms),
)
