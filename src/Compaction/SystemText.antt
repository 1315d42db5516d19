-- ===== src/Compaction/SystemText.antt =====
-- The system message with its summary block: `splitSystemMessage` and `composeSystemMessage`.
pub mod Search
pub mod OneBlock
use llamacli.Prelude.{
  ℕ, zero, suc, ◌+◌, ◌-◌, List, [], ◌∷◌, ◌++◌, Option, none, some, Bool, true, false, ◌||◌, ◌&&◌,
  length, take, drop, leb, ◌==◌, if◌then◌else◌, Text, lit,
}
use llamacli.Compaction.Message.{join, non_empty}

-- White space of `trim`, by code unit.
unfoldable pub is_space : ℕ → Bool
is_space c =
    (leb 9 c && leb c 13)
    || (c == 32)
    || (c == 160)
    || (c == 0x1680)
    || (leb 0x2000 c && leb c 0x200a)
    || (c == 0x2028)
    || (c == 0x2029)
    || (c == 0x202f)
    || (c == 0x205f)
    || (c == 0x3000)
    || (c == 0xfeff)

unfoldable pub trim_start : Text → Text
trim_start [] = []
trim_start (c ∷ s) = if is_space c then trim_start s else c ∷ s

unfoldable pub trim_end : Text → Text
trim_end [] = []
trim_end (c ∷ s) = elim (trim_end s) [ [] ↦ if is_space c then [] else c ∷ [] | d ∷ t ↦ c ∷ d ∷ t ]

unfoldable pub trim : Text → Text
trim s = trim_end (trim_start s)

-- `s.startsWith(h)`
unfoldable pub starts_with : Text → Text → Bool
starts_with [] s = true
starts_with (a ∷ h) [] = false
starts_with (a ∷ h) (b ∷ s) = (a == b) && starts_with h s

-- `s.indexOf(h)`, with none for -1.
unfoldable pub index_of : Text → Text → Option ℕ
index_of h [] = if starts_with h [] then some 0 else none
index_of h (c ∷ s) =
    let later = index_of h s in
    if starts_with h (c ∷ s) then some 0 else elim later [ none ↦ none | some i ↦ some (suc i) ]

unfoldable pub summary_header : Text
summary_header = lit "[Compacted history summary]"

pub record SystemParts : Type 0 where
  pub base : Text
  pub summary : Option Text

unfoldable pub split_system_message : Text → SystemParts
split_system_message content = elim (index_of summary_header content) [
  | none ↦ record { base = content; summary = none }
  | some i ↦ record {
    base = trim_end (take i content);
    summary = some (trim (drop (i + length summary_header) content));
  }
]

unfoldable pub compose_system_message : Text → Text → Text
compose_system_message original summary = join (lit "\n\n") (
    non_empty
      ((split_system_message original).base ∷ (summary_header ++ (lit "\n" ++ summary)) ∷ []))
