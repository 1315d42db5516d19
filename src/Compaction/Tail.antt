-- ===== src/Compaction/Tail.antt =====
-- `selectKeptTail`: which recent messages stay verbatim.
pub mod Split
pub mod Aligned
use llamacli.Prelude.{
  ℕ, zero, suc, ◌+◌, ◌-◌, ◌*◌, ◌/◌, max, List, [], ◌∷◌, Option, none, some, Bool, true, false, ◌&&◌,
  not, length, take, drop, keep, get_elem?, ltb, leb, if◌then◌else◌,
}
use mathlib.Core.List.{reverse}
use llamacli.Compaction.Message.{
  Role, system, user, assistant, tool, role_eq, ChatMessage, message_text,
}
use llamacli.Compaction.Estimate.{estimate_text_tokens}

-- A ratio of the source, such as 0.4, as a fraction.
pub record Fraction : Type 0 where
  pub num : ℕ
  pub den : ℕ

abbrev pub default_tail_budget_fraction : Fraction
default_tail_budget_fraction = record { num = 4; den = 10 }

abbrev pub is_not_system : ChatMessage → Bool
is_not_system m = not (role_eq m.role system)

abbrev pub is_user : ChatMessage → Bool
is_user m = role_eq m.role user

unfoldable pub tokens_of : ChatMessage → ℕ
tokens_of m = estimate_text_tokens (message_text m)

unfoldable pub sum_tokens : List ChatMessage → ℕ
sum_tokens [] = 0
sum_tokens (m ∷ ms) = tokens_of m + sum_tokens ms

-- 75% of the window, and the fraction of it that the tail may take.
unfoldable pub tail_budget : ℕ → Fraction → ℕ
tail_budget window f = max 1 (max 1 (window * 3 / 4) * f.num / f.den)

-- The loop from the last message down: how many messages are kept. The newest is always kept.
unfoldable pub kept_count : ℕ → ℕ → ℕ → List ChatMessage → ℕ
kept_count budget used kept [] = kept
kept_count budget used kept (m ∷ older) =
    let more = kept_count budget (used + tokens_of m) (suc kept) older in
    if ltb 0 kept && ltb budget (used + tokens_of m) then kept else more

-- `findIndex` of a user message, from index `i` on.
unfoldable pub find_user : ℕ → List ChatMessage → Option ℕ
find_user i [] = none
find_user i (m ∷ ms) = if is_user m then some i else find_user (suc i) ms

unfoldable pub starts_with_user : List ChatMessage → Bool
starts_with_user [] = false
starts_with_user (m ∷ ms) = is_user m

-- The cut is moved on to the next user message, where there is one behind it.
unfoldable pub align : List ChatMessage → ℕ → ℕ
align ms cut =
    if ltb 0 cut && ltb cut (length ms) && not (starts_with_user (drop cut ms))
    then elim (find_user (suc cut) (drop (suc cut) ms)) [ none ↦ cut | some i ↦ i ]
    else cut

unfoldable pub cut_index : List ChatMessage → ℕ → ℕ
cut_index ms budget =
    let aligned = align ms (length ms - kept_count budget 0 0 (reverse ms)) in
    if leb (length ms) aligned && ltb 0 (length ms) then length ms - 1 else aligned

pub record Kept : Type 0 where
  pub keep_tail : List ChatMessage
  pub to_summarize : List ChatMessage

unfoldable pub select_kept_tail : List ChatMessage → ℕ → Fraction → Kept
select_kept_tail messages window f =
    let ms = keep is_not_system messages in
    let cut = cut_index ms (tail_budget window f) in
    record { keep_tail = drop cut ms; to_summarize = take cut ms }
