-- ===== src/Agent/Budget.antt =====
-- The budgets of the agent loop: `computeMaxTokens`, the test of `maybeCompact`, and
-- `postCompactionBudget`. A token estimate is an argument: it is what `estimateTokens` answers.
pub mod Fits
use llamacli.Prelude.{
  ◌⊎◌, inl, inr, ◌↔◌, ℕ, ◌+◌, ◌-◌, ◌*◌, ◌/◌, ◌≤◌, ◌<◌, ◌≡◌, max, min, Option, none, some, Bool,
  true, false, ◌&&◌, not, ltb, leb, or_else, if◌then◌else◌, arith,
}
use llamacli.Prelude.Int.{ℤ, pos, negsuc, pos_part, sub_ℕ, ◌+ℤ◌, ◌-ℤ◌, min_ℤ, max_ℤ}
use llamacli.Compaction.Thresholds.{default_summary_max_tokens, safety_margin_tokens}
use llamacli.Compaction.Tail.{Fraction}

abbrev pub thinking_token_allowance : ℕ
thinking_token_allowance = 2048

abbrev pub thinking_min_reply_tokens : ℕ
thinking_min_reply_tokens = 1024

unfoldable pub reply_floor : Bool → ℕ
reply_floor thinking = if thinking then thinking_min_reply_tokens else 512

-- `available` may be negative.
unfoldable pub compute_max_tokens : ℕ → Bool → ℕ → ℤ
compute_max_tokens window thinking used =
    let available = pos window -ℤ pos used -ℤ pos safety_margin_tokens in
    let ceiling = pos (window * 3 / 4) in
    let allowance = pos (if thinking then thinking_token_allowance else 0) in
    max_ℤ (pos (reply_floor thinking)) (min_ℤ available ceiling +ℤ allowance)

-- Where the floor fits beside the prompt, the reply budget is at least the floor and the prompt and the
-- reply fit the window together; without thinking, 2048 tokens stay free besides, or it is the floor.
pub compute_max_tokens-bounds :
    (window used : ℕ) (thinking : Bool)
    → used + reply_floor thinking ≤ window
    → let n = compute_max_tokens window thinking used in
      (n ≡ pos (pos_part n))
      × (reply_floor thinking ≤ pos_part n)
      × (used + pos_part n ≤ window)
      × ((thinking ≡ true) ⊎ (pos_part n ≡ 512) ⊎ (used + pos_part n + 2048 ≤ window))
unfolding compute_max_tokens reply_floor ◌+ℤ◌ ◌-ℤ◌ min_ℤ max_ℤ
compute_max_tokens-bounds window used true h = ground arith
compute_max_tokens-bounds window used false h = ground arith

-- `x >= window * ratio`
unfoldable pub reaches : ℕ → ℕ → Fraction → Bool
reaches x window f = leb (window * f.num) (x * f.den)

-- `used - last < window * growth`
unfoldable pub too_close : ℕ → ℕ → ℕ → Fraction → Bool
too_close used last window growth =
    ltb (used * growth.den) (window * growth.num + last * growth.den)

unfoldable pub skips : Option ℕ → ℕ → ℕ → Fraction → Fraction → Bool
skips none used window trigger growth = false
skips (some last) used window trigger growth =
    not (reaches last window trigger) && too_close used last window growth

-- Whether `maybeCompact` compacts, from `lastCompactionUsed` and the tokens used.
unfoldable pub maybe_compact : Option ℕ → ℕ → ℕ → Fraction → Fraction → Bool
maybe_compact last used window trigger growth =
    reaches used window trigger && not (skips last used window trigger growth)

-- After a compaction that left `last` tokens, the next one starts exactly when the use reaches the
-- trigger and either `last` was at the trigger itself or the use has grown by the minimum since.
pub maybe_compact_iff :
    (last used window : ℕ) (trigger growth : Fraction)
    → (maybe_compact (some last) used window trigger growth ≡ true) ↔ (
        (window * trigger.num ≤ used * trigger.den)
        × ((window * trigger.num ≤ last * trigger.den)
            ⊎ (window * growth.num + last * growth.den ≤ used * growth.den)))
unfolding maybe_compact skips reaches too_close
maybe_compact_iff last used window trigger growth = ground arith

pub record Sizes : Type 0 where
  pub tail_budget_fraction : Fraction
  pub summary_max_tokens : ℕ
  -- room of less than 512 tokens, which the source warns of once
  pub warns : Bool

abbrev pub min_fraction : Fraction → Fraction → Fraction
min_fraction f g = if leb (f.num * g.den) (g.num * f.den) then f else g

abbrev pub max_fraction : Fraction → Fraction → Fraction
max_fraction f g = if leb (f.num * g.den) (g.num * f.den) then g else f

-- `Math.floor(window * autoTriggerRatio * targetRatio)`
unfoldable pub target_of : ℕ → Fraction → Fraction → ℕ
target_of window trigger target = window * trigger.num * target.num / (trigger.den * target.den)

unfoldable pub usable_room : ℕ → ℕ → ℕ
usable_room target overhead = max 256 (target - overhead)

unfoldable pub summary_share : ℕ → ℕ → Option ℕ → ℕ
summary_share room window configured =
    min (max 256 (min (or_else configured default_summary_max_tokens) (window / 4))) (room / 2)

-- `tailTokens / (window * 0.75)`, at least 0.02 and at most the given fraction.
unfoldable pub tail_fraction : ℕ → ℕ → Fraction → Fraction
tail_fraction tokens window most =
    min_fraction most
      (max_fraction (record { num = 2; den = 100 }) (record { num = 4 * tokens; den = 3 * window }))

unfoldable pub post_compaction_budget : ℕ → ℕ → ℕ → Option ℕ → Fraction → Sizes
post_compaction_budget target overhead window configured most =
    let room = usable_room target overhead in
    let summary = summary_share room window configured in
    record {
      tail_budget_fraction = tail_fraction (room - summary) window most;
      summary_max_tokens = summary;
      warns = ltb target (overhead + 512);
    }
