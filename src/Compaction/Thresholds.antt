-- ===== src/Compaction/Thresholds.antt =====
-- `recommendThresholds`: the thresholds that scale with the window. A ratio r is kept as 10 * r * window,
-- or as tenths, which makes the arithmetic exact.
use llamacli.Prelude.{
  ◌≡◌, ◌⊎◌, ℕ, ◌+◌, ◌-◌, ◌*◌, ◌/◌, ◌≤◌, max, min, Option, ltb, or_else, if◌then◌else◌, arith,
}

abbrev pub default_summary_max_tokens : ℕ
default_summary_max_tokens = 1024

abbrev pub safety_margin_tokens : ℕ
safety_margin_tokens = 2048

pub record Thresholds : Type 0 where
  -- `autoTriggerRatio`, times ten windows
  pub trigger : ℕ
  pub context_window_tokens : ℕ
  pub summary_max_tokens : ℕ
  -- `postCompactionTargetRatio`, in tenths
  pub post_target : ℕ
  -- `minGrowthFraction`, in hundredths
  pub min_growth : ℕ

-- min(0.6, max(0.4, 1 - (2048 + overhead) / window)), times ten windows.
unfoldable pub trigger_of : ℕ → ℕ → ℕ
trigger_of window overhead =
    min (6 * window) (max (4 * window) (10 * window - 10 * (safety_margin_tokens + overhead)))

unfoldable pub recommend_thresholds : ℕ → Option ℕ → Thresholds
recommend_thresholds context_window_tokens overhead_tokens =
    let window = max 1024 context_window_tokens in
    let overhead = or_else overhead_tokens 1500 in
    let trigger = trigger_of window overhead in
    record {
      trigger = trigger;
      context_window_tokens = window;
      summary_max_tokens = max 256 (min default_summary_max_tokens (window * 6 / 100));
      post_target = if ltb trigger (40 * overhead) then 3 else 4;
      min_growth = 5;
    }

-- The trigger lies between 0.4 and 0.6 of the window. It is 0.4, or at least 2048 tokens and
-- the overhead stay free above it, so the next reply has its room. The summary budget is between 256
-- and 1024 tokens and at most a quarter of the window.
pub recommend_thresholds-bounds :
    (tokens : ℕ) (overhead : Option ℕ)
    → let t = recommend_thresholds tokens overhead in
      (4 * t.context_window_tokens ≤ t.trigger)
      × (t.trigger ≤ 6 * t.context_window_tokens)
      × ((t.trigger ≡ 4 * t.context_window_tokens)
          ⊎ (t.trigger + 10 * (2048 + or_else overhead 1500) ≤ 10 * t.context_window_tokens))
      × (256 ≤ t.summary_max_tokens)
      × (t.summary_max_tokens ≤ 1024)
      × (4 * t.summary_max_tokens ≤ t.context_window_tokens)
unfolding recommend_thresholds trigger_of
recommend_thresholds-bounds tokens overhead = ground arith
