-- ===== src/Compaction/Run/Prompt.antt =====
-- The request for the summary: `summaryRequest` and `summaryMaxTokens` of `runCompaction`.
use llamacli.Prelude.{ℕ, ◌+◌, ◌*◌, ◌≤◌, ◌≡◌, ◌⊎◌, ◌++◌, List, max, arith}
use llamacli.Compaction.Message.{ChatMessage}
use llamacli.Compaction.Run.{window_cap, summary_max_tokens}

-- The summary may take 128 to 1024 tokens, whatever the window, the caller's cap and the input are. It
-- may take no more than the caller's cap, nor than 35% of the input, rounded up, each raised to 128; a
-- cap of 0 is none.
pub summary_max_tokens-bounds :
    (window cap input : ℕ)
    → (128 ≤ summary_max_tokens window cap input)
      × (summary_max_tokens window cap input ≤ 1024)
      × ((cap ≡ 0) ⊎ (summary_max_tokens window cap input ≤ max 128 cap))
      × (100 * summary_max_tokens window cap input ≤ max 12800 (35 * input + 99))
unfolding summary_max_tokens window_cap
summary_max_tokens-bounds window cap input = ground arith

-- A suffix that holds the last message.
abbrev pub IsSuffix : List ChatMessage → List ChatMessage → Type 0
IsSuffix rest ms = (dropped : List ChatMessage) × (ms ≡ dropped ++ rest)
