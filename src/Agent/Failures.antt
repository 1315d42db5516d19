-- ===== src/Agent/Failures.antt =====
-- What a turn of `runUntilIdle` counts, what a failed request brings, and the limits on retries.
use llamacli.Prelude.{ℕ, ◌*◌, List, [], Option, none, Bool, ltb, Text}
use llamacli.Hermes.{StopReason}
use llamacli.Compaction.Tail.{Fraction, default_tail_budget_fraction}
use llamacli.Agent.State.{LoopState, Thresholds}
use llamacli.Agent.Compact.{Attempt}

-- The local variables of a turn. `writes` records what the recovery handed to `executeTool`.
pub record SalvagedFileWrite : Type 0 where
  pub path : Text
  pub partial_content : Text

pub record FileWrite : Type 0 where
  pub appends : Bool
  pub file : SalvagedFileWrite

pub record TurnVars : Type 0 where
  pub overflow_retries : ℕ
  pub tail_budget_fraction : Fraction
  pub truncation_retries : ℕ
  pub timeout_retries : ℕ
  pub utf8_retries : ℕ
  pub shrink_factor : Fraction
  pub last_truncation_message : Option Text
  pub salvaged_chars : List (Text × ℕ)
  pub recent_texts : List Text
  pub writes : List FileWrite

unfoldable pub new_turn : TurnVars
new_turn = record {
  overflow_retries = 0;
  tail_budget_fraction = default_tail_budget_fraction;
  truncation_retries = 0;
  timeout_retries = 0;
  utf8_retries = 0;
  shrink_factor = record { num = 1; den = 1 };
  last_truncation_message = none;
  salvaged_chars = [];
  recent_texts = [];
  writes = [];
}

pub data TurnEnding : Type 0 where
  finished stopped_no_progress cancelled no_longer_fits interrupted : TurnEnding
  unreachable : Text → TurnEnding
  stopped_repeating : ℕ → TurnEnding
  stopped_breaker : StopReason → TurnEnding

pub data Next : Type 0 where
  again : TurnVars → LoopState → Next
  ends : TurnEnding → LoopState → Next

-- An error of the backend; `salvaged` is what `salvagePartialFileWrite` recovers of its first partial
-- write_file or append_file call.
pub record ChatError : Type 0 where
  pub message : Text
  pub salvaged : Option SalvagedFileWrite

-- The token estimates round the forced compaction, its attempts, and whether the salvage was written.
pub record ErrorWorld : Type 0 where
  pub before : ℕ
  pub after : ℕ
  pub attempts : ℕ → Attempt
  pub write_ok : Bool

pub record TurnOptions : Type 0 where
  pub thresholds : Thresholds
  pub enable_thinking : Bool

abbrev pub max_overflow_retries : ℕ
max_overflow_retries = 8

abbrev pub max_truncation_retries : ℕ
max_truncation_retries = 5

abbrev pub max_timeout_retries : ℕ
max_timeout_retries = 1

abbrev pub max_utf8_retries : ℕ
max_utf8_retries = 1

abbrev pub halve : Fraction → Fraction
halve f = record { num = f.num; den = f.den * 2 }

abbrev pub min_tail_budget_fraction : Fraction
min_tail_budget_fraction = record { num = 5; den = 100 }

abbrev pub min_shrink_factor : Fraction
min_shrink_factor = record { num = 125; den = 1000 }

abbrev pub exceeds : Fraction → Fraction → Bool
exceeds f g = ltb (g.num * f.den) (f.num * g.den)
