-- ===== src/Hermes.antt =====
-- The circuit breaker of src/hermes/selfHeal.ts. Date.now() is an argument of each call; the two
-- reasons are kept as data, with the numbers that the source interpolates.
pub mod Window
pub mod Trips
use llamacli.Prelude.{
  ℕ, suc, ◌-◌, List, [], ◌∷◌, ◌++◌, map, Option, none, some, Bool, true, false, ◌||◌, length, any,
  ltb, leb, if◌then◌else◌, Text, lit, text_eq,
}

pub record CallRecord : Type 0 where
  pub tool_name : Text
  pub args_signature : Text

pub record CircuitBreakerConfig : Type 0 where
  pub window_size : ℕ
  pub max_distinct : ℕ
  pub hard_timeout_ms : ℕ

abbrev pub default_breaker : CircuitBreakerConfig
default_breaker = record { window_size = 12; max_distinct = 3; hard_timeout_ms = 1800000 }

pub record CircuitBreaker : Type 0 where
  pub history : List CallRecord
  pub last_progress_at : ℕ
  pub config : CircuitBreakerConfig

pub data StopReason : Type 0 where
  hard_timeout : ℕ → StopReason
  repetitive_loop : ℕ → ℕ → StopReason

unfoldable pub new_breaker : CircuitBreakerConfig → ℕ → CircuitBreaker
new_breaker config now = record { history = []; last_progress_at = now; config = config }

-- `history.shift()`: a no-op on the empty array.
unfoldable pub shift : List CallRecord → List CallRecord
shift [] = []
shift (c ∷ cs) = cs

unfoldable pub record_call : CircuitBreaker → CallRecord → ℕ → CircuitBreaker
unfolding shift
record_call b call now =
    let pushed : List CallRecord = b.history ++ (call ∷ []) in
    record b {
      history = if ltb b.config.window_size (length pushed) then shift pushed else pushed;
      last_progress_at = now;
    }

-- `${c.toolName}:${c.argsSignature}`
unfoldable pub call_key : CallRecord → Text
call_key c = c.tool_name ++ (lit ":" ++ c.args_signature)

-- The members of `new Set(keys)`.
unfoldable pub distinct : List Text → List Text
distinct [] = []
distinct (k ∷ ks) = let rest = distinct ks in if any (text_eq k) rest then rest else k ∷ rest

unfoldable pub should_stop : CircuitBreaker → ℕ → Option StopReason
should_stop b now =
    if ltb b.config.hard_timeout_ms (now - b.last_progress_at)
    then some (hard_timeout b.config.hard_timeout_ms)
    else if ltb (length b.history) b.config.window_size
    then none
    else let size = length (distinct (map call_key b.history)) in
      if leb size b.config.max_distinct
      then some (repetitive_loop size (length b.history))
      else none

unfoldable pub reset : CircuitBreaker → ℕ → CircuitBreaker
reset b now = record b { history = []; last_progress_at = now }
