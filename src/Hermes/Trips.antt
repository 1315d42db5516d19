-- ===== src/Hermes/Trips.antt =====
-- When the breaker stops a turn, and when it lets it go on.
use llamacli.Prelude.{
  ℕ, ◌-◌, ◌≤◌, ◌<◌, ◌≡◌, refl, ap, ◌∙◌, ◌≢◌, List, [], ◌∷◌, ◌++◌, map, none, arith, length, drop,
  take_last, length-append, All, inl, inr, Bool-cases, Text, text_eq_iff, contains, IsIn, IsNodup,
  length-le_of_nodup,
}
use llamacli.Hermes.{
  CallRecord, CircuitBreaker, CircuitBreakerConfig, new_breaker, call_key, distinct, should_stop,
}
use llamacli.Hermes.Window.{record_all, calls_of, history-record_all, config-record_all}

distinct-IsNodup : (ks : List Text) → IsNodup (distinct ks)
unfolding distinct
distinct-IsNodup [] = tt
distinct-IsNodup (k ∷ ks) = ground (arith, distinct-IsNodup ks)

contains-congr : (k j : Text) (ks : List Text) → k ≡ j → contains ks k ≡ contains ks j
contains-congr k j ks e = ap (contains ks) e

distinct-contains : (k : Text) (ks : List Text) → contains (distinct ks) k ≡ contains ks k
unfolding distinct
distinct-contains k [] = refl
distinct-contains k (j ∷ ks) = elim (Bool-cases (contains (distinct ks) j)) [
  | inl old ↦ rw old (
      ground (
        arith,
        distinct-contains k ks,
        distinct-contains j ks,
        text_eq_iff k j,
        contains-congr k j ks,
      ))
  | inr new ↦ rw new (ground (arith, distinct-contains k ks))
]

All-distinct : (P : Text → Type 0) (ks : List Text) → All P ks → All P (distinct ks)
unfolding distinct
All-distinct P [] h = tt
All-distinct P (k ∷ ks) (p, h) = elim (Bool-cases (contains (distinct ks) k)) [
  | inl old ↦ rw old (All-distinct P ks h)
  | inr new ↦ rw new (p, All-distinct P ks h)
]

-- The number of distinct calls is at most the size of any list of keys that holds them all.
distinct-le : (keys ks : List Text) → All (IsIn ks) keys → length (distinct keys) ≤ length ks
distinct-le keys ks h =
    length-le_of_nodup (distinct keys) ks (distinct-IsNodup keys) (All-distinct (IsIn ks) keys h)

All-distinct-IsIn : (js keys : List Text) → All (IsIn keys) js → All (IsIn (distinct keys)) js
All-distinct-IsIn [] keys _ = tt
All-distinct-IsIn (j ∷ js) keys (h, hs) =
    (distinct-contains j keys ∙ h, All-distinct-IsIn js keys hs)

-- It is at least the number of pairwise different keys that occur.
le-distinct :
    (js keys : List Text) → IsNodup js → All (IsIn keys) js → length js ≤ length (distinct keys)
le-distinct js keys nodup h =
    length-le_of_nodup js (distinct keys) nodup (All-distinct-IsIn js keys h)

drop-all : (xs ys : List CallRecord) → drop (length xs) (xs ++ ys) ≡ ys
drop-all [] ys = refl
drop-all (x ∷ xs) ys = drop-all xs ys

calls_of-append : (xs ys : List (CallRecord × ℕ)) → calls_of (xs ++ ys) ≡ calls_of xs ++ calls_of ys
unfolding calls_of
calls_of-append [] ys = refl
calls_of-append ((c, t) ∷ xs) ys = ap (◌∷◌ c) (calls_of-append xs ys)

stops_lem :
    (b : CircuitBreaker) (now : ℕ)
    → length b.history ≡ b.config.window_size
    → length (distinct (map call_key b.history)) ≤ b.config.max_distinct
    → should_stop b now ≢ none
unfolding should_stop
stops_lem b now full few = ground arith

goes_on_lem :
    (b : CircuitBreaker) (now : ℕ)
    → b.config.max_distinct < length (distinct (map call_key b.history))
    → now - b.last_progress_at ≤ b.config.hard_timeout_ms
    → should_stop b now ≡ none
unfolding should_stop
goes_on_lem b now many fresh = ground arith

module _ (config : CircuitBreakerConfig) (start : ℕ) (before recent : List (CallRecord × ℕ))
    (full : length (calls_of recent) ≡ config.window_size) where
  history_full :
      (record_all (new_breaker config start) (before ++ recent)).history ≡ calls_of recent
  history_full =
      let w = length-append (calls_of before) (calls_of recent) in
      history-record_all config start (before ++ recent)
      ∙ ap (take_last config.window_size) (calls_of-append before recent)
      ∙ ap (λ n. drop n (calls_of before ++ calls_of recent))
          {x = length (calls_of before ++ calls_of recent) - config.window_size}
          {y = length (calls_of before)} (omega (arith, w, full))
      ∙ drop-all (calls_of before) (calls_of recent)

  config_after : (record_all (new_breaker config start) (before ++ recent)).config ≡ config
  unfolding new_breaker
  config_after = config-record_all (new_breaker config start) (before ++ recent)

  -- When the latest `window_size` calls all have keys from a list of at most `max_distinct` keys, the
  -- breaker stops the turn, whatever came before and whatever the time is.
  pub should_stop-ne-none :
      (ks : List Text) (now : ℕ)
      → length ks ≤ config.max_distinct
      → All (IsIn ks) (map call_key (calls_of recent))
      → should_stop (record_all (new_breaker config start) (before ++ recent)) now ≢ none
  should_stop-ne-none ks now few h = stops_lem _ now (rw (history_full, config_after) full) (
      rw (history_full, config_after)
        (omega (arith, distinct-le (map call_key (calls_of recent)) ks h)))

  -- When more than `max_distinct` pairwise different keys occur among the latest `window_size` calls,
  -- the breaker lets the turn go on as long as the last call is no older than the timeout.
  pub should_stop-eq-none :
      (ks : List Text) (now : ℕ)
      → config.max_distinct < length ks
      → IsNodup ks
      → All (IsIn (map call_key (calls_of recent))) ks
      → now - (record_all (new_breaker config start) (before ++ recent)).last_progress_at
        ≤ config.hard_timeout_ms
      → should_stop (record_all (new_breaker config start) (before ++ recent)) now ≡ none
  should_stop-eq-none ks now many nodup h fresh =
      goes_on_lem _ now
        (rw (history_full, config_after)
          (omega (arith, le-distinct ks (map call_key (calls_of recent)) nodup h)))
        (rw config_after fresh)
