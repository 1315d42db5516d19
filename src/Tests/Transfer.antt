-- ===== src/Tests/Transfer.antt =====
-- Concrete downloads, ranges, ports and circuit breakers.
use llamacli.Prelude.{
  ℕ, ◌+◌, ◌<◌, ◌≤◌, length, ◌≡◌, ◌≢◌, refl, ◌⊎◌, ◌↔◌, List, [], ◌∷◌, ◌++◌, none, some, true, All,
  Text, lit, text_eq, arith,
}
use llamacli.Prelude.Int.{pos, negsuc}
use llamacli.Ranges.{
  RangeSpan, span, DownloadProgress, plan_ranges, plan_count, plan_from, merge_ranges, merge_sorted,
  merge_from, sort_spans, insert_span, is_complete, covered_bytes, with_range, partition_ranges,
  malformed, raw, Sidecar, unreadable, parsed, load_progress, trusted,
}
use llamacli.Ranges.Plan.{Tiles, plan_ranges-Tiles}
use llamacli.Ranges.Merge.{IsSpan, Covers, IsMerged, merge_ranges-IsMerged, Covers-merge_ranges}
use llamacli.Ranges.Complete.{IsValid, is_complete_iff}
use llamacli.Download.{
  Pool, bytes_at, skipped, missed, prior_or_fresh, start_pool, here, take, write, finish, Reach,
  start, next,
}
use llamacli.Download.Requests.{asked, requests-in_order}
use llamacli.Ports.{PortState, in_use, plan_ports}
use llamacli.Ports.Choice.{AllTaken, requested, plan_ports-usable}
use llamacli.ServerPolicy.{Replacement, ours}
use llamacli.Hermes.{CallRecord, CircuitBreakerConfig, new_breaker, should_stop, call_key}
use llamacli.Hermes.Window.{record_all, calls_of}
use llamacli.Hermes.Trips.{should_stop-ne-none}

plan_ranges-Tiles_example : Tiles 0 10 (plan_ranges 10 3 4)
plan_ranges-Tiles_example = plan_ranges-Tiles 10 3 4 (omega arith) (omega arith)

abbrev three_spans : List RangeSpan
three_spans = span 4 6 ∷ span 0 1 ∷ span 2 3 ∷ []

three_spans-IsSpan : All IsSpan three_spans
three_spans-IsSpan = (omega arith, (omega arith, (omega arith, tt)))

merge_ranges-IsMerged_example : IsMerged (merge_ranges three_spans)
merge_ranges-IsMerged_example = merge_ranges-IsMerged three_spans three_spans-IsSpan

Covers-merge_ranges_example : Covers (merge_ranges three_spans) 5 ↔ Covers three_spans 5
Covers-merge_ranges_example = Covers-merge_ranges three_spans 5 three_spans-IsSpan

abbrev half : DownloadProgress
half = record { url = lit "u"; total_bytes = 4; ranges = span 0 1 ∷ []; updated_at = 0 }

half-IsValid : IsValid half
half-IsValid = record { merged = (omega arith, omega arith, tt); within = (omega arith, tt) }

is_complete_iff_example :
    (is_complete half ≡ true) ↔ ((n : ℕ) → n < half.total_bytes → Covers half.ranges n)
is_complete_iff_example = is_complete_iff half half-IsValid (omega arith)

abbrev same_url : Text → Text
same_url u = u

abbrev broken_sidecar : Sidecar
broken_sidecar =
    parsed (lit "u") 4 (some (malformed ∷ raw (negsuc 0) (pos 2) ∷ raw (pos 0) (pos 1) ∷ [])) 0

broken_sidecar_loads : load_progress same_url broken_sidecar (lit "u") 4 ≡ some half
unfolding load_progress trusted merge_ranges merge_sorted merge_from sort_spans insert_span lit
    text_eq
broken_sidecar_loads = refl

-- A file of one byte, downloaded whole.
abbrev pool : Pool
pool = start_pool (load_progress same_url unreadable (lit "u") 1) (lit "u") 1 1 1 []

abbrev byte : RangeSpan
byte = span 0 0

abbrev taken : Pool
taken = record pool { waiting = []; running = record { range = byte; offset = 0 } ∷ [] }

abbrev stored : Pool
stored = record taken { running = record { range = byte; offset = 1 } ∷ []; written = byte ∷ [] }

abbrev settled : Pool
settled = record stored { running = []; progress = with_range stored.progress byte 5 }

pool-taken : Reach pool taken
unfolding start_pool prior_or_fresh load_progress plan_ranges plan_count plan_from partition_ranges
pool-taken = next start (take byte [] refl (omega arith))

pool-stored : Reach pool stored
unfolding start_pool prior_or_fresh load_progress plan_ranges plan_count plan_from partition_ranges
    bytes_at
pool-stored =
    next pool-taken (write (record { range = byte; offset = 0 }) [] 1 1 (here []) (omega arith))

pool-settled : Reach pool settled
pool-settled = next pool-stored (finish (record { range = byte; offset = 1 }) [] 5 (here []))

requests-in_order_example :
    (asked pool-settled ++ settled.waiting
      ≡ (partition_ranges
          (plan_ranges 1 1 1)
          (prior_or_fresh (load_progress same_url unreadable (lit "u") 1) (lit "u") 1).ranges).1)
    × (length settled.running ≤ 1)
unfolding start_pool
requests-in_order_example =
    requests-in_order (load_progress same_url unreadable (lit "u") 1) (lit "u") 1 1 1 []
      pool-settled

-- A response that ends without a byte leaves a complete record all the same.
abbrev unwritten : Pool
unwritten = record taken { running = []; progress = with_range taken.progress byte 5 }

pool-unwritten : Reach pool unwritten
pool-unwritten = next pool-taken (finish (record { range = byte; offset = 0 }) [] 5 (here []))

unwritten-is_complete :
    (is_complete unwritten.progress ≡ true)
    × (unwritten.written ≡ [])
    × (missed pool-unwritten ≡ byte ∷ [])
unfolding start_pool prior_or_fresh load_progress with_range merge_ranges merge_sorted merge_from
    sort_spans insert_span is_complete covered_bytes missed skipped bytes_at pool-unwritten
    pool-taken
unwritten-is_complete = (refl, refl, refl)

abbrev busy_server : ℕ → PortState
busy_server p = in_use

plan_ports-usable_example :
    ((busy_server (plan_ports busy_server none (8081 ∷ [])).port) ≢ in_use)
    ⊎ (((plan_ports busy_server none (8081 ∷ [])).port ≡ requested none + 20)
        × AllTaken busy_server (8081 ∷ []) (requested none + 1) 20)
plan_ports-usable_example = plan_ports-usable busy_server none (8081 ∷ [])

abbrev switch : Replacement
switch = record {
  owner = ours 42;
  port = 8080;
  servers = record { pid = 42; port = 8080 } ∷ [];
  changes = [];
  confirmed = true;
  confirm_command = lit "/server restart confirm";
}

abbrev small_breaker : CircuitBreakerConfig
small_breaker = record { window_size = 2; max_distinct = 1; hard_timeout_ms = 100 }

abbrev read_call : CallRecord
read_call = record { tool_name = lit "read"; args_signature = lit "a" }

abbrev write_call : CallRecord
write_call = record { tool_name = lit "write"; args_signature = lit "b" }

abbrev read_key : Text
read_key = lit "read:a"

abbrev write_key : Text
write_key = lit "write:b"

should_stop-ne-none_example :
    should_stop
      (record_all
        (new_breaker small_breaker 0)
        (((write_call, 0) ∷ []) ++ ((read_call, 1) ∷ (read_call, 2) ∷ [])))
      3
    ≢ none
unfolding calls_of call_key lit text_eq
should_stop-ne-none_example =
    should_stop-ne-none small_breaker 0 ((write_call, 0) ∷ [])
      ((read_call, 1) ∷ (read_call, 2) ∷ []) refl (read_key ∷ []) 3 (omega arith) (refl, (refl, tt))
