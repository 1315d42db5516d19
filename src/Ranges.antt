-- ===== src/Ranges.antt =====
-- The byte ranges of a download: src/setup/downloadProgress.ts and `planRanges` of
-- src/setup/download.ts. Spans are inclusive at both ends. Byte counts are natural numbers.
pub mod Plan
pub mod Merge
pub mod Complete
pub mod Resume
use llamacli.Prelude.{
  ℕ, zero, suc, ◌+◌, ◌-◌, ◌/◌, min, max, List, [], ◌∷◌, ◌++◌, Option, none, some, Bool, true, false,
  ◌||◌, not, ◌&&◌, any, ltb, leb, ◌==◌, if◌then◌else◌, Text, text_eq,
}
use llamacli.Prelude.Int.{ℤ, pos, pos_part, leb_ℤ, ltb_ℤ}

pub record RangeSpan : Type 0 where
  pub start : ℕ
  pub end : ℕ

abbrev pub span : ℕ → ℕ → RangeSpan
span a b = record { start = a; end = b }

pub record DownloadProgress : Type 0 where
  pub url : Text
  pub total_bytes : ℕ
  pub ranges : List RangeSpan
  pub updated_at : ℕ

-- `Math.ceil(a / b)` for b > 0.
abbrev pub ceil_div : ℕ → ℕ → ℕ
ceil_div a b = (a + (b - 1)) / b

-- The loop `for (start = 0; start < total; start += chunk)`, with fuel for its rounds.
unfoldable pub plan_from : ℕ → ℕ → ℕ → ℕ → List RangeSpan
plan_from zero total chunk start = []
plan_from (suc fuel) total chunk start =
    let rest = plan_from fuel total chunk (start + chunk) in
    if ltb start total then span start (min (total - 1) (start + chunk - 1)) ∷ rest else []

-- The number of ranges that is aimed at, and the size of each.
unfoldable pub plan_count : ℕ → ℕ → ℕ → ℕ
plan_count total parts max_part_bytes =
    max (max 1 parts) (max 1 (ceil_div total (max 1 max_part_bytes)))

unfoldable pub plan_ranges : ℕ → ℕ → ℕ → List RangeSpan
plan_ranges total parts max_part_bytes =
    if total == 0 || parts == 0
    then []
    else plan_from total total (ceil_div total (plan_count total parts max_part_bytes)) 0

-- The stable sort by `start`.
unfoldable pub insert_span : RangeSpan → List RangeSpan → List RangeSpan
insert_span r [] = r ∷ []
insert_span r (s ∷ ss) = if leb r.start s.start then r ∷ s ∷ ss else s ∷ insert_span r ss

unfoldable pub sort_spans : List RangeSpan → List RangeSpan
sort_spans [] = []
sort_spans (r ∷ rs) = insert_span r (sort_spans rs)

-- The loop of `mergeRanges`: `last` is the element of `out` that is still open.
unfoldable pub merge_from : RangeSpan → List RangeSpan → List RangeSpan
merge_from last [] = last ∷ []
merge_from last (r ∷ rs) =
    let joined = merge_from (span last.start (max last.end r.end)) rs in
    let pushed = last ∷ merge_from r rs in if leb r.start (last.end + 1) then joined else pushed

unfoldable pub merge_sorted : List RangeSpan → List RangeSpan
merge_sorted [] = []
merge_sorted (r ∷ rs) = merge_from r rs

unfoldable pub merge_ranges : List RangeSpan → List RangeSpan
merge_ranges rs = merge_sorted (sort_spans rs)

-- `r.end - r.start + 1` of a span with start ≤ end.
unfoldable pub covered_bytes : List RangeSpan → ℕ
covered_bytes [] = 0
covered_bytes (r ∷ rs) = (r.end - r.start + 1) + covered_bytes rs

unfoldable pub is_complete : DownloadProgress → Bool
is_complete p = ltb 0 p.total_bytes && leb p.total_bytes (covered_bytes p.ranges)

unfoldable pub with_range : DownloadProgress → RangeSpan → ℕ → DownloadProgress
with_range p s now = record p { ranges = merge_ranges (p.ranges ++ (s ∷ [])); updated_at = now }

-- Whether one recorded span covers all of the planned one.
unfoldable pub is_covered : List RangeSpan → RangeSpan → Bool
is_covered done p = any (λ d. leb d.start p.start && leb p.end d.end) done

-- The loop of `partitionRanges`: the spans to skip, and those to fetch.
unfoldable pub split_ranges : List RangeSpan → List RangeSpan → List RangeSpan × List RangeSpan
split_ranges [] done = ([], [])
split_ranges (p ∷ ps) done =
    let (skip, todo) = split_ranges ps done in
    if is_covered done p then (p ∷ skip, todo) else (skip, p ∷ todo)

unfoldable pub partition_ranges : List RangeSpan → List RangeSpan → List RangeSpan × List RangeSpan
partition_ranges planned [] = ([], planned)
partition_ranges planned (d ∷ ds) = split_ranges planned (d ∷ ds)

-- An entry of the parsed `ranges` array: `malformed` is a falsy entry, or one whose start or end is
-- no finite number.
pub data RawSpan : Type 0 where
  malformed : RawSpan
  raw : ℤ → ℤ → RawSpan

-- What the sidecar file holds: `unreadable` is a missing file, text that is no JSON, or JSON that is
-- no object; `ranges` is none where it is no array.
pub data Sidecar : Type 0 where
  unreadable : Sidecar
  parsed : Text → ℕ → Option (List RawSpan) → ℕ → Sidecar

unfoldable pub trusted : ℕ → List RawSpan → List RangeSpan
trusted total [] = []
trusted total (malformed ∷ rs) = trusted total rs
trusted total (raw a b ∷ rs) =
    let rest = trusted total rs in
    if leb_ℤ a b && leb_ℤ (pos 0) a && ltb_ℤ b (pos total)
    then span (pos_part a) (pos_part b) ∷ rest
    else rest

-- `stableUrlKey` (built on the URL parser) is an argument.
unfoldable pub load_progress : (Text → Text) → Sidecar → Text → ℕ → Option DownloadProgress
load_progress stable_url_key unreadable url total = none
load_progress stable_url_key (parsed u n none at) url total = none
load_progress stable_url_key (parsed u n (some rs) at) url total =
    if total == 0
    then none
    else if not (text_eq (stable_url_key u) (stable_url_key url))
    then none
    else if not (n == total)
    then none
    else some (record {
      url = url;
      total_bytes = total;
      ranges = merge_ranges (trusted total rs);
      updated_at = at;
    })
