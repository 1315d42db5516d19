-- ===== src/Download.antt =====
-- The segmented download of `downloadRanges` (src/setup/download.ts): workers take the ranges that
-- are still to be fetched in order, write each response at its own offset, and record a range in the
-- sidecar when its response has ended. Any worker may act next, so the pool is a step relation.
pub mod Invariant
pub mod Safe
pub mod Requests
use llamacli.Prelude.{
  ℕ, suc, ◌+◌, ◌-◌, ◌≤◌, ◌<◌, ◌≡◌, max, min, List, [], ◌∷◌, ◌++◌, Option, Bool, true, false, ◌==◌,
  length, if◌then◌else◌, or_else, Text,
}
use llamacli.Ranges.{RangeSpan, span, DownloadProgress, plan_ranges, with_range, partition_ranges}

-- A response being written: the range that was asked for, and the offset of the next write.
pub record Segment : Type 0 where
  pub range : RangeSpan
  pub offset : ℕ

pub record Pool : Type 0 where
  pub workers : ℕ
  pub waiting : List RangeSpan
  pub running : List Segment
  pub written : List RangeSpan
  pub progress : DownloadProgress
  pub failed : Bool

-- `prior ?? { url, totalBytes, ranges: [], updatedAt: 0 }`
unfoldable pub prior_or_fresh : Option DownloadProgress → Text → ℕ → DownloadProgress
prior_or_fresh prior url total =
    or_else prior (record { url = url; total_bytes = total; ranges = []; updated_at = 0 })

-- The pool before the first worker runs. `written` is what the `.part` file holds from earlier runs.
unfoldable pub start_pool : Option DownloadProgress → Text → ℕ → ℕ → ℕ → List RangeSpan → Pool
start_pool prior url total connections max_part_bytes written =
    let progress = prior_or_fresh prior url total in
    let todo =
      (partition_ranges (plan_ranges total connections max_part_bytes) progress.ranges).1 in
    record {
      workers = max 1 (min connections (length todo));
      waiting = todo;
      running = [];
      written = written;
      progress = progress;
      failed = false;
    }

-- One segment is taken out of a list.
pub data Picks (s : Segment) : List Segment → List Segment → Type 0 where
  here : (rest : List Segment) → Picks s (s ∷ rest) rest
  there : (t : Segment) {all rest : List Segment} → Picks s all rest → Picks s (t ∷ all) (t ∷ rest)

-- The bytes of a write of `size` bytes at `offset`.
unfoldable pub bytes_at : ℕ → ℕ → List RangeSpan
bytes_at offset size = if size == 0 then [] else span offset (offset + size - 1) ∷ []

-- `take`: an idle worker takes the next range and requests it. `write`: a chunk of `size` bytes comes
-- and `handle.write` stores the first `stored` of them at the segment's offset; the code goes on by the
-- size of the chunk, and does not look at the end of the range. `finish`: the response has ended,
-- wherever its offset is, and the range is recorded. `fail`: a response is refused, a chunk comes after
-- an abort, or a read or write throws, and the worker stops.
pub data Step (p : Pool) : Pool → Type 0 where
  take :
      (r : RangeSpan) (rest : List RangeSpan)
      → p.waiting ≡ r ∷ rest
      → length p.running < p.workers
      → Step p (record p {
        waiting = rest;
        running = record { range = r; offset = r.start } ∷ p.running;
      })
  write :
      (s : Segment) (rest : List Segment) (size stored : ℕ)
      → Picks s p.running rest
      → stored ≤ size
      → Step p (record p {
        running = record s { offset = s.offset + size } ∷ rest;
        written = bytes_at s.offset stored ++ p.written;
      })
  finish :
      (s : Segment) (rest : List Segment) (now : ℕ)
      → Picks s p.running rest
      → Step p (record p { running = rest; progress = with_range p.progress s.range now })
  fail :
      (s : Segment) (rest : List Segment)
      → Picks s p.running rest
      → Step p (record p { running = rest; workers = p.workers - 1; failed = true })

pub data Reach (p : Pool) : Pool → Type 0 where
  start : Reach p p
  next : {q r : Pool} → Reach p q → Step q r → Reach p r

-- The bytes that a step passes over without storing them: those of a chunk that `handle.write` did not
-- take, and those of a range whose response ended before them.
unfoldable pub skipped : {p q : Pool} → Step p q → List RangeSpan
skipped (take r rest e idle) = []
skipped (write s rest size stored m part) = bytes_at (s.offset + stored) (size - stored)
skipped (finish s rest now m) = bytes_at s.offset (s.range.end + 1 - s.offset)
skipped (fail s rest m) = []

unfoldable pub missed : {p q : Pool} → Reach p q → List RangeSpan
missed start = []
missed (next r st) = skipped st ++ missed r
