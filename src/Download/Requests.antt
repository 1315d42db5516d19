-- ===== src/Download/Requests.antt =====
-- Which ranges the pool requests, and how many at once.
use llamacli.Prelude.{
  ℕ, suc, ◌≤◌, ◌≡◌, refl, sym, ap, ◌∙◌, max, List, [], ◌∷◌, ◌++◌, Option, length, Text, arith,
}
use mathlib.Core.List.{append_assoc}
use llamacli.Ranges.{RangeSpan, DownloadProgress, plan_ranges, partition_ranges}
use llamacli.Download.{
  Segment, Pool, prior_or_fresh, start_pool, Picks, here, there, take, write, finish, fail, Reach,
  start, next,
}

-- The ranges that a run requests, in order.
unfoldable pub asked : {p q : Pool} → Reach p q → List RangeSpan
asked start = []
asked (next r (take range rest e idle)) = asked r ++ (range ∷ [])
asked (next r (write s rest size stored m part)) = asked r
asked (next r (finish s rest now m)) = asked r
asked (next r (fail s rest m)) = asked r

length-Picks :
    {s : Segment} {all rest : List Segment} → Picks s all rest → length all ≡ suc (length rest)
length-Picks (here rest) = refl
length-Picks (there t m) = omega (arith, length-Picks m)

abbrev InOrder : {p q : Pool} → Reach p q → Type 0
InOrder {p} {q} run =
    (asked run ++ q.waiting ≡ p.waiting) × (length q.running ≤ q.workers) × (q.workers ≤ p.workers)

run-InOrder : {p q : Pool} (run : Reach p q) → length p.running ≤ p.workers → InOrder run
unfolding asked
run-InOrder start h = (refl, h, omega arith)
run-InOrder (next r (take range rest e idle)) h =
    let (order, busy, staff) = run-InOrder r h in
    (
      append_assoc (asked r) (range ∷ []) rest ∙ (ap (λ l. asked r ++ l) (sym e) ∙ order),
      omega arith,
      staff,
    )
run-InOrder (next r (write s rest size stored m part)) h =
    let (order, busy, staff) = run-InOrder r h in (order, omega (arith, length-Picks m), staff)
run-InOrder (next r (finish s rest now m)) h =
    let (order, busy, staff) = run-InOrder r h in (order, omega (arith, length-Picks m), staff)
run-InOrder (next r (fail s rest m)) h =
    let (order, busy, staff) = run-InOrder r h in
    (order, omega (arith, length-Picks m), omega arith)

-- At every moment of a download the ranges asked so far, followed by those that wait, are the
-- planned ranges that no earlier run recorded, in order: each is asked at most once, also after
-- failures, and so a run makes no more requests than there are such ranges. The responses running at
-- once are never more than the connections, or one where the connections are none.
pub requests-in_order :
    (prior : Option DownloadProgress) (url : Text) (total connections max_part_bytes : ℕ)
    (written : List RangeSpan) {q : Pool}
    (run : Reach (start_pool prior url total connections max_part_bytes written) q)
    → (asked run ++ q.waiting
        ≡ (partition_ranges
            (plan_ranges total connections max_part_bytes)
            (prior_or_fresh prior url total).ranges).1)
      × (length q.running ≤ max 1 connections)
unfolding start_pool
requests-in_order prior url total connections max_part_bytes written run =
    let (order, busy, staff) = run-InOrder run (omega arith) in (order, omega arith)
