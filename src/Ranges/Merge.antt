-- ===== src/Ranges/Merge.antt =====
-- What `mergeRanges` keeps and what it establishes.
use llamacli.Prelude.{
  ℕ, ◌+◌, ◌≤◌, max, ◌⊎◌, inl, inr, ◌↔◌, List, [], ◌∷◌, arith, All, Bool-cases, leb, leb→le, leb→gt,
}
use llamacli.Ranges.{
  RangeSpan, span, insert_span, sort_spans, merge_from, merge_sorted, merge_ranges,
}

abbrev pub IsSpan : RangeSpan → Type 0
IsSpan r = r.start ≤ r.end

-- Byte `n` lies in the span; in one of the spans.
abbrev pub Has : ℕ → RangeSpan → Type 0
Has n r = (r.start ≤ n) × (n ≤ r.end)

abbrev pub Covers : List RangeSpan → ℕ → Type 0
Covers [] n = ⊥
Covers (r ∷ rs) n = Has n r ⊎ Covers rs n

-- In increasing order, and with at least one byte missing between two spans; from byte `a` on.
abbrev pub IsMergedFrom : ℕ → List RangeSpan → Type 0
IsMergedFrom a [] = Unit
IsMergedFrom a (r ∷ rs) = (a ≤ r.start) × (r.start ≤ r.end) × IsMergedFrom (r.end + 2) rs

abbrev pub IsMerged : List RangeSpan → Type 0
IsMerged rs = IsMergedFrom 0 rs

abbrev IsSortedFrom : ℕ → List RangeSpan → Type 0
IsSortedFrom a [] = Unit
IsSortedFrom a (r ∷ rs) = (a ≤ r.start) × IsSortedFrom r.start rs

insert_span-IsSortedFrom :
    (a : ℕ) (r : RangeSpan) (rs : List RangeSpan)
    → a ≤ r.start
    → IsSortedFrom a rs
    → IsSortedFrom a (insert_span r rs)
unfolding insert_span
insert_span-IsSortedFrom a r [] h _ = (h, tt)
insert_span-IsSortedFrom a r (s ∷ ss) h (k, ks) = elim (Bool-cases (leb r.start s.start)) [
  | inl le ↦ rw le (h, (leb→le _ _ le, ks))
  | inr gt ↦ rw gt (k, insert_span-IsSortedFrom s.start r ss (omega (arith, leb→gt _ _ gt)) ks)
]

sort_spans-IsSortedFrom : (rs : List RangeSpan) → IsSortedFrom 0 (sort_spans rs)
unfolding sort_spans
sort_spans-IsSortedFrom [] = tt
sort_spans-IsSortedFrom (r ∷ rs) =
    insert_span-IsSortedFrom 0 r (sort_spans rs) (omega arith) (sort_spans-IsSortedFrom rs)

insert_span-All :
    (P : RangeSpan → Type 0) (r : RangeSpan) (rs : List RangeSpan)
    → P r
    → All P rs
    → All P (insert_span r rs)
unfolding insert_span
insert_span-All P r [] h _ = (h, tt)
insert_span-All P r (s ∷ ss) h (k, ks) = elim (Bool-cases (leb r.start s.start)) [
  | inl le ↦ rw le (h, (k, ks))
  | inr gt ↦ rw gt (k, insert_span-All P r ss h ks)
]

pub sort_spans-All :
    (P : RangeSpan → Type 0) (rs : List RangeSpan) → All P rs → All P (sort_spans rs)
unfolding sort_spans
sort_spans-All P [] _ = tt
sort_spans-All P (r ∷ rs) (h, hs) = insert_span-All P r (sort_spans rs) h (sort_spans-All P rs hs)

Covers-insert_span :
    (r : RangeSpan) (rs : List RangeSpan) (n : ℕ)
    → Covers (insert_span r rs) n ↔ (Has n r ⊎ Covers rs n)
unfolding insert_span
Covers-insert_span r [] n = (λ h. h, λ h. h)
Covers-insert_span r (s ∷ ss) n = ground (arith, Covers-insert_span r ss n)

Covers-sort_spans : (rs : List RangeSpan) (n : ℕ) → Covers (sort_spans rs) n ↔ Covers rs n
unfolding sort_spans
Covers-sort_spans [] n = (λ h. h, λ h. h)
Covers-sort_spans (r ∷ rs) n =
    ground (arith, Covers-insert_span r (sort_spans rs) n, Covers-sort_spans rs n)

IsSortedFrom-le : {a b : ℕ} (rs : List RangeSpan) → a ≤ b → IsSortedFrom b rs → IsSortedFrom a rs
IsSortedFrom-le [] _ _ = tt
IsSortedFrom-le (r ∷ rs) h (k, ks) = (omega arith, ks)

Covers-merge_from :
    (last : RangeSpan) (rs : List RangeSpan) (n : ℕ)
    → IsSpan last
    → All IsSpan rs
    → IsSortedFrom last.start rs
    → Covers (merge_from last rs) n ↔ (Has n last ⊎ Covers rs n)
unfolding merge_from
Covers-merge_from last [] n ok _ _ = (λ h. h, λ h. h)
Covers-merge_from last (r ∷ rs) n ok (k, ks) (le, sorted) =
    let sorted' = IsSortedFrom-le rs le sorted in
    let joined =
      Covers-merge_from (span last.start (max last.end r.end)) rs n (omega arith) ks sorted' in
    ground (arith, joined, Covers-merge_from r rs n k ks sorted)

merge_from-IsMergedFrom :
    (a : ℕ) (last : RangeSpan) (rs : List RangeSpan)
    → a ≤ last.start
    → IsSpan last
    → All IsSpan rs
    → IsSortedFrom last.start rs
    → IsMergedFrom a (merge_from last rs)
unfolding merge_from
merge_from-IsMergedFrom a last [] le ok _ _ = (le, ok, tt)
merge_from-IsMergedFrom a last (r ∷ rs) le ok (k, ks) (lr, sorted) =
    elim (Bool-cases (leb r.start (last.end + 1))) [
      | inl joins ↦ rw joins (
          merge_from-IsMergedFrom a (span last.start (max last.end r.end)) rs le (omega arith) ks
            (IsSortedFrom-le rs lr sorted))
      | inr apart ↦ rw apart (
        le,
        ok,
        merge_from-IsMergedFrom (last.end + 2) r rs (omega (arith, leb→gt _ _ apart)) k ks sorted,
      )
    ]

merge_sorted-IsMerged :
    (rs : List RangeSpan) → All IsSpan rs → IsSortedFrom 0 rs → IsMerged (merge_sorted rs)
unfolding merge_sorted
merge_sorted-IsMerged [] _ _ = tt
merge_sorted-IsMerged (r ∷ rs) (k, ks) (_, sorted) =
    merge_from-IsMergedFrom 0 r rs (omega arith) k ks sorted

Covers-merge_sorted :
    (rs : List RangeSpan) (n : ℕ)
    → All IsSpan rs
    → IsSortedFrom 0 rs
    → Covers (merge_sorted rs) n ↔ Covers rs n
unfolding merge_sorted
Covers-merge_sorted [] n _ _ = (λ h. h, λ h. h)
Covers-merge_sorted (r ∷ rs) n (k, ks) (_, sorted) = Covers-merge_from r rs n k ks sorted

-- Merging non-empty spans gives spans in increasing order with a gap before each.
pub merge_ranges-IsMerged : (rs : List RangeSpan) → All IsSpan rs → IsMerged (merge_ranges rs)
unfolding merge_ranges
merge_ranges-IsMerged rs h =
    merge_sorted-IsMerged (sort_spans rs) (sort_spans-All IsSpan rs h) (sort_spans-IsSortedFrom rs)

-- Merging keeps the set of bytes: a byte lies in the merged spans exactly when it lies in one of the
-- given spans, where these are non-empty.
pub Covers-merge_ranges :
    (rs : List RangeSpan) (n : ℕ) → All IsSpan rs → Covers (merge_ranges rs) n ↔ Covers rs n
unfolding merge_ranges
Covers-merge_ranges rs n h =
    let sorted = sort_spans-IsSortedFrom rs in
    let merged = Covers-merge_sorted (sort_spans rs) n (sort_spans-All IsSpan rs h) sorted in
    let permuted = Covers-sort_spans rs n in
    (λ c. permuted.0 (merged.0 c), λ c. merged.1 (permuted.1 c))
