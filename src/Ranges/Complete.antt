-- ===== src/Ranges/Complete.antt =====
-- The completeness verdict of a progress record.
use llamacli.Prelude.{
  ℕ, ◌+◌, ◌-◌, ◌≤◌, ◌<◌, ◌≡◌, inl, inr, ◌↔◌, List, [], ◌∷◌, true, arith, All, dec_lt,
}
use llamacli.Ranges.{RangeSpan, DownloadProgress, covered_bytes, is_complete}
use llamacli.Ranges.Merge.{Covers, IsMergedFrom, IsMerged}

abbrev pub Within : ℕ → RangeSpan → Type 0
Within total r = r.end < total

-- Merged spans from byte `a` on and before byte `t` hold at most `t - a` bytes.
covered_bytes-le :
    (a t : ℕ) (rs : List RangeSpan)
    → IsMergedFrom a rs
    → All (Within t) rs
    → covered_bytes rs ≤ t - a
unfolding covered_bytes
covered_bytes-le a t [] _ _ = omega arith
covered_bytes-le a t (r ∷ rs) (from, ok, merged) (w, ws) =
    omega (arith, covered_bytes-le (r.end + 2) t rs merged ws)

Covers-of_full :
    (a t n : ℕ) (rs : List RangeSpan)
    → IsMergedFrom a rs
    → All (Within t) rs
    → t - a ≤ covered_bytes rs
    → a ≤ n
    → n < t
    → Covers rs n
unfolding covered_bytes
Covers-of_full a t n [] _ _ full h k = omega arith
Covers-of_full a t n (r ∷ rs) (from, ok, merged) (w, ws) full h k =
    inl (omega (arith, covered_bytes-le (r.end + 2) t rs merged ws))

-- No byte below the start of merged spans lies in them.
Covers-ge : (a n : ℕ) (rs : List RangeSpan) → IsMergedFrom a rs → Covers rs n → a ≤ n
Covers-ge a n [] _ c = absurd c
Covers-ge a n (r ∷ rs) (from, ok, merged) (inl h) = omega arith
Covers-ge a n (r ∷ rs) (from, ok, merged) (inr c) =
    omega (arith, Covers-ge (r.end + 2) n rs merged c)

full_of_Covers :
    (a t : ℕ) (rs : List RangeSpan)
    → IsMergedFrom a rs
    → ((n : ℕ) → a ≤ n → n < t → Covers rs n)
    → t - a ≤ covered_bytes rs
unfolding covered_bytes
full_of_Covers a t [] merged all = elim (dec_lt a t) [
  | yes h ↦ absurd (all a (omega arith) h)
  | no h ↦ omega arith
]
full_of_Covers a t (r ∷ rs) (from, ok, merged) all = elim (dec_lt a t) [
  | yes h ↦
      let first : r.start ≤ a = starts (all a (omega arith) h) in
      elim (dec_lt (r.end + 1) t) [
        | yes k ↦ absurd (stops (all (r.end + 1) (omega arith) k))
        | no k ↦ omega arith
      ]
  | no h ↦ omega arith
]
  where
    starts : Covers (r ∷ rs) a → r.start ≤ a
    starts (inl h) = h.0
    starts (inr c) = absurd (omega (arith, Covers-ge (r.end + 2) a rs merged c))

    stops : Covers (r ∷ rs) (r.end + 1) → ⊥
    stops (inl h) = omega arith
    stops (inr c) = omega (arith, Covers-ge (r.end + 2) (r.end + 1) rs merged c)

-- The state that the download keeps: merged spans inside the file.
pub record IsValid (p : DownloadProgress) : Type 0 where
  pub merged : IsMerged p.ranges
  pub within : All (Within p.total_bytes) p.ranges

-- For a valid record of a non-empty file, the verdict "complete" holds exactly when every byte of the
-- file lies in a recorded span.
pub is_complete_iff :
    (p : DownloadProgress)
    → IsValid p
    → 0 < p.total_bytes
    → (is_complete p ≡ true) ↔ ((n : ℕ) → n < p.total_bytes → Covers p.ranges n)
unfolding is_complete
is_complete_iff p v h = (
  λ done n k.
      Covers-of_full 0 p.total_bytes n p.ranges v.merged v.within (ground arith) (omega arith) k,
  λ all.
      let full = full_of_Covers 0 p.total_bytes p.ranges v.merged (λ n _ k. all n k) in
      ground (arith, full),
)
