-- ===== src/Ranges/Resume.antt =====
-- Recording ranges, reading the sidecar back, and resuming a download.
use llamacli.Prelude.{
  ℕ, ◌+◌, ◌≤◌, ◌<◌, max, ◌≡◌, refl, subst, ◌⊎◌, inl, inr, ◌↔◌, List, [], ◌∷◌, ◌++◌, some, none,
  true, arith, All, All-append, Bool-cases, ◌&&◌, leb, Text, dec_le,
}
use llamacli.Prelude.Int.{ℤ, pos_part, pos, negsuc, leb_ℤ, ltb_ℤ}
use llamacli.Ranges.{
  RangeSpan, span, DownloadProgress, with_range, merge_from, merge_sorted, merge_ranges, is_covered,
  split_ranges, partition_ranges, RawSpan, malformed, raw, Sidecar, unreadable, parsed, trusted,
  load_progress,
}
use llamacli.Ranges.Plan.{Tiles}
use llamacli.Ranges.Merge.{
  Has, Covers, IsSpan, IsMergedFrom, sort_spans-All, merge_ranges-IsMerged, Covers-merge_ranges,
}
use llamacli.Ranges.Complete.{Within, IsValid}

IsMergedFrom-All : (a : ℕ) (rs : List RangeSpan) → IsMergedFrom a rs → All IsSpan rs
IsMergedFrom-All a [] _ = tt
IsMergedFrom-All a (r ∷ rs) (_, ok, merged) = (ok, IsMergedFrom-All (r.end + 2) rs merged)

merge_from-Within :
    (t : ℕ) (last : RangeSpan) (rs : List RangeSpan)
    → Within t last
    → All (Within t) rs
    → All (Within t) (merge_from last rs)
unfolding merge_from
merge_from-Within t last [] h _ = (h, tt)
merge_from-Within t last (r ∷ rs) h (k, ks) = elim (Bool-cases (leb r.start (last.end + 1))) [
  | inl joins ↦
      rw joins (merge_from-Within t (span last.start (max last.end r.end)) rs (omega arith) ks)
  | inr apart ↦ rw apart (h, merge_from-Within t r rs k ks)
]

merge_sorted-Within :
    (t : ℕ) (rs : List RangeSpan) → All (Within t) rs → All (Within t) (merge_sorted rs)
unfolding merge_sorted
merge_sorted-Within t [] _ = tt
merge_sorted-Within t (r ∷ rs) (k, ks) = merge_from-Within t r rs k ks

merge_ranges-Within :
    (t : ℕ) (rs : List RangeSpan) → All (Within t) rs → All (Within t) (merge_ranges rs)
unfolding merge_ranges
merge_ranges-Within t rs h = merge_sorted-Within t _ (sort_spans-All (Within t) rs h)

-- Recording a finished range that lies in the file keeps the record valid.
pub with_range-IsValid :
    (p : DownloadProgress) (s : RangeSpan) (now : ℕ)
    → IsValid p
    → IsSpan s
    → Within p.total_bytes s
    → IsValid (with_range p s now)
unfolding with_range
with_range-IsValid p s now v ok w =
    let spans =
      All-append IsSpan p.ranges (s ∷ []) (IsMergedFrom-All 0 p.ranges v.merged) (ok, tt) in
    record {
      merged = merge_ranges-IsMerged (p.ranges ++ (s ∷ [])) spans;
      within =
          merge_ranges-Within p.total_bytes _
            (All-append (Within p.total_bytes) p.ranges (s ∷ []) v.within (w, tt));
    }

pub total-with_range :
    (p : DownloadProgress) (s : RangeSpan) (now : ℕ)
    → (with_range p s now).total_bytes ≡ p.total_bytes
unfolding with_range
total-with_range p s now = refl

Covers-append : (rs ss : List RangeSpan) (n : ℕ) → Covers (rs ++ ss) n ↔ (Covers rs n ⊎ Covers ss n)
Covers-append [] ss n = ground arith
Covers-append (r ∷ rs) ss n = ground (arith, Covers-append rs ss n)

-- Recording a non-empty finished range in a valid record adds the bytes of that range to the ones it
-- claims, and no others.
pub Covers-with_range :
    (p : DownloadProgress) (s : RangeSpan) (now n : ℕ)
    → IsValid p
    → IsSpan s
    → Covers (with_range p s now).ranges n ↔ (Covers p.ranges n ⊎ Has n s)
unfolding with_range
Covers-with_range p s now n v ok =
    let spans =
      All-append IsSpan p.ranges (s ∷ []) (IsMergedFrom-All 0 p.ranges v.merged) (ok, tt) in
    ground
      (arith, Covers-merge_ranges (p.ranges ++ (s ∷ [])) n spans, Covers-append p.ranges (s ∷ []) n)

kept_bounds :
    (total : ℕ) (a b : ℤ)
    → (leb_ℤ a b && leb_ℤ (pos 0) a && ltb_ℤ b (pos total)) ≡ true
    → (pos_part a ≤ pos_part b) × (pos_part b < total)
kept_bounds total (pos a) (pos b) h = ground arith
kept_bounds total (pos a) (negsuc b) h = ground arith
kept_bounds total (negsuc a) b h = ground arith

trusted-All :
    (total : ℕ) (rs : List RawSpan)
    → All IsSpan (trusted total rs) × All (Within total) (trusted total rs)
unfolding trusted
trusted-All total [] = (tt, tt)
trusted-All total (malformed ∷ rs) = trusted-All total rs
trusted-All total (raw a b ∷ rs) =
    elim (Bool-cases (leb_ℤ a b && leb_ℤ (pos 0) a && ltb_ℤ b (pos total))) [
      | inl good ↦
          let (ok, inside) = kept_bounds total a b good in
          rw good ((ok, (trusted-All total rs).0), (inside, (trusted-All total rs).1))
      | inr bad ↦ rw bad (trusted-All total rs)
    ]

loaded : List RawSpan → ℕ → Text → ℕ → DownloadProgress
loaded rs at url total = record {
  url = url;
  total_bytes = total;
  ranges = merge_ranges (trusted total rs);
  updated_at = at;
}

loaded-IsValid :
    (rs : List RawSpan) (at : ℕ) (url : Text) (total : ℕ) → IsValid (loaded rs at url total)
unfolding loaded
loaded-IsValid rs at url total =
    let (spans, inside) = trusted-All total rs in
    record {
      merged = merge_ranges-IsMerged (trusted total rs) spans;
      within = merge_ranges-Within total (trusted total rs) inside;
    }

-- Whatever the sidecar file holds, what is read back from it is a valid record of the wanted size,
-- under the wanted URL.
pub load_progress-IsValid :
    (stable_url_key : Text → Text) (file : Sidecar) (url : Text) (total : ℕ) (p : DownloadProgress)
    → load_progress stable_url_key file url total ≡ some p
    → IsValid p × (p.total_bytes ≡ total) × (p.url ≡ url)
unfolding load_progress loaded
load_progress-IsValid key unreadable url total p e = ground arith
load_progress-IsValid key (parsed u n none at) url total p e = ground arith
load_progress-IsValid key (parsed u n (some rs) at) url total p e =
    let same : loaded rs at url total ≡ p = ground arith in
    subst (λ q. IsValid q × (q.total_bytes ≡ total) × (q.url ≡ url)) same
      (loaded-IsValid rs at url total, refl, refl)

-- A span is listed.
abbrev pub IsIn : RangeSpan → List RangeSpan → Type 0
IsIn r [] = ⊥
IsIn r (s ∷ ss) = (r ≡ s) ⊎ IsIn r ss

Covers-of_IsIn : (r : RangeSpan) (rs : List RangeSpan) (n : ℕ) → IsIn r rs → Has n r → Covers rs n
Covers-of_IsIn r [] n m h = absurd m
Covers-of_IsIn r (s ∷ ss) n (inl e) h = inl (subst (Has n) e h)
Covers-of_IsIn r (s ∷ ss) n (inr m) h = inr (Covers-of_IsIn r ss n m h)

IsIn-of_Covers : (rs : List RangeSpan) (n : ℕ) → Covers rs n → (r : RangeSpan) × IsIn r rs × Has n r
IsIn-of_Covers [] n c = absurd c
IsIn-of_Covers (r ∷ rs) n (inl h) = (r, inl refl, h)
IsIn-of_Covers (r ∷ rs) n (inr c) = let (s, m, h) = IsIn-of_Covers rs n c in (s, inr m, h)

is_covered-Covers :
    (done : List RangeSpan) (p : RangeSpan) (n : ℕ)
    → is_covered done p ≡ true
    → Has n p
    → Covers done n
unfolding is_covered
is_covered-Covers [] p n e h = ground arith
is_covered-Covers (d ∷ ds) p n e h = ground (arith, is_covered-Covers ds p n)

Covers-split_ranges :
    (planned done : List RangeSpan) (n : ℕ)
    → Covers planned n
    → Covers done n ⊎ Covers (split_ranges planned done).1 n
unfolding split_ranges
Covers-split_ranges [] done n c = absurd c
Covers-split_ranges (p ∷ ps) done n c =
    ground (arith, is_covered-Covers done p n, Covers-split_ranges ps done n)

-- Every planned byte is recorded already, or lies in a range that is still to be fetched.
pub Covers-partition_ranges :
    (planned done : List RangeSpan) (n : ℕ)
    → Covers planned n
    → Covers done n ⊎ Covers (partition_ranges planned done).1 n
unfolding partition_ranges
Covers-partition_ranges planned [] n c = inr c
Covers-partition_ranges planned (d ∷ ds) n c = Covers-split_ranges planned (d ∷ ds) n c

pub Covers-of_Tiles : (a t n : ℕ) (rs : List RangeSpan) → Tiles a t rs → a ≤ n → n < t → Covers rs n
Covers-of_Tiles a t n [] e h k = omega arith
Covers-of_Tiles a t n (r ∷ rs) (from, ok, rest) h k = elim (dec_le n r.end) [
  | yes inside ↦ inl (omega arith)
  | no after ↦ inr (Covers-of_Tiles (r.end + 1) t n rs rest (omega arith) k)
]
