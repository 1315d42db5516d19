-- ===== src/Ranges/Plan.antt =====
-- The plan of a download tiles the file.
use llamacli.Prelude.{
  ℕ, zero, suc, ◌+◌, ◌-◌, ◌*◌, ◌≤◌, ◌<◌, min, max, ◌≡◌, subst, List, [], ◌∷◌, arith, All,
  Bool-cases, inl, inr, ltb, ltb→lt, ltb→ge, ◌==◌, ◌||◌,
}
use llamacli.Ranges.{RangeSpan, plan_from, plan_ranges, plan_count, ceil_div}

-- The spans are non-empty, follow one another with no gap and no overlap, begin at byte `a` and end
-- just before byte `t`.
abbrev pub Tiles : ℕ → ℕ → List RangeSpan → Type 0
Tiles a t [] = a ≡ t
Tiles a t (r ∷ rs) = (r.start ≡ a) × (a ≤ r.end) × Tiles (r.end + 1) t rs

Tiles-plan_from :
    (fuel total chunk start : ℕ)
    → 0 < chunk
    → total ≤ start + fuel
    → Tiles (min total start) total (plan_from fuel total chunk start)
unfolding plan_from
Tiles-plan_from zero total chunk start pos enough = omega arith
Tiles-plan_from (suc fuel) total chunk start pos enough = elim (Bool-cases (ltb start total)) [
  | inl more ↦
      let lt = ltb→lt start total more in
      rw more (
        omega arith,
        omega arith,
        subst (λ n. Tiles n total (plan_from fuel total chunk (start + chunk)))
            {x = min total (start + chunk)} {y = min (total - 1) (start + chunk - 1) + 1}
            (omega arith) (Tiles-plan_from fuel total chunk (start + chunk) pos (omega arith)),
      )
  | inr done ↦ rw done (omega (arith, ltb→ge start total done))
]

-- `ceil(a / b) ≤ c` says that c spans of b bytes, or b of c, hold a bytes.
ceil_div-le : (a b c : ℕ) → 0 < b → a ≤ c * b → ceil_div a b ≤ c
ceil_div-le a b c h k = grind arith

le-ceil_div-mul : (a b : ℕ) → 0 < b → a ≤ ceil_div a b * b
le-ceil_div-mul a b h = grind arith

ceil_div_pos : (a b : ℕ) → 0 < b → 0 < a → 0 < ceil_div a b
ceil_div_pos a b h k = grind (arith, le-ceil_div-mul a b)

enough :
    (total cap by_size count : ℕ) → total ≤ by_size * cap → by_size ≤ count → total ≤ cap * count
enough total cap by_size count h k = grind arith

chunk-le :
    (total parts max_part_bytes : ℕ)
    → ceil_div total (plan_count total parts max_part_bytes) ≤ max 1 max_part_bytes
unfolding plan_count
chunk-le total parts max_part_bytes =
    let cap = max 1 max_part_bytes in
    let by_size = ceil_div total cap in
    let count = max (max 1 parts) (max 1 by_size) in
    ceil_div-le total count cap (omega arith)
      (enough total cap by_size count (le-ceil_div-mul total cap (omega arith)) (omega arith))

count_pos : (total parts max_part_bytes : ℕ) → 0 < plan_count total parts max_part_bytes
unfolding plan_count
count_pos total parts max_part_bytes = omega arith

plan_from-le_chunk :
    (fuel total chunk start : ℕ)
    → 0 < chunk
    → All (λ r. r.end - r.start + 1 ≤ chunk) (plan_from fuel total chunk start)
unfolding plan_from
plan_from-le_chunk zero total chunk start pos = tt
plan_from-le_chunk (suc fuel) total chunk start pos = elim (Bool-cases (ltb start total)) [
  | inl more ↦ rw more (omega arith, plan_from-le_chunk fuel total chunk (start + chunk) pos)
  | inr done ↦ rw done tt
]

-- The planned ranges cover exactly the bytes of the file: every byte once, with no gap and no
-- overlap, for a non-empty file and at least one part.
pub plan_ranges-Tiles :
    (total parts max_part_bytes : ℕ)
    → 0 < total
    → 0 < parts
    → Tiles 0 total (plan_ranges total parts max_part_bytes)
unfolding plan_ranges
plan_ranges-Tiles total parts max_part_bytes h k =
    let chunk = ceil_div total (plan_count total parts max_part_bytes) in
    let pos = ceil_div_pos total _ (count_pos total parts max_part_bytes) h in
    let tiles = Tiles-plan_from total total chunk 0 pos (omega arith) in
    elim (Bool-cases (total == 0 || parts == 0)) [
      | inl empty ↦ absurd (ground arith)
      | inr planned ↦ rw planned (
          subst (λ n. Tiles n total (plan_from total total chunk 0)) {x = min total 0} {y = 0}
            (omega arith) tiles)
    ]

All-le :
    {m : ℕ} (n : ℕ) (rs : List RangeSpan)
    → m ≤ n
    → All (λ r. r.end - r.start + 1 ≤ m) rs
    → All (λ r. r.end - r.start + 1 ≤ n) rs
All-le n [] h _ = tt
All-le n (r ∷ rs) h (k, ks) = (omega arith, All-le n rs h ks)

-- No planned range is larger than the cap on one request (a cap of 0 counts as 1).
pub plan_ranges-le_cap :
    (total parts max_part_bytes : ℕ)
    → All (λ r. r.end - r.start + 1 ≤ max 1 max_part_bytes) (plan_ranges total parts max_part_bytes)
unfolding plan_ranges
plan_ranges-le_cap total parts max_part_bytes =
    let chunk = ceil_div total (plan_count total parts max_part_bytes) in
    elim (Bool-cases (total == 0 || parts == 0)) [
      | inl empty ↦ rw empty tt
      | inr planned ↦ rw planned (
          All-le _ (plan_from total total chunk 0) (chunk-le total parts max_part_bytes) (
            plan_from-le_chunk total total chunk 0
              (ceil_div_pos total _ (count_pos total parts max_part_bytes) (ground arith))))
    ]
