-- ===== src/Agent/Budget/Fits.antt =====
-- What `postCompactionBudget` grants fits below the target.
use llamacli.Prelude.{ℕ, ◌+◌, ◌-◌, ◌*◌, ◌/◌, ◌≤◌, ◌≡◌, max, Option, arith}
use native.Mathlib.Nat.{div-le_of_le-mul, mul-le-mul_right}
use llamacli.Compaction.Tail.{Fraction, tail_budget}
use llamacli.Agent.Budget.{usable_room, summary_share, tail_fraction, post_compaction_budget}

tail_fraction_le :
    (tokens window : ℕ) (most : Fraction)
    → 3 * window ≤ 200 * tokens
    → let f = tail_fraction tokens window most in f.num * (3 * window) ≤ 4 * tokens * f.den
unfolding tail_fraction
tail_fraction_le tokens window most h = ground arith

scaled_le : (x window n d t : ℕ) → 4 * x ≤ 3 * window → n * (3 * window) ≤ 4 * t * d → x * n ≤ d * t
scaled_le x window n d t h k = omega (arith, mul-le-mul_right n h)

tail_budget_le :
    (window t : ℕ) (f : Fraction)
    → 2 ≤ window
    → 1 ≤ t
    → f.num * (3 * window) ≤ 4 * t * f.den
    → tail_budget window f ≤ t
unfolding tail_budget
tail_budget_le window t f w h k = max_le (max 1 (window * 3 / 4) * f.num / f.den) t h (
    div-le_of_le-mul f.den
      (scaled_le (max 1 (window * 3 / 4)) window f.num f.den t (omega arith) k))
  where
    max_le : (a t : ℕ) → 1 ≤ t → a ≤ t → max 1 a ≤ t
    max_le a t h k = omega arith

summary_share_le :
    (room window : ℕ) (configured : Option ℕ) → summary_share room window configured ≤ room / 2
unfolding summary_share
summary_share_le room window configured = omega arith

usable_room_eq :
    (target overhead : ℕ)
    → overhead + 256 ≤ target
    → overhead + usable_room target overhead ≡ target
unfolding usable_room
usable_room_eq target overhead h = omega arith

-- With room for it, the compacted conversation lands below the target: the base prompt with the tool
-- schema, the largest summary and the tail's budget together are at most the target. It holds when 256
-- tokens are left beside the overhead and the tail's share is not below its minimum of 2%.
pub post_compaction_budget_fits :
    (target overhead window : ℕ) (configured : Option ℕ) (most : Fraction)
    → 2 ≤ window
    → overhead + 256 ≤ target
    → (let room = usable_room target overhead in
        3 * window ≤ 200 * (room - summary_share room window configured))
    → let s = post_compaction_budget target overhead window configured most in
      overhead + s.summary_max_tokens + tail_budget window s.tail_budget_fraction ≤ target
unfolding post_compaction_budget
post_compaction_budget_fits target overhead window configured most w room share =
    let usable = usable_room target overhead in
    let summary = summary_share usable window configured in
    let fraction = tail_fraction (usable - summary) window most in
    omega (
      arith,
      usable_room_eq target overhead room,
      summary_share_le usable window configured,
      tail_budget_le window (usable - summary) fraction w (omega arith)
          (tail_fraction_le (usable - summary) window most share),
    )
