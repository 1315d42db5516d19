-- ===== src/Calibration/Fits.antt =====
-- What a plan commits, against what was measured.
use llamacli.Prelude.{ℕ, ◌+◌, ◌-◌, ◌*◌, ◌≤◌, ◌<◌, ◌≡◌, ◌⊎◌, Option, none, some}
use llamacli.Compaction.Tail.{Fraction}
use llamacli.Calibration.{mib, compute_growth_mib}

module _ (before scale elements ceiling plus minus : ℕ) (kv : Fraction) where
  abbrev pub IsFitting : ℕ → Type 0
  IsFitting target =
      (4096 ≤ target)
      × ((before ≤ target) ⊎ (plus < minus))
      × ((target ≤ before)
          ⊎ ((target ≤ ceiling)
              × (minus + compute_growth_mib * mib * scale ≤ plus)
              × ((target - before) * (scale * (elements * kv.num))
                  ≤ (plus - minus - compute_growth_mib * mib * scale) * kv.den)))

abbrev IsAsked : ℕ → Option ℕ → Type 0
IsAsked layers n = (n ≡ none) ⊎ (n ≡ some 999) ⊎ ((k : ℕ) × (n ≡ some k) × (k < layers))
