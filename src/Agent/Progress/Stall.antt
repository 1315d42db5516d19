-- ===== src/Agent/Progress/Stall.antt =====
-- What the guard's events say when it stops a turn. A history lists the events newest first.
use llamacli.Prelude.{
  ℕ, suc, ◌-◌, ◌*◌, ◌≤◌, ◌≡◌, refl, sym, ap, ◌∙◌, subst, List, [], ◌∷◌, ◌++◌, ◌⊎◌, inl, inr, Bool,
  true, false, arith,
}
use llamacli.Agent.Progress.{
  ProgressGuardOptions, ProgressTracker, verdict_ok, nudge, verdict_stop, new_tracker,
  reset_tracker, mark_progress, on_compaction, is_stalled, check_progress,
}

-- What reaches the tracker in the course of a turn.
pub data TrackerEvent : Type 0 where
  progressed : ℕ → TrackerEvent
  compacted_once : TrackerEvent
  checked_at : ℕ → TrackerEvent

unfoldable pub tracker_step : TrackerEvent → ProgressTracker → ProgressTracker
tracker_step (progressed now) t = mark_progress now t
tracker_step compacted_once t = on_compaction t
tracker_step (checked_at now) t = (check_progress now t).tracker

unfoldable pub tracker_after : ProgressGuardOptions → ℕ → List TrackerEvent → ProgressTracker
tracker_after o start [] = new_tracker o start
tracker_after o start (e ∷ es) = tracker_step e (tracker_after o start es)

abbrev pub is_quiet : List TrackerEvent → Bool
is_quiet [] = true
is_quiet (progressed now ∷ es) = false
is_quiet (compacted_once ∷ es) = is_quiet es
is_quiet (checked_at now ∷ es) = is_quiet es

abbrev pub compaction_count : List TrackerEvent → ℕ
compaction_count [] = 0
compaction_count (progressed now ∷ es) = compaction_count es
compaction_count (compacted_once ∷ es) = suc (compaction_count es)
compaction_count (checked_at now ∷ es) = compaction_count es

-- A check of the history that nudged, with no progress since.
pub record NudgedIn (o : ProgressGuardOptions) (start : ℕ) (es : List TrackerEvent) : Type 0 where
  pub at : ℕ
  pub since : List TrackerEvent
  pub before : List TrackerEvent
  pub splits : es ≡ since ++ (checked_at at ∷ before)
  pub nudged_there : (check_progress at (tracker_after o start before)).verdict ≡ nudge
  pub quiet : is_quiet since ≡ true

abbrev Accounted : ProgressGuardOptions → ℕ → List TrackerEvent → ProgressTracker → Type 0
Accounted o start es t =
    (t.options ≡ o)
    × ((t.nudged ≡ false)
        ⊎ ((n : NudgedIn o start es) × (t.last_progress_at ≡ n.at)
            × (t.compactions_since ≡ compaction_count n.since)))

-- A check either nudges, or it leaves the tracker as it is.
check_cases :
    (now : ℕ) (t : ProgressTracker)
    → (((check_progress now t).tracker ≡ t)
        × (((check_progress now t).verdict ≡ verdict_stop)
            ⊎ ((check_progress now t).verdict ≡ verdict_ok)))
      ⊎ (((check_progress now t).verdict ≡ nudge)
          × ((check_progress now t).tracker.options ≡ t.options)
          × ((check_progress now t).tracker.last_progress_at ≡ now)
          × ((check_progress now t).tracker.compactions_since ≡ 0))
unfolding check_progress
check_cases now t = ground arith

tracker_after-Accounted :
    (o : ProgressGuardOptions) (start : ℕ) (es : List TrackerEvent)
    → Accounted o start es (tracker_after o start es)
unfolding tracker_after tracker_step new_tracker mark_progress reset_tracker on_compaction
tracker_after-Accounted o start [] = (refl, inl refl)
tracker_after-Accounted o start (progressed now ∷ es) =
    ((tracker_after-Accounted o start es).0, inl refl)
tracker_after-Accounted o start (compacted_once ∷ es) =
    let (same, h) = tracker_after-Accounted o start es in
    (
      same,
      elim h [
        | inl never ↦ inl never
        | inr (n, at, count) ↦ inr (
          record {
            at = n.at;
            since = compacted_once ∷ n.since;
            before = n.before;
            splits = ap (◌∷◌ compacted_once) n.splits;
            nudged_there = n.nudged_there;
            quiet = n.quiet;
          },
          at,
          ap suc count,
        )
      ],
    )
tracker_after-Accounted o start (checked_at now ∷ es) =
    let (same, h) = tracker_after-Accounted o start es in
    elim (check_cases now (tracker_after o start es)) [
      | inl (unchanged, _) ↦ subst (Accounted o start (checked_at now ∷ es)) (sym unchanged) (
        same,
        elim h [
          | inl never ↦ inl never
          | inr (n, at, count) ↦ inr (
            record {
              at = n.at;
              since = checked_at now ∷ n.since;
              before = n.before;
              splits = ap (◌∷◌ (checked_at now)) n.splits;
              nudged_there = n.nudged_there;
              quiet = n.quiet;
            },
            at,
            count,
          )
        ],
      )
      | inr (nudges, options, at, count) ↦ (
        options ∙ same,
        inr (
          record {
            at = now;
            since = [];
            before = es;
            splits = refl;
            nudged_there = nudges;
            quiet = refl;
          },
          at,
          count,
        ),
      )
    ]

check-stop :
    (now : ℕ) (t : ProgressTracker)
    → (check_progress now t).verdict ≡ verdict_stop
    → (t.nudged ≡ true)
      × (t.options.minutes * 60000 ≤ now - t.last_progress_at)
      × (t.options.compactions ≤ t.compactions_since)
unfolding check_progress is_stalled
check-stop now t h = ground arith

-- A turn is stopped only with a nudge behind it: some earlier check of the history nudged, and since
-- that check there was no progress event, at least the configured number of compactions, and the
-- configured minutes passed.
pub stop-NudgedIn :
    (o : ProgressGuardOptions) (start now : ℕ) (es : List TrackerEvent)
    → (check_progress now (tracker_after o start es)).verdict ≡ verdict_stop
    → (n : NudgedIn o start es) × (o.compactions ≤ compaction_count n.since)
      × (o.minutes * 60000 ≤ now - n.at)
stop-NudgedIn o start now es h =
    let (nudged, minutes, compactions) = check-stop now (tracker_after o start es) h in
    let (same, accounted) = tracker_after-Accounted o start es in
    elim accounted [
      | inl never ↦ absurd (cc (never, nudged))
      | inr (n, at, count) ↦
          (n, omega (arith, ap (λ p. p.compactions) same), omega (arith, ap (λ p. p.minutes) same))
    ]
