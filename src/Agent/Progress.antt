-- ===== src/Agent/Progress.antt =====
-- The no-progress guard (src/agent/harness.ts): `ProgressTracker`. Times are in milliseconds and
-- arguments of the calls.
pub mod Stall
use llamacli.Prelude.{
  ℕ, suc, ◌+◌, ◌-◌, ◌*◌, ◌/◌, Bool, true, false, ◌&&◌, leb, if◌then◌else◌, Text, lit, ◌++◌,
}
use llamacli.Agent.Results.{decimal}

pub record ProgressGuardOptions : Type 0 where
  pub minutes : ℕ
  pub compactions : ℕ

abbrev pub default_progress_guard : ProgressGuardOptions
default_progress_guard = record { minutes = 15; compactions = 4 }

pub data ProgressVerdict : Type 0 where
  verdict_ok nudge verdict_stop : ProgressVerdict

pub record ProgressTracker : Type 0 where
  pub options : ProgressGuardOptions
  pub last_progress_at : ℕ
  pub compactions_since : ℕ
  pub nudged : Bool

unfoldable pub new_tracker : ProgressGuardOptions → ℕ → ProgressTracker
new_tracker options now = record {
  options = options;
  last_progress_at = now;
  compactions_since = 0;
  nudged = false;
}

unfoldable pub reset_tracker : ℕ → ProgressTracker → ProgressTracker
reset_tracker now t = record t { last_progress_at = now; compactions_since = 0; nudged = false }

unfoldable pub mark_progress : ℕ → ProgressTracker → ProgressTracker
mark_progress now t = reset_tracker now t

unfoldable pub on_compaction : ProgressTracker → ProgressTracker
on_compaction t = record t { compactions_since = suc t.compactions_since }

unfoldable pub is_stalled : ℕ → ProgressTracker → Bool
is_stalled now t =
    leb (t.options.minutes * 60000) (now - t.last_progress_at)
    && leb t.options.compactions t.compactions_since

pub record Checked : Type 0 where
  pub verdict : ProgressVerdict
  pub tracker : ProgressTracker

unfoldable pub check_progress : ℕ → ProgressTracker → Checked
check_progress now t =
    if is_stalled now t
    then (if t.nudged then record { verdict = verdict_stop; tracker = t } else record {
      verdict = nudge;
      tracker = record t { nudged = true; last_progress_at = now; compactions_since = 0 };
    })
    else record { verdict = verdict_ok; tracker = t }

-- `Math.round` of the minutes: half a minute rounds up.
unfoldable pub minutes_since_progress : ℕ → ProgressTracker → ℕ
minutes_since_progress now t = (now - t.last_progress_at + 30000) / 60000

unfoldable pub progress_nudge_text : ℕ → ℕ → Text
progress_nudge_text minutes compactions =
    lit "[progress check] About "
    ++ (decimal minutes
        ++ (lit " minutes and "
            ++ (decimal compactions
                ++ lit
                    " context compactions have passed with no edit to an existing file and no plan step completed. Stop investigating. Record what you have established with note() — notes survive compaction, the conversation does not. Then state the most likely root cause in one or two sentences and either apply a fix now, or ask the user for the information you are missing. If you have been writing a series of one-off test/debug scripts, that is itself a sign of this — delete them and change approach rather than writing another one.")))
