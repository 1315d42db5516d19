-- ===== src/Tests/Budgets.antt =====
-- Concrete budgets, caps and diffs.
use llamacli.Prelude.{
  zero, suc, ℕ, ◌+◌, ◌≤◌, ◌≡◌, List, [], ◌∷◌, none, some, length, keep, Text, lit, arith,
}
use llamacli.Diff.{lcs_diff, format_diff, split_lines, is_change}
use llamacli.Diff.Lcs.{old_side, new_side, kept, lcs_diff_sides}
use llamacli.Diff.Optimal.{nil, skip, same, length-le_kept}
use llamacli.Diff.Shown.{changes_shown, changes-format_diff}
use llamacli.Compaction.Tail.{Fraction, tail_budget}
use llamacli.Compaction.SystemText.{split_system_message, compose_system_message, trim_end, trim}
use llamacli.Compaction.SystemText.OneBlock.{split-compose}
use llamacli.Agent.Budget.{post_compaction_budget, usable_room, summary_share}
use llamacli.Agent.Budget.Fits.{post_compaction_budget_fits}

abbrev old_lines : List Text
old_lines = lit "a" ∷ lit "b" ∷ []

abbrev new_lines : List Text
new_lines = lit "b" ∷ lit "c" ∷ []

lcs_diff_sides_example :
    (old_side (lcs_diff old_lines new_lines) ≡ old_lines)
    × (new_side (lcs_diff old_lines new_lines) ≡ new_lines)
lcs_diff_sides_example = lcs_diff_sides old_lines new_lines (omega arith)

length-le_kept_example : length (lit "b" ∷ []) ≤ kept (lcs_diff old_lines new_lines)
length-le_kept_example =
    length-le_kept old_lines new_lines (lit "b" ∷ []) (omega arith)
      (skip (lit "a") (same (lit "b") nil)) (same (lit "b") (skip (lit "c") nil))

changes-format_diff_example :
    changes_shown (format_diff (lit "f") (lit "a\nb") (lit "b\nc") 3)
    ≡ keep is_change (lcs_diff (split_lines (lit "a\nb")) (split_lines (lit "b\nc")))
changes-format_diff_example = changes-format_diff (lit "f") (lit "a\nb") (lit "b\nc") 3

split-compose_example :
    split_system_message (compose_system_message (lit "base") (lit "new")) ≡ record {
      base = trim_end (split_system_message (lit "base")).base;
      summary = some (trim (10 ∷ lit "new"));
    }
split-compose_example = split-compose (lit "base") (lit "new")

abbrev repeated : ℕ → Text
repeated zero = []
repeated (suc n) = 97 ∷ repeated n

abbrev sixty : Fraction
sixty = record { num = 6; den = 10 }

abbrev five : Fraction
five = record { num = 5; den = 100 }

post_compaction_budget_fits_example :
    let s = post_compaction_budget 3000 1300 8192 none (record { num = 4; den = 10 }) in
    1300 + s.summary_max_tokens + tail_budget 8192 s.tail_budget_fraction ≤ 3000
unfolding usable_room summary_share
post_compaction_budget_fits_example =
    post_compaction_budget_fits 3000 1300 8192 none (record { num = 4; den = 10 }) (omega arith)
      (omega arith) (omega arith)
