-- ===== src/Tests/Terminal.antt =====
-- Concrete progress bars.
use llamacli.Prelude.{◌≡◌, refl, List, [], ◌∷◌, none, length, Text, lit, arith}
use llamacli.Tui.TransientLine.{TransientRow, TransientLine, update}
use llamacli.Tui.TransientLine.Redrawn.{texts_of, update_all, last_text, update_all-texts}

abbrev log_row : Text → TransientRow
log_row t = record { id = 0; text = t; kind = lit "info" }

abbrev old_rows : List TransientRow
old_rows = log_row (lit "start") ∷ []

update_all-texts_example :
    let line : TransientLine = record { rows = old_rows; transient_id = none } in
    (texts_of 7 (update_all log_row 3 7 (lit "10%" ∷ lit "20%" ∷ []) line).rows
      ≡ last_text (lit "10%") (lit "20%" ∷ []) ∷ [])
    × (length (update_all log_row 3 7 (lit "10%" ∷ lit "20%" ∷ []) line).rows
        ≡ length (update log_row 3 7 (lit "10%") line).rows)
unfolding texts_of
update_all-texts_example =
    update_all-texts log_row 3 7 old_rows (lit "10%") (lit "20%" ∷ []) (λ u. refl) (omega arith)
      refl
