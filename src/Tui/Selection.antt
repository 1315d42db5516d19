-- ===== src/Tui/Selection.antt =====
-- Mouse selection in the log (src/tui/selection.ts). Rows and columns are 0-based.
pub mod Cells
use llamacli.Prelude.{
  ℕ, zero, suc, ◌+◌, ◌-◌, ◌≤◌, ◌<◌, ◌≡◌, min, List, [], ◌∷◌, Option, none, some, Bool, true, false,
  ◌&&◌, ◌||◌, not, take, drop, length, get_elem?, ltb, leb, ◌==◌, if◌then◌else◌, Text, lit,
}
use llamacli.Compaction.Message.{join}
use llamacli.Compaction.SystemText.{trim_end}

pub record LogPoint : Type 0 where
  pub row : ℕ
  pub col : ℕ

pub record Selection : Type 0 where
  pub anchor : LogPoint
  pub head : LogPoint

pub record Ends : Type 0 where
  pub start : LogPoint
  pub end : LogPoint

-- In reading order, or the same point.
unfoldable pub before : LogPoint → LogPoint → Bool
before a b = ltb a.row b.row || ((a.row == b.row) && leb a.col b.col)

abbrev pub next_cell : LogPoint → LogPoint
next_cell p = record p { col = p.col + 1 }

unfoldable pub selection_between_cells : LogPoint → LogPoint → Selection
selection_between_cells anchor pointer =
    if before anchor pointer
    then record { anchor = anchor; head = next_cell pointer }
    else record { anchor = next_cell anchor; head = pointer }

unfoldable pub normalize_selection : Selection → Ends
normalize_selection s =
    if before s.anchor s.head
    then record { start = s.anchor; end = s.head }
    else record { start = s.head; end = s.anchor }

unfoldable pub is_selection_empty : Selection → Bool
is_selection_empty s =
    let e = normalize_selection s in (e.start.row == e.end.row) && (e.start.col == e.end.col)

pub record Columns : Type 0 where
  pub start : ℕ
  pub end : ℕ

-- `from` and `to` of a row of the selection, clamped to its length.
unfoldable pub first_column : Ends → ℕ → ℕ → ℕ
first_column e row len = if row == e.start.row then min e.start.col len else 0

unfoldable pub last_column : Ends → ℕ → ℕ → ℕ
last_column e row len = if row == e.end.row then min e.end.col len else len

unfoldable pub clamp : ℕ → ℕ → Bool → Option Columns
clamp from to at_start =
    if ltb to from
    then some (record { start = from; end = from })
    else if (from == to) && not at_start
    then none
    else some (record { start = from; end = to })

unfoldable pub ends_range : Ends → ℕ → ℕ → Option Columns
ends_range e row len =
    if ltb row e.start.row || ltb e.end.row row
    then none
    else clamp (first_column e row len) (last_column e row len) (row == e.start.row)

unfoldable pub row_range : Option Selection → ℕ → ℕ → Option Columns
row_range none row len = none
row_range (some s) row len = ends_range (normalize_selection s) row len

unfoldable pub slice_of : Option Columns → Text → Text
slice_of none text = []
slice_of (some c) text = take (c.end - c.start) (drop c.start text)

-- The loop over rows `i` to `end.row`; `count` is the number of rounds left. A row that is not there
-- is passed over.
unfoldable pub row_texts : Ends → List Text → ℕ → ℕ → List Text
row_texts e rows zero i = []
row_texts e rows (suc count) i =
    let rest = row_texts e rows count (i + 1) in
    elim (get_elem? rows i) [
      | none ↦ rest
      | some text ↦ trim_end (slice_of (ends_range e i (length text)) text) ∷ rest
    ]

unfoldable pub ends_text : Ends → List Text → Text
ends_text e rows = join (lit "\n") (row_texts e rows (e.end.row + 1 - e.start.row) e.start.row)

unfoldable pub selection_text : Option Selection → List Text → Text
selection_text none rows = []
selection_text (some s) rows = ends_text (normalize_selection s) rows
