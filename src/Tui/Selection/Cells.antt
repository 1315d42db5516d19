-- ===== src/Tui/Selection/Cells.antt =====
-- A drag selects both of its cells, in either direction, and stays within the rows.
use llamacli.Prelude.{
  ℕ, ◌≤◌, ◌<◌, ◌≡◌, ap, List, Option, none, some, true, Text, ◌==◌, arith, subst, Bool, sym, ◌∙◌,
}
use llamacli.Tui.Selection.{
  LogPoint, Selection, Ends, Columns, before, next_cell, selection_between_cells,
  normalize_selection, first_column, last_column, clamp, ends_range, row_range, selection_text,
  ends_text,
}

between_ends :
    (a b : LogPoint)
    → before a b ≡ true
    → normalize_selection (selection_between_cells a b) ≡ record { start = a; end = next_cell b }
unfolding normalize_selection selection_between_cells before
between_ends a b h = ground arith

between_swapped :
    (a b : LogPoint)
    → before a b ≡ true
    → normalize_selection (selection_between_cells b a) ≡ record { start = a; end = next_cell b }
unfolding normalize_selection selection_between_cells before
between_swapped a b h = ground arith

-- Dragging from a cell to one that is not before it and dragging back select the same text.
pub selection_text-swapped :
    (a b : LogPoint) (rows : List Text)
    → before a b ≡ true
    → selection_text (some (selection_between_cells a b)) rows
      ≡ selection_text (some (selection_between_cells b a)) rows
unfolding selection_text
selection_text-swapped a b rows h =
    ap (λ e. ends_text e rows) (between_ends a b h ∙ sym (between_swapped a b h))

-- The columns of a row, where it has some, lie in the row, the start not after the end.
pub row_range-within :
    (s : Option Selection) (row len : ℕ) (c : Columns)
    → row_range s row len ≡ some c
    → (c.start ≤ c.end) × (c.end ≤ len)
unfolding row_range ends_range first_column last_column clamp
row_range-within none row len c h = ground arith
row_range-within (some s) row len c h = ground arith

abbrev pub Holds : ℕ → Option Columns → Type 0
Holds col none = ⊥
Holds col (some c) = (c.start ≤ col) × (col < c.end)

Holds-clamp :
    (from to col : ℕ) (at_start : Bool) → from ≤ col → col < to → Holds col (clamp from to at_start)
unfolding clamp
Holds-clamp from to col at_start h k = ground arith

Holds-ends_range :
    (e : Ends) (row len col : ℕ)
    → e.start.row ≤ row
    → row ≤ e.end.row
    → first_column e row len ≤ col
    → col < last_column e row len
    → Holds col (ends_range e row len)
unfolding ends_range
Holds-ends_range e row len col lo hi h k =
    subst (Holds col)
      {x = clamp (first_column e row len) (last_column e row len) (row == e.start.row)}
      {y = ends_range e row len} (ground arith)
      (Holds-clamp (first_column e row len) (last_column e row len) col (row == e.start.row) h k)

Holds-drag :
    (a b : LogPoint) (len : ℕ)
    → before a b ≡ true
    → (a.col < len → Holds a.col (ends_range (record { start = a; end = next_cell b }) a.row len))
      × (b.col < len → Holds b.col (ends_range (record { start = a; end = next_cell b }) b.row len))
unfolding before first_column last_column
Holds-drag a b len h =
    let e : Ends = record { start = a; end = next_cell b } in
    (
      (λ fits.
          Holds-ends_range e a.row len a.col (ground arith) (ground arith) (ground arith)
            (ground arith)),
      (λ fits.
          Holds-ends_range e b.row len b.col (ground arith) (ground arith) (ground arith)
            (ground arith)),
    )

-- Both cells of a drag forward are selected, where their rows are long enough to have them.
pub row_range-cells :
    (a b : LogPoint) (len_a len_b : ℕ)
    → before a b ≡ true
    → a.col < len_a
    → b.col < len_b
    → Holds a.col (row_range (some (selection_between_cells a b)) a.row len_a)
      × Holds b.col (row_range (some (selection_between_cells a b)) b.row len_b)
unfolding row_range
row_range-cells a b len_a len_b h fits_a fits_b = (
  subst (λ e. Holds a.col (ends_range e a.row len_a)) (sym (between_ends a b h))
      ((Holds-drag a b len_a h).0 fits_a),
  subst (λ e. Holds b.col (ends_range e b.row len_b)) (sym (between_ends a b h))
      ((Holds-drag a b len_b h).1 fits_b),
)
