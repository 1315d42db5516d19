-- ===== src/Tui/TransientLine.antt =====
-- A log row that is redrawn (src/tui/transientLine.ts): `createTransientLine`. The stored rows are
-- what `get` and `set` reach; `commit` builds a row, and `next_id` is the id that the log's allocator
-- would give out.
pub mod Redrawn
use llamacli.Prelude.{
  ℕ, ◌+◌, List, [], ◌∷◌, ◌++◌, Option, none, some, Bool, any, take_last, ◌==◌, if◌then◌else◌, Text,
}

-- A row, with the kind that the log keeps beside it.
pub record TransientRow : Type 0 where
  pub id : ℕ
  pub text : Text
  pub kind : Text

pub record TransientLine : Type 0 where
  pub rows : List TransientRow
  pub transient_id : Option ℕ

-- `slice(-max)`, where `slice(-0)` keeps all.
unfoldable pub keep_last : ℕ → List TransientRow → List TransientRow
keep_last max_rows rows = if max_rows == 0 then rows else take_last max_rows rows

unfoldable pub has_row : ℕ → List TransientRow → Bool
has_row id rows = any (λ r. r.id == id) rows

-- The first row with the id gets the text.
unfoldable pub replace_text : ℕ → Text → List TransientRow → List TransientRow
replace_text id text [] = []
replace_text id text (r ∷ rs) =
    let rest = replace_text id text rs in
    if r.id == id then record r { text = text } ∷ rs else r ∷ rest

unfoldable pub append_row :
    (Text → TransientRow) → ℕ → ℕ → Text → List TransientRow → List TransientRow
append_row commit max_rows id text rows =
    keep_last max_rows (rows ++ (record (commit text) { id = id } ∷ []))

unfoldable pub update_rows :
    (Text → TransientRow) → ℕ → ℕ → Text → List TransientRow → List TransientRow
update_rows commit max_rows id text rows =
    if has_row id rows then replace_text id text rows else append_row commit max_rows id text rows

unfoldable pub update_held :
    (Text → TransientRow) → ℕ → ℕ → Text → List TransientRow → Option ℕ → TransientLine
update_held commit max_rows next_id text rows none = record {
  rows = append_row commit max_rows next_id text rows;
  transient_id = some next_id;
}
update_held commit max_rows next_id text rows (some id) = record {
  rows = update_rows commit max_rows id text rows;
  transient_id = some id;
}

unfoldable pub update : (Text → TransientRow) → ℕ → ℕ → Text → TransientLine → TransientLine
update commit max_rows next_id text line =
    update_held commit max_rows next_id text line.rows line.transient_id

unfoldable pub end_line : TransientLine → TransientLine
end_line line = record line { transient_id = none }
