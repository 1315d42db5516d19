-- ===== src/Tui/TransientLine/Redrawn.antt =====
-- A progress bar takes one row of the log, however often it is updated.
use llamacli.Prelude.{
  ℕ, zero, suc, ◌-◌, ◌≤◌, ◌<◌, ◌≡◌, refl, ap, ◌∙◌, List, [], ◌∷◌, ◌++◌, none, some, true, false,
  length, drop, length-append, ◌==◌, if◌then◌else◌, Text, arith,
}
use llamacli.Tui.TransientLine.{
  TransientRow, TransientLine, keep_last, has_row, replace_text, append_row, update_rows, update,
  update_held,
}

-- The texts of the rows with an id.
unfoldable pub texts_of : ℕ → List TransientRow → List Text
texts_of id [] = []
texts_of id (r ∷ rs) = if r.id == id then r.text ∷ texts_of id rs else texts_of id rs

texts_of-drop :
    (id n : ℕ) (xs : List TransientRow) (r : TransientRow)
    → n ≤ length xs
    → r.id ≡ id
    → texts_of id xs ≡ []
    → texts_of id (drop n (xs ++ (r ∷ []))) ≡ r.text ∷ []
unfolding texts_of
texts_of-drop id zero [] r h e f = ground arith
texts_of-drop id (suc n) [] r h e f = absurd (omega arith)
texts_of-drop id zero (x ∷ xs) r h e f = ground (arith, texts_of-drop id zero xs r)
texts_of-drop id (suc n) (x ∷ xs) r h e f = ground (arith, texts_of-drop id n xs r)

texts_of-append_row :
    (commit : Text → TransientRow) (max_rows id : ℕ) (text : Text) (rows : List TransientRow)
    → ((t : Text) → (commit t).text ≡ t)
    → 0 < max_rows
    → texts_of id rows ≡ []
    → texts_of id (append_row commit max_rows id text rows) ≡ text ∷ []
unfolding append_row keep_last
texts_of-append_row commit max_rows id text rows shows pos fresh =
    let row : TransientRow = record (commit text) { id = id } in
    let kept : (max_rows == 0) ≡ false = ground arith in
    rw kept (
      texts_of-drop id (length (rows ++ (row ∷ [])) - max_rows) rows row
        (omega (arith, length-append rows (row ∷ []))) refl fresh
      ∙ ap (λ t. t ∷ []) (shows text))

texts_of-replace_text :
    (id : ℕ) (text old : Text) (rows : List TransientRow)
    → texts_of id rows ≡ old ∷ []
    → texts_of id (replace_text id text rows) ≡ text ∷ []
unfolding texts_of replace_text
texts_of-replace_text id text old [] h = ground arith
texts_of-replace_text id text old (r ∷ rs) h = ground (arith, texts_of-replace_text id text old rs)

length-replace_text :
    (id : ℕ) (text : Text) (rows : List TransientRow)
    → length (replace_text id text rows) ≡ length rows
unfolding replace_text
length-replace_text id text [] = refl
length-replace_text id text (r ∷ rs) = ground (arith, length-replace_text id text rs)

has_row_of_texts :
    (id : ℕ) (old : Text) (rows : List TransientRow)
    → texts_of id rows ≡ old ∷ []
    → has_row id rows ≡ true
unfolding texts_of has_row
has_row_of_texts id old [] h = ground arith
has_row_of_texts id old (r ∷ rs) h = ground (arith, has_row_of_texts id old rs)

-- Updates one after another.
pub update_all : (Text → TransientRow) → ℕ → ℕ → List Text → TransientLine → TransientLine
update_all commit max_rows next_id [] line = line
update_all commit max_rows next_id (t ∷ ts) line =
    update_all commit max_rows next_id ts (update commit max_rows next_id t line)

pub last_text : Text → List Text → Text
last_text t [] = t
last_text t (u ∷ us) = last_text u us

module _ (commit : Text → TransientRow) (max_rows id : ℕ) where
  update_rows-held :
      (i : ℕ) (t : Text) (rows : List TransientRow)
      → has_row i rows ≡ true
      → update_rows commit max_rows i t rows ≡ replace_text i t rows
  unfolding update_rows
  update_rows-held i t rows h = rw h refl

  -- The bar's row is there once, with the text.
  abbrev Redraws : Text → ℕ → TransientLine → Type 0
  Redraws t n line =
      (line.transient_id ≡ some id) × (texts_of id line.rows ≡ t ∷ []) × (length line.rows ≡ n)

  update-Redraws :
      (t old : Text) (n : ℕ) (line : TransientLine)
      → Redraws old n line
      → Redraws t n (update commit max_rows id t line)
  unfolding update update_held
  update-Redraws t old n line (held, shown, len) =
      let e = update_rows-held id t line.rows (has_row_of_texts id old line.rows shown) in
      rw held (
        refl,
        ap (texts_of id) e ∙ texts_of-replace_text id t old line.rows shown,
        ap length e ∙ length-replace_text id t line.rows ∙ len,
      )

  update_all-Redraws :
      (ts : List Text) (old : Text) (n : ℕ) (line : TransientLine)
      → Redraws old n line
      → Redraws (last_text old ts) n (update_all commit max_rows id ts line)
  unfolding update_all last_text
  update_all-Redraws [] old n line h = h
  update_all-Redraws (t ∷ ts) old n line h =
      update_all-Redraws ts t n (update commit max_rows id t line) (update-Redraws t old n line h)

-- A bar that starts in a log which does not use its id has one row, with the latest text, after any
-- number of updates, and the log is as long as after the first of them. (The log's cap is not 0, and a
-- committed row shows its text.)
pub update_all-texts :
    (commit : Text → TransientRow) (max_rows id : ℕ) (rows : List TransientRow) (t : Text)
    (ts : List Text)
    → ((u : Text) → (commit u).text ≡ u)
    → 0 < max_rows
    → texts_of id rows ≡ []
    → let line : TransientLine = record { rows = rows; transient_id = none } in
      (texts_of id (update_all commit max_rows id (t ∷ ts) line).rows ≡ last_text t ts ∷ [])
      × (length (update_all commit max_rows id (t ∷ ts) line).rows
          ≡ length (update commit max_rows id t line).rows)
unfolding update_all update update_held
update_all-texts commit max_rows id rows t ts shows pos fresh =
    let first : TransientLine = record {
      rows = append_row commit max_rows id t rows;
      transient_id = some id;
    } in
    let (_, texts, len) =
      update_all-Redraws commit max_rows id ts t (length first.rows) first
        (refl, texts_of-append_row commit max_rows id t rows shows pos fresh, refl) in
    (texts, len)
