-- ===== src/Diff.antt =====
-- The line diff of src/tools/diff.ts. Lines are texts; the colour codes of the rendered lines are
-- kept as the kind of each line.
pub mod Lcs
pub mod Optimal
pub mod Shown
use llamacli.Prelude.{
  ℕ, zero, suc, ◌+◌, ◌-◌, ◌*◌, max, min, List, [], ◌∷◌, ◌++◌, map, Bool, true, false, ◌&&◌, length,
  get_elem?, or_else, ltb, leb, ◌==◌, if◌then◌else◌, Text, text_eq,
}

-- `skipped n m` is the context line "(diff skipped — file too large: nxm lines)".
pub data DiffOp : Type 0 where
  add : Text → DiffOp
  del : Text → DiffOp
  ctx : Text → DiffOp
  skipped : ℕ → ℕ → DiffOp

abbrev pub head_or : List ℕ → ℕ
head_or [] = 0
head_or (n ∷ ns) = n

abbrev pub rest_of : List ℕ → List ℕ
rest_of [] = []
rest_of (n ∷ ns) = ns

-- Row i of the table for j = m … 0, from row i + 1: the inner loop.
unfoldable pub lcs_row : Text → List Text → List ℕ → List ℕ
lcs_row x [] below = 0 ∷ []
lcs_row x (y ∷ ys) below =
    let row = lcs_row x ys (rest_of below) in
    (if text_eq x y then head_or (rest_of below) + 1 else max (head_or below) (head_or row)) ∷ row

abbrev pub zeros : List Text → List ℕ
zeros [] = 0 ∷ []
zeros (y ∷ ys) = 0 ∷ zeros ys

abbrev pub first_row : List (List ℕ) → List ℕ
first_row [] = []
first_row (r ∷ rs) = r

-- The table `dp`, rows i = 0 … n: the outer loop, which runs from the last row up.
unfoldable pub lcs_table : List Text → List Text → List (List ℕ)
lcs_table [] ys = zeros ys ∷ []
lcs_table (x ∷ xs) ys = let below = lcs_table xs ys in lcs_row x ys (first_row below) ∷ below

-- `dp[i][j]`
unfoldable pub entry : List (List ℕ) → ℕ → ℕ → ℕ
entry dp i j = or_else (get_elem? (or_else (get_elem? dp i) []) j) 0

-- The walk from (i, j), with the lines from there on.
unfoldable pub walk : List (List ℕ) → ℕ → ℕ → List Text → List Text → List DiffOp
walk dp i j [] ys = map add ys
walk dp i j (x ∷ xs) [] = map del (x ∷ xs)
walk dp i j (x ∷ xs) (y ∷ ys) =
    let same = ctx x ∷ walk dp (i + 1) (j + 1) xs ys in
    let drops = del x ∷ walk dp (i + 1) j xs (y ∷ ys) in
    let adds = add y ∷ walk dp i (j + 1) (x ∷ xs) ys in
    if text_eq x y
    then same
    else if leb (entry dp i (j + 1)) (entry dp (i + 1) j)
    then drops
    else adds

abbrev pub max_cells : ℕ
max_cells = 4000000

unfoldable pub lcs_diff : List Text → List Text → List DiffOp
lcs_diff old new =
    if ltb max_cells (length old * length new)
    then skipped (length old) (length new) ∷ []
    else walk (lcs_table old new) 0 0 old new

-- `text.split("\n")`; `cur` is the line being read.
unfoldable pub split_from : Text → Text → List Text
split_from cur [] = cur ∷ []
split_from cur (c ∷ s) =
    let closed = cur ∷ split_from [] s in
    let longer = split_from (cur ++ (c ∷ [])) s in if c == 10 then closed else longer

unfoldable pub split_lines : Text → List Text
split_lines s = split_from [] s

-- A printed line, without its colours: `gap` is "  ⋮".
pub data Line : Type 0 where
  header : Text → Line
  added : Text → Line
  removed : Text → Line
  context : DiffOp → Line
  gap : Line

unfoldable pub is_change : DiffOp → Bool
is_change (add l) = true
is_change (del l) = true
is_change (ctx l) = false
is_change (skipped n m) = false

-- `show[k] = true` for lo ≤ k ≤ hi; `k` is the index of the first flag.
unfoldable pub mark : ℕ → ℕ → ℕ → List Bool → List Bool
mark k lo hi [] = []
mark k lo hi (b ∷ bs) = (if leb lo k && leb k hi then true else b) ∷ mark (k + 1) lo hi bs

-- The loop over the operations that fills `show`, at index `idx`.
unfoldable pub mark_changes : ℕ → ℕ → ℕ → List DiffOp → List Bool → List Bool
mark_changes context_lines count idx [] show = show
mark_changes context_lines count idx (op ∷ ops) show =
    mark_changes context_lines count (idx + 1) ops (
      if is_change op
      then mark 0 (idx - context_lines) (min (count - 1) (idx + context_lines)) show
      else show)

unfoldable pub none_shown : List DiffOp → List Bool
none_shown [] = []
none_shown (op ∷ ops) = false ∷ none_shown ops

unfoldable pub line_of : DiffOp → Line
line_of (add l) = added l
line_of (del l) = removed l
line_of (ctx l) = context (ctx l)
line_of (skipped n m) = context (skipped n m)

-- The loop that prints; `prev` is `prevShown`.
unfoldable pub render : Bool → List Bool → List DiffOp → List Line
render prev show [] = []
render prev [] (op ∷ ops) = []
render prev (true ∷ show) (op ∷ ops) = line_of op ∷ render true show ops
render true (false ∷ show) (op ∷ ops) = gap ∷ render false show ops
render false (false ∷ show) (op ∷ ops) = render false show ops

-- No lines stand for the empty string.
unfoldable pub format_diff : Text → Text → Text → ℕ → List Line
format_diff path old_text new_text context_lines =
    if text_eq old_text new_text
    then []
    else let ops = lcs_diff (split_lines old_text) (split_lines new_text) in
      let show = mark_changes context_lines (length ops) 0 ops (none_shown ops) in
      header path ∷ render false show ops
