-- ===== src/Diff/Lcs.antt =====
-- The walk gives both files back, and keeps as many lines as any common subsequence has.
use llamacli.Prelude.{
  ℕ, zero, suc, ◌+◌, ◌*◌, ◌≤◌, max, ◌≡◌, refl, ap, subst, List, [], ◌∷◌, map, length, get_elem?,
  or_else, drop, if◌then◌else◌, Text, text_eq, text_eq_iff, arith,
}
use llamacli.Diff.{
  DiffOp, add, del, ctx, skipped, head_or, rest_of, lcs_row, zeros, first_row, lcs_table, entry,
  walk, max_cells, lcs_diff,
}

-- What a list of operations takes away from, and what it makes.
pub old_side : List DiffOp → List Text
old_side [] = []
old_side (add l ∷ ops) = old_side ops
old_side (del l ∷ ops) = l ∷ old_side ops
old_side (ctx l ∷ ops) = l ∷ old_side ops
old_side (skipped n m ∷ ops) = old_side ops

pub new_side : List DiffOp → List Text
new_side [] = []
new_side (add l ∷ ops) = l ∷ new_side ops
new_side (del l ∷ ops) = new_side ops
new_side (ctx l ∷ ops) = l ∷ new_side ops
new_side (skipped n m ∷ ops) = new_side ops

pub kept : List DiffOp → ℕ
kept [] = 0
kept (ctx l ∷ ops) = suc (kept ops)
kept (add l ∷ ops) = kept ops
kept (del l ∷ ops) = kept ops
kept (skipped n m ∷ ops) = kept ops

map-add_sides :
    (ys : List Text)
    → (old_side (map add ys) ≡ []) × (new_side (map add ys) ≡ ys) × (kept (map add ys) ≡ 0)
unfolding old_side new_side kept
map-add_sides [] = (refl, refl, refl)
map-add_sides (y ∷ ys) = let (a, b, c) = map-add_sides ys in (a, ap (◌∷◌ y) b, c)

map-del_sides :
    (xs : List Text)
    → (old_side (map del xs) ≡ xs) × (new_side (map del xs) ≡ []) × (kept (map del xs) ≡ 0)
unfolding old_side new_side kept
map-del_sides [] = (refl, refl, refl)
map-del_sides (x ∷ xs) = let (a, b, c) = map-del_sides xs in (ap (◌∷◌ x) a, b, c)

walk_sides :
    (dp : List (List ℕ)) (i j : ℕ) (xs ys : List Text)
    → (old_side (walk dp i j xs ys) ≡ xs) × (new_side (walk dp i j xs ys) ≡ ys)
unfolding walk old_side new_side
walk_sides dp i j [] ys = let (a, b, _) = map-add_sides ys in (a, b)
walk_sides dp i j (x ∷ xs) [] = let (a, b, _) = map-del_sides (x ∷ xs) in (a, b)
walk_sides dp i j (x ∷ xs) (y ∷ ys) = ground (
  arith,
  text_eq_iff x y,
  walk_sides dp (i + 1) (j + 1) xs ys,
  walk_sides dp (i + 1) j xs (y ∷ ys),
  walk_sides dp i (j + 1) (x ∷ xs) ys,
)

-- Unless the diff is skipped, its removed and unchanged lines are the old file, and its added and
-- unchanged lines are the new one, each in order.
pub lcs_diff_sides :
    (old new : List Text)
    → length old * length new ≤ max_cells
    → (old_side (lcs_diff old new) ≡ old) × (new_side (lcs_diff old new) ≡ new)
unfolding lcs_diff
lcs_diff_sides old new h = ground (arith, walk_sides (lcs_table old new) 0 0 old new)

-- The length of a longest common subsequence, by the recursion on both lists.
unfoldable pub lcs : List Text → List Text → ℕ
lcs [] ys = 0
lcs (x ∷ xs) [] = 0
lcs (x ∷ xs) (y ∷ ys) =
    let same = suc (lcs xs ys) in
    let skip_old = lcs xs (y ∷ ys) in
    let skip_new = lcs (x ∷ xs) ys in if text_eq x y then same else max skip_old skip_new

abbrev IsRow : List Text → List Text → List ℕ → Type 0
IsRow xs [] row = head_or row ≡ 0
IsRow xs (y ∷ ys) row = (head_or row ≡ lcs xs (y ∷ ys)) × IsRow xs ys (rest_of row)

zeros-IsRow : (ys : List Text) → IsRow [] ys (zeros ys)
unfolding lcs
zeros-IsRow [] = refl
zeros-IsRow (y ∷ ys) = (refl, zeros-IsRow ys)

head-IsRow : (xs ys : List Text) (row : List ℕ) → IsRow xs ys row → head_or row ≡ lcs xs ys
unfolding lcs
head-IsRow [] [] row h = h
head-IsRow (x ∷ xs) [] row h = h
head-IsRow xs (y ∷ ys) row h = h.0

lcs_row-IsRow :
    (x : Text) (xs ys : List Text) (below : List ℕ)
    → IsRow xs ys below
    → IsRow (x ∷ xs) ys (lcs_row x ys below)
unfolding lcs_row lcs
lcs_row-IsRow x xs [] below h = refl
lcs_row-IsRow x xs (y ∷ ys) below (h, hs) =
    let row = lcs_row-IsRow x xs ys (rest_of below) hs in
    let right = head-IsRow (x ∷ xs) ys (lcs_row x ys (rest_of below)) row in
    let diagonal = head-IsRow xs ys (rest_of below) hs in (ground (arith, right, diagonal), row)

abbrev IsTable : List Text → List Text → List (List ℕ) → Type 0
IsTable [] ys rows = IsRow [] ys (first_row rows)
IsTable (x ∷ xs) ys [] = ⊥
IsTable (x ∷ xs) ys (r ∷ rows) = IsRow (x ∷ xs) ys r × IsTable xs ys rows

first-IsTable :
    (xs ys : List Text) (rows : List (List ℕ)) → IsTable xs ys rows → IsRow xs ys (first_row rows)
first-IsTable [] ys rows h = h
first-IsTable (x ∷ xs) ys [] h = absurd h
first-IsTable (x ∷ xs) ys (r ∷ rows) h = h.0

lcs_table-IsTable : (xs ys : List Text) → IsTable xs ys (lcs_table xs ys)
unfolding lcs_table
lcs_table-IsTable [] ys = zeros-IsRow ys
lcs_table-IsTable (x ∷ xs) ys =
    let below = lcs_table-IsTable xs ys in
    (lcs_row-IsRow x xs ys _ (first-IsTable xs ys (lcs_table xs ys) below), below)

entry-IsRow :
    (xs ys : List Text) (row : List ℕ) (j : ℕ)
    → j ≤ length ys
    → IsRow xs ys row
    → or_else (get_elem? row j) 0 ≡ lcs xs (drop j ys)
entry-IsRow xs ys [] zero le h = head-IsRow xs ys [] h
entry-IsRow xs ys (n ∷ row) zero le h = head-IsRow xs ys (n ∷ row) h
entry-IsRow xs [] row (suc j) le h = absurd (omega arith)
entry-IsRow xs (y ∷ ys) [] (suc j) le (_, h) = outside xs ys j h
  where
    outside : (xs ys : List Text) (j : ℕ) → IsRow xs ys [] → 0 ≡ lcs xs (drop j ys)
    outside xs ys zero h = head-IsRow xs ys [] h
    outside xs [] (suc j) h = head-IsRow xs [] [] h
    outside xs (y ∷ ys) (suc j) h = outside xs ys j h.1
entry-IsRow xs (y ∷ ys) (n ∷ row) (suc j) le (_, h) = entry-IsRow xs ys row j (omega arith) h

entry-IsTable :
    (xs ys : List Text) (rows : List (List ℕ)) (i j : ℕ)
    → i ≤ length xs
    → j ≤ length ys
    → IsTable xs ys rows
    → entry rows i j ≡ lcs (drop i xs) (drop j ys)
unfolding entry
entry-IsTable [] ys [] zero j le lj h = entry-IsRow [] ys [] j lj h
entry-IsTable [] ys (r ∷ rows) zero j le lj h = entry-IsRow [] ys r j lj h
entry-IsTable [] ys rows (suc i) j le lj h = absurd (omega arith)
entry-IsTable (x ∷ xs) ys [] i j le lj h = absurd h
entry-IsTable (x ∷ xs) ys (r ∷ rows) zero j le lj h = entry-IsRow (x ∷ xs) ys r j lj h.0
entry-IsTable (x ∷ xs) ys (r ∷ rows) (suc i) j le lj h =
    entry-IsTable xs ys rows i j (omega arith) lj h.1

-- The table is right for the lines from (i, j) on.
abbrev IsRight : List (List ℕ) → ℕ → ℕ → List Text → List Text → Type 0
IsRight dp i j xs ys =
    (k l : ℕ)
    → k ≤ length xs
    → l ≤ length ys
    → entry dp (i + k) (j + l) ≡ lcs (drop k xs) (drop l ys)

module _ (dp : List (List ℕ)) (i j : ℕ) (x y : Text) (xs ys : List Text)
    (h : IsRight dp i j (x ∷ xs) (y ∷ ys)) where
  down : IsRight dp (i + 1) j xs (y ∷ ys)
  down k l a b =
      subst (λ n. entry dp n (j + l) ≡ lcs (drop k xs) (drop l (y ∷ ys))) {x = i + suc k}
        {y = i + 1 + k} (omega arith) (h (suc k) l (omega arith) b)

  right : IsRight dp i (j + 1) (x ∷ xs) ys
  right k l a b =
      subst (λ n. entry dp (i + k) n ≡ lcs (drop k (x ∷ xs)) (drop l ys)) {x = j + suc l}
        {y = j + 1 + l} (omega arith) (h k (suc l) a (omega arith))

first_entry :
    (dp : List (List ℕ)) (i j : ℕ) (xs ys : List Text)
    → IsRight dp i j xs ys
    → entry dp i j ≡ lcs xs ys
first_entry dp i j xs ys h =
    subst (λ n. entry dp n j ≡ lcs xs ys) {x = i + 0} {y = i} (omega arith)
      (subst (λ n. entry dp (i + 0) n ≡ lcs xs ys) {x = j + 0} {y = j} (omega arith)
        (h 0 0 (omega arith) (omega arith)))

both :
    (dp : List (List ℕ)) (i j : ℕ) (x y : Text) (xs ys : List Text)
    → IsRight dp i j (x ∷ xs) (y ∷ ys)
    → IsRight dp (i + 1) (j + 1) xs ys
both dp i j x y xs ys h k l a b =
    subst (λ n. entry dp n (j + 1 + l) ≡ lcs (drop k xs) (drop l ys)) {x = i + suc k}
      {y = i + 1 + k} (omega arith)
      (subst (λ n. entry dp (i + suc k) n ≡ lcs (drop k xs) (drop l ys)) {x = j + suc l}
        {y = j + 1 + l} (omega arith) (h (suc k) (suc l) (omega arith) (omega arith)))

kept-walk :
    (dp : List (List ℕ)) (i j : ℕ) (xs ys : List Text)
    → IsRight dp i j xs ys
    → kept (walk dp i j xs ys) ≡ lcs xs ys
unfolding walk kept lcs
kept-walk dp i j [] ys h = (map-add_sides ys).2
kept-walk dp i j (x ∷ xs) [] h = (map-del_sides (x ∷ xs)).2
kept-walk dp i j (x ∷ xs) (y ∷ ys) h =
    let below = down dp i j x y xs ys h in
    let beside = right dp i j x y xs ys h in
    ground (
      arith,
      kept-walk dp (i + 1) (j + 1) xs ys (both dp i j x y xs ys h),
      kept-walk dp (i + 1) j xs (y ∷ ys) below,
      kept-walk dp i (j + 1) (x ∷ xs) ys beside,
      first_entry dp (i + 1) j xs (y ∷ ys) below,
      first_entry dp i (j + 1) (x ∷ xs) ys beside,
    )

pub kept-lcs_diff :
    (old new : List Text)
    → length old * length new ≤ max_cells
    → kept (lcs_diff old new) ≡ lcs old new
unfolding lcs_diff
kept-lcs_diff old new h = ground (
  arith,
  kept-walk (lcs_table old new) 0 0 old new (λ k l a b.
      subst (λ n. entry (lcs_table old new) n (0 + l) ≡ lcs (drop k old) (drop l new)) {x = k}
        {y = 0 + k} (omega arith)
        (subst (λ n. entry (lcs_table old new) k n ≡ lcs (drop k old) (drop l new)) {x = l}
          {y = 0 + l} (omega arith)
          (entry-IsTable old new (lcs_table old new) k l a b (lcs_table-IsTable old new)))),
)
