-- ===== src/Diff/Shown.antt =====
-- The rendered diff leaves no change out.
use llamacli.Prelude.{
  ℕ, zero, suc, ◌+◌, ◌-◌, ◌≤◌, ◌<◌, ◌≡◌, refl, sym, ap, ◌∙◌, subst, min, List, [], ◌∷◌, Bool, true,
  false, length, keep, if◌then◌else◌, Text, text_eq, text_eq_iff, text_eq_refl, drop, arith,
  Bool-cases, inl, inr, Option, some, get_elem?,
}
use llamacli.Diff.{
  lcs_table, walk, DiffOp, add, del, ctx, skipped, Line, header, added, removed, context, gap,
  is_change, mark, mark_changes, none_shown, line_of, render, format_diff, lcs_diff, split_lines,
}

-- The printed lines that show a change, and the changes, as operations.
pub changes_shown : List Line → List DiffOp
changes_shown [] = []
changes_shown (added l ∷ ls) = add l ∷ changes_shown ls
changes_shown (removed l ∷ ls) = del l ∷ changes_shown ls
changes_shown (header l ∷ ls) = changes_shown ls
changes_shown (context op ∷ ls) = changes_shown ls
changes_shown (gap ∷ ls) = changes_shown ls

-- Every change has its flag set.
abbrev Flags : List Bool → List DiffOp → Type 0
Flags show [] = Unit
Flags [] (op ∷ ops) = ⊥
Flags (b ∷ show) (op ∷ ops) = (is_change op ≡ true → b ≡ true) × Flags show ops

changes-render :
    (prev : Bool) (show : List Bool) (ops : List DiffOp)
    → Flags show ops
    → changes_shown (render prev show ops) ≡ keep is_change ops
unfolding changes_shown render line_of is_change
changes-render prev show [] h = refl
changes-render prev [] (op ∷ ops) h = absurd h
changes-render prev (true ∷ show) (add l ∷ ops) h =
    ap (◌∷◌ (add l)) (changes-render true show ops h.1)
changes-render prev (true ∷ show) (del l ∷ ops) h =
    ap (◌∷◌ (del l)) (changes-render true show ops h.1)
changes-render prev (true ∷ show) (ctx l ∷ ops) h = changes-render true show ops h.1
changes-render prev (true ∷ show) (skipped n m ∷ ops) h = changes-render true show ops h.1
changes-render prev (false ∷ show) (add l ∷ ops) h = cc (h.0 refl)
changes-render prev (false ∷ show) (del l ∷ ops) h = cc (h.0 refl)
changes-render true (false ∷ show) (ctx l ∷ ops) h = changes-render false show ops h.1
changes-render false (false ∷ show) (ctx l ∷ ops) h = changes-render false show ops h.1
changes-render true (false ∷ show) (skipped n m ∷ ops) h = changes-render false show ops h.1
changes-render false (false ∷ show) (skipped n m ∷ ops) h = changes-render false show ops h.1

-- Flag `i` is set.
abbrev IsFlagged : List Bool → ℕ → Type 0
IsFlagged show i = get_elem? show i ≡ some true

mark_sets :
    (k lo hi i : ℕ) (show : List Bool)
    → lo ≤ k + i
    → k + i ≤ hi
    → i < length show
    → IsFlagged (mark k lo hi show) i
unfolding mark
mark_sets k lo hi i [] a b c = absurd (omega arith)
mark_sets k lo hi zero (b ∷ show) a c d = ground arith
mark_sets k lo hi (suc i) (b ∷ show) a c d =
    mark_sets (k + 1) lo hi i show (omega arith) (omega arith) (omega arith)

mark_keeps : (k lo hi i : ℕ) (show : List Bool) → IsFlagged show i → IsFlagged (mark k lo hi show) i
unfolding mark
mark_keeps k lo hi i [] h = h
mark_keeps k lo hi zero (b ∷ show) h = ground arith
mark_keeps k lo hi (suc i) (b ∷ show) h = mark_keeps (k + 1) lo hi i show h

length-mark : (k lo hi : ℕ) (show : List Bool) → length (mark k lo hi show) ≡ length show
unfolding mark
length-mark k lo hi [] = refl
length-mark k lo hi (b ∷ show) = ap suc (length-mark (k + 1) lo hi show)

mark_changes_keeps :
    (c n idx i : ℕ) (ops : List DiffOp) (show : List Bool)
    → IsFlagged show i
    → IsFlagged (mark_changes c n idx ops show) i
unfolding mark_changes
mark_changes_keeps c n idx i [] show h = h
mark_changes_keeps c n idx i (op ∷ ops) show h = elim (Bool-cases (is_change op)) [
  | inl changed ↦ rw changed (
      mark_changes_keeps c n (idx + 1) i ops _
        (mark_keeps 0 (idx - c) (min (n - 1) (idx + c)) i show h))
  | inr plain ↦ rw plain (mark_changes_keeps c n (idx + 1) i ops show h)
]

length-mark_changes :
    (c n idx : ℕ) (ops : List DiffOp) (show : List Bool)
    → length (mark_changes c n idx ops show) ≡ length show
unfolding mark_changes
length-mark_changes c n idx [] show = refl
length-mark_changes c n idx (op ∷ ops) show = elim (Bool-cases (is_change op)) [
  | inl changed ↦ rw changed (
      length-mark_changes c n (idx + 1) ops _
      ∙ length-mark 0 (idx - c) (min (n - 1) (idx + c)) show)
  | inr plain ↦ rw plain (length-mark_changes c n (idx + 1) ops show)
]

-- The flags from index `idx` on.
abbrev FlagsFrom : List Bool → ℕ → List DiffOp → Type 0
FlagsFrom show idx [] = Unit
FlagsFrom show idx (op ∷ ops) =
    (is_change op ≡ true → IsFlagged show idx) × FlagsFrom show (suc idx) ops

abbrev flags_after : ℕ → ℕ → ℕ → DiffOp → List Bool → List Bool
flags_after c n idx op show =
    if is_change op then mark 0 (idx - c) (min (n - 1) (idx + c)) show else show

length-flags_after :
    (c n idx : ℕ) (op : DiffOp) (show : List Bool)
    → length (flags_after c n idx op show) ≡ length show
length-flags_after c n idx op show =
    ground (arith, length-mark 0 (idx - c) (min (n - 1) (idx + c)) show)

flags_after-IsFlagged :
    (c n idx : ℕ) (op : DiffOp) (show : List Bool)
    → length show ≡ n
    → idx < n
    → is_change op ≡ true
    → IsFlagged (flags_after c n idx op show) idx
flags_after-IsFlagged c n idx op show e lt changed = rw changed (
    mark_sets 0 (idx - c) (min (n - 1) (idx + c)) idx show (omega arith) (omega arith)
      (omega arith))

mark_changes-FlagsFrom :
    (c n idx : ℕ) (ops : List DiffOp) (show : List Bool)
    → length show ≡ n
    → idx + length ops ≤ n
    → FlagsFrom (mark_changes c n idx ops show) idx ops
unfolding mark_changes
mark_changes-FlagsFrom c n idx [] show e le = tt
mark_changes-FlagsFrom c n idx (op ∷ ops) show e le =
    let after = flags_after c n idx op show in
    (
      λ changed.
          mark_changes_keeps c n (idx + 1) idx ops after
            (flags_after-IsFlagged c n idx op show e (omega arith) changed),
      subst (λ i. FlagsFrom (mark_changes c n (idx + 1) ops after) i ops) {x = idx + 1}
          {y = suc idx} (omega arith)
          (mark_changes-FlagsFrom c n (idx + 1) ops after (length-flags_after c n idx op show ∙ e)
            (omega arith)),
    )

split_flag :
    (show : List Bool) (idx : ℕ)
    → idx < length show
    → (b : Bool) × (drop idx show ≡ b ∷ drop (suc idx) show) × (get_elem? show idx ≡ some b)
split_flag [] idx h = absurd (omega arith)
split_flag (b ∷ show) zero h = (b, refl, refl)
split_flag (b ∷ show) (suc idx) h = split_flag show idx (omega arith)

some_same : {a b : Bool} {o : Option Bool} → o ≡ some a → o ≡ some b → a ≡ b
some_same p q = cc (p, q)

Flags-of_drop :
    (show : List Bool) (idx : ℕ) (ops : List DiffOp)
    → idx + length ops ≤ length show
    → FlagsFrom show idx ops
    → Flags (drop idx show) ops
Flags-of_drop show idx [] le h = tt
Flags-of_drop show idx (op ∷ ops) le (h, hs) =
    let (b, dropped, found) = split_flag show idx (omega arith) in
    subst (λ bs. Flags bs (op ∷ ops)) (sym dropped)
      (λ e. some_same found (h e), Flags-of_drop show (suc idx) ops (omega arith) hs)

length-none_shown : (ops : List DiffOp) → length (none_shown ops) ≡ length ops
unfolding none_shown
length-none_shown [] = refl
length-none_shown (op ∷ ops) = ap suc (length-none_shown ops)

walk_same :
    (dp : List (List ℕ)) (i j : ℕ) (xs : List Text) → keep is_change (walk dp i j xs xs) ≡ []
unfolding walk is_change
walk_same dp i j [] = refl
walk_same dp i j (x ∷ xs) = rw (text_eq_refl x) (walk_same dp (i + 1) (j + 1) xs)

lcs_diff_same : (xs : List Text) → keep is_change (lcs_diff xs xs) ≡ []
unfolding lcs_diff is_change
lcs_diff_same xs = ground (arith, walk_same (lcs_table xs xs) 0 0 xs)

-- The rendered diff shows exactly the changes of the line diff, in their order, whatever the number
-- of context lines: trimming the context never hides an added or removed line.
pub changes-format_diff :
    (path old_text new_text : Text) (context_lines : ℕ)
    → changes_shown (format_diff path old_text new_text context_lines)
      ≡ keep is_change (lcs_diff (split_lines old_text) (split_lines new_text))
unfolding format_diff changes_shown
changes-format_diff path old_text new_text c = elim (Bool-cases (text_eq old_text new_text)) [
  | inl same ↦ rw same (
      subst (λ t. [] ≡ keep is_change (lcs_diff (split_lines old_text) (split_lines t)))
        ((text_eq_iff old_text new_text).0 same) (sym (lcs_diff_same (split_lines old_text))))
  | inr differ ↦
      let ops = lcs_diff (split_lines old_text) (split_lines new_text) in
      let show = mark_changes c (length ops) 0 ops (none_shown ops) in
      let enough =
        length-mark_changes c (length ops) 0 ops (none_shown ops) ∙ length-none_shown ops in
      rw differ (
        changes-render false show ops (
          Flags-of_drop show 0 ops (omega (arith, enough)) (
            mark_changes-FlagsFrom c (length ops) 0 ops (none_shown ops) (length-none_shown ops)
              (omega arith))))
]
