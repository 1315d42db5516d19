-- ===== src/Diff/Optimal.antt =====
-- The diff keeps a longest common subsequence.
use llamacli.Prelude.{suc, ◌*◌, ◌≤◌, ◌≡◌, refl, List, [], ◌∷◌, length, Text, text_eq_iff, arith}
use llamacli.Diff.{max_cells, lcs_diff}
use llamacli.Diff.Lcs.{lcs, kept, kept-lcs_diff}

-- `s` arises from `xs` by leaving lines out.
pub data IsSubsequence : List Text → List Text → Type 0 where
  nil : IsSubsequence [] []
  skip : {s xs : List Text} (x : Text) → IsSubsequence s xs → IsSubsequence s (x ∷ xs)
  same : {s xs : List Text} (x : Text) → IsSubsequence s xs → IsSubsequence (x ∷ s) (x ∷ xs)

lcs-nil : (xs : List Text) → lcs xs [] ≡ 0
unfolding lcs
lcs-nil [] = refl
lcs-nil (x ∷ xs) = refl

-- One more line on a side adds at most one to the length.
lcs-new_le : (xs ys : List Text) (y : Text) → lcs xs (y ∷ ys) ≤ suc (lcs xs ys)
unfolding lcs
lcs-new_le [] ys y = omega arith
lcs-new_le (x ∷ xs) [] y = ground (arith, lcs-new_le xs [] y, lcs-nil xs)
lcs-new_le (x ∷ xs) (z ∷ ys) y = ground (arith, lcs-new_le xs (z ∷ ys) y, lcs-new_le xs ys z)

lcs-old_grows : (xs ys : List Text) (x : Text) → lcs xs ys ≤ lcs (x ∷ xs) ys
unfolding lcs
lcs-old_grows xs [] x = omega (arith, lcs-nil xs)
lcs-old_grows xs (y ∷ ys) x = ground (arith, lcs-new_le xs ys y)

lcs-old_le : (xs ys : List Text) (x : Text) → lcs (x ∷ xs) ys ≤ suc (lcs xs ys)
unfolding lcs
lcs-old_le xs [] x = omega arith
lcs-old_le [] (y ∷ ys) x = ground (arith, lcs-old_le [] ys x)
lcs-old_le (z ∷ xs) (y ∷ ys) x = ground (arith, lcs-old_le (z ∷ xs) ys x, lcs-old_le xs ys z)

lcs-new_grows : (xs ys : List Text) (y : Text) → lcs xs ys ≤ lcs xs (y ∷ ys)
unfolding lcs
lcs-new_grows [] ys y = omega arith
lcs-new_grows (x ∷ xs) ys y = ground (arith, lcs-old_le xs ys x)

lcs-same : (xs ys : List Text) (x : Text) → lcs (x ∷ xs) (x ∷ ys) ≡ suc (lcs xs ys)
unfolding lcs
lcs-same xs ys x = ground (arith, text_eq_iff x x)

length-le_lcs :
    {s xs ys : List Text} → IsSubsequence s xs → IsSubsequence s ys → length s ≤ lcs xs ys
length-le_lcs nil b = omega arith
length-le_lcs {ys} (skip {xs} x a) b = omega (arith, length-le_lcs a b, lcs-old_grows xs ys x)
length-le_lcs (same {xs} x a) (skip {xs = zs} z b) =
    omega (arith, length-le_lcs (same x a) b, lcs-new_grows (x ∷ xs) zs z)
length-le_lcs (same {xs} x a) (same {xs = zs} _ b) =
    omega (arith, length-le_lcs a b, lcs-same xs zs x)

-- Unless the diff is skipped, it keeps at least as many lines unchanged as any common subsequence of
-- the two files has.
pub length-le_kept :
    (old new s : List Text)
    → length old * length new ≤ max_cells
    → IsSubsequence s old
    → IsSubsequence s new
    → length s ≤ kept (lcs_diff old new)
length-le_kept old new s h a b = rw (kept-lcs_diff old new h) (length-le_lcs a b)
