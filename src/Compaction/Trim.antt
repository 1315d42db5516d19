-- ===== src/Compaction/Trim.antt =====
-- `trimPartialSummary`: a summary cut off by the deadline ends at a clean seam.
use llamacli.Prelude.{
  ℕ, suc, ◌+◌, ◌≡◌, refl, List, [], ◌∷◌, ◌++◌, max, take, ltb, if◌then◌else◌, Text, lit, is_empty,
  arith, Bool-cases, drop, take-append-drop, ◌⊎◌, inl, inr, sym, subst, ap, ◌∙◌, false,
}
use mathlib.Core.List.{append_assoc}
use llamacli.Compaction.SystemText.{is_space, trim_end, starts_with}

-- `s.lastIndexOf(h)`, with 0 for -1: the source tests only whether the index is above 0.
unfoldable pub last_index : Text → Text → ℕ
last_index h [] = 0
last_index h (c ∷ s) =
    let later = last_index h s in
    if ltb 0 later then suc later else if starts_with h s then 1 else 0

unfoldable pub last_of : List Text → Text → ℕ
last_of [] s = 0
last_of (h ∷ hs) s = max (last_index h s) (last_of hs s)

unfoldable pub sentence_ends : List Text
sentence_ends =
    lit ". " ∷ lit "! " ∷ lit "? " ∷ lit "다. " ∷ lit "요. " ∷ lit ".。" ∷ lit "다." ∷ lit "요." ∷ []

unfoldable pub trim_at_seam : Text → Text
trim_at_seam trimmed =
    if ltb 0 (last_index (lit "\n\n") trimmed)
    then trim_end (take (last_index (lit "\n\n") trimmed) trimmed)
    else if ltb 0 (last_of sentence_ends trimmed)
    then trim_end (take (last_of sentence_ends trimmed + 1) trimmed)
    else if ltb 0 (last_index (lit "\n") trimmed)
    then trim_end (take (last_index (lit "\n") trimmed) trimmed)
    else []

unfoldable pub trim_partial_summary : Text → Text
trim_partial_summary text = if is_empty (trim_end text) then [] else trim_at_seam (trim_end text)

abbrev pub IsPrefix : Text → Text → Type 0
IsPrefix p s = (rest : Text) × (s ≡ p ++ rest)

abbrev pub EndsClean : Text → Type 0
EndsClean s = trim_end s ≡ s

trim_end-cons : (c d : ℕ) (s t : Text) → trim_end s ≡ d ∷ t → trim_end (c ∷ s) ≡ c ∷ d ∷ t
unfolding trim_end
trim_end-cons c d s t e = ground arith

trim_end-none :
    (c : ℕ) (s : Text)
    → trim_end s ≡ []
    → (trim_end (c ∷ s) ≡ []) ⊎ ((trim_end (c ∷ s) ≡ c ∷ []) × (is_space c ≡ false))
unfolding trim_end
trim_end-none c s e = ground arith

pub trim_end-IsPrefix : (s : Text) → IsPrefix (trim_end s) s
unfolding trim_end
trim_end-IsPrefix [] = ([], refl)
trim_end-IsPrefix (c ∷ s) = IsPrefix-step (trim_end s) refl (trim_end-IsPrefix s)
  where
    IsPrefix-step : (u : Text) → trim_end s ≡ u → IsPrefix u s → IsPrefix (trim_end (c ∷ s)) (c ∷ s)
    IsPrefix-step (d ∷ u) e (rest, eq) =
        subst (λ w. IsPrefix w (c ∷ s)) (sym (trim_end-cons c d s u e)) (rest, ap (λ z. c ∷ z) eq)
    IsPrefix-step [] e _ = elim (trim_end-none c s e) [
      | inl gone ↦ subst (λ w. IsPrefix w (c ∷ s)) (sym gone) (c ∷ s, refl)
      | inr (kept, _) ↦ subst (λ w. IsPrefix w (c ∷ s)) (sym kept) (s, refl)
    ]

trim_end-one : (c : ℕ) → is_space c ≡ false → EndsClean (c ∷ [])
unfolding trim_end
trim_end-one c e = ground arith

pub trim_end-EndsClean : (s : Text) → EndsClean (trim_end s)
unfolding trim_end
trim_end-EndsClean [] = refl
trim_end-EndsClean (c ∷ s) = EndsClean-step (trim_end s) refl (trim_end-EndsClean s)
  where
    EndsClean-step : (u : Text) → trim_end s ≡ u → EndsClean u → EndsClean (trim_end (c ∷ s))
    EndsClean-step (d ∷ u) e clean =
        subst EndsClean (sym (trim_end-cons c d s u e)) (trim_end-cons c d (d ∷ u) u clean)
    EndsClean-step [] e _ = elim (trim_end-none c s e) [
      | inl gone ↦ subst EndsClean (sym gone) refl
      | inr (kept, black) ↦ subst EndsClean (sym kept) (trim_end-one c black)
    ]

IsPrefix-trans : (p q s : Text) → IsPrefix p q → IsPrefix q s → IsPrefix p s
IsPrefix-trans p q s (a, e) (b, f) = (a ++ b, f ∙ ap (λ w. w ++ b) e ∙ append_assoc p a b)

take-IsPrefix : (n : ℕ) (s : Text) → IsPrefix (take n s) s
take-IsPrefix n s = (drop n s, sym (take-append-drop n s))

trim_take : (n : ℕ) (s : Text) → IsPrefix (trim_end (take n s)) s × EndsClean (trim_end (take n s))
trim_take n s = (
  IsPrefix-trans (trim_end (take n s)) (take n s) s (trim_end-IsPrefix (take n s))
      (take-IsPrefix n s),
  trim_end-EndsClean (take n s),
)

trim_at_seam-IsPrefix : (s : Text) → IsPrefix (trim_at_seam s) s × EndsClean (trim_at_seam s)
unfolding trim_at_seam trim_end
trim_at_seam-IsPrefix s = elim (Bool-cases (ltb 0 (last_index (lit "\n\n") s))) [
  | inl e ↦ rw e (trim_take (last_index (lit "\n\n") s) s)
  | inr e ↦ rw e (elim (Bool-cases (ltb 0 (last_of sentence_ends s))) [
    | inl f ↦ rw f (trim_take (last_of sentence_ends s + 1) s)
    | inr f ↦ rw f (elim (Bool-cases (ltb 0 (last_index (lit "\n") s))) [
      | inl g ↦ rw g (trim_take (last_index (lit "\n") s) s)
      | inr g ↦ rw g ((s, refl), refl)
    ])
  ])
]

-- What is kept of a summary that the deadline cut off is a prefix of it, and ends without white space.
pub trim_partial_summary-IsPrefix :
    (text : Text)
    → IsPrefix (trim_partial_summary text) text × EndsClean (trim_partial_summary text)
unfolding trim_partial_summary trim_end
trim_partial_summary-IsPrefix text = elim (Bool-cases (is_empty (trim_end text))) [
  | inl e ↦ rw e ((text, refl), refl)
  | inr e ↦ rw e (
      (
        IsPrefix-trans (trim_at_seam (trim_end text)) (trim_end text) text
            ((trim_at_seam-IsPrefix (trim_end text)).0) (trim_end-IsPrefix text),
        (trim_at_seam-IsPrefix (trim_end text)).1,
      ))
]
