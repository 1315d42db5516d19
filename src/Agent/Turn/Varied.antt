-- ===== src/Agent/Turn/Varied.antt =====
-- The last texts of a turn, and how often one of them comes back.
use llamacli.Prelude.{
  ℕ, zero, suc, ◌+◌, ◌-◌, ◌≤◌, ◌≡◌, refl, sym, ap, ◌∙◌, subst, List, [], ◌∷◌, ◌++◌, inl, inr, false,
  leb, ltb, length, drop, take_last, take_last-append, Text, arith, Bool-cases, if_intro, text_eq,
  text_eq_iff, length-append, length-drop,
}
use llamacli.Agent.Turn.{push_recent, shift_text, repeats_of}

pub length-take_last : (n : ℕ) (xs : List Text) → length (take_last n xs) ≤ n
length-take_last n xs = omega (arith, length-drop (length xs - n) xs)

shift_text-drop : (xs : List Text) → shift_text xs ≡ drop 1 xs
unfolding shift_text
shift_text-drop [] = refl
shift_text-drop (x ∷ xs) = refl

pub push_recent-take_last :
    (t : Text) (xs : List Text) → length xs ≤ 6 → push_recent t xs ≡ take_last 6 (xs ++ (t ∷ []))
unfolding push_recent
push_recent-take_last t xs h =
    if_intro (λ (ys : List Text). ys ≡ take_last 6 (xs ++ (t ∷ [])))
      (ltb 6 (length (xs ++ (t ∷ []))))
      (λ e.
        shift_text-drop (xs ++ (t ∷ []))
        ∙ ap (λ k. drop k (xs ++ (t ∷ []))) {x = 1} {y = length (xs ++ (t ∷ [])) - 6}
            (ground (arith, length-append xs (t ∷ []))))
      (λ e.
        ap (λ k. drop k (xs ++ (t ∷ []))) {x = 0} {y = length (xs ++ (t ∷ [])) - 6} (ground arith))

repeats-append :
    (t : Text) (xs ys : List Text) → repeats_of t (xs ++ ys) ≡ repeats_of t xs + repeats_of t ys
unfolding repeats_of
repeats-append t [] ys = omega arith
repeats-append t (x ∷ xs) ys = ground (arith, repeats-append t xs ys)

repeats-drop : (t : Text) (n : ℕ) (xs : List Text) → repeats_of t (drop n xs) ≤ repeats_of t xs
unfolding repeats_of
repeats-drop t zero xs = omega arith
repeats-drop t (suc n) [] = omega arith
repeats-drop t (suc n) (x ∷ xs) = ground (arith, repeats-drop t n xs)

repeats_one : (t x : Text) → text_eq t x ≡ false → repeats_of t (x ∷ []) ≡ 0
unfolding repeats_of
repeats_one t x e = ground arith

-- The last six of `hist` hold no text three times.
abbrev pub IsVaried : List Text → Type 0
IsVaried hist = (t : Text) → repeats_of t (take_last 6 hist) ≤ 2

pub push-IsVaried :
    (hist : List Text) (x : Text)
    → IsVaried hist
    → leb 3 (repeats_of x (take_last 6 (hist ++ (x ∷ [])))) ≡ false
    → IsVaried (hist ++ (x ∷ []))
push-IsVaried hist x varied e t = elim (Bool-cases (text_eq t x)) [
  | inl same ↦
      subst (λ u. repeats_of u (take_last 6 (hist ++ (x ∷ []))) ≤ 2)
        (sym ((text_eq_iff t x).0 same)) (ground arith)
  | inr other ↦
      subst (λ l. repeats_of t l ≤ 2) (take_last-append 6 hist (x ∷ []))
        (omega (
          arith,
          varied t,
          repeats_one t x other,
          repeats-append t (take_last 6 hist) (x ∷ []),
          repeats-drop t (length (take_last 6 hist ++ (x ∷ [])) - 6) (take_last 6 hist ++ (x ∷ [])),
        ))
]
