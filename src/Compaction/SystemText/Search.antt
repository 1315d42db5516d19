-- ===== src/Compaction/SystemText/Search.antt =====
-- Lemmas on the search for the summary header: `startsWith` and `indexOf`.
use llamacli.Prelude.{
  ℕ, suc, ◌+◌, ◌≡◌, ◌≢◌, refl, sym, ◌∙◌, subst, inl, inr, ◌++◌, [], ◌∷◌, length, All, take, drop,
  Text, arith, true, false, Bool-cases, none, some, Option-cases, take-append-drop,
}
use llamacli.Compaction.SystemText.{starts_with, index_of}

-- A match of a text without line breaks does not reach over a line break.
pub starts_with-before :
    (h s t : Text)
    → All (λ c. c ≢ 10) h
    → starts_with h s ≡ false
    → starts_with h (s ++ (10 ∷ t)) ≡ false
unfolding starts_with
starts_with-before [] s t _ e = e
starts_with-before (a ∷ h) [] t (k, _) _ = ground arith
starts_with-before (a ∷ h) (b ∷ s) t (_, ks) e = ground (arith, starts_with-before h s t ks)

pub starts_with_self : (h s : Text) → starts_with h (h ++ s) ≡ true
unfolding starts_with
starts_with_self [] s = refl
starts_with_self (a ∷ h) s = ground (arith, starts_with_self h s)

-- A text that a prefix of `s` begins with begins `s`.
starts_with-prefix : (h p q : Text) → starts_with h (p ++ q) ≡ false → starts_with h p ≡ false
unfolding starts_with
starts_with-prefix [] p q e = e
starts_with-prefix (a ∷ h) [] q e = refl
starts_with-prefix (a ∷ h) (b ∷ p) q e = ground (arith, starts_with-prefix h p q)

index_of-cons :
    (h s : Text) (c : ℕ)
    → starts_with h (c ∷ s) ≡ false
    → index_of h s ≡ none
    → index_of h (c ∷ s) ≡ none
unfolding index_of
index_of-cons h s c e f = ground arith

index_of-cons_none :
    (h s : Text) (c : ℕ)
    → index_of h (c ∷ s) ≡ none
    → (starts_with h (c ∷ s) ≡ false) × (index_of h s ≡ none)
unfolding index_of
index_of-cons_none h s c e = ground arith

pub index_of-prefix :
    (a : ℕ) (h p q : Text) → index_of (a ∷ h) (p ++ q) ≡ none → index_of (a ∷ h) p ≡ none
unfolding index_of starts_with
index_of-prefix a h [] q e = refl
index_of-prefix a h (c ∷ p) q e =
    let (now, later) = index_of-cons_none (a ∷ h) (p ++ q) c e in
    index_of-cons (a ∷ h) p c (starts_with-prefix (a ∷ h) (c ∷ p) q now)
      (index_of-prefix a h p q later)

index_of-now :
    (h s : Text) (c i : ℕ) → starts_with h (c ∷ s) ≡ true → index_of h (c ∷ s) ≡ some i → 0 ≡ i
unfolding index_of
index_of-now h s c i e f = ground arith

index_of-later :
    (h s : Text) (c i : ℕ)
    → starts_with h (c ∷ s) ≡ false
    → index_of h (c ∷ s) ≡ some i
    → (j : ℕ) × (suc j ≡ i) × (index_of h s ≡ some j)
unfolding index_of
index_of-later h s c i e f = elim (Option-cases (index_of h s)) [
  | inl g ↦ absurd (none-ne-some i (sym (index_of-cons h s c e g) ∙ f))
  | inr (j, g) ↦ (j, ground arith, g)
]
  where
    none-ne-some : (i : ℕ) → none ≡ some i → ⊥
    none-ne-some i e = ground arith

-- The text before the first match has no match.
pub index_of-take :
    (a : ℕ) (h s : Text) (i : ℕ) → index_of (a ∷ h) s ≡ some i → index_of (a ∷ h) (take i s) ≡ none
unfolding index_of starts_with
index_of-take a h [] i e = ground arith
index_of-take a h (c ∷ s) i e = elim (Bool-cases (starts_with (a ∷ h) (c ∷ s))) [
  | inl now ↦
      subst (λ n. index_of (a ∷ h) (take n (c ∷ s)) ≡ none) {x = 0} {y = i}
        (index_of-now (a ∷ h) s c i now e) refl
  | inr not_now ↦
      let (j, at, later) = index_of-later (a ∷ h) s c i not_now e in
      subst (λ n. index_of (a ∷ h) (take n (c ∷ s)) ≡ none) {x = suc j} {y = i} at
        (index_of-cons (a ∷ h) (take j s) c
          (starts_with-prefix (a ∷ h) (c ∷ take j s) (drop j s)
            (subst (λ z. starts_with (a ∷ h) (c ∷ z) ≡ false) (sym (take-append-drop j s)) not_now))
          (index_of-take a h s j later))
]

-- Behind a text without a match, a line break and then a match.
pub index_of-after :
    (h b s : Text) (n : ℕ)
    → All (λ c. c ≢ 10) h
    → index_of h b ≡ none
    → starts_with h (10 ∷ s) ≡ false
    → index_of h s ≡ some n
    → index_of h (b ++ (10 ∷ s)) ≡ some (length b + suc n)
unfolding index_of
index_of-after h [] s n k none_before not_now there = ground arith
index_of-after h (c ∷ b) s n k none_before not_now there =
    let (now, later) = index_of-cons_none h b c none_before in
    let rest = index_of-after h b s n k later not_now there in
    let apart = starts_with-before h (c ∷ b) s k now in ground arith
