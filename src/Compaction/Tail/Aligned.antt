-- ===== src/Compaction/Tail/Aligned.antt =====
-- Where the kept tail begins.
use llamacli.Prelude.{
  ℕ, zero, suc, ◌+◌, ◌-◌, ◌<◌, ◌≡◌, ◌≢◌, refl, sym, ap, subst, List, [], ◌∷◌, none, some, true,
  false, length, take, drop, keep, All, arith, ◌⊎◌, inl, inr, Bool-cases, Option-cases,
}
use mathlib.Core.List.{reverse}
use llamacli.Compaction.Tail.Split.{find_user_bounds, align_bounds, kept_bounds, length_pos}
use llamacli.Compaction.Message.{ChatMessage}
use llamacli.Compaction.Tail.{
  Fraction, is_not_system, is_user, tail_budget, kept_count, find_user, starts_with_user, align,
  cut_index, select_kept_tail,
}

-- The part from `cut` on begins with a user message, or it is everything, or no user message stands
-- anywhere behind its first message.
abbrev pub IsAligned : ℕ → List ChatMessage → Type 0
IsAligned cut ms =
    (starts_with_user (drop cut ms) ≡ true)
    ⊎ (cut ≡ 0)
    ⊎ All (λ m. is_user m ≡ false) (drop (suc cut) ms)

find_user-none :
    (i : ℕ) (ms : List ChatMessage) → find_user i ms ≡ none → All (λ m. is_user m ≡ false) ms
unfolding find_user
find_user-none i [] e = tt
find_user-none i (m ∷ ms) e = (ground arith, find_user-none (suc i) ms (ground arith))

find_user-starts :
    (k i : ℕ) (ms : List ChatMessage)
    → find_user k ms ≡ some (k + i)
    → starts_with_user (drop i ms) ≡ true
unfolding find_user starts_with_user
find_user-starts k i [] e = cc e
find_user-starts k zero (m ∷ ms) e = ground (arith, find_user_bounds (suc k) (k + 0) ms)
find_user-starts k (suc i) (m ∷ ms) e = elim (Bool-cases (is_user m)) [
  | inl yes_user ↦ absurd (ground arith)
  | inr other ↦ find_user-starts (suc k) i ms (
      subst (λ n. find_user (suc k) ms ≡ some n) {x = k + suc i} {y = suc k + i} (omega arith)
        (rw (other, find_user) at e))
]

-- The same, where the search runs behind the first `n` messages of the list.
find_user-starts_from :
    (k n i : ℕ) (ms : List ChatMessage)
    → find_user (k + n) (drop n ms) ≡ some (k + i)
    → starts_with_user (drop i ms) ≡ true
find_user-starts_from k zero i ms e =
    find_user-starts k i ms
      (subst (λ n. find_user n ms ≡ some (k + i)) {x = k + 0} {y = k} (omega arith) e)
find_user-starts_from k (suc n) i [] e =
    absurd (omega (arith, find_user_bounds (k + suc n) (k + i) [] e))
find_user-starts_from k (suc n) zero (m ∷ ms) e =
    absurd (omega (arith, find_user_bounds (k + suc n) (k + 0) (drop n ms) e))
find_user-starts_from k (suc n) (suc i) (m ∷ ms) e = find_user-starts_from (suc k) n i ms (
    subst (λ a. find_user a (drop n ms) ≡ some (suc k + i)) {x = k + suc n} {y = suc k + n}
      (omega arith)
      (subst (λ b. find_user (k + suc n) (drop n ms) ≡ some b) {x = k + suc i} {y = suc k + i}
        (omega arith) e))

starts_behind :
    (ms : List ChatMessage) (n i : ℕ)
    → find_user n (drop n ms) ≡ some i
    → starts_with_user (drop i ms) ≡ true
starts_behind ms n i found = find_user-starts_from 0 n i ms (
    subst (λ a. find_user a (drop n ms) ≡ some (0 + i)) {x = n} {y = 0 + n} (omega arith)
      (subst (λ b. find_user n (drop n ms) ≡ some b) {x = i} {y = 0 + i} (omega arith) found))

align-stays :
    (ms : List ChatMessage) (c : ℕ)
    → (starts_with_user (drop (suc c) ms) ≡ true)
      ⊎ (find_user (suc (suc c)) (drop (suc (suc c)) ms) ≡ none)
    → align ms (suc c) ≡ suc c
unfolding align
align-stays ms c h = ground arith

align-moves :
    (ms : List ChatMessage) (c i : ℕ)
    → suc c < length ms
    → starts_with_user (drop (suc c) ms) ≡ false
    → find_user (suc (suc c)) (drop (suc (suc c)) ms) ≡ some i
    → align ms (suc c) ≡ i
unfolding align
align-moves ms c i h other found = ground arith

align-IsAligned : (ms : List ChatMessage) (cut : ℕ) → cut < length ms → IsAligned (align ms cut) ms
unfolding align
align-IsAligned ms zero h = inr (inl refl)
align-IsAligned ms (suc c) h = elim (Bool-cases (starts_with_user (drop (suc c) ms))) [
  | inl at_user ↦ subst (λ n. IsAligned n ms) (sym (align-stays ms c (inl at_user))) (inl at_user)
  | inr other ↦ elim (Option-cases (find_user (suc (suc c)) (drop (suc (suc c)) ms))) [
    | inl missing ↦
        subst (λ n. IsAligned n ms) (sym (align-stays ms c (inr missing)))
          (inr (inr (find_user-none (suc (suc c)) (drop (suc (suc c)) ms) missing)))
    | inr (i, found) ↦
        subst (λ n. IsAligned n ms) (sym (align-moves ms c i h other found))
          (inl (starts_behind ms (suc (suc c)) i found))
  ]
]

cut_index-align :
    (ms : List ChatMessage) (budget : ℕ)
    → ms ≢ []
    → cut_index ms budget ≡ align ms (length ms - kept_count budget 0 0 (reverse ms))
unfolding cut_index
cut_index-align ms budget h =
    let (positive, le) = kept_bounds ms budget h in
    let some_message = length_pos ms h in
    let (lo, hi) = align_bounds ms (length ms - kept_count budget 0 0 (reverse ms)) (omega arith) in
    ground arith

cut_index-IsAligned :
    (ms : List ChatMessage) (budget : ℕ) → ms ≢ [] → IsAligned (cut_index ms budget) ms
cut_index-IsAligned ms budget h =
    let (positive, le) = kept_bounds ms budget h in
    let some_message = length_pos ms h in
    subst (λ n. IsAligned n ms) (sym (cut_index-align ms budget h))
      (align-IsAligned ms (length ms - kept_count budget 0 0 (reverse ms)) (omega arith))

drop_one : (n : ℕ) (ms : List ChatMessage) → drop 1 (drop n ms) ≡ drop (suc n) ms
drop_one zero [] = refl
drop_one zero (m ∷ ms) = refl
drop_one (suc n) [] = refl
drop_one (suc n) (m ∷ ms) = drop_one n ms

-- Where there is a message to keep, the kept tail begins with a user message, or it is the whole conversation without its system
-- messages, or there is no user message behind its first message to begin with.
pub keep_tail-IsAligned :
    (messages : List ChatMessage) (window : ℕ) (f : Fraction)
    → keep is_not_system messages ≢ []
    → (starts_with_user (select_kept_tail messages window f).keep_tail ≡ true)
      ⊎ ((select_kept_tail messages window f).to_summarize ≡ [])
      ⊎ All (λ m. is_user m ≡ false) (drop 1 (select_kept_tail messages window f).keep_tail)
unfolding select_kept_tail
keep_tail-IsAligned messages window f h =
    let ms = keep is_not_system messages in
    let cut = cut_index ms (tail_budget window f) in
    elim (cut_index-IsAligned ms (tail_budget window f) h) [
      | inl at_user ↦ inl at_user
      | inr (inl all) ↦ inr (inl (ap (λ n. take n ms) all))
      | inr (inr no_user) ↦
          inr (inr (subst (All (λ m. is_user m ≡ false)) (sym (drop_one cut ms)) no_user))
    ]
