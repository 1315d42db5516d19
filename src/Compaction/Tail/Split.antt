-- ===== src/Compaction/Tail/Split.antt =====
-- The kept tail and the part to summarize.
use llamacli.Prelude.{
  is_nil_or_not, ℕ, zero, suc, ◌+◌, ◌-◌, ◌≤◌, ◌<◌, ◌≡◌, ◌≢◌, refl, sym, ap, ◌∙◌, subst, List, [],
  ◌∷◌, ◌++◌, some, length, take, drop, keep, arith, ◌⊎◌, inl, inr, ltb, ltb→ge, Bool-cases,
  Option-cases, take-append-drop, length-append, length-drop,
}
use mathlib.Core.List.{reverse, reverse-cons, reverse-append}
use llamacli.Compaction.Message.{ChatMessage}
use llamacli.Compaction.Tail.{
  Fraction, is_not_system, tokens_of, sum_tokens, tail_budget, kept_count, find_user, align,
  cut_index, select_kept_tail,
}

-- The loop keeps some number `j` of the older messages on top of those kept already: none, or as
-- many as stay within the budget.
kept_count_more :
    (budget used k : ℕ) (older : List ChatMessage)
    → (j : ℕ) × (kept_count budget used (suc k) older ≡ suc k + j)
      × (j ≤ length older)
      × ((j ≡ 0) ⊎ (used + sum_tokens (take j older) ≤ budget))
unfolding kept_count sum_tokens
kept_count_more budget used k [] = (0, omega arith, omega arith, inl refl)
kept_count_more budget used k (m ∷ older) = elim (Bool-cases (ltb budget (used + tokens_of m))) [
  | inl over ↦ (0, rw over (ground arith), omega arith, inl refl)
  | inr fits ↦
      let (j, e, le, within) = kept_count_more budget (used + tokens_of m) (suc k) older in
      (suc j, rw fits (ground (arith, e)), omega arith, inr (room j within (ltb→ge _ _ fits)))
]
  where
    room :
        (j : ℕ)
        → (j ≡ 0) ⊎ (used + tokens_of m + sum_tokens (take j older) ≤ budget)
        → used + tokens_of m ≤ budget
        → used + sum_tokens (take (suc j) (m ∷ older)) ≤ budget
    room j (inl e) fits = rw e (omega arith)
    room j (inr h) fits = omega arith

first_kept :
    (budget : ℕ) (m : ChatMessage) (older : List ChatMessage) (n j : ℕ)
    → n ≡ 1 + j
    → (j ≡ 0) ⊎ (0 + tokens_of m + sum_tokens (take j older) ≤ budget)
    → (n ≤ 1) ⊎ (sum_tokens (take n (m ∷ older)) ≤ budget)
unfolding sum_tokens
first_kept budget m older n j e (inl none_more) = inl (omega arith)
first_kept budget m older zero j e (inr h) = inl (omega arith)
first_kept budget m older (suc n) j e (inr h) =
    let same : j ≡ n = omega arith in inr (omega (arith, ap (λ i. sum_tokens (take i older)) same))

kept_count_all :
    (budget : ℕ) (rs : List ChatMessage)
    → (kept_count budget 0 0 rs ≤ length rs)
      × (rs ≢ [] → 0 < kept_count budget 0 0 rs)
      × ((kept_count budget 0 0 rs ≤ 1)
          ⊎ (sum_tokens (take (kept_count budget 0 0 rs) rs) ≤ budget))
unfolding kept_count
kept_count_all budget [] = (omega arith, λ h. absurd (h refl), inl (omega arith))
kept_count_all budget (m ∷ older) =
    let (j, e, le, within) = kept_count_more budget (0 + tokens_of m) 0 older in
    (omega (arith, e), λ _. omega (arith, e), first_kept budget m older _ j e within)

length-reverse : (xs : List ChatMessage) → length (reverse xs) ≡ length xs
length-reverse [] = refl
length-reverse (x ∷ xs) =
    ap length (reverse-cons x xs)
    ∙ length-append (reverse xs) (x ∷ [])
    ∙ omega (arith, length-reverse xs)

sum_tokens-append :
    (xs ys : List ChatMessage) → sum_tokens (xs ++ ys) ≡ sum_tokens xs + sum_tokens ys
unfolding sum_tokens
sum_tokens-append [] ys = omega arith
sum_tokens-append (x ∷ xs) ys = omega (arith, sum_tokens-append xs ys)

sum_tokens-reverse : (xs : List ChatMessage) → sum_tokens (reverse xs) ≡ sum_tokens xs
unfolding sum_tokens
sum_tokens-reverse [] = refl
sum_tokens-reverse (x ∷ xs) =
    ap sum_tokens (reverse-cons x xs)
    ∙ sum_tokens-append (reverse xs) (x ∷ [])
    ∙ omega (arith, sum_tokens-reverse xs)

take-all : (xs ys : List ChatMessage) (n : ℕ) → n ≡ length xs → take n (xs ++ ys) ≡ xs
take-all [] ys n e = rw e
take-all (x ∷ xs) ys zero e = absurd (omega arith)
take-all (x ∷ xs) ys (suc n) e = ap (◌∷◌ x) (take-all xs ys n (omega arith))

-- The last n messages weigh what the first n of the reversed list weigh.
sum_tokens-drop :
    (ms : List ChatMessage) (n : ℕ)
    → n ≤ length ms
    → sum_tokens (drop (length ms - n) ms) ≡ sum_tokens (take n (reverse ms))
sum_tokens-drop ms n h =
    let c = length ms - n in
    let older = take c ms in
    let recent = drop c ms in
    let turned : reverse ms ≡ reverse recent ++ reverse older =
      ap reverse (sym (take-append-drop c ms)) ∙ reverse-append older recent in
    let size : n ≡ length (reverse recent) =
      omega (arith, length-reverse recent, length-drop c ms) in
    sym (
      ap (λ rs. sum_tokens (take n rs)) turned
      ∙ ap sum_tokens (take-all (reverse recent) (reverse older) n size)
      ∙ sum_tokens-reverse recent)

sum_tokens-drop_le :
    (c d : ℕ) (ms : List ChatMessage) → c ≤ d → sum_tokens (drop d ms) ≤ sum_tokens (drop c ms)
unfolding sum_tokens
sum_tokens-drop_le c zero ms h =
    subst (λ n. sum_tokens ms ≤ sum_tokens (drop n ms)) {x = 0} {y = c} (omega arith) (omega arith)
sum_tokens-drop_le zero (suc d) [] h = omega arith
sum_tokens-drop_le zero (suc d) (m ∷ ms) h =
    omega (arith, sum_tokens-drop_le zero d ms (omega arith))
sum_tokens-drop_le (suc c) (suc d) [] h = omega arith
sum_tokens-drop_le (suc c) (suc d) (m ∷ ms) h = sum_tokens-drop_le c d ms (omega arith)

pub find_user_bounds :
    (i j : ℕ) (ms : List ChatMessage) → find_user i ms ≡ some j → (i ≤ j) × (j < i + length ms)
unfolding find_user
find_user_bounds i j [] e = cc e
find_user_bounds i j (m ∷ ms) e = ground (arith, find_user_bounds (suc i) j ms)

-- The cut only moves on, and stays inside the list.
pub align_bounds :
    (ms : List ChatMessage) (cut : ℕ)
    → cut < length ms
    → (cut ≤ align ms cut) × (align ms cut < length ms)
unfolding align
align_bounds ms cut h = elim (Option-cases (find_user (suc cut) (drop (suc cut) ms))) [
  | inl e ↦ ground arith
  | inr (i, e) ↦
      let (lo, hi) = find_user_bounds (suc cut) i (drop (suc cut) ms) e in
      ground (arith, length-drop (suc cut) ms)
]

pub length_pos : (ms : List ChatMessage) → ms ≢ [] → 0 < length ms
length_pos [] h = absurd (h refl)
length_pos (m ∷ ms) h = omega arith

pub kept_bounds :
    (ms : List ChatMessage) (budget : ℕ)
    → ms ≢ []
    → (0 < kept_count budget 0 0 (reverse ms)) × (kept_count budget 0 0 (reverse ms) ≤ length ms)
kept_bounds ms budget h =
    let (le, positive, _) = kept_count_all budget (reverse ms) in
    let size = length-reverse ms in
    let some_message = length_pos ms h in (positive (λ e. omega (arith, ap length e)), omega arith)

cut_index_bounds :
    (ms : List ChatMessage) (budget : ℕ)
    → ms ≢ []
    → (length ms - kept_count budget 0 0 (reverse ms) ≤ cut_index ms budget)
      × (cut_index ms budget < length ms)
unfolding cut_index
cut_index_bounds ms budget h =
    let (positive, le) = kept_bounds ms budget h in
    let some_message = length_pos ms h in
    let (lo, hi) = align_bounds ms (length ms - kept_count budget 0 0 (reverse ms)) (omega arith) in
    ground arith

-- Nothing is lost and nothing is reordered: the part to summarize followed by the kept tail is the
-- conversation without its system messages; and the tail has a message if there is one to keep.
pub select_kept_tail_splits :
    (messages : List ChatMessage) (window : ℕ) (f : Fraction)
    → ((select_kept_tail messages window f).to_summarize
          ++ (select_kept_tail messages window f).keep_tail
        ≡ keep is_not_system messages)
      × ((keep is_not_system messages ≡ [])
          ⊎ (0 < length (select_kept_tail messages window f).keep_tail))
unfolding select_kept_tail
select_kept_tail_splits messages window f =
    let ms = keep is_not_system messages in
    let budget = tail_budget window f in
    (
      take-append-drop (cut_index ms budget) ms,
      elim (is_nil_or_not ms) [
        | inl e ↦ inl e
        | inr h ↦
            inr (
              omega (arith, (cut_index_bounds ms budget h).1, length-drop (cut_index ms budget) ms))
      ],
    )

tail_fits :
    (ms : List ChatMessage) (budget : ℕ)
    → ms ≢ []
    → (length (drop (cut_index ms budget) ms) ≤ 1)
      ⊎ (sum_tokens (drop (cut_index ms budget) ms) ≤ budget)
tail_fits ms budget h =
    let n = kept_count budget 0 0 (reverse ms) in
    let (_, le) = kept_bounds ms budget h in
    let (cut, _) = cut_index_bounds ms budget h in
    let weight = sum_tokens-drop ms n le in
    let lighter = sum_tokens-drop_le (length ms - n) (cut_index ms budget) ms cut in
    elim (kept_count_all budget (reverse ms)).2 [
      | inl one ↦ inl (omega (arith, length-drop (cut_index ms budget) ms))
      | inr fits ↦ inr (omega arith)
    ]

-- Where there is a message to keep, the kept tail is a single message, or its estimated tokens fit the
-- budget.
pub keep_tail-within_budget :
    (messages : List ChatMessage) (window : ℕ) (f : Fraction)
    → keep is_not_system messages ≢ []
    → (length (select_kept_tail messages window f).keep_tail ≤ 1)
      ⊎ (sum_tokens (select_kept_tail messages window f).keep_tail ≤ tail_budget window f)
unfolding select_kept_tail
keep_tail-within_budget messages window f h =
    tail_fits (keep is_not_system messages) (tail_budget window f) h
