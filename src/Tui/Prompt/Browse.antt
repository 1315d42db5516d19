-- ===== src/Tui/Prompt/Browse.antt =====
-- Walking back and forth through the prompt history.
use llamacli.Prelude.{
  ℕ, zero, suc, ◌<◌, ◌≡◌, refl, ap, ◌∙◌, List, [], ◌∷◌, none, true, leb, length, Text, arith,
  if_intro,
}
use llamacli.Compaction.Resume.{is_nil}
use llamacli.Tui.Prompt.{Prompt, up, down, edit, recall, set_input, older, newer}

unfoldable pub press_up : ℕ → Prompt → Prompt
press_up zero p = p
press_up (suc n) p = edit up (press_up n p)

unfoldable pub press_down : ℕ → Prompt → Prompt
press_down zero p = p
press_down (suc n) p = press_down n (edit down p)

-- What was typed is back, with the cursor behind it.
abbrev pub restored : Prompt → Prompt
restored p = record p { cursor_pos = length p.input; history_draft = p.input; history_index = none }

abbrev drafted : Prompt → Prompt
drafted p = record p { history_draft = p.input }

nil-length : (ts : List Text) → is_nil ts ≡ true → 0 < length ts → ⊥
nil-length [] e h = omega arith
nil-length (t ∷ ts) e h = ground arith

up-first :
    (p : Prompt) → p.history_index ≡ none → 0 < length p.history → edit up p ≡ recall 0 (drafted p)
unfolding edit older
up-first p fresh h =
    if_intro (λ (q : Prompt). q ≡ recall 0 (drafted p)) (is_nil p.history)
      (λ e. absurd (nil-length p.history e h)) (λ _. ap (λ i. older i p) fresh)

up-next : (p : Prompt) (i : ℕ) → suc i < length p.history → edit up (recall i p) ≡ recall (suc i) p
unfolding edit older recall set_input
up-next p i h =
    if_intro (λ (q : Prompt). q ≡ recall (suc i) p) (is_nil p.history)
      (λ e. absurd (nil-length p.history e (omega arith)))
      (λ _.
        if_intro (λ (q : Prompt). q ≡ recall (suc i) p) (leb (length p.history) (suc i))
          (λ e. absurd (ground arith)) (λ _. refl))

press_up-recall :
    (p : Prompt) (i : ℕ)
    → p.history_index ≡ none
    → i < length p.history
    → press_up (suc i) p ≡ recall i (drafted p)
unfolding press_up
press_up-recall p zero fresh h = up-first p fresh h
press_up-recall p (suc i) fresh h =
    ap (edit up) (press_up-recall p i fresh (omega arith)) ∙ up-next (drafted p) i h

down-next : (p : Prompt) (i : ℕ) → 0 < length p.history → edit down (recall (suc i) p) ≡ recall i p
unfolding edit newer recall set_input
down-next p i h =
    if_intro (λ (q : Prompt). q ≡ recall i p) (is_nil p.history)
      (λ e. absurd (nil-length p.history e h)) (λ _. refl)

press_down-recall :
    (p : Prompt) (i : ℕ)
    → 0 < length p.history
    → press_down (suc i) (recall i (drafted p)) ≡ restored p
unfolding press_down edit newer recall set_input
press_down-recall p zero h =
    if_intro (λ (q : Prompt). q ≡ restored p) (is_nil p.history)
      (λ e. absurd (nil-length p.history e h)) (λ _. refl)
press_down-recall p (suc i) h =
    ap (press_down (suc i)) (down-next (drafted p) i h) ∙ press_down-recall p i h

-- From a prompt that shows no entry, as many presses of Down as of Up, at least one and at most as
-- many as the history has entries, bring back what was typed, with the cursor at its end. Apart from
-- the cursor and the remembered draft nothing has changed.
pub press_down-press_up :
    (p : Prompt) (n : ℕ)
    → p.history_index ≡ none
    → n < length p.history
    → press_down (suc n) (press_up (suc n) p) ≡ restored p
press_down-press_up p n fresh h =
    ap (press_down (suc n)) (press_up-recall p n fresh h) ∙ press_down-recall p n (omega arith)
