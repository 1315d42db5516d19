-- ===== src/Tui/Prompt/InRange.antt =====
-- The cursor and the history index stay in range.
use llamacli.Prelude.{
  ℕ, zero, suc, ◌+◌, ◌-◌, ◌<◌, ◌≤◌, ◌≡◌, List, [], ◌∷◌, ◌++◌, Option, none, some, Bool, false, ◌&&◌,
  ◌==◌, leb, length, take, drop, Text, lit, text_eq, is_empty, arith, if_intro, length-append,
  length-take, length-drop,
}
use llamacli.Compaction.SystemText.{is_space, trim}
use llamacli.Compaction.Resume.{is_nil}
use llamacli.Tui.PasteChip.{is_likely_paste}
use llamacli.Tui.Prompt.{
  set_block, Prompt, Key, line_start, line_end, kill_line, kill_before, kill_word, up, down, left,
  right, jump_left, jump_right, enter, escape, backspace, typed, max_prompt_history, last_is,
  append_history, test_at, skip_left, is_word, word_left, skip_right, word_right, set_input, recall,
  older, newer, kill_end, submit, erase, insert_text, insert_paste, type_text, edit, filter_menu,
  press,
}

-- The index of the entry shown is one of the history.
abbrev pub IsShown : Option ℕ → ℕ → Type 0
IsShown none n = Unit
IsShown (some i) n = i < n

abbrev pub IsInRange : Prompt → Type 0
IsInRange p =
    (p.cursor_pos ≤ length p.input)
    × (IsShown p.history_index (length p.history) × (length p.history ≤ max_prompt_history))

skip_left_le : (test : ℕ → Bool) (text : Text) (i : ℕ) → skip_left test text i ≤ i
unfolding skip_left
skip_left_le test text zero = omega arith
skip_left_le test text (suc i) =
    if_intro (λ (n : ℕ). n ≤ suc i) (test_at test (drop i text))
      (λ _. omega (arith, skip_left_le test text i)) (λ _. omega arith)

word_left_le : (text : Text) (pos : ℕ) → word_left text pos ≤ pos
unfolding word_left
word_left_le text pos =
    omega (
      arith,
      skip_left_le is_word text (skip_left is_space text pos),
      skip_left_le is_space text pos,
    )

skip_right_le : (test : ℕ → Bool) (i : ℕ) (s : Text) → skip_right test i s ≤ i + length s
unfolding skip_right
skip_right_le test i [] = omega arith
skip_right_le test i (c ∷ s) =
    if_intro (λ (n : ℕ). n ≤ i + suc (length s)) (test c)
      (λ _. omega (arith, skip_right_le test (suc i) s)) (λ _. omega arith)

word_right_le : (text : Text) (pos : ℕ) → pos ≤ length text → word_right text pos ≤ length text
unfolding word_right
word_right_le text pos h =
    let i = skip_right is_space pos (drop pos text) in
    omega (
      arith,
      skip_right_le is_space pos (drop pos text),
      length-drop pos text,
      skip_right_le is_word i (drop i text),
      length-drop i text,
    )

append_history-length :
    (history : List Text) (text : Text)
    → length history ≤ max_prompt_history
    → length (append_history history text) ≤ max_prompt_history
unfolding append_history
append_history-length history text h =
    if_intro (λ (l : List Text). length l ≤ max_prompt_history) (last_is text history) (λ _. h)
      (λ _.
        omega (arith, length-drop (length (history ++ (text ∷ [])) - 50) (history ++ (text ∷ []))))

recall-InRange :
    (p : Prompt) (n : ℕ)
    → n < length p.history
    → length p.history ≤ max_prompt_history
    → IsInRange (recall n p)
unfolding recall set_input
recall-InRange p n shown few = (omega arith, (shown, few))

is_nil-length : (ts : List Text) → is_nil ts ≡ false → 0 < length ts
is_nil-length [] e = ground arith
is_nil-length (t ∷ ts) e = omega arith

module _ (p : Prompt) (h : IsInRange p) where
  older-InRange :
      (index : Option ℕ)
      → IsShown index (length p.history)
      → is_nil p.history ≡ false
      → IsInRange (older index p)
  unfolding older
  older-InRange none _ some_entry =
      recall-InRange (record p { history_draft = p.input }) 0 (is_nil-length p.history some_entry)
        (h.1).1
  older-InRange (some i) _ some_entry =
      if_intro IsInRange (leb (length p.history) (suc i)) (λ _. h)
        (λ e. recall-InRange p (suc i) (ground arith) (h.1).1)

  newer-InRange : (index : Option ℕ) → IsShown index (length p.history) → IsInRange (newer index p)
  unfolding newer set_input
  newer-InRange none _ = h
  newer-InRange (some zero) _ = (omega arith, (tt, (h.1).1))
  newer-InRange (some (suc i)) shown = recall-InRange p i (omega arith) (h.1).1

  insert_text-InRange : (text : Text) → IsInRange (insert_text text p)
  unfolding insert_text set_input
  insert_text-InRange text = (
    omega (
      arith,
      h.0,
      length-append (take p.cursor_pos p.input) (text ++ drop p.cursor_pos p.input),
      length-append text (drop p.cursor_pos p.input),
      length-take p.cursor_pos p.input,
      length-drop p.cursor_pos p.input,
    ),
    h.1,
  )

  kill_end-InRange : (trailing : Option Text) → IsInRange (kill_end trailing p)
  unfolding kill_end
  kill_end-InRange none = (omega (arith, h.0, length-take p.cursor_pos p.input), h.1)
  kill_end-InRange (some label) = (omega (arith, h.0, length-take p.cursor_pos p.input), h.1)

  cut-InRange :
      (n : ℕ) → n ≤ p.cursor_pos → n ≤ length (take n p.input ++ drop p.cursor_pos p.input)
  cut-InRange n low = omega (
    arith,
    h.0,
    low,
    length-append (take n p.input) (drop p.cursor_pos p.input),
    length-take n p.input,
  )

  erase-InRange : (trailing : Option Text) → IsInRange (erase trailing p)
  unfolding erase set_input
  erase-InRange none =
      if_intro IsInRange (p.cursor_pos == 0) (λ _. h)
        (λ _. (cut-InRange (p.cursor_pos - 1) (omega arith), h.1))
  erase-InRange (some label) =
      (omega (arith, h.0, length-take (length p.input - length label) p.input), h.1)

  submit-InRange : IsInRange (submit p)
  unfolding submit
  submit-InRange =
      if_intro IsInRange (is_empty (trim p.input)) (λ _. h)
        (λ _. (omega arith, (tt, append_history-length p.history _ (h.1).1)))

insert_paste-InRange :
    (p : Prompt) (content label : Text) → IsInRange p → IsInRange (insert_paste content label p)
unfolding insert_paste
insert_paste-InRange p content label h =
    insert_text-InRange
      (record p {
        pasted_blocks = set_block label content p.pasted_blocks;
        paste_counter = suc p.paste_counter;
      })
      h label

type_text-InRange :
    (p : Prompt) (char sanitized : Text) (is_file : Bool)
    → IsInRange p
    → IsInRange (type_text char sanitized is_file p)
unfolding type_text set_input lit
type_text-InRange p char sanitized is_file h =
    if_intro IsInRange (text_eq char (lit "/") && is_empty p.input) (λ _. (omega arith, h.1))
      (λ _.
        if_intro IsInRange (is_likely_paste sanitized) (λ _. insert_paste-InRange p sanitized _ h)
          (λ _. insert_text-InRange p h sanitized))

edit-InRange : (key : Key) (p : Prompt) → IsInRange p → IsInRange (edit key p)
unfolding edit set_input
edit-InRange line_start p h = (omega arith, h.1)
edit-InRange line_end p h = (omega arith, h.1)
edit-InRange kill_line p h = kill_end-InRange p h _
edit-InRange kill_before p h = (omega arith, h.1)
edit-InRange kill_word p h =
    (cut-InRange p h (word_left p.input p.cursor_pos) (word_left_le p.input p.cursor_pos), h.1)
edit-InRange up p h =
    if_intro IsInRange (is_nil p.history) (λ _. h)
      (λ e. older-InRange p h p.history_index (h.1).0 e)
edit-InRange down p h =
    if_intro IsInRange (is_nil p.history) (λ _. h) (λ _. newer-InRange p h p.history_index (h.1).0)
edit-InRange left p h = (omega (arith, h.0), h.1)
edit-InRange right p h = (omega arith, h.1)
edit-InRange jump_left p h = (omega (arith, h.0, word_left_le p.input p.cursor_pos), h.1)
edit-InRange jump_right p h = (word_right_le p.input p.cursor_pos h.0, h.1)
edit-InRange enter p h = submit-InRange p h
edit-InRange escape p h = h
edit-InRange backspace p h = erase-InRange p h _
edit-InRange (typed char sanitized is_file) p h = type_text-InRange p char sanitized is_file h

filter_menu-InRange :
    (found : Bool) (key : Key) (p : Prompt) → IsInRange p → IsInRange (filter_menu found key p)
unfolding filter_menu set_input
filter_menu-InRange found enter p h = if_intro IsInRange found (λ _. (omega arith, h.1)) (λ _. h)
filter_menu-InRange found escape p h = (omega arith, h.1)
filter_menu-InRange found backspace p h =
    if_intro IsInRange (leb (length p.input) 1) (λ _. (omega arith, h.1))
      (λ _. (omega (arith, h.0, length-take (length p.input - 1) p.input), h.1))
filter_menu-InRange found (typed char sanitized is_file) p h =
    (omega (arith, h.0, length-append p.input sanitized), h.1)
filter_menu-InRange found line_start p h = h
filter_menu-InRange found line_end p h = h
filter_menu-InRange found kill_line p h = h
filter_menu-InRange found kill_before p h = h
filter_menu-InRange found kill_word p h = h
filter_menu-InRange found up p h = h
filter_menu-InRange found down p h = h
filter_menu-InRange found left p h = h
filter_menu-InRange found right p h = h
filter_menu-InRange found jump_left p h = h
filter_menu-InRange found jump_right p h = h

-- The keys in order, each with whether the menu has a row to select.
unfoldable pub press_all : List (Bool × Key) → Prompt → Prompt
press_all [] p = p
press_all ((found, key) ∷ keys) p = press_all keys (press found key p)

-- From a prompt whose cursor lies in the text, whose history has at most fifty entries and of which
-- the shown entry, if any, is one of them, any sequence of keys leads to such a prompt again.
pub press_all-InRange :
    (keys : List (Bool × Key)) (p : Prompt) → IsInRange p → IsInRange (press_all keys p)
unfolding press_all press
press_all-InRange [] p h = h
press_all-InRange ((found, key) ∷ keys) p h = press_all-InRange keys (press found key p) (
    if_intro IsInRange p.menu_open (λ _. filter_menu-InRange found key p h)
      (λ _. edit-InRange key p h))
