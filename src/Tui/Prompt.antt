-- ===== src/Tui/Prompt.antt =====
-- The prompt's input box: the key handler of src/tui/App.tsx with src/tui/pasteChip.ts. What the log
-- shows of a submission, the highlighted row of the menu and the confirmations are left out.
pub mod InRange
pub mod Browse
pub mod Erased
use llamacli.Prelude.{
  ℕ, zero, suc, ◌+◌, ◌-◌, max, min, List, [], ◌∷◌, ◌++◌, Option, none, some, Bool, true, false,
  ◌&&◌, ◌||◌, not, ◌==◌, ltb, leb, length, take, drop, take_last, any, keep, if◌then◌else◌, Text,
  lit, text_eq, is_empty,
}
use llamacli.Compaction.SystemText.{is_space, trim, starts_with}
use llamacli.Compaction.Notes.{split_lines}
use llamacli.Agent.Results.{decimal}
use llamacli.Compaction.Resume.{is_nil}
use llamacli.Tui.PasteChip.{
  is_likely_paste, looks_like_pasted_file_path, format_paste_label, find_trailing_placeholder,
  substitute_placeholders,
}

pub record Prompt : Type 0 where
  pub input : Text
  pub cursor_pos : ℕ
  pub pasted_blocks : List (Text × Text)
  pub paste_counter : ℕ
  pub history : List Text
  -- none is -1
  pub history_index : Option ℕ
  pub history_draft : Text
  pub menu_open : Bool
  -- what `onSubmit` and `onQueueMessage` got
  pub sent : List Text

pub data Key : Type 0 where
  line_start line_end kill_line kill_before kill_word up down left right : Key
  jump_left jump_right enter escape backspace : Key
  -- the characters, the same behind `stripAnsi`, and whether they are the path of a file
  typed : Text → Text → Bool → Key

abbrev pub max_prompt_history : ℕ
max_prompt_history = 50

abbrev pub last_is : Text → List Text → Bool
last_is text [] = false
last_is text (t ∷ []) = text_eq t text
last_is text (t ∷ u ∷ us) = last_is text (u ∷ us)

unfoldable pub append_history : List Text → Text → List Text
append_history history text =
    if last_is text history then history else take_last max_prompt_history (history ++ (text ∷ []))

unfoldable pub test_at : (ℕ → Bool) → Text → Bool
test_at test [] = false
test_at test (c ∷ s) = test c

-- `while (i > 0 && test(text[i - 1])) i--`
unfoldable pub skip_left : (ℕ → Bool) → Text → ℕ → ℕ
skip_left test text zero = 0
skip_left test text (suc i) =
    let further = skip_left test text i in if test_at test (drop i text) then further else suc i

abbrev pub is_word : ℕ → Bool
is_word c = not (is_space c)

unfoldable pub word_left : Text → ℕ → ℕ
word_left text pos = skip_left is_word text (skip_left is_space text pos)

-- `while (i < text.length && test(text[i])) i++`, over the text from `i` on.
unfoldable pub skip_right : (ℕ → Bool) → ℕ → Text → ℕ
skip_right test i [] = i
skip_right test i (c ∷ s) = let further = skip_right test (suc i) s in if test c then further else i

unfoldable pub word_right : Text → ℕ → ℕ
word_right text pos =
    let i = skip_right is_space pos (drop pos text) in skip_right is_word i (drop i text)

unfoldable pub set_block : Text → Text → List (Text × Text) → List (Text × Text)
set_block label content [] = (label, content) ∷ []
set_block label content ((l, c) ∷ blocks) =
    let rest = set_block label content blocks in
    if text_eq l label then (l, content) ∷ blocks else (l, c) ∷ rest

unfoldable pub delete_block : Text → List (Text × Text) → List (Text × Text)
delete_block label blocks = keep (λ (b : Text × Text). not (text_eq b.0 label)) blocks

unfoldable pub set_input : Text → ℕ → Prompt → Prompt
set_input text pos p = record p { input = text; cursor_pos = pos }

-- `history[history.length - 1 - n]`
unfoldable pub recalled : List Text → ℕ → Text
recalled history n = elim (drop (length history - 1 - n) history) [ [] ↦ [] | t ∷ _ ↦ t ]

unfoldable pub recall : ℕ → Prompt → Prompt
recall n p =
    let text = recalled p.history n in
    set_input text (length text) (record p { history_index = some n })

unfoldable pub older : Option ℕ → Prompt → Prompt
older none p = recall 0 (record p { history_draft = p.input })
older (some i) p = if leb (length p.history) (suc i) then p else recall (suc i) p

unfoldable pub newer : Option ℕ → Prompt → Prompt
newer none p = p
newer (some zero) p =
    set_input p.history_draft (length p.history_draft) (record p { history_index = none })
newer (some (suc i)) p = recall i p

unfoldable pub kill_end : Option Text → Prompt → Prompt
kill_end none p = record p { input = take p.cursor_pos p.input }
kill_end (some trailing) p = record p {
  input = take p.cursor_pos p.input;
  pasted_blocks = delete_block (take (length trailing) (drop p.cursor_pos p.input)) p.pasted_blocks;
}

unfoldable pub submit : Prompt → Prompt
submit p =
    let resolved = substitute_placeholders p.input p.pasted_blocks in
    if is_empty (trim p.input) then p else record p {
      sent = p.sent ++ (resolved ∷ []);
      history = append_history p.history resolved;
      history_index = none;
      history_draft = [];
      input = [];
      cursor_pos = 0;
    }

unfoldable pub erase : Option Text → Prompt → Prompt
erase (some label) p = record p {
  input = take (length p.input - length label) p.input;
  cursor_pos = p.cursor_pos - length label;
  pasted_blocks = delete_block label p.pasted_blocks;
}
erase none p =
    if p.cursor_pos == 0
    then p
    else set_input (take (p.cursor_pos - 1) p.input ++ drop p.cursor_pos p.input) (p.cursor_pos - 1)
        p

unfoldable pub insert_text : Text → Prompt → Prompt
insert_text text p =
    set_input (take p.cursor_pos p.input ++ (text ++ drop p.cursor_pos p.input))
      (p.cursor_pos + length text) p

unfoldable pub insert_paste : Text → Text → Prompt → Prompt
insert_paste content label p = insert_text label (record p {
  pasted_blocks = set_block label content p.pasted_blocks;
  paste_counter = suc p.paste_counter;
})

unfoldable pub type_text : Text → Text → Bool → Prompt → Prompt
type_text char sanitized is_file p =
    if text_eq char (lit "/") && is_empty p.input
    then set_input (lit "/") 1 (record p { menu_open = true })
    else if is_likely_paste sanitized
    then insert_paste sanitized
        (format_paste_label sanitized p.paste_counter
          (looks_like_pasted_file_path sanitized && is_file))
        p
    else insert_text sanitized p

-- A key with the menu closed.
unfoldable pub edit : Key → Prompt → Prompt
edit line_start p = record p { cursor_pos = 0 }
edit line_end p = record p { cursor_pos = length p.input }
edit kill_line p =
    kill_end (find_trailing_placeholder (drop p.cursor_pos p.input) p.pasted_blocks) p
edit kill_before p = set_input (drop p.cursor_pos p.input) 0 p
edit kill_word p =
    let target = word_left p.input p.cursor_pos in
    set_input (take target p.input ++ drop p.cursor_pos p.input) target p
edit up p = if is_nil p.history then p else older p.history_index p
edit down p = if is_nil p.history then p else newer p.history_index p
edit left p = record p { cursor_pos = p.cursor_pos - 1 }
edit right p = record p { cursor_pos = min (length p.input) (p.cursor_pos + 1) }
edit jump_left p = record p { cursor_pos = word_left p.input p.cursor_pos }
edit jump_right p = record p { cursor_pos = word_right p.input p.cursor_pos }
edit enter p = submit p
edit escape p = p
edit backspace p =
    erase
      (if p.cursor_pos == length p.input
        then find_trailing_placeholder p.input p.pasted_blocks
        else none)
      p
edit (typed char sanitized is_file) p = type_text char sanitized is_file p

abbrev close_menu : Prompt → Prompt
close_menu p = set_input [] 0 (record p { menu_open = false })

-- A key with the menu open; `found` tells that a row is highlighted.
unfoldable pub filter_menu : Bool → Key → Prompt → Prompt
filter_menu found enter p = if found then close_menu p else p
filter_menu found escape p = close_menu p
filter_menu found backspace p =
    if leb (length p.input) 1
    then close_menu p
    else set_input (take (length p.input - 1) p.input) (p.cursor_pos - 1) p
filter_menu found (typed char sanitized is_file) p =
    set_input (p.input ++ sanitized) (p.cursor_pos + length sanitized) p
filter_menu found _ p = p

unfoldable pub press : Bool → Key → Prompt → Prompt
press found key p = if p.menu_open then filter_menu found key p else edit key p
