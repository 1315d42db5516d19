-- ===== src/Tests/Editing.antt =====
-- Concrete keys at the prompt.
use llamacli.Prelude.{◌≡◌, refl, List, [], ◌∷◌, none, Bool, false, length, lit, arith}
use llamacli.Tui.PasteChip.{find_trailing_placeholder}
use llamacli.Tui.Prompt.{
  Prompt, Key, up, jump_left, kill_word, enter, backspace, typed, edit, insert_paste,
}
use llamacli.Tui.Prompt.InRange.{IsInRange, press_all, press_all-InRange}
use llamacli.Tui.Prompt.Browse.{press_up, press_down, restored, press_down-press_up}
use llamacli.Tui.Prompt.Erased.{backspace-insert_paste}

abbrev drafting : Prompt
drafting = record {
  input = lit "ab";
  cursor_pos = 2;
  pasted_blocks = [];
  paste_counter = 1;
  history = lit "one" ∷ lit "two" ∷ [];
  history_index = none;
  history_draft = [];
  menu_open = false;
  sent = [];
}

abbrev keys : List (Bool × Key)
keys =
    (false, typed (lit " cd") (lit " cd") false)
    ∷ (false, jump_left)
    ∷ (false, kill_word)
    ∷ (false, enter)
    ∷ (false, up)
    ∷ []

press_all-InRange_example : IsInRange (press_all keys drafting)
unfolding lit
press_all-InRange_example = press_all-InRange keys drafting (omega arith, (tt, omega arith))

press_down-press_up_example : press_down 2 (press_up 2 drafting) ≡ restored drafting
press_down-press_up_example = press_down-press_up drafting 1 refl (omega arith)

backspace-insert_paste_example :
    edit backspace (insert_paste (lit "pasted text") (lit "[#1]") drafting)
    ≡ record drafting { cursor_pos = length drafting.input; paste_counter = 2 }
unfolding lit find_trailing_placeholder
backspace-insert_paste_example =
    backspace-insert_paste drafting (lit "pasted text") (lit "[#1]") refl (omega arith) refl
