-- ===== src/Tui/Prompt/Erased.antt =====
-- A pasted block goes as one character.
use llamacli.Prelude.{
  ℕ, suc, ◌+◌, ◌-◌, ◌<◌, ◌≡◌, refl, ap, ◌∙◌, List, [], ◌∷◌, ◌++◌, Option, none, some, Bool, true,
  false, ◌&&◌, not, ◌==◌, ltb, length, take, drop, Text, arith, if◌then◌else◌, if_intro, text_eq,
  text_eq_iff, text_eq_refl, length-append,
}
use mathlib.Core.List.{append-nil}
use llamacli.Tui.PasteChip.{find_trailing_placeholder, ends_with}
use llamacli.Tui.Prompt.{
  Prompt, edit, backspace, insert_paste, insert_text, set_input, erase, set_block, delete_block,
}

drop-all : (s : Text) → drop (length s) s ≡ []
drop-all [] = refl
drop-all (c ∷ s) = drop-all s

take-all : (s : Text) → take (length s) s ≡ s
take-all [] = refl
take-all (c ∷ s) = ap (◌∷◌ c) (take-all s)

take-own : (s t : Text) → take (length s) (s ++ t) ≡ s
take-own [] t = refl
take-own (c ∷ s) t = ap (◌∷◌ c) (take-own s t)

drop-own : (s t : Text) → drop (length s) (s ++ t) ≡ t
drop-own [] t = refl
drop-own (c ∷ s) t = drop-own s t

before-label : (s label : Text) → length (s ++ label) - length label ≡ length s
before-label s label = omega (arith, length-append s label)

ends_with_own : (s label : Text) → ends_with label (s ++ label) ≡ true
unfolding ends_with
ends_with_own s label = grind (
  arith,
  length-append s label,
  ap (λ n. drop n (s ++ label)) (before-label s label) ∙ drop-own s label,
  text_eq_refl label,
)

neither :
    (b : Bool) (l : Text) (later : Option Text)
    → (if b then some l else later) ≡ none
    → (b ≡ false) × (later ≡ none)
neither true l later e = absurd (grind (arith, e))
neither false l later e = (refl, e)

abbrev trails : Text → Text → Bool
trails l x = ltb 0 (length l) && ends_with l x

find-set_block :
    (s label content : Text) (blocks : List (Text × Text))
    → 0 < length label
    → find_trailing_placeholder (s ++ label) blocks ≡ none
    → find_trailing_placeholder (s ++ label) (set_block label content blocks) ≡ some label
unfolding find_trailing_placeholder set_block
find-set_block s label content [] long fresh =
    if_intro (λ (o : Option Text). o ≡ some label) (trails label (s ++ label)) (λ _. refl)
      (λ e. absurd (grind (arith, ends_with_own s label)))
find-set_block s label content ((l, c) ∷ blocks) long fresh =
    let x = s ++ label in
    let no_other = neither (trails l x) l (find_trailing_placeholder x blocks) fresh in
    if_intro (λ (bs : List (Text × Text)). find_trailing_placeholder x bs ≡ some label)
      (text_eq l label)
      (λ same.
        absurd (grind (arith, ends_with_own s label, (text_eq_iff l label).0 same, no_other.0)))
      (λ _.
        if_intro (λ (o : Option Text). o ≡ some label) (trails l x)
          (λ e. absurd (grind (arith, e, no_other.0)))
          (λ _. find-set_block s label content blocks long no_other.1))

delete-set_block :
    (s label content : Text) (blocks : List (Text × Text))
    → 0 < length label
    → find_trailing_placeholder (s ++ label) blocks ≡ none
    → delete_block label (set_block label content blocks) ≡ blocks
unfolding find_trailing_placeholder set_block delete_block
delete-set_block s label content [] long fresh =
    if_intro (λ (bs : List (Text × Text)). bs ≡ []) (not (text_eq label label))
      (λ e. absurd (grind (arith, text_eq_refl label, e))) (λ _. refl)
delete-set_block s label content ((l, c) ∷ blocks) long fresh =
    let x = s ++ label in
    let no_other = neither (trails l x) l (find_trailing_placeholder x blocks) fresh in
    if_intro (λ (bs : List (Text × Text)). delete_block label bs ≡ (l, c) ∷ blocks)
      (text_eq l label)
      (λ same.
        absurd (grind (arith, ends_with_own s label, (text_eq_iff l label).0 same, no_other.0)))
      (λ other.
        if_intro (λ (bs : List (Text × Text)). bs ≡ (l, c) ∷ blocks) (not (text_eq l label))
          (λ _. ap (◌∷◌ (l, c)) (delete-set_block s label content blocks long no_other.1))
          (λ e. absurd (grind (arith, e, other))))

-- The text before the cursor, at the end of the input, and what an insertion there gives.
insert-end :
    (t label : Text) (pos : ℕ) → pos ≡ length t → take pos t ++ (label ++ drop pos t) ≡ t ++ label
insert-end t label pos h =
    ap (λ n. take n t ++ (label ++ drop n t)) h
    ∙ (ap (λ u. u ++ (label ++ drop (length t) t)) (take-all t)
        ∙ (ap (λ u. t ++ (label ++ u)) (drop-all t) ∙ ap (λ u. t ++ u) (append-nil label)))

erases :
    (q : Prompt) (label : Text)
    → q.cursor_pos ≡ length q.input
    → find_trailing_placeholder q.input q.pasted_blocks ≡ some label
    → edit backspace q ≡ erase (some label) q
unfolding edit
erases q label h found =
    if_intro (λ (o : Option Text). erase o q ≡ erase (some label) q)
      (q.cursor_pos == length q.input) (λ _. ap (λ o. erase o q) found) (λ e. absurd (ground arith))

abbrev with_text : Prompt → Text → ℕ → List (Text × Text) → Prompt
with_text p t pos blocks = record p {
  input = t;
  cursor_pos = pos;
  pasted_blocks = blocks;
  paste_counter = suc p.paste_counter;
}

-- Where the cursor stands at the end of the input, a paste with a label that is not empty, and where
-- no earlier label ends what is then shown, is undone by one Backspace: the input, the cursor and the
-- pasted blocks are the old ones, and only the counter of the pastes has moved on.
pub backspace-insert_paste :
    (p : Prompt) (content label : Text)
    → p.cursor_pos ≡ length p.input
    → 0 < length label
    → find_trailing_placeholder (p.input ++ label) p.pasted_blocks ≡ none
    → edit backspace (insert_paste content label p)
      ≡ record p { cursor_pos = length p.input; paste_counter = suc p.paste_counter }
unfolding insert_paste insert_text set_input erase
backspace-insert_paste p content label h long fresh =
    let blocks = set_block label content p.pasted_blocks in
    let shown = insert-end p.input label p.cursor_pos h in
    let pos = p.cursor_pos + length label in
    let back = length (p.input ++ label) - length label in
    ap (λ t. edit backspace (with_text p t pos blocks)) shown
    ∙ (erases (with_text p (p.input ++ label) pos blocks) label
          (omega (arith, h, length-append p.input label))
          (find-set_block p.input label content p.pasted_blocks long fresh)
        ∙ (ap
              (λ n.
                with_text p (take n (p.input ++ label)) (pos - length label)
                  (delete_block label blocks))
              (before-label p.input label)
            ∙ (ap (λ t. with_text p t (pos - length label) (delete_block label blocks))
                  (take-own p.input label)
                ∙ (ap (λ n. with_text p p.input n (delete_block label blocks)) (omega (arith, h))
                    ∙ ap (λ bs. with_text p p.input (length p.input) bs)
                        (delete-set_block p.input label content p.pasted_blocks long fresh)))))
