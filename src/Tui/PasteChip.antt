-- ===== src/Tui/PasteChip.antt =====
-- Pasted blocks stand in the prompt as labels (src/tui/pasteChip.ts).
use llamacli.Prelude.{
  ℕ, zero, suc, ◌+◌, ◌-◌, List, [], ◌∷◌, ◌++◌, Option, none, some, Bool, false, ◌&&◌, ◌||◌, not,
  ◌==◌, ltb, leb, length, drop, any, if◌then◌else◌, Text, lit, text_eq,
}
use llamacli.Compaction.SystemText.{trim, starts_with}
use llamacli.Compaction.Notes.{split_lines}
use llamacli.Agent.Results.{decimal}

abbrev pub paste_length_threshold : ℕ
paste_length_threshold = 6

abbrev pub is_likely_paste : Text → Bool
is_likely_paste text = leb paste_length_threshold (length text)

unfoldable pub looks_like_pasted_file_path : Text → Bool
looks_like_pasted_file_path content =
    let trimmed = trim content in
    not ((length trimmed == 0) || ltb 4096 (length trimmed)) && not (any (λ c. c == 10) trimmed)

abbrev pub is_high : ℕ → Bool
is_high c = leb 0xd800 c && leb c 0xdbff

abbrev pub is_low : ℕ → Bool
is_low c = leb 0xdc00 c && leb c 0xdfff

-- `Buffer.byteLength(s, "utf8")`: a surrogate pair has four bytes; `after_high` tells that its first
-- half has been counted as three.
unfoldable pub byte_length : Bool → Text → ℕ
byte_length after_high [] = 0
byte_length after_high (c ∷ s) =
    let further = byte_length (is_high c) s in
    if after_high && is_low c
    then 1 + further
    else if ltb c 0x80
    then 1 + further
    else if ltb c 0x800
    then 2 + further
    else 3 + further

unfoldable pub format_paste_label : Text → ℕ → Bool → Text
format_paste_label content counter is_path =
    if is_path
    then lit "[파일 #" ++ (decimal counter ++ (lit ": " ++ (trim content ++ lit "]")))
    else lit "[붙여넣기 #"
      ++ (decimal counter
          ++ (lit ": "
              ++ (decimal (length (split_lines content))
                  ++ (lit "줄, " ++ (decimal (byte_length false content) ++ lit "바이트]")))))

unfoldable pub ends_with : Text → Text → Bool
ends_with label s =
    leb (length label) (length s) && text_eq label (drop (length s - length label) s)

unfoldable pub find_trailing_placeholder : Text → List (Text × Text) → Option Text
find_trailing_placeholder input [] = none
find_trailing_placeholder input ((label, content) ∷ blocks) =
    let later = find_trailing_placeholder input blocks in
    if ltb 0 (length label) && ends_with label input then some label else later

-- `s.split(label).join(content)` for a label that is not empty; `skip` counts what is left of a match.
unfoldable pub replace_all : Text → Text → ℕ → Text → Text
replace_all label content skip [] = []
replace_all label content (suc skip) (c ∷ s) = replace_all label content skip s
replace_all label content zero (c ∷ s) =
    let found = starts_with label (c ∷ s) in
    let rest = replace_all label content (if found then length label - 1 else 0) s in
    if found then content ++ rest else c ∷ rest

unfoldable pub substitute_placeholders : Text → List (Text × Text) → Text
substitute_placeholders input [] = input
substitute_placeholders input ((label, content) ∷ blocks) =
    substitute_placeholders (replace_all label content 0 input) blocks
