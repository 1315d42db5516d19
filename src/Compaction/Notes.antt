-- ===== src/Compaction/Notes.antt =====
-- The working notes (src/compaction/notes.ts). The file .llamacli/state/notes.md is the text that
-- `readNotes` answers, trimmed; the clock is the argument `time`, such as `14:05`.
pub mod Newest
use llamacli.Prelude.{
  ℕ, List, [], ◌∷◌, ◌++◌, Bool, true, false, ◌==◌, ltb, length, take, if◌then◌else◌, Option, none,
  some, Text, lit,
}
use llamacli.Compaction.Message.{join, non_empty}
use llamacli.Compaction.SystemText.{trim, trim_end, index_of}
use llamacli.Compaction.Run.{collapse_spaces}

abbrev pub notes_header : Text
notes_header = lit "[Working notes — kept across compaction]"

abbrev pub max_notes_chars : ℕ
max_notes_chars = 3000

-- The first line and the others.
abbrev pub prepend : ℕ → List Text → List Text
prepend c [] = (c ∷ []) ∷ []
prepend c (l ∷ ls) = (c ∷ l) ∷ ls

-- `s.split("\n")`
unfoldable pub split_lines : Text → List Text
split_lines [] = [] ∷ []
split_lines (c ∷ s) = let rest = split_lines s in if c == 10 then [] ∷ rest else prepend c rest

-- The oldest lines leave until the rest fits; one stays.
unfoldable pub drop_oldest_lines : List Text → List Text
drop_oldest_lines [] = []
drop_oldest_lines (l ∷ []) = l ∷ []
drop_oldest_lines (l ∷ k ∷ ls) =
    let rest = drop_oldest_lines (k ∷ ls) in
    if ltb max_notes_chars (length (join (lit "\n") (l ∷ k ∷ ls))) then rest else l ∷ k ∷ ls

unfoldable pub note_line : Text → Text → Text
note_line time text = lit "- [" ++ (time ++ (lit "] " ++ trim (collapse_spaces false text)))

unfoldable pub note_lines : Text → Text → Text → List Text
note_lines time text notes =
    drop_oldest_lines (non_empty (split_lines notes) ++ (note_line time text ∷ []))

-- What `readNotes` answers after `appendNote`: the file is trimmed as it is read.
unfoldable pub append_note : Text → Text → Text → Text
append_note time text notes = trim (join (lit "\n") (note_lines time text notes) ++ lit "\n")

unfoldable pub strip_notes_block : Text → Text
strip_notes_block text = elim (index_of notes_header text) [
  | none ↦ text
  | some i ↦ trim_end (take i text)
]
