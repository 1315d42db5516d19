-- ===== src/Compaction/Notes/Newest.antt =====
-- What stays of the notes when one more is taken.
use llamacli.Prelude.{◌≤◌, ◌≡◌, List, [], ◌∷◌, ◌++◌, ◌⊎◌, length, Text, lit}
use llamacli.Compaction.Message.{join}

-- Of the lines `old` and the new line, the new one and the latest of the old ones stay.
abbrev pub KeepsNewest : List Text → Text → List Text → Type 0
KeepsNewest old line kept =
    (dropped : List Text) × (stay : List Text) × (old ≡ dropped ++ stay)
    × (kept ≡ stay ++ (line ∷ []))
    × ((stay ≡ []) ⊎ (length (join (lit "\n") kept) ≤ 3000))
