-- ===== src/Agent/Results/Bounded.antt =====
-- A capped tool result keeps its beginning and its end, and stays under the cap.
use llamacli.Prelude.{◌≡◌, ◌++◌, length, Text}
use llamacli.Agent.Results.{marker}

-- A beginning and an end of the content around the marker, which counts what is left out.
abbrev pub IsShortened : Text → Text → Type 0
IsShortened shown content =
    (head : Text) × (middle : Text) × (tail : Text) × (content ≡ head ++ (middle ++ tail))
    × (shown ≡ head ++ (marker (length middle) ++ tail))
