-- ===== src/Agent/Results.antt =====
-- The caps on what a tool returns: `toolResultCharCap`, `capToolResult`, `capReadFileResult`.
pub mod Bounded
use llamacli.Prelude.{
  ℕ, zero, suc, ◌+◌, ◌-◌, ◌*◌, ◌/◌, ◌%◌, max, min, List, [], ◌∷◌, ◌++◌, Option, none, some, Bool,
  true, false, ◌&&◌, length, take, drop, ltb, leb, ◌==◌, if◌then◌else◌, Text, lit,
}
use llamacli.Compaction.SystemText.{index_of}
use llamacli.Compaction.Trim.{last_index}

-- A number in a template string, in decimal. The first argument is fuel: one more than the number is enough.
unfoldable pub decimal_from : ℕ → ℕ → Text
decimal_from zero n = []
decimal_from (suc fuel) n =
    let high = decimal_from fuel (n / 10) in
    if ltb n 10 then (48 + n) ∷ [] else high ++ ((48 + n % 10) ∷ [])

unfoldable pub decimal : ℕ → Text
decimal n = decimal_from (suc n) n

-- `Math.floor(window * 4 * 0.08)` between 2000 and 12000.
unfoldable pub tool_result_char_cap : ℕ → ℕ
tool_result_char_cap window = max 2000 (min 12000 (window * 32 / 100))

abbrev pub marker_reserve : ℕ
marker_reserve = 160

unfoldable pub tail_chars : ℕ → ℕ
tail_chars cap = (cap - marker_reserve) * 4 / 10

unfoldable pub head_budget : ℕ → ℕ
head_budget cap = cap - marker_reserve - tail_chars cap

-- `s.lastIndexOf("\n", at)`, with 0 for -1.
unfoldable pub last_break : ℕ → Text → ℕ
last_break at s = last_index (lit "\n") (take (suc at) s)

-- `cut > 0 ? slice(0, cut) : slice(0, budget)`
unfoldable pub head_length : ℕ → Text → ℕ
head_length budget content =
    if ltb 0 (last_break budget content) then last_break budget content else budget

-- The tail starts behind the next line break, unless there is none or it ends the text.
unfoldable pub skip_line : ℕ → ℕ → Option ℕ → ℕ
skip_line start len none = start
skip_line start len (some i) =
    if ltb start len && ltb (start + i) (len - 1) then start + i + 1 else start

unfoldable pub tail_start : ℕ → Text → ℕ
tail_start chars content =
    let start = length content - chars in
    skip_line start (length content) (index_of (lit "\n") (drop start content))

unfoldable pub marker : ℕ → Text
marker omitted =
    lit "\n\n[...truncated: "
    ++ (decimal omitted
        ++ lit
            " more characters omitted to keep the request size sane — the END of the output follows, which is where errors and summaries are:]\n")

unfoldable pub head_of : ℕ → Text → Text
head_of cap content = take (head_length (head_budget cap) content) content

unfoldable pub tail_of : ℕ → Text → Text
tail_of cap content =
    drop (max (length (head_of cap content)) (tail_start (tail_chars cap) content)) content

unfoldable pub shorten : ℕ → Text → Text
shorten cap content =
    head_of cap content
    ++ (marker (length content - length (head_of cap content) - length (tail_of cap content))
        ++ tail_of cap content)

unfoldable pub cap_tool_result : Text → ℕ → Text
cap_tool_result content window =
    if leb (length content) (tool_result_char_cap window)
    then content
    else shorten (tool_result_char_cap window) content

-- `s.split("\n").length`
unfoldable pub line_count : Text → ℕ
line_count [] = 1
line_count (c ∷ s) = if c == 10 then suc (line_count s) else line_count s

pub record LineRange : Type 0 where
  pub start : ℕ
  pub end : ℕ
  pub total : ℕ

-- The body and its last line's number. `quoted_path` is the path as JSON.
unfoldable pub with_range_note : Text → LineRange → ℕ → Text → Text
with_range_note body range shown_end quoted_path =
    if (range.start == 1) && (shown_end == range.total)
    then body
    else body
      ++ (lit "\n\n[showing lines "
          ++ (decimal range.start
              ++ (lit "-"
                  ++ (decimal shown_end
                      ++ (lit " of "
                          ++ (decimal range.total
                              ++ ((if ltb shown_end range.total
                                    then lit " — call read_file with path="
                                      ++ (quoted_path
                                          ++ (lit " and start_line="
                                              ++ (decimal (shown_end + 1) ++ lit " to continue")))
                                    else [])
                                  ++ lit "]")))))))

-- What of a file is shown: all, a part up to a line break, or neither for a first line over the cap.
pub data Shown : Type 0 where
  whole : Shown
  cut_at : ℕ → Shown
  one_long_line : Shown

unfoldable pub shown_part : Text → ℕ → Shown
shown_part content cap =
    if leb (length content) cap
    then whole
    else if ltb 0 (last_break cap content)
    then cut_at (last_break cap content)
    else one_long_line

unfoldable pub shown_end : Text → ℕ → LineRange → ℕ
shown_end content cut range = range.start + line_count (take cut content) - 1

unfoldable pub cap_read_file_result : Text → LineRange → Text → ℕ → Text
cap_read_file_result content range quoted_path window =
    elim (shown_part content (tool_result_char_cap window)) [
      | whole ↦ with_range_note content range range.end quoted_path
      | cut_at cut ↦
          with_range_note (take cut content) range (shown_end content cut range) quoted_path
      | one_long_line ↦ cap_tool_result content window
    ]
