-- ===== src/Compaction/Estimate.antt =====
-- Token estimates: `estimateTextTokens`, `charBasedEstimate`, and `estimateTokens` with its memo. The
-- backend's own counts are arguments; none stands for a call that throws.
pub mod Remembered
use llamacli.Prelude.{
  ℕ, suc, ◌+◌, ◌-◌, ◌*◌, ◌/◌, ◌≡◌, refl, List, [], ◌∷◌, ◌++◌, Option, none, some, Bool, true, false,
  ◌&&◌, ◌||◌, length, leb, ◌==◌, if◌then◌else◌, Text, lit, map, arith,
}
use llamacli.Compaction.Message.{
  Role, system, user, assistant, tool, role_eq, ToolCall, ChatMessage, message_text, join, text_of,
}

-- Hangul, jamo, ideographs and kana, by code unit.
unfoldable pub is_cjk : ℕ → Bool
is_cjk c =
    (leb 0xac00 c && leb c 0xd7af)
    || (leb 0x1100 c && leb c 0x11ff)
    || (leb 0x3130 c && leb c 0x318f)
    || (leb 0x4e00 c && leb c 0x9fff)
    || (leb 0x3040 c && leb c 0x30ff)

unfoldable pub cjk_count : Text → ℕ
cjk_count [] = 0
cjk_count (c ∷ s) = if is_cjk c then suc (cjk_count s) else cjk_count s

-- `Math.ceil(cjk * 1.5 + nonCjk * 0.25)`, with `total` the length of the text.
unfoldable pub weigh : ℕ → ℕ → ℕ
weigh cjk total = (6 * cjk + (total - cjk) + 3) / 4

unfoldable pub estimate_text_tokens : Text → ℕ
estimate_text_tokens t = weigh (cjk_count t) (length t)

-- The two counters of `charBasedEstimate` over the messages.
unfoldable pub cjk_total : List ChatMessage → ℕ
cjk_total [] = 0
cjk_total (m ∷ ms) = cjk_count (message_text m) + cjk_total ms

unfoldable pub length_total : List ChatMessage → ℕ
length_total [] = 0
length_total (m ∷ ms) = length (message_text m) + length_total ms

unfoldable pub char_based_estimate : List ChatMessage → Text → ℕ
char_based_estimate ms extra =
    weigh (cjk_total ms + cjk_count extra) (length extra + length_total ms)

-- What a backend offers for counting: an exact count of the rendered prompt, and a tokenizer.
pub record Backend : Type 0 where
  pub id : ℕ
  pub count_prompt_tokens : Option (List ChatMessage → ℕ → Option ℕ)
  pub tokenize : Option (Text → Option ℕ)

-- `tools` is given by the number of its definitions, which is all that is read of it here.
unfoldable pub by_tokenizer : Backend → List ChatMessage → Text → ℕ
by_tokenizer b ms extra = elim b.tokenize [
  | none ↦ char_based_estimate ms extra
  | some f ↦ elim (f (join (lit "\n") (map message_text ms ++ (extra ∷ [])))) [
    | none ↦ char_based_estimate ms extra
    | some n ↦ n
  ]
]

unfoldable pub measure_tokens : List ChatMessage → Backend → Text → ℕ → ℕ
measure_tokens ms b extra tools = elim b.count_prompt_tokens [
  | none ↦ by_tokenizer b ms extra
  | some f ↦ elim (f ms tools) [ none ↦ by_tokenizer b ms extra | some n ↦ n ]
]

unfoldable pub call_chars : List ToolCall → ℕ
call_chars [] = 0
call_chars (c ∷ cs) = length c.arguments + call_chars cs

-- The parts of the memo's key, which the source joins by ":".
pub record Key : Type 0 where
  pub count : ℕ
  pub last_role : Option Role
  pub last_content : ℕ
  pub last_calls : ℕ
  pub extra : ℕ
  pub tools : ℕ

unfoldable pub last_message : List ChatMessage → Option ChatMessage
last_message [] = none
last_message (m ∷ []) = some m
last_message (m ∷ n ∷ ms) = last_message (n ∷ ms)

unfoldable pub estimate_key : List ChatMessage → Text → ℕ → Key
estimate_key ms extra tools = elim (last_message ms) [
  | none ↦ record {
    count = length ms;
    last_role = none;
    last_content = 0;
    last_calls = 0;
    extra = length extra;
    tools = tools;
  }
  | some m ↦ record {
    count = length ms;
    last_role = some m.role;
    last_content = length (text_of m.content);
    last_calls = call_chars m.tool_calls;
    extra = length extra;
    tools = tools;
  }
]

abbrev pub same_role : Option Role → Option Role → Bool
same_role none none = true
same_role (some a) (some b) = role_eq a b
same_role _ _ = false

unfoldable pub key_eq : Key → Key → Bool
key_eq a b =
    (a.count == b.count)
    && same_role a.last_role b.last_role
    && (a.last_content == b.last_content)
    && (a.last_calls == b.last_calls)
    && (a.extra == b.extra)
    && (a.tools == b.tools)

-- `lastEstimate`
pub record Memo : Type 0 where
  pub key : Key
  pub backend : ℕ
  pub tokens : ℕ

-- The count and the memo afterwards.
unfoldable pub estimate_tokens :
    Option Memo → List ChatMessage → Backend → Text → ℕ → ℕ × Option Memo
estimate_tokens memo ms b extra tools =
    let key = estimate_key ms extra tools in
    let measured = measure_tokens ms b extra tools in
    let fresh : ℕ × Option Memo =
      (measured, some (record { key = key; backend = b.id; tokens = measured })) in
    elim memo [
      | none ↦ fresh
      | some m ↦ if key_eq m.key key && (m.backend == b.id) then (m.tokens, some m) else fresh
    ]
