-- ===== src/Compaction/Estimate/Remembered.antt =====
-- What a remembered token count belongs to.
use llamacli.Prelude.{
  ℕ, ◌≡◌, refl, sym, ◌∙◌, subst, List, [], ◌∷◌, ◌⊎◌, inl, inr, Option, none, some, true, ◌&&◌, ◌==◌,
  length, if_intro, Text, arith,
}
use llamacli.Compaction.Message.{Role, role_eq, ChatMessage, text_of}
use llamacli.Compaction.Estimate.{
  Backend, Key, Memo, call_chars, last_message, estimate_key, key_eq, measure_tokens,
  estimate_tokens,
}

-- One call of `estimateTokens`.
pub record Count : Type 0 where
  pub messages : List ChatMessage
  pub backend : Backend
  pub extra : Text
  pub tools : ℕ

abbrev pub measured : Count → ℕ
measured c = measure_tokens c.messages c.backend c.extra c.tools

abbrev pub counted : Option Memo → Count → ℕ × Option Memo
counted memo c = estimate_tokens memo c.messages c.backend c.extra c.tools

-- The memo after some calls, the newest first.
abbrev pub memo_after : List Count → Option Memo
memo_after [] = none
memo_after (c ∷ cs) = (counted (memo_after cs) c).1

-- Two calls for one backend, whose conversations have as many messages, whose last messages have the
-- same role and lengths, and whose extra texts and tools are as long.
abbrev LastAgree : Option ChatMessage → Option ChatMessage → Type 0
LastAgree none none = Unit
LastAgree (some a) (some b) =
    (a.role ≡ b.role)
    × (length (text_of a.content) ≡ length (text_of b.content))
    × (call_chars a.tool_calls ≡ call_chars b.tool_calls)
LastAgree _ _ = ⊥

abbrev pub Agree : Count → Count → Type 0
Agree c d =
    (c.backend.id ≡ d.backend.id)
    × (length c.messages ≡ length d.messages)
    × LastAgree (last_message c.messages) (last_message d.messages)
    × (length c.extra ≡ length d.extra)
    × (c.tools ≡ d.tools)

-- One of the calls that agrees with `c` measured `n`.
abbrev pub IsMeasured : List Count → Count → ℕ → Type 0
IsMeasured [] c n = ⊥
IsMeasured (d ∷ ds) c n = ((n ≡ measured d) × Agree d c) ⊎ IsMeasured ds c n

role_eq→≡ : (a b : Role) → role_eq a b ≡ true → a ≡ b
role_eq→≡ a b = ground arith

abbrev key_of : Count → Key
key_of c = estimate_key c.messages c.extra c.tools

abbrev key_with : ℕ → Option ChatMessage → ℕ → ℕ → Key
key_with n o extra tools = elim o [
  | none ↦ record {
    count = n;
    last_role = none;
    last_content = 0;
    last_calls = 0;
    extra = extra;
    tools = tools;
  }
  | some m ↦ record {
    count = n;
    last_role = some m.role;
    last_content = length (text_of m.content);
    last_calls = call_chars m.tool_calls;
    extra = extra;
    tools = tools;
  }
]

key_with-LastAgree :
    (n k e f t u : ℕ) (o p : Option ChatMessage)
    → key_eq (key_with n o e t) (key_with k p f u) ≡ true
    → (n ≡ k) × LastAgree o p × (e ≡ f) × (t ≡ u)
unfolding key_eq
key_with-LastAgree n k e f t u none none h = (ground arith, tt, ground arith, ground arith)
key_with-LastAgree n k e f t u (some a) none h = absurd (ground arith)
key_with-LastAgree n k e f t u none (some b) h = absurd (ground arith)
key_with-LastAgree n k e f t u (some a) (some b) h = (
  ground arith,
  (role_eq→≡ a.role b.role (ground arith), ground arith, ground arith),
  ground arith,
  ground arith,
)

key-Agree :
    (c d : Count) → key_eq (key_of c) (key_of d) ≡ true → c.backend.id ≡ d.backend.id → Agree c d
unfolding estimate_key
key-Agree c d e same =
    let (count, last, extra, tools) =
      key_with-LastAgree (length c.messages) (length d.messages) (length c.extra) (length d.extra)
        c.tools d.tools (last_message c.messages) (last_message d.messages) e in
    (same, count, last, extra, tools)

LastAgree-refl : (o : Option ChatMessage) → LastAgree o o
LastAgree-refl none = tt
LastAgree-refl (some m) = (refl, refl, refl)

Agree-refl : (c : Count) → Agree c c
Agree-refl c = (refl, refl, LastAgree-refl (last_message c.messages), refl, refl)

-- The memo holds what one of the calls measured.
abbrev IsHeld : List Count → Memo → Type 0
IsHeld [] m = ⊥
IsHeld (d ∷ ds) m =
    ((m.tokens ≡ measured d) × (m.key ≡ key_of d) × (m.backend ≡ d.backend.id)) ⊎ IsHeld ds m

abbrev Held : List Count → Option Memo → Type 0
Held ds none = Unit
Held ds (some m) = IsHeld ds m

held-IsMeasured :
    (ds : List Count) (m : Memo) (c : Count)
    → key_eq m.key (key_of c) ≡ true
    → m.backend ≡ c.backend.id
    → IsHeld ds m
    → IsMeasured ds c m.tokens
held-IsMeasured [] m c e same h = h
held-IsMeasured (d ∷ ds) m c e same (inl (tokens, key, backend)) =
    inl (tokens, key-Agree d c (subst (λ k. key_eq k (key_of c) ≡ true) key e) (sym backend ∙ same))
held-IsMeasured (d ∷ ds) m c e same (inr h) = inr (held-IsMeasured ds m c e same h)

count-Held :
    (ds : List Count) (memo : Option Memo) (c : Count)
    → Held ds memo
    → IsMeasured (c ∷ ds) c (counted memo c).0 × Held (c ∷ ds) (counted memo c).1
unfolding estimate_tokens
count-Held ds none c h = (inl (refl, Agree-refl c), inl (refl, refl, refl))
count-Held ds (some m) c h =
    if_intro (λ (r : ℕ × Option Memo). IsMeasured (c ∷ ds) c r.0 × Held (c ∷ ds) r.1)
      (key_eq m.key (key_of c) && (m.backend == c.backend.id))
      (λ e. (inr (held-IsMeasured ds m c (ground arith) (ground arith) h), inr h))
      (λ _. (inl (refl, Agree-refl c), inl (refl, refl, refl)))

memo_after-Held : (ds : List Count) → Held ds (memo_after ds)
memo_after-Held [] = tt
memo_after-Held (c ∷ ds) = (count-Held ds (memo_after ds) c (memo_after-Held ds)).1

-- After any earlier calls, a call of `estimateTokens` answers what it measures itself, or what one of
-- the earlier calls measured that was for the same backend and whose conversation had as many messages,
-- with the same role and lengths in the last one, extra text of the same length and as many tools: so a
-- count of another backend is never answered, while one of another such conversation may be.
pub counted-IsMeasured :
    (before : List Count) (c : Count) → IsMeasured (c ∷ before) c (counted (memo_after before) c).0
counted-IsMeasured before c = (count-Held before (memo_after before) c (memo_after-Held before)).0
