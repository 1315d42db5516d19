-- ===== src/Agent/Linked/Newest.antt =====
-- The newest message of the conversation, and a compaction.
use llamacli.Prelude.{
  ℕ, ◌<◌, ◌≡◌, refl, sym, ap, ◌∙◌, subst, List, [], ◌∷◌, ◌++◌, inl, inr, Option, true, false, arith,
  Bool-cases, Option-cases, if_intro, keep, any, length, length-append,
}
use mathlib.Core.List.{reverse, append_assoc}
use llamacli.Compaction.Message.{ChatMessage}
use llamacli.Compaction.Checkpoint.{Reason, PendingCall}
use llamacli.Compaction.Tail.{is_not_system, is_user, select_kept_tail, Fraction}
use llamacli.Compaction.Tail.Split.{select_kept_tail_splits}
use llamacli.Compaction.Repair.{
  is_tool, owner_from, starts_with_tool, drop_tools, with_owner, with_user, repair_tail,
}
use llamacli.Agent.State.{LoopState, Thresholds}
use llamacli.Agent.Compact.Frame.{CompactedTo, FailedTo, compact-EndedTo}
use llamacli.Agent.Compact.{Attempt, compact}

module _ (m : ChatMessage) where
  abbrev pub EndsWith : List ChatMessage → Type 0
  EndsWith ms = (before : List ChatMessage) × (ms ≡ before ++ (m ∷ []))

  append-EndsWith : (xs ys : List ChatMessage) → EndsWith ys → EndsWith (xs ++ ys)
  append-EndsWith xs ys (before, e) =
      (xs ++ before, ap (λ z. xs ++ z) e ∙ sym (append_assoc xs before (m ∷ [])))

  cons-EndsWith : (x : ChatMessage) (xs : List ChatMessage) → EndsWith xs → EndsWith (x ∷ xs)
  cons-EndsWith x xs (before, e) = (x ∷ before, ap (◌∷◌ x) e)

  -- What is left behind a prefix ends as the whole does, unless nothing is left.
  suffix-EndsWith :
      (xs ys before : List ChatMessage)
      → 0 < length ys
      → xs ++ ys ≡ before ++ (m ∷ [])
      → EndsWith ys
  suffix-EndsWith [] ys before h e = (before, e)
  suffix-EndsWith (x ∷ xs) ys (b ∷ before) h e = suffix-EndsWith xs ys before h (cc e)
  suffix-EndsWith (x ∷ xs) ys [] h e = absurd (omega (arith, ap length e, length-append xs ys))

  with_owner-EndsWith :
      (older tail : List ChatMessage) → EndsWith tail → EndsWith (with_owner older tail)
  unfolding with_owner
  with_owner-EndsWith older tail h =
      if_intro EndsWith (starts_with_tool tail)
        (λ _. elim (Option-cases (owner_from [] (reverse older))) [
          | inl e ↦ rw e h
          | inr (owned, e) ↦ rw e (append-EndsWith owned tail h)
        ])
        (λ _. h)

  drop_tools-EndsWith :
      (before : List ChatMessage) → is_tool m ≡ false → EndsWith (drop_tools (before ++ (m ∷ [])))
  unfolding drop_tools
  drop_tools-EndsWith [] e =
      if_intro EndsWith (is_tool m) (λ f. absurd (cc (e, f))) (λ _. ([], refl))
  drop_tools-EndsWith (b ∷ before) e =
      if_intro EndsWith (is_tool b) (λ _. drop_tools-EndsWith before e) (λ _. (b ∷ before, refl))

  with_user-EndsWith : (ms : List ChatMessage) → EndsWith ms → EndsWith (with_user ms)
  unfolding with_user
  with_user-EndsWith ms h = if_intro EndsWith (any is_user ms) (λ _. h) (λ _. cons-EndsWith _ ms h)

  repair_tail-EndsWith :
      (older tail : List ChatMessage)
      → is_tool m ≡ false
      → EndsWith tail
      → EndsWith (repair_tail older tail)
  unfolding repair_tail
  repair_tail-EndsWith older tail e h =
      let (before, whole) = with_owner-EndsWith older tail h in
      with_user-EndsWith (drop_tools (with_owner older tail))
        (subst (λ z. EndsWith (drop_tools z)) (sym whole) (drop_tools-EndsWith before e))

  keep-last :
      (earlier : List ChatMessage)
      → is_not_system m ≡ true
      → keep is_not_system (earlier ++ (m ∷ [])) ≡ keep is_not_system earlier ++ (m ∷ [])
  keep-last [] e = rw e refl
  keep-last (x ∷ earlier) e = elim (Bool-cases (is_not_system x)) [
    | inl f ↦ rw f (ap (◌∷◌ x) (keep-last earlier e))
    | inr f ↦ rw f (keep-last earlier e)
  ]

  CompactedTo-EndsWith :
      (reason : Reason) (pending : Option PendingCall) (window : ℕ) (s s' : LoopState)
      (earlier : List ChatMessage)
      → s.messages ≡ earlier ++ (m ∷ [])
      → is_tool m ≡ false
      → is_not_system m ≡ true
      → CompactedTo reason pending window s s'
      → EndsWith s'.messages
  CompactedTo-EndsWith reason pending window s s' earlier whole e f c =
      let kept = select_kept_tail s.messages window c.fraction in
      let (splits, some_kept) = select_kept_tail_splits s.messages window c.fraction in
      let last = ap (keep is_not_system) whole ∙ keep-last earlier f in
      let tail : EndsWith kept.keep_tail = elim some_kept [
        | inl nothing ↦ absurd (
            omega (
              arith,
              ap length (sym nothing ∙ last),
              length-append (keep is_not_system earlier) (m ∷ []),
            ))
        | inr h ↦
            suffix-EndsWith kept.to_summarize kept.keep_tail (keep is_not_system earlier) h
              (splits ∙ last)
      ] in
      subst (λ (x : LoopState). EndsWith x.messages) (sym c.same)
        (cons-EndsWith _ _ (repair_tail-EndsWith kept.to_summarize kept.keep_tail e tail))

  FailedTo-EndsWith :
      (reason : Reason) (pending : Option PendingCall) (window : ℕ) (s s' : LoopState)
      (earlier : List ChatMessage)
      → s.messages ≡ earlier ++ (m ∷ [])
      → FailedTo reason pending window s s'
      → EndsWith s'.messages
  FailedTo-EndsWith reason pending window s s' earlier whole f =
      subst (λ (x : LoopState). EndsWith x.messages) (sym f.same) (earlier, whole)

-- A compaction, successful or not, keeps the newest message as it is and as the newest one, if that is
-- neither a system message nor a tool result: so also an assistant message whose calls are unanswered.
pub compact-EndsWith :
    (th : Thresholds) (reason : Reason) (pending : Option PendingCall) (most : Fraction)
    (attempts : ℕ → Attempt) (s : LoopState) (earlier : List ChatMessage) (m : ChatMessage)
    → s.messages ≡ earlier ++ (m ∷ [])
    → is_tool m ≡ false
    → is_not_system m ≡ true
    → EndsWith m (compact th reason pending most attempts s).state.messages
compact-EndsWith th reason pending most attempts s earlier m whole e f =
    elim (compact-EndedTo th reason pending most attempts s).1 [
      | inl (_, c) ↦
          CompactedTo-EndsWith m reason pending th.context_window_tokens s _ earlier whole e f c
      | inr (_, _, g, _) ↦
          FailedTo-EndsWith m reason pending th.context_window_tokens s _ earlier whole g
    ]
