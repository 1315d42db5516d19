-- ===== src/Agent/Linked/Compacted.antt =====
-- A compaction keeps tool results with the calls they answer.
use llamacli.Prelude.{
  ℕ, ◌≡◌, refl, sym, ap, ◌∙◌, subst, List, [], ◌∷◌, ◌++◌, inl, inr, Option, some, Text, arith,
  Bool-cases, Option-cases, if_intro, keep, any, take, drop, take-append-drop,
}
use mathlib.Core.List.{reverse, reverse-cons, append_assoc, append-nil, reverse-reverse}
use llamacli.Compaction.Message.{ChatMessage}
use llamacli.Compaction.Checkpoint.{Reason, PendingCall}
use llamacli.Compaction.Tail.{
  is_not_system, is_user, select_kept_tail, Fraction, cut_index, tail_budget,
}
use llamacli.Compaction.Repair.{
  is_tool, owner_from, starts_with_tool, drop_tools, with_owner, with_user, repair_tail,
}
use llamacli.Agent.State.{LoopState}
use llamacli.Agent.Compact.Frame.{CompactedTo, FailedTo}
use llamacli.Agent.Linked.{
  IsLinked, IsLinked-suffix, drop_tools-IsLinked, keep-IsLinked, open_at_end,
}

-- What `owner_from` answers ends the list it is given.
owner_from-suffix :
    (after older owned : List ChatMessage)
    → owner_from after older ≡ some owned
    → (pre : List ChatMessage) × (reverse older ++ after ≡ pre ++ owned)
unfolding owner_from
owner_from-suffix after [] owned e = absurd (cc e)
owner_from-suffix after (m ∷ older) owned e =
    let shape : reverse older ++ (m ∷ after) ≡ reverse (m ∷ older) ++ after =
      sym (append_assoc (reverse older) (m ∷ []) after)
      ∙ ap (λ z. z ++ after) (sym (reverse-cons m older)) in
    elim (Bool-cases (is_tool m)) [
      | inl t ↦
          let (pre, split) = owner_from-suffix (m ∷ after) older owned (ground arith) in
          (pre, sym shape ∙ split)
      | inr t ↦ (
        reverse older,
        sym shape ∙ ap (λ z. reverse older ++ z) {x = m ∷ after} {y = owned} (ground arith),
      )
    ]

-- A list that is linked behind some calls.
abbrev LinkedBehind : List ChatMessage → Type 0
LinkedBehind ms = (ids : List Text) × IsLinked ids ms

suffix-LinkedBehind :
    (xs ys zs : List ChatMessage) → zs ≡ xs ++ ys → LinkedBehind zs → LinkedBehind ys
suffix-LinkedBehind xs ys zs e (ids, h) =
    (open_at_end ids xs, IsLinked-suffix ids xs ys (subst (IsLinked ids) e h))

with_owner-LinkedBehind :
    (older tail : List ChatMessage)
    → LinkedBehind (older ++ tail)
    → LinkedBehind (with_owner older tail)
unfolding with_owner
with_owner-LinkedBehind older tail h =
    if_intro LinkedBehind (starts_with_tool tail)
      (λ _. elim (Option-cases (owner_from [] (reverse older))) [
        | inl e ↦ rw e (suffix-LinkedBehind older tail (older ++ tail) refl h)
        | inr (owned, e) ↦ rw e (
            let (pre, split) = owner_from-suffix [] (reverse older) owned e in
            let whole : older ≡ pre ++ owned =
              sym (append-nil (reverse (reverse older)) ∙ reverse-reverse older) ∙ split in
            suffix-LinkedBehind pre (owned ++ tail) (older ++ tail)
              (ap (λ z. z ++ tail) whole ∙ append_assoc pre owned tail) h)
      ])
      (λ _. suffix-LinkedBehind older tail (older ++ tail) refl h)

with_user-IsLinked : (ms : List ChatMessage) → IsLinked [] ms → IsLinked [] (with_user ms)
unfolding with_user
with_user-IsLinked ms h = if_intro (IsLinked []) (any is_user ms) (λ _. h) (λ _. (inl refl, h))

repair_tail-IsLinked :
    (older tail : List ChatMessage)
    → LinkedBehind (older ++ tail)
    → IsLinked [] (repair_tail older tail)
unfolding repair_tail
repair_tail-IsLinked older tail h =
    let (ids, linked) = with_owner-LinkedBehind older tail h in
    with_user-IsLinked (drop_tools (with_owner older tail))
      (drop_tools-IsLinked ids [] (with_owner older tail) linked)

-- In a conversation whose tool results all stand behind their calls, the tail that a compaction keeps
-- and repairs has that property too, with nothing before it.
pub kept-IsLinked :
    (messages : List ChatMessage) (window : ℕ) (f : Fraction)
    → IsLinked [] messages
    → IsLinked [] (
        repair_tail
          (select_kept_tail messages window f).to_summarize
          (select_kept_tail messages window f).keep_tail)
unfolding select_kept_tail
kept-IsLinked messages window f h =
    let ms = keep is_not_system messages in
    let cut = cut_index ms (tail_budget window f) in
    repair_tail-IsLinked (take cut ms) (drop cut ms)
      ([], subst (IsLinked []) (sym (take-append-drop cut ms)) (keep-IsLinked [] messages h))

module _ (reason : Reason) (pending : Option PendingCall) (window : ℕ) (s s' : LoopState)
    (h : IsLinked [] s.messages) where
  pub CompactedTo-IsLinked : CompactedTo reason pending window s s' → IsLinked [] s'.messages
  CompactedTo-IsLinked c =
      subst (λ x. IsLinked [] x.messages) (sym c.same)
        (inl refl, kept-IsLinked s.messages window c.fraction h)

  pub FailedTo-IsLinked : FailedTo reason pending window s s' → IsLinked [] s'.messages
  FailedTo-IsLinked f = subst (λ x. IsLinked [] x.messages) (sym f.same) h
