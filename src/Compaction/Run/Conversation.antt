-- ===== src/Compaction/Run/Conversation.antt =====
-- The compacted conversation: the tail that `runCompaction` repairs, and its system message.
use llamacli.Prelude.{
  ◌⊎◌, inl, inr, is_empty, ℕ, ◌≡◌, ◌≢◌, refl, sym, subst, inl, inr, List, [], ◌∷◌, All, All-append,
  All-take, All-drop, Text, arith, Bool, true, false, Bool-cases, Option-cases, any, keep, take,
  drop, Option, some,
}
use mathlib.Core.List.{reverse, reverse-cons}
use llamacli.Compaction.Message.{ChatMessage, text_of, plain, system}
use llamacli.Compaction.Checkpoint.{Checkpoint}
use llamacli.Compaction.SystemText.{compose_system_message}
use llamacli.Compaction.Tail.{
  is_user, is_not_system, select_kept_tail, cut_index, tail_budget, Kept,
}
use llamacli.Compaction.Repair.{
  is_tool, starts_with_tool, owner_from, drop_tools, with_owner, with_user, repair_tail,
}
use llamacli.Compaction.Run.{
  Request, Reply, failed, replied, system_text, compacted_of, Outcome, threw, compacted,
  after_reply, detail_of, Event, wrote, asked, Options, final_checkpoint, final_events,
  summary_text, run_compaction,
}

abbrev NotSystem : ChatMessage → Type 0
NotSystem m = m.role ≢ system

keep-NotSystem : (ms : List ChatMessage) → All NotSystem (keep is_not_system ms)
keep-NotSystem [] = tt
keep-NotSystem (m ∷ ms) = elim (Bool-cases (is_not_system m)) [
  | inl e ↦ rw e (ground arith, keep-NotSystem ms)
  | inr e ↦ rw e (keep-NotSystem ms)
]

All-reverse : (ms : List ChatMessage) → All NotSystem ms → All NotSystem (reverse ms)
All-reverse [] h = h
All-reverse (m ∷ ms) (h, hs) =
    subst (All NotSystem) (sym (reverse-cons m ms))
      (All-append NotSystem (reverse ms) (m ∷ []) (All-reverse ms hs) (h, tt))

drop_tools-NotSystem : (ms : List ChatMessage) → All NotSystem ms → All NotSystem (drop_tools ms)
unfolding drop_tools
drop_tools-NotSystem [] h = h
drop_tools-NotSystem (m ∷ ms) (h, hs) = elim (Bool-cases (is_tool m)) [
  | inl e ↦ rw e (drop_tools-NotSystem ms hs)
  | inr e ↦ rw e (h, hs)
]

-- What `owner_from` answers is made of the messages it is given.
owner_from-NotSystem :
    (after older owned : List ChatMessage)
    → All NotSystem after
    → All NotSystem older
    → owner_from after older ≡ some owned
    → All NotSystem owned
unfolding owner_from
owner_from-NotSystem after [] owned ha ho e = ground arith
owner_from-NotSystem after (m ∷ older) owned ha (h, hs) e = elim (Bool-cases (is_tool m)) [
  | inl t ↦ owner_from-NotSystem (m ∷ after) older owned (h, ha) hs (ground arith)
  | inr t ↦ subst (All NotSystem) {x = m ∷ after} {y = owned} (ground arith) (h, ha)
]

with_owner-NotSystem :
    (older tail : List ChatMessage)
    → All NotSystem older
    → All NotSystem tail
    → All NotSystem (with_owner older tail)
unfolding with_owner
with_owner-NotSystem older tail ho ht = elim (Bool-cases (starts_with_tool tail)) [
  | inr e ↦ rw e ht
  | inl e ↦ rw e (elim (Option-cases (owner_from [] (reverse older))) [
    | inl f ↦ rw f ht
    | inr (owned, f) ↦ rw f (
        All-append NotSystem owned tail
          (owner_from-NotSystem [] (reverse older) owned tt (All-reverse older ho) f) ht)
  ])
]

starts_with_tool-drop_tools : (ms : List ChatMessage) → starts_with_tool (drop_tools ms) ≡ false
unfolding drop_tools starts_with_tool
starts_with_tool-drop_tools [] = refl
starts_with_tool-drop_tools (m ∷ ms) = ground (arith, starts_with_tool-drop_tools ms)

-- A user message is there, the first message is no tool result, and none is a system message.
abbrev pub IsTurns : List ChatMessage → Type 0
IsTurns ms = All NotSystem ms × (any is_user ms ≡ true) × (starts_with_tool ms ≡ false)

with_user-IsTurns :
    (ms : List ChatMessage)
    → All NotSystem ms
    → starts_with_tool ms ≡ false
    → IsTurns (with_user ms)
unfolding with_user starts_with_tool
with_user-IsTurns ms h e = elim (Bool-cases (any is_user ms)) [
  | inl f ↦ rw f (h, f, e)
  | inr f ↦ rw f ((ground arith, h), refl, refl)
]

repair_tail-IsTurns :
    (older tail : List ChatMessage)
    → All NotSystem older
    → All NotSystem tail
    → IsTurns (repair_tail older tail)
unfolding repair_tail
repair_tail-IsTurns older tail ho ht =
    with_user-IsTurns (drop_tools (with_owner older tail))
      (drop_tools-NotSystem (with_owner older tail) (with_owner-NotSystem older tail ho ht))
      (starts_with_tool-drop_tools (with_owner older tail))

kept-IsTurns :
    (messages : List ChatMessage) (o : Options)
    → let kept = select_kept_tail messages o.context_window_tokens o.tail_budget_fraction in
      IsTurns (repair_tail kept.to_summarize kept.keep_tail)
unfolding select_kept_tail
kept-IsTurns messages o =
    let ms = keep is_not_system messages in
    let cut = cut_index ms (tail_budget o.context_window_tokens o.tail_budget_fraction) in
    repair_tail-IsTurns (take cut ms) (drop cut ms)
      (All-take NotSystem cut ms (keep-NotSystem messages))
      (All-drop NotSystem cut ms (keep-NotSystem messages))

-- The shape that a chat template accepts: one system message, first, and the turns.
abbrev pub IsSendable : Outcome → Type 0
IsSendable (threw e d) = Unit
IsSendable (compacted r) =
    (text : Text) × (turns : List ChatMessage) × (r.messages ≡ plain system text ∷ turns)
    × IsTurns turns

after_reply-IsSendable :
    (messages : List ChatMessage) (c : Checkpoint) (kept : Kept) (request : Request)
    (deadline : Option ℕ) (reply : Reply)
    → IsTurns (repair_tail kept.to_summarize kept.keep_tail)
    → IsSendable (after_reply messages c kept request deadline reply).outcome
unfolding after_reply compacted_of
after_reply-IsSendable messages c kept request deadline (failed message) h = tt
after_reply-IsSendable messages c kept request deadline (replied content hit) h = (
  compose_system_message (system_text messages) (summary_text (text_of content) hit),
  repair_tail kept.to_summarize kept.keep_tail,
  refl,
  h,
)

-- The compacted conversation is one system message in first place, followed by turns that hold a user
-- message and do not begin with a tool result, for any conversation and any reply of the backend.
pub run_compaction-IsSendable :
    (chat : Request → Option ℕ → Reply) (messages : List ChatMessage) (c : Checkpoint) (o : Options)
    → IsSendable (run_compaction chat messages c o).outcome
unfolding run_compaction
run_compaction-IsSendable chat messages c o =
    after_reply-IsSendable messages c
      (select_kept_tail messages o.context_window_tokens o.tail_budget_fraction) _ _ _
      (kept-IsTurns messages o)

-- The checkpoint that is on disk after the events, where `before` was.
abbrev pub last_written : Checkpoint → List Event → Checkpoint
last_written before [] = before
last_written before (wrote c ∷ es) = last_written c es
last_written before (asked r d ∷ es) = last_written before es

-- Of the requests, each comes after a write of the checkpoint.
abbrev pub IsSafe : Bool → List Event → Type 0
IsSafe saved [] = Unit
IsSafe saved (wrote c ∷ es) = IsSafe true es
IsSafe saved (asked r d ∷ es) = (saved ≡ true) × IsSafe saved es

abbrev pub Leaves : Checkpoint → Checkpoint → Outcome → Type 0
Leaves c disk (threw e d) = disk ≡ c
Leaves c disk (compacted r) =
    (disk ≡ r.checkpoint) × ((r.detail.summary ≡ []) ⊎ (disk.summary ≡ some r.detail.summary))

is_empty-nil : (t : Text) → is_empty t ≡ true → t ≡ []
is_empty-nil t e = ground arith

after_reply-Leaves :
    (messages : List ChatMessage) (before c : Checkpoint) (kept : Kept) (request : Request)
    (deadline : Option ℕ) (reply : Reply)
    → let run = after_reply messages c kept request deadline reply in
      IsSafe false run.events × Leaves c (last_written before run.events) run.outcome
unfolding after_reply compacted_of final_events final_checkpoint detail_of
after_reply-Leaves messages before c kept request deadline (failed message) = ((refl, tt), refl)
after_reply-Leaves messages before c kept request deadline (replied content hit) =
    elim (Bool-cases (is_empty (summary_text (text_of content) hit))) [
      | inl e ↦ rw e ((refl, tt), (refl, inl (is_empty-nil (summary_text (text_of content) hit) e)))
      | inr e ↦ rw e ((refl, tt), (refl, inr refl))
    ]

-- The checkpoint is written before the backend is asked. When the backend fails it stays on disk as it
-- was; when it answers, the checkpoint on disk is the one the run returns, with the summary in it
-- unless that is empty.
pub run_compaction-Leaves :
    (chat : Request → Option ℕ → Reply) (messages : List ChatMessage) (before c : Checkpoint)
    (o : Options)
    → let run = run_compaction chat messages c o in
      IsSafe false run.events × Leaves c (last_written before run.events) run.outcome
unfolding run_compaction
run_compaction-Leaves chat messages before c o =
    after_reply-Leaves messages before c
      (select_kept_tail messages o.context_window_tokens o.tail_budget_fraction) _ _ _
