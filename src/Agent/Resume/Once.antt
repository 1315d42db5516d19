-- ===== src/Agent/Resume/Once.antt =====
-- Resume messages do not pile up.
use llamacli.Prelude.{
  ◌<◌, ◌≡◌, refl, ap, ◌∙◌, List, [], ◌∷◌, some, true, length, if_intro, Bool-cases, inl, inr, Text,
  lit, arith,
}
use llamacli.Compaction.Message.{ChatMessage}
use llamacli.Compaction.SystemText.{starts_with}
use llamacli.Compaction.Tail.{is_user}
use llamacli.Agent.Resume.{with_resume, is_resume_message}

abbrev pub IsResumeText : Text → Type 0
IsResumeText u = starts_with (lit "[resuming") u ≡ true

with_resume-cons :
    (text : Text) (m : ChatMessage) (ms : List ChatMessage)
    → 0 < length ms
    → with_resume text (m ∷ ms) ≡ m ∷ with_resume text ms
unfolding with_resume
with_resume-cons text m [] h = absurd (omega arith)
with_resume-cons text m (n ∷ ms) h = refl

with_resume_pos :
    (text : Text) (m : ChatMessage) (ms : List ChatMessage) → 0 < length (with_resume text (m ∷ ms))
unfolding with_resume
with_resume_pos text m [] =
    if_intro (λ (l : List ChatMessage). 0 < length l) (is_resume_message m) (λ _. omega arith)
      (λ _. omega arith)
with_resume_pos text m (n ∷ ms) = omega arith

resume-user : (m : ChatMessage) → is_resume_message m ≡ true → is_user m ≡ true
resume-user m e = ground arith

resume_replaced :
    (t u : Text) (m : ChatMessage)
    → is_resume_message m ≡ true
    → IsResumeText u
    → with_resume t (record m { content = some u } ∷ []) ≡ record m { content = some t } ∷ []
unfolding with_resume
resume_replaced t u m e h = rw (resume-user m e) (rw h refl)

-- A resume that follows another with nothing said between them leaves what it would leave alone: the
-- message of the first, which has the form of a resume message, is replaced.
pub with_resume-with_resume :
    (t u : Text) (ms : List ChatMessage)
    → IsResumeText u
    → with_resume t (with_resume u ms) ≡ with_resume t ms
unfolding with_resume
with_resume-with_resume t u [] h = rw h refl
with_resume-with_resume t u (m ∷ []) h = elim (Bool-cases (is_resume_message m)) [
  | inl e ↦ rw e (resume_replaced t u m e h)
  | inr e ↦ rw e (rw h refl)
]
with_resume-with_resume t u (m ∷ n ∷ ms) h =
    with_resume-cons t m (with_resume u (n ∷ ms)) (with_resume_pos u n ms)
    ∙ ap (◌∷◌ m) (with_resume-with_resume t u (n ∷ ms) h)
