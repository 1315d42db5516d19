-- ===== src/Agent/Record/Kept.antt =====
-- The log stays bounded and keeps the latest calls; a file that was modified stays marked so.
use mathlib.Core.List.{append-nil, append_assoc}
use llamacli.Prelude.{
  take_last-append, text_eq_refl, ◌-◌, ◌≡◌, refl, sym, ap, ◌∙◌, subst, List, [], ◌∷◌, ◌++◌, inl,
  inr, Option, none, some, false, length, drop, take_last, ltb, arith, Text, text_eq, text_eq_iff,
  Bool-cases,
}
use llamacli.Compaction.Checkpoint.{FileStatus, modified, read, FileEntry}
use llamacli.Agent.Record.{
  push_executed_tool_log, max_executed_tool_log, touched_status, set_status, touch,
  record_file_touch, file_tool_status,
}

-- A log, the latest entry last, after a list of further calls.
pub log_all : List Text → List Text → List Text
log_all log [] = log
log_all log (d ∷ ds) = log_all (push_executed_tool_log d log) ds

push-take_last :
    (d : Text) (log : List Text)
    → push_executed_tool_log d log ≡ take_last max_executed_tool_log (log ++ (d ∷ []))
unfolding push_executed_tool_log
push-take_last d log = elim (Bool-cases (ltb 200 (length (log ++ (d ∷ []))))) [
  | inl e ↦ rw e refl
  | inr e ↦ rw e (
      ap (λ k. drop k (log ++ (d ∷ []))) {x = 0} {y = length (log ++ (d ∷ [])) - 200}
        (ground arith))
]

-- After any sequence of calls the log holds exactly the last 200 of them, in order.
pub log_all-take_last :
    (log ds : List Text)
    → log_all (take_last max_executed_tool_log log) ds ≡ take_last max_executed_tool_log (log ++ ds)
unfolding log_all
log_all-take_last log [] = ap (take_last max_executed_tool_log) (sym (append-nil log))
log_all-take_last log (d ∷ ds) =
    ap (λ l. log_all l ds)
      (push-take_last d (take_last max_executed_tool_log log)
        ∙ take_last-append max_executed_tool_log log (d ∷ []))
    ∙ log_all-take_last (log ++ (d ∷ [])) ds
    ∙ ap (take_last max_executed_tool_log) (append_assoc log (d ∷ []) ds)

-- A sequence of tool calls, each with its name and the path among its arguments.
unfoldable pub touch_all : List (Text × Option Text) → List FileEntry → List FileEntry
touch_all [] files = files
touch_all ((name, path) ∷ es) files = touch_all es (record_file_touch name path files)

touched-set_status_self :
    (p : Text) (s : FileStatus) (files : List FileEntry)
    → touched_status p (set_status p s files) ≡ some s
unfolding touched_status set_status
touched-set_status_self p s [] = rw (text_eq_refl p) refl
touched-set_status_self p s (f ∷ fs) = elim (Bool-cases (text_eq f.path p)) [
  | inl e ↦ rw e (rw e refl)
  | inr e ↦ rw e (rw e (touched-set_status_self p s fs))
]

touched-set_status_other :
    (p q : Text) (s : FileStatus) (files : List FileEntry)
    → text_eq q p ≡ false
    → touched_status p (set_status q s files) ≡ touched_status p files
unfolding touched_status set_status
touched-set_status_other p q s [] h = rw h refl
touched-set_status_other p q s (f ∷ fs) h = ground (
  arith,
  touched-set_status_other p q s fs h,
  text_eq_iff f.path q,
  text_eq_iff f.path p,
  text_eq_iff q p,
)

abbrev pub IsModified : Text → List FileEntry → Type 0
IsModified p files = touched_status p files ≡ some modified

touch-IsModified :
    (p : Text) (status : Option FileStatus) (path : Option Text) (files : List FileEntry)
    → IsModified p files
    → IsModified p (touch status path files)
unfolding touch
touch-IsModified p none path files h = h
touch-IsModified p (some s) none files h = h
touch-IsModified p (some modified) (some q) files h = elim (Bool-cases (text_eq q p)) [
  | inl e ↦
      subst (λ r. IsModified p (touch (some modified) (some r) files)) (sym ((text_eq_iff q p).0 e))
        (ground (arith, touched-set_status_self p modified files))
  | inr e ↦ ground (arith, touched-set_status_other p q modified files e)
]
touch-IsModified p (some read) (some q) files h = elim (Bool-cases (text_eq q p)) [
  | inl e ↦
      subst (λ r. IsModified p (touch (some read) (some r) files)) (sym ((text_eq_iff q p).0 e))
        (rw h (ground arith))
  | inr e ↦ ground (arith, touched-set_status_other p q read files e)
]

-- A file that is recorded as modified stays recorded as modified, whatever tool calls follow: a later
-- read does not hide the change.
pub touch_all-IsModified :
    (p : Text) (es : List (Text × Option Text)) (files : List FileEntry)
    → IsModified p files
    → IsModified p (touch_all es files)
unfolding touch_all record_file_touch
touch_all-IsModified p [] files h = h
touch_all-IsModified p ((name, path) ∷ es) files h =
    touch_all-IsModified p es (record_file_touch name path files)
      (touch-IsModified p (file_tool_status name) path files h)
