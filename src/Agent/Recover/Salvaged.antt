-- ===== src/Agent/Recover/Salvaged.antt =====
-- What the recovery of truncated writes leaves on disk, among the writes of the tools.
use llamacli.Prelude.{
  ℕ, ◌+◌, ◌<◌, ◌≡◌, refl, ap, ◌∙◌, List, [], ◌∷◌, ◌++◌, Bool, true, false, ltb, length,
  if◌then◌else◌, if_intro, Text, text_eq, text_eq_iff, arith,
}
use llamacli.Agent.State.{LoopState}
use llamacli.Agent.Failures.{SalvagedFileWrite, FileWrite, TurnVars, new_turn, Next, again, ends}
use llamacli.Agent.Recover.{chars_of, set_chars, save_prefix}

-- What writes a file in a turn: a salvage of a truncated call, by `save_prefix`, or a call of
-- write_file or append_file that was not cut off.
pub data FileEvent : Type 0 where
  salvage : SalvagedFileWrite → FileEvent
  tool_write : FileWrite → FileEvent

-- The content of the file at `path` after one write: it replaces the content or adds to it.
abbrev pub written_to : Text → FileWrite → Text → Text
written_to path w content =
    if text_eq w.file.path path
    then (if w.appends then content ++ w.file.partial_content else w.file.partial_content)
    else content

abbrev pub file_after : Text → Text → List FileWrite → Text
file_after path content [] = content
file_after path content (w ∷ ws) = file_after path (written_to path w content) ws

abbrev pub vars_of : TurnVars → Next → TurnVars
vars_of v (again v' s) = v'
vars_of v (ends e s) = v

-- The code: a salvage goes through the variables of the turn; the tools do not touch these.
abbrev pub after_event : LoopState → FileEvent → TurnVars → TurnVars
after_event s (salvage f) v = vars_of v (save_prefix f v s)
after_event s (tool_write w) v = record v { writes = v.writes ++ (w ∷ []) }

abbrev pub after_events : LoopState → List FileEvent → TurnVars → TurnVars
after_events s [] v = v
after_events s (e ∷ es) v = after_events s es (after_event s e v)

-- What is meant, for the file at `path`: the first salvage begins it anew, each further one adds to
-- what is there by then. `begun` tells that a salvage has been.
abbrev pub meant : Text → Bool → Text → List FileEvent → Text
meant path begun content [] = content
meant path begun content (tool_write w ∷ es) = meant path begun (written_to path w content) es
meant path begun content (salvage f ∷ es) =
    if text_eq f.path path
    then meant path true (if begun then content ++ f.partial_content else f.partial_content) es
    else meant path begun content es

abbrev pub HasText : FileEvent → Type 0
HasText (salvage f) = 0 < length f.partial_content
HasText (tool_write w) = Unit

abbrev pub AllHaveText : List FileEvent → Type 0
AllHaveText [] = Unit
AllHaveText (e ∷ es) = HasText e × AllHaveText es

file_after-append :
    (path : Text) (content : Text) (ws : List FileWrite) (w : FileWrite)
    → file_after path content (ws ++ (w ∷ [])) ≡ written_to path w (file_after path content ws)
file_after-append path content [] w = refl
file_after-append path content (x ∷ ws) w = file_after-append path (written_to path x content) ws w

chars-set_chars :
    (path q : Text) (n : ℕ) (cs : List (Text × ℕ))
    → chars_of path (set_chars q n cs) ≡ (if text_eq q path then n else chars_of path cs)
unfolding chars_of set_chars
chars-set_chars path q n [] = refl
chars-set_chars path q n ((p, m) ∷ cs) =
    ground
      (arith, chars-set_chars path q n cs, text_eq_iff p q, text_eq_iff p path, text_eq_iff q path)

-- The variables are at `content` for the file, and know whether a salvage has been.
abbrev IsAt : Text → Text → Bool → Text → TurnVars → Type 0
IsAt path before begun content v =
    (file_after path before v.writes ≡ content) × (ltb 0 (chars_of path v.salvaged_chars) ≡ begun)

module _ (path before : Text) (s : LoopState) where
  salvage-IsAt :
      (f : SalvagedFileWrite) (begun : Bool) (content : Text) (v : TurnVars)
      → 0 < length f.partial_content
      → f.path ≡ path
      → IsAt path before begun content v
      → IsAt path before true
          (if begun then content ++ f.partial_content else f.partial_content)
          (after_event s (salvage f) v)
  unfolding save_prefix
  salvage-IsAt f begun content v some_text same (disk, chars) =
      let total = chars_of f.path v.salvaged_chars + length f.partial_content in
      let w : FileWrite = record { appends = ltb 0 (chars_of f.path v.salvaged_chars); file = f } in
      let mine : text_eq f.path path ≡ true = (text_eq_iff f.path path).1 same in
      let appends : ltb 0 (chars_of f.path v.salvaged_chars) ≡ begun =
        ap (λ p. ltb 0 (chars_of p v.salvaged_chars)) same ∙ chars in
      (
        file_after-append path before v.writes w
            ∙ (ap (written_to path w) disk ∙ rw mine (rw appends refl)),
        grind (arith, chars-set_chars path f.path total v.salvaged_chars, mine, some_text),
      )

  other-IsAt :
      (f : SalvagedFileWrite) (begun : Bool) (content : Text) (v : TurnVars)
      → text_eq f.path path ≡ false
      → IsAt path before begun content v
      → IsAt path before begun content (after_event s (salvage f) v)
  unfolding save_prefix
  other-IsAt f begun content v other (disk, chars) =
      let total = chars_of f.path v.salvaged_chars + length f.partial_content in
      let w : FileWrite = record { appends = ltb 0 (chars_of f.path v.salvaged_chars); file = f } in
      (
        file_after-append path before v.writes w ∙ (ap (written_to path w) disk ∙ rw other refl),
        ap (ltb 0) (chars-set_chars path f.path total v.salvaged_chars ∙ rw other refl) ∙ chars,
      )

  events-IsAt :
      (es : List FileEvent) (begun : Bool) (content : Text) (v : TurnVars)
      → AllHaveText es
      → IsAt path before begun content v
      → file_after path before (after_events s es v).writes ≡ meant path begun content es
  events-IsAt [] begun content v _ h = h.0
  events-IsAt (tool_write w ∷ es) begun content v (_, ks) (disk, chars) =
      events-IsAt es begun (written_to path w content) (record v { writes = v.writes ++ (w ∷ []) })
        ks (file_after-append path before v.writes w ∙ ap (written_to path w) disk, chars)
  events-IsAt (salvage f ∷ es) begun content v (k, ks) h =
      let v' = after_event s (salvage f) v in
      let result = file_after path before (after_events s es v').writes in
      if_intro (λ (t : Text). result ≡ t) (text_eq f.path path)
        (λ e.
          events-IsAt es true (if begun then content ++ f.partial_content else f.partial_content) v'
            ks (salvage-IsAt f begun content v k ((text_eq_iff f.path path).0 e) h))
        (λ e. events-IsAt es begun content v' ks (other-IsAt f begun content v e h))

-- Through any sequence of saved parts of truncated calls and of writes and appends by the tools, for
-- whichever files, in a turn: the first saved part of a file begins the file anew, and each further one
-- is added to what the file holds by then, also where a tool has written the file in between. The parts
-- are taken to be not empty, as the salvage gives them, and their writes to succeed.
pub events-on_disk :
    (before path : Text) (s : LoopState) (es : List FileEvent)
    → AllHaveText es
    → file_after path before (after_events s es new_turn).writes ≡ meant path false before es
unfolding new_turn chars_of
events-on_disk before path s es h =
    events-IsAt path before s es false before new_turn h (refl, refl)
