-- ===== src/Hermes/Window.antt =====
-- The breaker's history is the sliding window of the recorded calls.
use llamacli.Prelude.{
  ℕ, suc, zero, ◌-◌, ◌≤◌, ◌≡◌, refl, sym, ap, ◌∙◌, List, [], ◌∷◌, ◌++◌, arith, length, drop,
  take_last, length-append, length-drop, ltb, ltb→lt, ltb→ge, Bool-cases, inl, inr, subst,
  if◌then◌else◌,
}
use mathlib.Core.List.{append_assoc, append-nil}
use llamacli.Hermes.{
  CallRecord, CircuitBreaker, CircuitBreakerConfig, new_breaker, shift, record_call,
}

-- The breaker after a sequence of calls, each with the time at which it was recorded.
unfoldable pub record_all : CircuitBreaker → List (CallRecord × ℕ) → CircuitBreaker
record_all b [] = b
record_all b ((c, t) ∷ rest) = record_all (record_call b c t) rest

unfoldable pub calls_of : List (CallRecord × ℕ) → List CallRecord
calls_of [] = []
calls_of ((c, t) ∷ rest) = c ∷ calls_of rest

drop-append :
    (n : ℕ) (xs ys : List CallRecord) → n ≤ length xs → drop n (xs ++ ys) ≡ drop n xs ++ ys
drop-append zero xs ys h = refl
drop-append (suc n) [] ys h = elim h [ ]
drop-append (suc n) (x ∷ xs) ys h = drop-append n xs ys (omega arith)

shift-drop : (n : ℕ) (xs : List CallRecord) → shift (drop n xs) ≡ drop (suc n) xs
unfolding shift
shift-drop zero [] = refl
shift-drop zero (x ∷ xs) = refl
shift-drop (suc n) [] = refl
shift-drop (suc n) (x ∷ xs) = shift-drop n xs

drop-congr : (xs : List CallRecord) {m n : ℕ} → m ≡ n → drop m xs ≡ drop n xs
drop-congr xs e = ap (λ k. drop k xs) e

drop-nil : (n : ℕ) → [] ≡ drop {A = CallRecord} n []
drop-nil zero = refl
drop-nil (suc n) = refl

-- The history is the last `window_size` calls of everything that was recorded.
abbrev pub IsWindow : CircuitBreaker → List CallRecord → Type 0
IsWindow b calls = b.history ≡ take_last b.config.window_size calls

pushed_eq :
    (w : ℕ) (calls : List CallRecord) (c : CallRecord)
    → take_last w calls ++ (c ∷ []) ≡ drop (length calls - w) (calls ++ (c ∷ []))
pushed_eq w calls c = sym (drop-append (length calls - w) calls (c ∷ []) (omega arith))

-- One call keeps the window: the new call enters, and the oldest leaves when it is full.
push-take_last :
    (w : ℕ) (calls : List CallRecord) (c : CallRecord)
    → (if ltb w (length (take_last w calls ++ (c ∷ [])))
        then shift (take_last w calls ++ (c ∷ []))
        else take_last w calls ++ (c ∷ []))
      ≡ take_last w (calls ++ (c ∷ []))
push-take_last w calls c =
    let size = length-append (take_last w calls) (c ∷ []) in
    let kept = length-drop (length calls - w) calls in
    let all = length-append calls (c ∷ []) in
    elim (Bool-cases (ltb w (length (take_last w calls ++ (c ∷ []))))) [
      | inl full ↦ rw full (
          rw (pushed_eq w calls c) (
            shift-drop (length calls - w) (calls ++ (c ∷ []))
            ∙ drop-congr (calls ++ (c ∷ [])) {m = suc (length calls - w)}
                (omega (arith, ltb→lt _ _ full))))
      | inr room ↦
          rw room
            (pushed_eq w calls c ∙ drop-congr (calls ++ (c ∷ [])) (omega (arith, ltb→ge _ _ room)))
    ]

record_call-IsWindow :
    (b : CircuitBreaker) (calls : List CallRecord) (c : CallRecord) (t : ℕ)
    → IsWindow b calls
    → IsWindow (record_call b c t) (calls ++ (c ∷ []))
unfolding record_call
record_call-IsWindow b calls c t h = rw h (push-take_last b.config.window_size calls c)

record_all-IsWindow :
    (b : CircuitBreaker) (before : List CallRecord) (events : List (CallRecord × ℕ))
    → IsWindow b before
    → IsWindow (record_all b events) (before ++ calls_of events)
unfolding record_all calls_of
record_all-IsWindow b before [] h = subst (IsWindow b) (sym (append-nil before)) h
record_all-IsWindow b before ((c, t) ∷ rest) h =
    subst (IsWindow (record_all (record_call b c t) rest))
      (append_assoc before (c ∷ []) (calls_of rest))
      (record_all-IsWindow (record_call b c t) (before ++ (c ∷ [])) rest
        (record_call-IsWindow b before c t h))

pub config-record_all :
    (b : CircuitBreaker) (events : List (CallRecord × ℕ)) → (record_all b events).config ≡ b.config
unfolding record_all record_call
config-record_all b [] = refl
config-record_all b ((c, t) ∷ rest) = config-record_all (record_call b c t) rest

-- A new breaker that records any sequence of calls holds exactly the last `window_size` of them,
-- in their order.
pub history-record_all :
    (config : CircuitBreakerConfig) (start : ℕ) (events : List (CallRecord × ℕ))
    → (record_all (new_breaker config start) events).history
      ≡ take_last config.window_size (calls_of events)
unfolding new_breaker
history-record_all config start events =
    record_all-IsWindow (new_breaker config start) [] events (drop-nil (0 - config.window_size))
    ∙ ap (λ (g : CircuitBreakerConfig). take_last g.window_size (calls_of events))
        (config-record_all (new_breaker config start) events)
