-- ===== src/Ports.antt =====
-- The choice of the server's port: src/setup/ports.ts. The TCP probe is an argument; each probe of a
-- plan sees the same state of the machine.
pub mod Choice
use llamacli.Prelude.{
  ℕ, zero, suc, ◌+◌, List, [], ◌∷◌, Option, none, some, or_else, Bool, true, false, ◌&&◌, not, any,
  ◌==◌, if◌then◌else◌,
}

abbrev pub llama_port : ℕ
llama_port = 8080

abbrev pub common_ports : List ℕ
common_ports = llama_port ∷ 8081 ∷ 11434 ∷ []

pub data PortState : Type 0 where
  free in_use unknown : PortState

abbrev pub is_free : PortState → Bool
is_free free = true
is_free in_use = false
is_free unknown = false

pub data MoveReason : Type 0 where
  default_is_free already_in_use : MoveReason

pub record Move : Type 0 where
  pub from : ℕ
  pub to : ℕ
  pub because : MoveReason

pub data Note : Type 0 where
  no_answer : ℕ → Note
  was_explored : ℕ → Note

pub record PortPlan : Type 0 where
  pub port : ℕ
  pub moved : List Move
  pub notes : List Note

abbrev pub has : List ℕ → ℕ → Bool
has avoid p = any (λ q. q == p) avoid

-- The loop `for (p = from; p <= to; p++)` of `firstFree`; `count` is the number of rounds left.
unfoldable pub first_free_from : (ℕ → PortState) → List ℕ → ℕ → ℕ → ℕ → ℕ
first_free_from probe avoid to zero p = to
first_free_from probe avoid to (suc count) p =
    let rest = first_free_from probe avoid to count (p + 1) in
    if has avoid p then rest else if is_free (probe p) then p else rest

-- Ports `from` to `from + 19`, as `planPorts` calls it.
unfoldable pub first_free : (ℕ → PortState) → ℕ → List ℕ → ℕ
first_free probe from avoid = first_free_from probe avoid (from + 19) 20 from

unfoldable pub notes_of : PortState → List ℕ → ℕ → List Note
notes_of unknown avoid p = no_answer p ∷ (if has avoid p then was_explored p ∷ [] else [])
notes_of _ avoid p = if has avoid p then was_explored p ∷ [] else []

-- The plan for a port in the state that the first probe found.
unfoldable pub plan_at : (ℕ → PortState) → List ℕ → ℕ → PortState → PortPlan
plan_at probe avoid port in_use =
    if not (port == llama_port) && is_free (probe llama_port)
    then record {
      port = llama_port;
      moved = record { from = port; to = llama_port; because = default_is_free } ∷ [];
      notes = [];
    }
    else (let next = first_free probe (port + 1) avoid in
        record {
          port = next;
          moved = record { from = port; to = next; because = already_in_use } ∷ [];
          notes = [];
        })
plan_at probe avoid port free = record { port = port; moved = []; notes = notes_of free avoid port }
plan_at probe avoid port unknown = record {
  port = port;
  moved = [];
  notes = notes_of unknown avoid port;
}

unfoldable pub plan_ports : (ℕ → PortState) → Option ℕ → List ℕ → PortPlan
unfolding plan_at
plan_ports probe recorded avoid =
    let port = or_else recorded llama_port in plan_at probe avoid port (probe port)
