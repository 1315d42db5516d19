-- ===== src/Ports/Choice.antt =====
-- Which port a plan ends with.
use llamacli.Prelude.{
  ℕ, zero, suc, ◌+◌, ◌≤◌, ◌<◌, ◌≡◌, ◌≢◌, refl, ◌⊎◌, inl, inr, List, [], ◌∷◌, Option, or_else, true,
  false, arith, Bool-cases, subst, sym, dec_lt, ◌==◌, ◌&&◌, not,
}
use llamacli.Ports.{
  llama_port, PortState, free, in_use, unknown, is_free, MoveReason, default_is_free,
  already_in_use, PortPlan, has, first_free_from, first_free, plan_at, plan_ports,
}

-- What the walk guarantees of the port `q`, from port `p` on for `count` rounds.
abbrev Found : (ℕ → PortState) → List ℕ → ℕ → ℕ → ℕ → Type 0
Found probe avoid p count q = (p ≤ q) × (q < p + count) × (has avoid q ≡ false) × (probe q ≡ free)

-- None of the ports that the walk looks at may be used.
abbrev pub AllTaken : (ℕ → PortState) → List ℕ → ℕ → ℕ → Type 0
AllTaken probe avoid p count =
    (q : ℕ) → p ≤ q → q < p + count → has avoid q ≡ false → probe q ≢ free

AllTaken-suc :
    (probe : ℕ → PortState) (avoid : List ℕ) (p count : ℕ)
    → ((has avoid p ≡ true) ⊎ (is_free (probe p) ≡ false))
    → AllTaken probe avoid (p + 1) count
    → AllTaken probe avoid p (suc count)
AllTaken-suc probe avoid p count first later q a b out e = elim (dec_lt p q) [
  | yes h ↦ later q (omega arith) (omega arith) out e
  | no h ↦ at_first q (omega arith) first out e
]
  where
    at_first :
        (q : ℕ)
        → p ≡ q
        → (has avoid p ≡ true) ⊎ (is_free (probe p) ≡ false)
        → has avoid q ≡ false
        → probe q ≡ free
        → ⊥
    at_first q same first out e =
        closes first (subst (λ n. has avoid n ≡ false) (sym same) out)
          (subst (λ n. probe n ≡ free) (sym same) e)
      where
        closes :
            (has avoid p ≡ true) ⊎ (is_free (probe p) ≡ false)
            → has avoid p ≡ false
            → probe p ≡ free
            → ⊥
        closes first out e = ground arith

first_free_from-Found :
    (probe : ℕ → PortState) (avoid : List ℕ) (to count p : ℕ)
    → Found probe avoid p count (first_free_from probe avoid to count p)
      ⊎ ((first_free_from probe avoid to count p ≡ to) × AllTaken probe avoid p count)
unfolding first_free_from
first_free_from-Found probe avoid to zero p = inr (refl, λ q a b. absurd (omega arith))
first_free_from-Found probe avoid to (suc count) p =
    let ih = first_free_from-Found probe avoid to count (p + 1) in
    elim (Bool-cases (has avoid p)) [
      | inl out ↦ rw out (later ih (inl out))
      | inr inside ↦ elim (Bool-cases (is_free (probe p))) [
        | inl open_port ↦
            rw (inside, open_port) (inl (omega arith, omega arith, inside, ground arith))
        | inr taken ↦ rw (inside, taken) (later ih (inr taken))
      ]
    ]
  where
    later :
        Found probe avoid (p + 1) count (first_free_from probe avoid to count (p + 1))
          ⊎ ((first_free_from probe avoid to count (p + 1) ≡ to)
              × AllTaken probe avoid (p + 1) count)
        → (has avoid p ≡ true) ⊎ (is_free (probe p) ≡ false)
        → Found probe avoid p (suc count) (first_free_from probe avoid to count (p + 1))
          ⊎ ((first_free_from probe avoid to count (p + 1) ≡ to)
              × AllTaken probe avoid p (suc count))
    later (inl (a, b, c, d)) first = inl (omega arith, omega arith, c, d)
    later (inr (e, all)) first = inr (e, AllTaken-suc probe avoid p count first all)

abbrev pub requested : Option ℕ → ℕ
requested recorded = or_else recorded llama_port

-- The planned port is not in use, or every port of the twenty after the requested one is in use,
-- silent or avoided, and the plan names the last of them all the same.
pub plan_ports-usable :
    (probe : ℕ → PortState) (recorded : Option ℕ) (avoid : List ℕ)
    → (probe (plan_ports probe recorded avoid).port ≢ in_use)
      ⊎ (((plan_ports probe recorded avoid).port ≡ requested recorded + 20)
          × AllTaken probe avoid (requested recorded + 1) 20)
unfolding plan_ports first_free
plan_ports-usable probe recorded avoid = ground (
  arith,
  first_free_from-Found probe avoid (requested recorded + 1 + 19) 20 (requested recorded + 1),
)

-- What a plan reports for a port, given the state of that port.
abbrev pub Reports : (ℕ → PortState) → ℕ → PortState → PortPlan → Type 0
Reports probe port state plan =
    ((state ≢ in_use) × (plan.port ≡ port) × (plan.moved ≡ []))
    ⊎ ((state ≡ in_use)
        × ((why : MoveReason) × (plan.moved
              ≡ record { from = port; to = plan.port; because = why } ∷ [])))

plan_at-Reports :
    (probe : ℕ → PortState) (avoid : List ℕ) (port : ℕ) (state : PortState)
    → Reports probe port state (plan_at probe avoid port state)
unfolding plan_at
plan_at-Reports probe avoid port free = inl (λ e. cc e, refl, refl)
plan_at-Reports probe avoid port unknown = inl (λ e. cc e, refl, refl)
plan_at-Reports probe avoid port in_use =
    elim (Bool-cases (not (port == llama_port) && is_free (probe llama_port))) [
      | inl back ↦ rw back (inr (refl, (default_is_free, refl)))
      | inr walk ↦ rw walk (inr (refl, (already_in_use, refl)))
    ]

-- A plan keeps the requested port and reports no move where that port is not in use; where it is, the
-- plan reports one move, from the requested port to the planned one.
pub plan_ports-moved :
    (probe : ℕ → PortState) (recorded : Option ℕ) (avoid : List ℕ)
    → Reports probe
        (requested recorded)
        (probe (requested recorded))
        (plan_ports probe recorded avoid)
unfolding plan_ports
plan_ports-moved probe recorded avoid =
    plan_at-Reports probe avoid (requested recorded) (probe (requested recorded))
