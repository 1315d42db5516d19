-- ===== src/ServerPolicy.antt =====
-- Who may replace a running server (src/setup/serverPolicy.ts): `gateServerReplacement`. Of the lines
-- shown to the user, the values that they name are kept.
use llamacli.Prelude.{
  ℕ, ◌≤◌, ◌≡◌, ◌↔◌, List, Option, Bool, true, false, length, ltb, if◌then◌else◌, Text, arith,
}

-- `PortOwner` of src/setup/modelSwitch.ts.
pub data PortOwner : Type 0 where
  nobody : PortOwner
  ours : ℕ → PortOwner
  foreign : Option ℕ → PortOwner
  systemd : Text → PortOwner
  unknown : Text → PortOwner

-- A live server: its process and port.
pub record LiveServer : Type 0 where
  pub pid : ℕ
  pub port : ℕ

pub data Refusal : Type 0 where
  multiple : List LiveServer → Refusal
  held_by_foreign : ℕ → Option ℕ → Refusal
  held_by_systemd : ℕ → Text → Refusal
  not_known : ℕ → Text → Refusal
  needs_confirm : ℕ → ℕ → List Text → Text → Refusal

pub data ServerGate : Type 0 where
  -- whether the running server is stopped first
  proceed : Bool → ServerGate
  refuse : Refusal → ServerGate

pub record Replacement : Type 0 where
  pub owner : PortOwner
  pub port : ℕ
  pub servers : List LiveServer
  pub changes : List Text
  pub confirmed : Bool
  pub confirm_command : Text

unfoldable pub gate_owner : Replacement → PortOwner → ServerGate
gate_owner o (foreign pid) = refuse (held_by_foreign o.port pid)
gate_owner o (systemd unit) = refuse (held_by_systemd o.port unit)
gate_owner o (unknown reason) = refuse (not_known o.port reason)
gate_owner o nobody = proceed false
gate_owner o (ours pid) =
    if o.confirmed
    then proceed true
    else refuse (needs_confirm o.port pid o.changes o.confirm_command)

unfoldable pub gate_server_replacement : Replacement → ServerGate
gate_server_replacement o =
    if ltb 1 (length o.servers) then refuse (multiple o.servers) else gate_owner o o.owner

abbrev pub is_ours : PortOwner → Bool
is_ours (ours pid) = true
is_ours _ = false

abbrev pub is_nobody : PortOwner → Bool
is_nobody nobody = true
is_nobody _ = false

gate_owner_iff :
    (o : Replacement) (w : PortOwner)
    → ((gate_owner o w ≡ proceed true) ↔ ((o.confirmed ≡ true) × (is_ours w ≡ true)))
      × ((gate_owner o w ≡ proceed false) ↔ (is_nobody w ≡ true))
unfolding gate_owner
gate_owner_iff o nobody = ground arith
gate_owner_iff o (ours pid) = ground arith
gate_owner_iff o (foreign pid) = ground arith
gate_owner_iff o (systemd unit) = ground arith
gate_owner_iff o (unknown reason) = ground arith

-- A running server is stopped exactly when the user confirmed it, llamacli owns it, and no second
-- server is live; and the command goes on without stopping one exactly when nobody holds the port and
-- no second server is live.
pub gate_server_replacement_iff :
    (o : Replacement)
    → ((gate_server_replacement o ≡ proceed true)
        ↔ ((length o.servers ≤ 1) × (o.confirmed ≡ true) × (is_ours o.owner ≡ true)))
      × ((gate_server_replacement o ≡ proceed false)
          ↔ ((length o.servers ≤ 1) × (is_nobody o.owner ≡ true)))
unfolding gate_server_replacement
gate_server_replacement_iff o = ground (arith, gate_owner_iff o o.owner)
