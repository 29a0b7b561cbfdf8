-- ===== src/Bridge/Relayed.antt =====
-- What the bridge that `main` starts passes on in each direction.
use mathlib.Core.List.Sublist
use secure_mavlink_gateway.Prelude.{ℕ, ◌≤◌, ◌+◌, ◌≡◌, List, length}
use mathlib.Core.List.{Sublist}
use secure_mavlink_gateway.Adapter.{Adapter}
use secure_mavlink_gateway.Tunnel.{Tunnel, tunnel}
use secure_mavlink_gateway.Tunnel.Relay.{IsRelayed}
use secure_mavlink_gateway.Tunnel.Sent.{off}
use secure_mavlink_gateway.Bridge.{Bridge, Runs, here, later}

-- Both directions, with the limits that `main` gives them.
record IsBridged (b : Bridge) : Type 0 where
  pub uplink : IsRelayed b.uplink
  pub downlink : IsRelayed b.downlink
  pub limited : b.uplink.tunnel.max_queue_size ≡ 1000000
  pub unlimited : b.downlink.tunnel.max_queue_size ≡ 0

-- How many steps of a run begin while this adapter has no connection.
abbrev pub steps_without : (Bridge → Adapter) → {b c : Bridge} → Runs b c → ℕ
steps_without adapter here = 0
steps_without adapter (later {c = c} run step) = steps_without adapter run + off (adapter c)

-- The packets handed to the socket, among those given to `send`.
record IsHanded (given sent : List (List ℕ)) (without : ℕ) : Type 0 where
  pub order : Sublist sent given
  pub most : length given ≤ length sent + without
