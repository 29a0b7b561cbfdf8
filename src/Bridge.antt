-- ===== src/Bridge.antt =====
-- `class Bridge`, `class TCPBridge` and `main` of tools/tcp_bridge.cc: two adapters and two tunnels, one
-- for each direction.
pub mod Relayed
pub mod Stuck
pub mod Monitor
pub mod Tests
use secure_mavlink_gateway.Prelude.{ℕ, Bool, Option, none, some, List, [], ◌∷◌}
use secure_mavlink_gateway.Adapter.{Adapter, tcp_adapter}
use secure_mavlink_gateway.Tunnel.{Tunnel, tunnel, set_max_queue_size, start, Flow, Step}

pub record Bridge : Type 0 where
  pub up : Adapter
  pub down : Adapter
  pub uplink : Flow
  pub downlink : Flow

-- The command line, its numbers read by `atoi`.
pub record Args : Type 0 where
  pub uplink_ip : List ℕ
  pub uplink_port : ℕ
  pub downlink_ip : List ℕ
  pub downlink_port : ℕ
  pub bandwidth : ℕ

-- "127.0.0.1"
abbrev pub local_host : List ℕ
local_host = b'1' ∷ b'2' ∷ b'7' ∷ b'.' ∷ b'0' ∷ b'.' ∷ b'0' ∷ b'.' ∷ b'1' ∷ []

abbrev pub default_args : Args
default_args = record {
  uplink_ip = local_host;
  uplink_port = 5762;
  downlink_ip = local_host;
  downlink_port = 20501;
  bandwidth = 4000;
}

-- Nothing has gone through the tunnel yet.
abbrev fresh : Tunnel → Flow
fresh t = record { tunnel = t; stored = []; given = []; sent = []; dropped = 0 }

-- The constructors: only the uplink has a bandwidth.
unfoldable pub tcp_bridge : Args → Bridge
unfolding tcp_adapter tunnel
tcp_bridge args = record {
  up = tcp_adapter args.uplink_ip args.uplink_port;
  down = tcp_adapter args.downlink_ip args.downlink_port;
  uplink = fresh (tunnel args.bandwidth);
  downlink = fresh (tunnel 0);
}

-- Whether `thrd_create` succeeds for each thread.
pub record Threads : Type 0 where
  pub uplink_receiver : Bool
  pub uplink_sender : Bool
  pub downlink_receiver : Bool
  pub downlink_sender : Bool

-- `Bridge::start`, which does not look at the results.
unfoldable pub start_bridge : Threads → Bridge → Bridge
unfolding start
start_bridge c b = record b {
  uplink = record (b.uplink) {
    tunnel = (start c.uplink_receiver c.uplink_sender b.uplink.tunnel).1;
  };
  downlink = record (b.downlink) {
    tunnel = (start c.downlink_receiver c.downlink_sender b.downlink.tunnel).1;
  };
}

-- `main` up to `monitor`; `none` is a command line of another length.
unfoldable pub bridge_main : Option Args → Threads → Bridge
unfolding tcp_bridge set_max_queue_size start_bridge
bridge_main args c =
    let b = tcp_bridge (elim args [ none ↦ default_args | some given ↦ given ]) in
    start_bridge c (record b {
      uplink = record (b.uplink) { tunnel = set_max_queue_size 1000000 b.uplink.tunnel };
    })

-- The steps of the four threads.
pub data BridgeStep (b : Bridge) : Bridge → Type 0 where
  on_uplink :
      {f : Flow} {source sink : Adapter}
      → Step b.uplink b.up b.down f source sink
      → BridgeStep b (record b { uplink = f; up = source; down = sink })
  on_downlink :
      {f : Flow} {source sink : Adapter}
      → Step b.downlink b.down b.up f source sink
      → BridgeStep b (record b { downlink = f; down = source; up = sink })

pub data Runs (b : Bridge) : Bridge → Type 0 where
  here : Runs b b
  later : {c d : Bridge} → Runs b c → BridgeStep c d → Runs b d
