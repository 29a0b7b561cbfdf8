-- ===== src/Hooks/Tests.antt =====
-- The hooks on the small platform.
use secure_mavlink_gateway.Prelude.{
  ℕ, ◌≤◌, ◌<◌, ap, length, truthy, List, [], ◌∷◌, false, Bool-cases, inl, inr, ◌==◌, ◌≡◌, refl,
  true, false, arith,
}
use secure_mavlink_gateway.Outcome.{Ensures, done}
use secure_mavlink_gateway.Ports.{source_type_legacy, sink_type_legacy}
use secure_mavlink_gateway.Pipeline.{Pipeline}
use secure_mavlink_gateway.Perf.Report.{AreQueriedAt}
use secure_mavlink_gateway.Example.{toy, pipeline, slots, has_input, next_input, write}
use secure_mavlink_gateway.Spin.Ready.{IsReady}
use secure_mavlink_gateway.Spin.Tests.{pipeline-IsReady}
use secure_mavlink_gateway.Results.{io_fault, no_memory}
use secure_mavlink_gateway.Hooks.{
  Connection, hook_tcp, hook_tcpout, hook_udp, hook_certikos_uart, hook_partee, hook_thinros,
  hook_ringleader_tcp,
}
use secure_mavlink_gateway.Hooks.Ready.{IsHooked, IsRouted}
use secure_mavlink_gateway.Hooks.Connected.{hooks-IsHooked, hooks-IsRouted}
use secure_mavlink_gateway.Example
use secure_mavlink_gateway.Spin.{Build}
use secure_mavlink_gateway.Uart.Hook.{hook_uart}
use secure_mavlink_gateway.Hooks.Main.{KeepsConnection, AreTame, main, main_lem}
use secure_mavlink_gateway.Hooks.Setup.Total.{main_setup-IsReady}
use secure_mavlink_gateway.Hooks.Setup.{Machine, Devices, main_setup}

abbrev connection : Connection
connection = record {
  init = λ w. w;
  has_more = has_input;
  read_byte = next_input;
  route = write 1;
  cleanup = λ w. w;
}

hooks-IsHooked_example :
    IsHooked (hook_uart true connection pipeline 1 1) connection pipeline 1 1
    × (hook_uart false connection pipeline 1 1 ≡ done (io_fault, pipeline))
    × IsHooked (hook_tcp true connection pipeline 1 1) connection pipeline 1 1
    × IsHooked (hook_tcpout true connection pipeline 1 1) connection pipeline 1 1
    × IsHooked (hook_udp true connection pipeline 1 1) connection pipeline 1 1
    × IsHooked (hook_certikos_uart connection pipeline 1 1) connection pipeline 1 1
    × IsHooked
        (hook_partee true true connection pipeline)
        connection
        pipeline
        source_type_legacy
        sink_type_legacy
    × (hook_tcp false connection pipeline 1 1 ≡ done (no_memory, pipeline))
    × (hook_tcpout false connection pipeline 1 1 ≡ done (no_memory, pipeline))
    × (hook_udp false connection pipeline 1 1 ≡ done (io_fault, pipeline))
    × (hook_partee false true connection pipeline ≡ done (io_fault, pipeline))
    × (hook_partee true false connection pipeline ≡ done (io_fault, pipeline))
hooks-IsHooked_example =
    hooks-IsHooked connection pipeline 1 1 pipeline-IsReady (omega arith) (omega arith)

hooks-IsRouted_example :
    IsRouted (hook_ringleader_tcp true true connection pipeline 1 1) connection pipeline 1 1
    × IsRouted
        (hook_thinros connection pipeline)
        connection
        pipeline
        source_type_legacy
        sink_type_legacy
    × (hook_ringleader_tcp false true connection pipeline 1 1 ≡ done (no_memory, pipeline))
    × (hook_ringleader_tcp true false connection pipeline 1 1 ≡ done (no_memory, pipeline))
hooks-IsRouted_example =
    hooks-IsRouted connection pipeline 1 1 pipeline-IsReady (omega arith) (omega arith)

abbrev machine : Machine
machine = record { std_libc = true; use_xor = true; tcp_memory = true; uart_memory = true }

abbrev devices : Devices
devices = record { tcp = connection; uart = connection; stdio = connection }

-- Before the start.
abbrev cleared : Pipeline
cleared = record pipeline { policies = record { policies = slots; count = 9 } }

main_setup-IsReady_example :
    Ensures
      (main_setup machine devices cleared)
      (λ (p', perf). IsReady p' × AreQueriedAt perf 0 × (p'.transform_enabled ≡ false))
main_setup-IsReady_example = main_setup-IsReady machine devices cleared refl

-- Every message went to the sink of the connection.
abbrev AllToOne : List (ℕ × ℕ) → Type 0
AllToOne [] = Unit
AllToOne ((sink, id) ∷ sent) = (sink ≡ 1) × AllToOne sent

abbrev IsToOne : Example.Devices → Type 0
IsToOne w = AllToOne w.sent

abbrev input_left : Example.Devices → ℕ
input_left w = length w.input

has_input-keeps :
    (w : Example.Devices)
    → IsToOne w
    → IsToOne (has_input w).1 × (input_left (has_input w).1 ≤ input_left w)
has_input-keeps w inv = go w.input refl
  where
    go :
        (input : List ℕ)
        → w.input ≡ input
        → IsToOne (has_input w).1 × (input_left (has_input w).1 ≤ input_left w)
    go [] h = rw h (inv, omega (arith, ap (λ (xs : List ℕ). length xs) h))
    go (x ∷ xs) h = rw h (inv, omega (arith, ap (λ (xs : List ℕ). length xs) h))

next_input-keeps :
    (w : Example.Devices) (input : List ℕ)
    → w.input ≡ input
    → truthy (has_input w).0 ≡ true
    → IsToOne w
    → IsToOne (next_input (has_input w).1).1
      × (input_left (next_input (has_input w).1).1 < input_left w)
next_input-keeps w [] h more inv = let no : false ≡ true = rw h at more in cc
next_input-keeps w (x ∷ xs) h more inv = rw h (inv, omega arith)

connection-KeepsConnection : KeepsConnection IsToOne input_left connection
connection-KeepsConnection = record {
  init = λ w inv. (inv, omega arith);
  more = has_input-keeps;
  byte = λ w. next_input-keeps w w.input refl;
  route = λ m w inv. ((refl, inv), omega arith);
}

devices-AreTame : AreTame IsToOne input_left devices
devices-AreTame = record {
  parse = λ i byte m s w inv. elim (Bool-cases (byte == 0)) [
    | inl first ↦ rw first (inv, omega arith)
    | inr whole ↦ rw whole (inv, omega arith)
  ];
  time = λ w inv. (inv, omega arith);
  key = λ w inv. (inv, omega arith);
  ascii = λ w. omega arith;
  tcp = connection-KeepsConnection;
  uart = connection-KeepsConnection;
  stdio = connection-KeepsConnection;
}

abbrev interactive : Build
interactive = record { debug = true; use_console = true }

abbrev before : Example.Devices
before = record { input = 0 ∷ 152 ∷ 5 ∷ []; sent = []; clock = 7 }

main_example : Ensures (main 3 9 machine devices interactive cleared before) (λ g.
    IsReady g.pipeline
    × AreQueriedAt g.shows.perf g.shows.last
    × IsToOne g.world
    × (input_left g.world ≤ input_left before))
main_example =
    main_lem IsToOne input_left 3 9 machine devices interactive cleared before devices-AreTame refl
      tt (omega arith)
