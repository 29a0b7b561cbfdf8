-- ===== src/Hooks/Connected.antt =====
-- What each hook does to a ready pipeline.
use secure_mavlink_gateway.Prelude.{ℕ, ◌<◌, ◌≡◌, refl, true, false, arith}
use secure_mavlink_gateway.Outcome.{done}
use secure_mavlink_gateway.Platform.{Platform}
use secure_mavlink_gateway.Ports.{source_type_legacy, sink_type_legacy, max_sources, max_sinks}
use secure_mavlink_gateway.Pipeline.{Pipeline}
use secure_mavlink_gateway.Spin.Ready.{IsReady}
use secure_mavlink_gateway.Results.{io_fault, no_memory}
use secure_mavlink_gateway.Hooks.{
  Connection, hook_tcp, hook_tcpout, hook_udp, hook_certikos_uart, hook_partee, hook_thinros,
  hook_ringleader_tcp,
}
use secure_mavlink_gateway.Hooks.Ready.{IsHooked, IsRouted, attach-IsHooked}
use secure_mavlink_gateway.Uart.Hook.{hook_uart, hook_uart_lem}

module _ ⦃platform : Platform⦄ where
  -- On a ready pipeline, with a known source and sink: the hooks of the UART, the two TCP sockets, the
  -- UDP socket, the CertiKOS UART and partee succeed, connect the two ports to the connection,
  -- change no other, and leave the pipeline ready. Without memory, or without a publisher or a subscriber,
  -- they return an error and change nothing.
  pub hooks-IsHooked :
      (c : Connection) (p : Pipeline) (source_id sink_type : ℕ)
      → IsReady p
      → source_id < max_sources
      → sink_type < max_sinks
      → IsHooked (hook_uart true c p source_id sink_type) c p source_id sink_type
        × (hook_uart false c p source_id sink_type ≡ done (io_fault, p))
        × IsHooked (hook_tcp true c p source_id sink_type) c p source_id sink_type
        × IsHooked (hook_tcpout true c p source_id sink_type) c p source_id sink_type
        × IsHooked (hook_udp true c p source_id sink_type) c p source_id sink_type
        × IsHooked (hook_certikos_uart c p source_id sink_type) c p source_id sink_type
        × IsHooked (hook_partee true true c p) c p source_type_legacy sink_type_legacy
        × (hook_tcp false c p source_id sink_type ≡ done (no_memory, p))
        × (hook_tcpout false c p source_id sink_type ≡ done (no_memory, p))
        × (hook_udp false c p source_id sink_type ≡ done (io_fault, p))
        × (hook_partee false true c p ≡ done (io_fault, p))
        × (hook_partee true false c p ≡ done (io_fault, p))
  unfolding hook_tcp hook_tcpout hook_udp hook_certikos_uart hook_partee
  hooks-IsHooked c p source_id sink_type ready known known' =
      let (up, twice) = attach-IsHooked c p source_id sink_type ready known known' in
      let (up', twice') =
        attach-IsHooked c p source_type_legacy sink_type_legacy ready (omega arith) (omega arith) in
      let (uart, failed) = hook_uart_lem c p source_id sink_type ready known known' in
      (uart, failed, up, up, up, up, up', refl, refl, refl, refl, refl)

  -- On a ready pipeline, with a known source and sink: the hooks of the ring leader and of thinros
  -- succeed, connect the source, give the sink its `route`, but leave the sink the `init` and `cleanup`
  -- that it had, change no other port, and leave the pipeline ready. Without memory the former
  -- returns an error and changes nothing.
  pub hooks-IsRouted :
      (c : Connection) (p : Pipeline) (source_id sink_type : ℕ)
      → IsReady p
      → source_id < max_sources
      → sink_type < max_sinks
      → IsRouted (hook_ringleader_tcp true true c p source_id sink_type) c p source_id sink_type
        × IsRouted (hook_thinros c p) c p source_type_legacy sink_type_legacy
        × (hook_ringleader_tcp false true c p source_id sink_type ≡ done (no_memory, p))
        × (hook_ringleader_tcp true false c p source_id sink_type ≡ done (no_memory, p))
  unfolding hook_thinros hook_ringleader_tcp
  hooks-IsRouted c p source_id sink_type ready known known' =
      let (up, twice) = attach-IsHooked c p source_id sink_type ready known known' in
      let (up', twice') =
        attach-IsHooked c p source_type_legacy sink_type_legacy ready (omega arith) (omega arith) in
      (twice, twice', refl, refl)
