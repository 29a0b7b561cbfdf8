-- ===== src/Uart/Hook.antt =====
-- `hook_uart` of lib/source_uart.c, which puts a connection into a source and a sink.
use secure_mavlink_gateway.Prelude.{
  ℕ, ◌<◌, ◌≡◌, refl, Bool, true, false, not, some, get_elem?, if◌then◌else◌,
}
use secure_mavlink_gateway.Outcome.{Outcome, done, Ensures}
use secure_mavlink_gateway.Platform.{Platform}
use secure_mavlink_gateway.Ports.{Source, Sink, max_sources, max_sinks}
use secure_mavlink_gateway.Pipeline.{Pipeline}
use secure_mavlink_gateway.Spin.Ready.{IsReady}
use secure_mavlink_gateway.Results.{Result, succ, io_fault}
use secure_mavlink_gateway.Hooks.{Connection, attach}
use secure_mavlink_gateway.Hooks.Ready.{hooked, attach-IsHooked}

module _ ⦃platform : Platform⦄ where
  -- `allocated` is whether `malloc` gave memory.
  unfoldable pub hook_uart :
      Bool → Connection → Pipeline → (source_id sink_type : ℕ) → Outcome (Result × Pipeline)
  unfolding attach
  hook_uart allocated c p source_id sink_type =
      if not allocated then done (io_fault, p) else attach c p source_id sink_type

  -- On a ready pipeline, with a known source and sink, `hook_uart` succeeds, connects the two ports to
  -- the connection, changes no other, and leaves the pipeline ready. Without memory it returns
  -- an error and changes nothing.
  pub hook_uart_lem :
      (c : Connection) (p : Pipeline) (source_id sink_type : ℕ)
      → IsReady p
      → source_id < max_sources
      → sink_type < max_sinks
      → Ensures (hook_uart true c p source_id sink_type) (λ (rv, p').
        (rv ≡ succ)
        × IsReady p'
        × ((src : Source) × (sink : Sink) × (get_elem? p.sources source_id ≡ some src)
            × (get_elem? p.sinks sink_type ≡ some sink)
            × (p' ≡ hooked c p source_id src sink_type sink)))
        × (hook_uart false c p source_id sink_type ≡ done (io_fault, p))
  unfolding hook_uart
  hook_uart_lem c p source_id sink_type ready known known' =
      ((attach-IsHooked c p source_id sink_type ready known known').0, refl)
