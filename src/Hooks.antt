-- ===== src/Hooks.antt =====
-- The `hook_*` functions, which put a connection into a source and a sink of the pipeline (hook_uart is
-- in Uart.Hook). Whether there is memory, and whether the library made a publisher or a subscriber, are
-- arguments.
pub mod Ready
pub mod Connected
pub mod Fits
pub mod Setup
pub mod Main
mod Tests
use secure_mavlink_gateway.Prelude.{
  ℕ, Bool, true, not, Option, some, List, get_elem?, set, if◌then◌else◌,
}
use secure_mavlink_gateway.Outcome.{Outcome, done, or_out_of_bounds, ◌>>=◌}
use secure_mavlink_gateway.Platform.{Platform}
use secure_mavlink_gateway.Message.{Message}
use secure_mavlink_gateway.Ports.{
  source_allocate, sink_allocate, source_type_legacy, sink_type_legacy,
}
use secure_mavlink_gateway.Pipeline.{Pipeline, pipeline_get_sink}
use secure_mavlink_gateway.Results.{Result, succ, io_fault, no_memory}

module _ ⦃platform : Platform⦄ where
  open platform use {World}

  -- The functions of a connection, which lies in the world.
  pub record Connection : Type 0 where
    pub init : World → World
    pub has_more : World → ℕ × World
    pub read_byte : World → ℕ × World
    pub route : Message → World → ℕ × World
    pub cleanup : World → World

  -- The slot of the source, with its functions.
  unfoldable pub attach_source : Connection → Pipeline → ℕ → Outcome Pipeline
  attach_source c p source_id = do
    sources ← source_allocate p.sources source_id
    src ← or_out_of_bounds (get_elem? sources source_id)
    done (record p {
      sources = set sources source_id (record src {
        init = some c.init;
        has_more = some c.has_more;
        read_byte = some c.read_byte;
        cleanup = some c.cleanup;
      });
    })

  unfoldable pub attach_sink : Connection → Pipeline → ℕ → Outcome Pipeline
  attach_sink c p sink_type = do
    sinks ← sink_allocate p.sinks sink_type
    sink ← or_out_of_bounds (get_elem? sinks sink_type)
    done (record p {
      sinks =
          set sinks sink_type
            (record sink { route = some c.route; init = some c.init; cleanup = some c.cleanup });
    })

  -- The slot of the sink, with `route` alone.
  unfoldable pub attach_route : Connection → Pipeline → ℕ → Outcome Pipeline
  attach_route c p sink_type = do
    sinks ← sink_allocate p.sinks sink_type
    sink ← or_out_of_bounds (get_elem? sinks sink_type)
    done (record p { sinks = set sinks sink_type (record sink { route = some c.route }) })

  -- What the hooks end with.
  unfoldable pub attach :
      Connection → Pipeline → (source_id sink_type : ℕ) → Outcome (Result × Pipeline)
  unfolding attach_source attach_sink
  attach c p source_id sink_type = do
    p ← attach_source c p source_id
    p ← attach_sink c p sink_type
    done (succ, p)

  -- The same where the hook writes the source's `init` and `cleanup` twice, and the sink's not at all.
  unfoldable pub attach_twice :
      Connection → Pipeline → (source_id sink_type : ℕ) → Outcome (Result × Pipeline)
  unfolding attach_source attach_route
  attach_twice c p source_id sink_type = do
    p ← attach_source c p source_id
    p ← attach_route c p sink_type
    done (succ, p)

  unfoldable pub hook_tcp :
      Bool → Connection → Pipeline → (source_id sink_type : ℕ) → Outcome (Result × Pipeline)
  unfolding attach
  hook_tcp allocated c p source_id sink_type =
      if not allocated then done (no_memory, p) else attach c p source_id sink_type

  unfoldable pub hook_tcpout :
      Bool → Connection → Pipeline → (source_id sink_type : ℕ) → Outcome (Result × Pipeline)
  unfolding attach
  hook_tcpout allocated c p source_id sink_type =
      if not allocated then done (no_memory, p) else attach c p source_id sink_type

  unfoldable pub hook_udp :
      Bool → Connection → Pipeline → (source_id sink_type : ℕ) → Outcome (Result × Pipeline)
  unfolding attach
  hook_udp allocated c p source_id sink_type =
      if not allocated then done (io_fault, p) else attach c p source_id sink_type

  unfoldable pub hook_certikos_uart :
      Connection → Pipeline → (source_id sink_type : ℕ) → Outcome (Result × Pipeline)
  unfolding attach
  hook_certikos_uart c p source_id sink_type = attach c p source_id sink_type

  unfoldable pub hook_partee :
      (publisher subscriber : Bool) → Connection → Pipeline → Outcome (Result × Pipeline)
  unfolding attach
  hook_partee publisher subscriber c p =
      if not publisher
      then done (io_fault, p)
      else if not subscriber
      then done (io_fault, p)
      else attach c p source_type_legacy sink_type_legacy

  unfoldable pub hook_thinros : Connection → Pipeline → Outcome (Result × Pipeline)
  unfolding attach_twice
  hook_thinros c p = attach_twice c p source_type_legacy sink_type_legacy

  -- Whether there is memory for the connection and for its `ready` bytes.
  unfoldable pub hook_ringleader_tcp :
      (allocated ready : Bool)
      → Connection
      → Pipeline
      → (source_id sink_type : ℕ) → Outcome (Result × Pipeline)
  unfolding attach_twice
  hook_ringleader_tcp allocated ready c p source_id sink_type =
      if not allocated
      then done (no_memory, p)
      else if not ready
      then done (no_memory, p)
      else attach_twice c p source_id sink_type

  -- The functions are `stdio_init`, `stdio_route` and `stdio_cleanup`.
  unfoldable pub hook_stdio_sink : Connection → Pipeline → ℕ → Outcome Pipeline
  unfolding pipeline_get_sink
  hook_stdio_sink c p sink_type = do
    sink ← pipeline_get_sink p sink_type
    done (record p {
      sinks =
          set p.sinks sink_type
            (record sink { init = some c.init; cleanup = some c.cleanup; route = some c.route });
    })
