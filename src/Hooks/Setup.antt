-- ===== src/Hooks/Setup.antt =====
-- What `main` of main.c sets up before it calls `pipeline_connect` and `pipeline_spin`, and what the
-- set-up is told of the ports.
pub mod Steps
pub mod Total
use secure_mavlink_gateway.Prelude.{
  ℕ, sym, ◌≡◌, refl, ap, subst, ◌∙◌, Bool, true, false, Option, some, set, length, get_elem?-inside,
  if◌then◌else◌, Bool-cases, inl, inr, arith,
}
use secure_mavlink_gateway.Outcome.{Outcome, done, Ensures, ◌>>=◌}
use secure_mavlink_gateway.Platform.{Platform}
use secure_mavlink_gateway.Message.{Message}
use secure_mavlink_gateway.Ports.{
  Source, Sink, port_type_source, port_type_sink, sink_get, source_type_vmc, source_type_legacy,
  sink_type_discard, sink_type_vmc, sink_type_legacy,
}
use secure_mavlink_gateway.Policy.{max_policies}
use secure_mavlink_gateway.Perf.{Perf}
use secure_mavlink_gateway.Perf.Report.{AreQueriedAt}
use secure_mavlink_gateway.Pipeline.{
  Pipeline, zero_source, zero_sink, pipeline_init, pipeline_get_sink, add_transformer,
}
use secure_mavlink_gateway.Transformer.{xor_encode, xor_decode}
use secure_mavlink_gateway.Spin.Ready.{IsReady}
use secure_mavlink_gateway.Spin.Start.{pipeline_init-zero}
use secure_mavlink_gateway.Results.{io_fault, no_memory}
use secure_mavlink_gateway.Hooks.{Connection, hook_tcp, hook_stdio_sink}
use secure_mavlink_gateway.Hooks.Ready.{
  hooked_source, hooked_sink, attach-IsHooked, set_source-IsReady, set_sink-IsReady,
}
use secure_mavlink_gateway.Hooks.Fits.{
  Fits, set_source-Fits, set_sink-Fits, hooked-Fits, zeros-Fits,
}
use secure_mavlink_gateway.Uart.Hook.{hook_uart}

-- Which of _STD_LIBC_ and USE_XOR the build defines, and whether `malloc` gives memory to each hook.
pub record Machine : Type 0 where
  pub std_libc : Bool
  pub use_xor : Bool
  pub tcp_memory : Bool
  pub uart_memory : Bool

module _ ⦃platform : Platform⦄ where
  pub record Devices : Type 0 where
    pub tcp : Connection
    pub uart : Connection
    pub stdio : Connection

  -- A sink with a connection that was not allocated.
  abbrev pub printing_sink : Connection → Sink → Sink
  printing_sink c sink = record sink {
    init = some c.init;
    cleanup = some c.cleanup;
    route = some c.route;
  }

  unfoldable pub hook_devices : Machine → Devices → Pipeline → Outcome Pipeline
  unfolding hook_tcp hook_uart
  hook_devices m d p =
      if m.std_libc
      then (hook_tcp m.tcp_memory d.tcp p source_type_legacy sink_type_legacy >>= λ (rv, p₁).
          hook_uart m.uart_memory d.uart p₁ source_type_vmc sink_type_vmc >>= λ (rv', p₂). done p₂)
      else done p

  unfoldable pub add_transformers : Machine → Pipeline → Outcome Pipeline
  unfolding add_transformer
  add_transformers m p =
      if m.use_xor
      then (add_transformer p port_type_source source_type_vmc (some xor_decode) >>= λ p₁.
          add_transformer p₁ port_type_sink sink_type_vmc (some xor_encode))
      else done p

  -- Up to the call of `pipeline_connect`.
  unfoldable pub main_setup : Machine → Devices → Pipeline → Outcome (Pipeline × Perf)
  unfolding pipeline_init hook_devices hook_stdio_sink add_transformers
  main_setup m d p = do
    (p₀, perf) ← pipeline_init p
    p₁ ← hook_devices m d p₀
    p₂ ← hook_stdio_sink d.stdio p₁ sink_type_discard
    p₃ ← add_transformers m p₂
    done (p₃, perf)

  -- `S` and `K` hold of unused ports and of those that the set-up writes.
  pub record Suits (d : Devices) (S : Source → Type 0) (K : Sink → Type 0) : Type 0 where
    pub no_source : S zero_source
    pub no_sink : K zero_sink
    pub tcp_source : (id : ℕ) (src : Source) → S (hooked_source d.tcp id src)
    pub uart_source : (id : ℕ) (src : Source) → S (hooked_source d.uart id src)
    pub tcp_sink : (sink : Sink) → K (hooked_sink d.tcp sink)
    pub uart_sink : (sink : Sink) → K (hooked_sink d.uart sink)
    pub stdio_sink : (sink : Sink) → K (printing_sink d.stdio sink)
    pub decoded : (src : Source) → S src → S (record src { transform = some xor_decode })
    pub encoded : (sink : Sink) → K sink → K (record sink { transform = some xor_encode })
