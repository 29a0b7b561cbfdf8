-- ===== src/Hooks/Setup/Total.antt =====
-- What all that `main` of main.c sets up leaves.
use secure_mavlink_gateway.Prelude.{◌≡◌, refl, ◌∙◌, length}
use secure_mavlink_gateway.Outcome.{Ensures}
use secure_mavlink_gateway.Platform.{Platform}
use secure_mavlink_gateway.Ports.{Source, Sink}
use secure_mavlink_gateway.Policy.{max_policies}
use secure_mavlink_gateway.Perf.Report.{AreQueriedAt}
use secure_mavlink_gateway.Pipeline.{Pipeline}
use secure_mavlink_gateway.Spin.Ready.{IsReady}
use secure_mavlink_gateway.Spin.Start.{pipeline_init-zero}
use secure_mavlink_gateway.Hooks.Fits.{Fits, zeros-Fits}
use secure_mavlink_gateway.Hooks.Setup.{Machine, Devices, Suits, main_setup}
use secure_mavlink_gateway.Hooks.Setup.Steps.{
  hook_devices-Stays, hook_stdio_sink-Stays, add_transformers-Stays,
}

module _ ⦃platform : Platform⦄ where
  -- What `main` sets up, with properties of the ports.
  pub main_setup-Fits :
      {S : Source → Type 0} {K : Sink → Type 0} (m : Machine) (d : Devices) (p : Pipeline)
      → Suits d S K
      → length p.policies.policies ≡ max_policies
      → Ensures (main_setup m d p) (λ (p', perf).
        IsReady p'
        × AreQueriedAt perf 0
        × (p'.transform_enabled ≡ p.transform_enabled)
        × Fits S K p')
  unfolding main_setup
  main_setup-Fits m d p suits slots =
      let ((p₀, perf), begun, (ready₀, queried, same₀, sources, sinks)) =
        pipeline_init-zero p slots in
      let (p₁, first, (ready₁, same₁, fits₁)) = hook_devices-Stays m d p₀ suits ready₀ in
      let (p₂, second, (ready₂, same₂, fits₂)) = hook_stdio_sink-Stays d p₁ suits ready₁ in
      let (p₃, third, (ready₃, same₃, fits₃)) = add_transformers-Stays m d p₂ suits ready₂ in
      (
        (p₃, perf),
        rw (begun, first, second, third) refl,
        (
          ready₃,
          queried,
          same₃ ∙ same₂ ∙ same₁ ∙ same₀,
          fits₃ (fits₂ (fits₁ (zeros-Fits p₀ suits.no_source suits.no_sink sources sinks))),
        ),
      )

  -- On a pipeline with a table of 16 policies, what `main` sets up succeeds for every build,
  -- whatever memory the hooks get: it leaves a ready pipeline and counters queried at 0, and whether the
  -- transformers are on as it was.
  pub main_setup-IsReady :
      (m : Machine) (d : Devices) (p : Pipeline)
      → length p.policies.policies ≡ max_policies
      → Ensures (main_setup m d p) (λ (p', perf).
        IsReady p' × AreQueriedAt perf 0 × (p'.transform_enabled ≡ p.transform_enabled))
  main_setup-IsReady m d p slots =
      let (result, ends, (ready, queried, same, fits)) =
        main_setup-Fits {S = λ _. Unit} {K = λ _. Unit} m d p
          (record {
            no_source = tt;
            no_sink = tt;
            tcp_source = λ id src. tt;
            uart_source = λ id src. tt;
            tcp_sink = λ sink. tt;
            uart_sink = λ sink. tt;
            stdio_sink = λ sink. tt;
            decoded = λ src here. tt;
            encoded = λ sink here. tt;
          })
          slots in
      (result, ends, (ready, queried, same))
