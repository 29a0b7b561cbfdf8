-- ===== src/Hooks/Fits.antt =====
-- Properties of sources and of sinks, through `pipeline_init` and the hooks.
use secure_mavlink_gateway.Prelude.{
  sym, ℕ, ◌<◌, ◌≡◌, ap, subst, ◌∙◌, some, set, length, get_elem?, replicate, arith, inl, inr,
}
use secure_mavlink_gateway.Platform.{Platform}
use secure_mavlink_gateway.Ports.{Source, Sink, max_sources, max_sinks}
use secure_mavlink_gateway.Pipeline.{Pipeline, zero_source, zero_sink}
use secure_mavlink_gateway.Spin.Ready.{IsReady}
use secure_mavlink_gateway.Spin.Sources.{get_elem?-set_cases}
use secure_mavlink_gateway.Spin.Start.{get_elem?-replicate}
use secure_mavlink_gateway.Hooks.{Connection}
use secure_mavlink_gateway.Hooks.Ready.{hooked, hooked_source, hooked_sink}

module _ ⦃platform : Platform⦄ where
  -- What holds of every source and of every sink.
  abbrev pub Fits : (Source → Type 0) → (Sink → Type 0) → Pipeline → Type 0
  Fits S K p =
      ((i : ℕ) (src : Source) → get_elem? p.sources i ≡ some src → S src)
      × ((i : ℕ) (sink : Sink) → get_elem? p.sinks i ≡ some sink → K sink)

  pub set_source-Fits :
      {S : Source → Type 0} {K : Sink → Type 0} (p : Pipeline) (i : ℕ) (src : Source)
      → i < length p.sources
      → S src
      → Fits S K p
      → Fits S K (record p { sources = set p.sources i src })
  set_source-Fits {S = S} p i src inside here (sources, sinks) = (
    λ j other found. elim (get_elem?-set_cases p.sources i j src other inside found) [
      | inl self ↦ subst S self here
      | inr old ↦ sources j other old
    ],
    sinks,
  )

  pub set_sink-Fits :
      {S : Source → Type 0} {K : Sink → Type 0} (p : Pipeline) (i : ℕ) (sink : Sink)
      → i < length p.sinks
      → K sink
      → Fits S K p
      → Fits S K (record p { sinks = set p.sinks i sink })
  set_sink-Fits {K = K} p i sink inside here (sources, sinks) = (
    sources,
    λ j other found. elim (get_elem?-set_cases p.sinks i j sink other inside found) [
      | inl self ↦ subst K self here
      | inr old ↦ sinks j other old
    ],
  )

  pub hooked-Fits :
      {S : Source → Type 0} {K : Sink → Type 0} (c : Connection) (p : Pipeline) (id sink_type : ℕ)
      (src : Source) (sink : Sink)
      → IsReady p
      → id < max_sources
      → sink_type < max_sinks
      → S (hooked_source c id src)
      → K (hooked_sink c sink)
      → Fits S K p
      → Fits S K (hooked c p id src sink_type sink)
  hooked-Fits c p id sink_type src sink ready known known' here here' fits =
      set_sink-Fits (record p { sources = set p.sources id (hooked_source c id src) }) sink_type
        (hooked_sink c sink) (omega (arith, ready.sinks)) here'
        (set_source-Fits p id (hooked_source c id src) (omega (arith, ready.sources)) here fits)

  pub zeros-Fits :
      {S : Source → Type 0} {K : Sink → Type 0} (p : Pipeline)
      → S zero_source
      → K zero_sink
      → p.sources ≡ replicate max_sources zero_source
      → p.sinks ≡ replicate max_sinks zero_sink
      → Fits S K p
  zeros-Fits {S = S} {K = K} p no_source no_sink sources sinks = (
    λ i src there.
        subst S
          (get_elem?-replicate max_sources i zero_source src
            (ap (λ xs. get_elem? xs i) (sym sources) ∙ there))
          no_source,
    λ i sink there.
        subst K
          (get_elem?-replicate max_sinks i zero_sink sink
            (ap (λ xs. get_elem? xs i) (sym sinks) ∙ there))
          no_sink,
  )
