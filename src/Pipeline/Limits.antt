-- ===== src/Pipeline/Limits.antt =====
-- The range assertions that let one index too many pass: `add_transformer` and
-- `perf_port_unit_update`.
use secure_mavlink_gateway.Prelude.{
  ℕ, zero, suc, ◌≤◌, [], ◌∷◌, ◌≡◌, refl, Option, none, List, get_elem?, get_or, set, length, ◌==◌,
  ltb, if◌then◌else◌, arith, Bool-cases, inl, inr, get_elem?-eq-get_or,
}
use secure_mavlink_gateway.Outcome.{done, assert_failed, out_of_bounds}
use secure_mavlink_gateway.Platform.{Platform}
use secure_mavlink_gateway.Message.{Message}
use secure_mavlink_gateway.Ports.{
  port_type_source, port_type_sink, max_sources, max_sinks, sink_get,
}
use secure_mavlink_gateway.Pipeline.{Pipeline, zero_source, zero_sink, add_transformer}

-- A read past the end.
get_elem?-outside {ℓ} : {A : Type ℓ} (xs : List A) (i : ℕ) → length xs ≤ i → get_elem? xs i ≡ none
get_elem?-outside [] i h = refl
get_elem?-outside (x ∷ xs) zero h = absurd (omega arith)
get_elem?-outside (x ∷ xs) (suc i) h = get_elem?-outside xs i (omega arith)

module _ ⦃platform : Platform⦄ where
  abbrev pub with_source : Pipeline → ℕ → Option (Message → Message) → Pipeline
  with_source p id transform = record p {
    sources = set p.sources id (record (get_or p.sources id zero_source) { transform = transform });
  }

  abbrev pub with_sink : Pipeline → ℕ → Option (Message → Message) → Pipeline
  with_sink p id transform = record p {
    sinks = set p.sinks id (record (get_or p.sinks id zero_sink) { transform = transform });
  }

  -- With full tables, `add_transformer` sets the transformer of one port and changes nothing else, if
  -- the index is in the table. At the first index past the table the assertion of its own lets a source
  -- pass, which is then accessed out of bounds, while a sink fails the one of `sink_get`; any later
  -- index fails the assertion.
  pub add_transformer_lem :
      (p : Pipeline) (id : ℕ) (transform : Option (Message → Message))
      → length p.sources ≡ max_sources
      → length p.sinks ≡ max_sinks
      → (add_transformer p port_type_source id transform ≡ (
          if ltb id max_sources
          then done (with_source p id transform)
          else if id == max_sources
          then out_of_bounds
          else assert_failed))
        × (add_transformer p port_type_sink id transform
            ≡ (if ltb id max_sinks then done (with_sink p id transform) else assert_failed))
  unfolding add_transformer sink_get
  add_transformer_lem p id transform full full' = elim (Bool-cases (ltb id 4)) [
    | inl inside ↦ (
      ground (arith, get_elem?-eq-get_or p.sources id zero_source (ground arith)),
      ground (arith, get_elem?-eq-get_or p.sinks id zero_sink (ground arith)),
    )
    | inr outside ↦ (ground (arith, get_elem?-outside p.sources id (ground arith)), ground arith)
  ]
