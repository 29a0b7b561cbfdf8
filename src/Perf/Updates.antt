-- ===== src/Perf/Updates.antt =====
-- About updates of the counters at the indices of the tables (lib/secure_gateway.c).
use secure_mavlink_gateway.Prelude.{
  ℕ, ◌<◌, ◌≡◌, refl, sym, ap, ◌∙◌, some, List, get_elem?, set, length, get_elem?-set_self,
  get_elem?-set_ne, get_elem?-inside, length-set, arith, ◌==◌, Bool-cases, inl, inr,
}
use secure_mavlink_gateway.Outcome.{Ensures}
use secure_mavlink_gateway.Platform.{Platform}
use secure_mavlink_gateway.Message.{Message}
use secure_mavlink_gateway.Perf.{
  Perf, PortUnit, UnitType, unit_source, unit_sink, max_perf_port_units, count_source, count_sink,
  perf_port_unit_update,
}
use secure_mavlink_gateway.Perf.Report.{AreQueriedAt}

-- Unit 1 was queried at `last`.
abbrev QueriedAt : List PortUnit → ℕ → Type 0
QueriedAt units last = (u : PortUnit) × (get_elem? units 1 ≡ some u) × (u.last_query ≡ last)

QueriedAt-set :
    (units : List PortUnit) (last i : ℕ) (u u' : PortUnit)
    → i < length units
    → get_elem? units i ≡ some u
    → u'.last_query ≡ u.last_query
    → QueriedAt units last
    → QueriedAt (set units i u') last
QueriedAt-set units last i u u' inside there same (v, there', queried) =
    elim (Bool-cases (i == 1)) [
      | inl self ↦
          let e : i ≡ 1 = ground arith in
          let both : some u ≡ some v = sym there ∙ ap (get_elem? units) e ∙ there' in
          let one : u ≡ v = cc in
          (
            u',
            ap (get_elem? (set units i u')) (sym e) ∙ get_elem?-set_self units i u' inside,
            same ∙ ap (λ (w : PortUnit). w.last_query) one ∙ queried,
          )
      | inr other ↦ (v, get_elem?-set_ne units i 1 u' (ground arith) ∙ there', queried)
    ]

module _ ⦃platform : Platform⦄ where
  pub perf_port_unit_update-Ensures :
      (perf : Perf) (last i : ℕ) (unit : UnitType) (m : Message)
      → i < max_perf_port_units
      → AreQueriedAt perf last
      → Ensures (perf_port_unit_update perf unit i m) (λ perf'. AreQueriedAt perf' last)
  unfolding perf_port_unit_update count_source count_sink
  perf_port_unit_update-Ensures perf last i unit_source m inside q =
      let (u, there) = get_elem?-inside perf.source_units i (omega (arith, q.sources)) in
      (
        record perf { source_units = set perf.source_units i (count_source u m) },
        ground (arith, there),
        record {
          vmc_source =
              QueriedAt-set perf.source_units last i u (count_source u m) (omega (arith, q.sources))
                there refl q.vmc_source;
          vmc_sink = q.vmc_sink;
          sources = length-set perf.source_units i (count_source u m) ∙ q.sources;
          sinks = q.sinks;
          exec = q.exec;
        },
      )
  perf_port_unit_update-Ensures perf last i unit_sink m inside q =
      let (u, there) = get_elem?-inside perf.sink_units i (omega (arith, q.sinks)) in
      (
        record perf { sink_units = set perf.sink_units i (count_sink u m) },
        ground (arith, there),
        record {
          vmc_source = q.vmc_source;
          vmc_sink =
              QueriedAt-set perf.sink_units last i u (count_sink u m) (omega (arith, q.sinks)) there
                refl q.vmc_sink;
          sources = q.sources;
          sinks = length-set perf.sink_units i (count_sink u m) ∙ q.sinks;
          exec = q.exec;
        },
      )
