-- ===== src/Perf/Report.antt =====
-- About the divisions of `perf_show` (lib/secure_gateway.c).
use secure_mavlink_gateway.Prelude.{
  ℕ, suc, ◌+◌, ◌*◌, ◌<◌, ◌≡◌, refl, ap, ◌∙◌, false, some, List, [], ◌∷◌, get_elem?, set, length,
  get_elem?-set_self, length-set, if◌then◌else◌, ◌==◌, ltb, arith, Bool-cases, inl, inr,
}
use secure_mavlink_gateway.Outcome.{done, divide, or_out_of_bounds, Done, >>=-Done, divide-Done}
use secure_mavlink_gateway.Perf.{
  perf_init, zero_unit, Perf, max_perf_port_units, PortUnit, ExecUnitResult, unit_source, unit_sink,
  u64, sub64, query_unit, perf_port_unit_query, perf_exec_unit_query, row,
}
use secure_mavlink_gateway.Perf.Show.{
  Shows, Shown, show_order, query_selected, per_total, port_line, port_lines, exec_line, perf_show,
}

-- The tables have their size, and the counters that are shown were queried at `last`.
pub record AreQueriedAt (perf : Perf) (last : ℕ) : Type 0 where
  pub vmc_source : (u : PortUnit) × (get_elem? perf.source_units 1 ≡ some u) × (u.last_query ≡ last)
  pub vmc_sink : (u : PortUnit) × (get_elem? perf.sink_units 1 ≡ some u) × (u.last_query ≡ last)
  pub sources : length perf.source_units ≡ max_perf_port_units
  pub sinks : length perf.sink_units ≡ max_perf_port_units
  pub exec : perf.exec_unit.last_query ≡ last

pub perf_init-AreQueriedAt : AreQueriedAt perf_init 0
unfolding perf_init
perf_init-AreQueriedAt = record {
  vmc_source = (zero_unit, refl, refl);
  vmc_sink = (zero_unit, refl, refl);
  sources = refl;
  sinks = refl;
  exec = refl;
}

per_total-Done : (a total : ℕ) → Done (per_total a total)
per_total-Done a total = elim (Bool-cases (total == 0)) [
  | inl none_counted ↦ rw none_counted (0, refl)
  | inr counted ↦ rw counted (divide-Done (u64 a) total (ground arith))
]

port_line-Done :
    (perf : Perf) (s : Shown) (u : PortUnit)
    → get_elem? (row perf s.unit) s.id ≡ some u
    → 0 < s.result.duration
    → Done (port_line perf s)
unfolding port_line
port_line-Done perf s u there elapsed =
    let total = u64 (s.result.succ_count + s.result.drop_count) in
    >>=-Done (or_out_of_bounds (get_elem? (row perf s.unit) s.id)) _ (u, ap or_out_of_bounds there)
      (λ unit e.
        >>=-Done (divide (u64 (s.result.succ_count * 1000000)) s.result.duration) _
          (divide-Done _ _ elapsed)
          (λ rate e.
            >>=-Done (divide (u64 (s.result.succ_bytes * 1000000)) s.result.duration) _
              (divide-Done _ _ elapsed)
              (λ bytes e.
                >>=-Done (per_total (s.result.drop_count * 100) total) _ (per_total-Done _ total)
                  (λ loss e.
                    >>=-Done (per_total (s.result.drop_count * 10000) total) _
                      (per_total-Done _ total) (λ hundredths e. (_, refl))))))

exec_line-Done : (r : ExecUnitResult) → 0 < r.duration → Done (exec_line r)
unfolding exec_line
exec_line-Done r elapsed =
    >>=-Done (divide (u64 (r.count * 1000000)) r.duration) _ (divide-Done _ _ elapsed) (λ rate e.
      >>=-Done (divide (u64 (r.load_us * 100)) r.duration) _ (divide-Done _ _ elapsed) (λ load e.
        >>=-Done (divide (u64 (r.load_us * 100000)) r.duration) _ (divide-Done _ _ elapsed)
          (λ thousandths e. (_, refl))))

-- The counters after the queries at `now`.
abbrev queried : Perf → PortUnit → PortUnit → ℕ → Perf
queried perf u v now = record perf {
  source_units = set perf.source_units 1 (query_unit u now).0;
  sink_units = set perf.sink_units 1 (query_unit v now).0;
}

abbrev shown_at : PortUnit → PortUnit → ℕ → List Shown
shown_at u v now =
    record { id = 1; unit = unit_source; result = (query_unit u now).1 }
    ∷ record { id = 1; unit = unit_sink; result = (query_unit v now).1 }
    ∷ []

query_selected_lem :
    (perf : Perf) (u v : PortUnit) (now : ℕ)
    → get_elem? perf.source_units 1 ≡ some u
    → get_elem? perf.sink_units 1 ≡ some v
    → query_selected show_order perf now ≡ done (queried perf u v now, shown_at u v now)
unfolding query_selected perf_port_unit_query
query_selected_lem perf u v now e f = rw (e, f)

queried-lines :
    (perf : Perf) (u v u' v' : PortUnit) (now : ℕ)
    → get_elem? perf.source_units 1 ≡ some u'
    → get_elem? perf.sink_units 1 ≡ some v'
    → 0 < sub64 now u.last_query
    → 0 < sub64 now v.last_query
    → Done (port_lines perf (shown_at u v now))
unfolding port_lines query_unit
queried-lines perf u v u' v' now e f h k =
    >>=-Done _ _
      (port_line-Done perf (record { id = 1; unit = unit_source; result = (query_unit u now).1 }) u'
        e h)
      (λ first same.
        >>=-Done _ _
          (>>=-Done _ _
            (port_line-Done perf
              (record { id = 1; unit = unit_sink; result = (query_unit v now).1 }) v' f k)
            (λ second same'. (_, refl)))
          (λ rest same'. (_, refl)))

elapsed : (now last l : ℕ) → ltb (sub64 now last) 5000000 ≡ false → l ≡ last → 0 < sub64 now l
elapsed now last l late same = ground arith

-- If the tables have their size and the counters that are shown were queried at `last`, the call
-- comes to a result, so it divides by no zero, and they were queried at its `last` again. Within
-- five seconds of `last` nothing changes; afterwards `last` is the time of the call, and one report
-- more is printed.
pub perf_show_lem :
    (s : Shows) (now : ℕ)
    → AreQueriedAt s.perf s.last
    → (s' : Shows) × (perf_show s now ≡ done s')
      × AreQueriedAt s'.perf s'.last
      × (if ltb (sub64 now s.last) 5000000
          then s' ≡ s
          else (s'.last ≡ now) × (length s'.printed ≡ suc (length s.printed)))
unfolding perf_show query_unit perf_exec_unit_query
perf_show_lem s now q = elim (Bool-cases (ltb (sub64 now s.last) 5000000)) [
  | inl early ↦ rw early (s, refl, q, refl)
  | inr late ↦
      let (u, there, u_last) = q.vmc_source in
      let (v, there', v_last) = q.vmc_sink in
      let perf = queried s.perf u v now in
      let perf' = (perf_exec_unit_query perf now).0 in
      let e = (perf_exec_unit_query perf now).1 in
      let new =
        get_elem?-set_self s.perf.source_units 1 (query_unit u now).0 (omega (arith, q.sources)) in
      let new' =
        get_elem?-set_self s.perf.sink_units 1 (query_unit v now).0 (omega (arith, q.sinks)) in
      let (lines, same) =
        queried-lines perf' u v (query_unit u now).0 (query_unit v now).0 now new new'
          (elapsed now s.last u.last_query late u_last)
          (elapsed now s.last v.last_query late v_last) in
      let (line, same') =
        exec_line-Done e (elapsed now s.last s.perf.exec_unit.last_query late q.exec) in
      (
        record {
          perf = perf';
          last = now;
          printed = record { lines = lines; exec = line } ∷ s.printed;
        },
        rw (late, query_selected_lem s.perf u v now there there', same, same') refl,
        record {
          vmc_source = ((query_unit u now).0, new, refl);
          vmc_sink = ((query_unit v now).0, new', refl);
          sources = length-set s.perf.source_units 1 (query_unit u now).0 ∙ q.sources;
          sinks = length-set s.perf.sink_units 1 (query_unit v now).0 ∙ q.sinks;
          exec = refl;
        },
        rw late (refl, refl),
      )
]
