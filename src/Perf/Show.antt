-- ===== src/Perf/Show.antt =====
-- `perf_show` of lib/secure_gateway.c: every five seconds it queries the selected counters and prints
-- them. What it prints is the list of numbers that it hands to `pipeline_log_printf`.
use secure_mavlink_gateway.Prelude.{
  ℕ, ◌+◌, ◌*◌, ◌%◌, Bool, true, false, List, [], ◌∷◌, ltb, ◌==◌, if◌then◌else◌, get_elem?,
}
use secure_mavlink_gateway.Outcome.{Outcome, done, divide, or_out_of_bounds, ◌>>=◌}
use secure_mavlink_gateway.Ports.{source_type_vmc, sink_type_vmc}
use secure_mavlink_gateway.Perf.{
  Perf, UnitType, unit_source, unit_sink, PortUnitResult, ExecUnitResult, row, u64, sub64,
  perf_port_unit_query, perf_exec_unit_query,
}

-- `perf_results.select`
unfoldable pub selected : UnitType → ℕ → Bool
selected unit_source i = i == source_type_vmc
selected unit_sink i = i == sink_type_vmc

-- The rounds of the two nested loops, in order.
abbrev pub show_order : List (ℕ × UnitType)
show_order =
    (0, unit_source)
    ∷ (0, unit_sink)
    ∷ (1, unit_source)
    ∷ (1, unit_sink)
    ∷ (2, unit_source)
    ∷ (2, unit_sink)
    ∷ (3, unit_source)
    ∷ (3, unit_sink)
    ∷ []

-- One selected counter with the result of its query.
pub record Shown : Type 0 where
  pub id : ℕ
  pub unit : UnitType
  pub result : PortUnitResult

-- The first pair of loops.
unfoldable pub query_selected : List (ℕ × UnitType) → Perf → ℕ → Outcome (Perf × List Shown)
unfolding selected
query_selected [] perf now = done (perf, [])
query_selected ((i, j) ∷ rounds) perf now = elim (selected j i) [
  | false ↦ query_selected rounds perf now
  | true ↦ perf_port_unit_query perf j i now >>= λ (perf', result).
      query_selected rounds perf' now >>= λ (perf'', shown).
      done (perf'', record { id = i; unit = j; result = result } ∷ shown)
]

-- The numbers of a line.
pub record Line : Type 0 where
  pub packets : ℕ
  pub drops : ℕ
  pub packet_rate : ℕ
  pub byte_rate : ℕ
  pub loss : ℕ
  pub loss_hundredths : ℕ

-- `total_count == 0 ? 0 : a / total_count`
abbrev pub per_total : ℕ → ℕ → Outcome ℕ
per_total a total = if total == 0 then done 0 else divide (u64 a) total

unfoldable pub port_line : Perf → Shown → Outcome Line
port_line perf s = do
  let r = s.result
  let total = u64 (r.succ_count + r.drop_count)
  unit ← or_out_of_bounds (get_elem? (row perf s.unit) s.id)
  rate ← divide (u64 (r.succ_count * 1000000)) r.duration
  bytes ← divide (u64 (r.succ_bytes * 1000000)) r.duration
  loss ← per_total (r.drop_count * 100) total
  hundredths ← per_total (r.drop_count * 10000) total
  done (record {
    packets = unit.succ_count;
    drops = unit.drop_count;
    packet_rate = rate;
    byte_rate = bytes;
    loss = loss;
    loss_hundredths = hundredths % 100;
  })

unfoldable pub port_lines : Perf → List Shown → Outcome (List Line)
unfolding port_line
port_lines perf [] = done []
port_lines perf (s ∷ shown) =
    port_line perf s >>= λ line. port_lines perf shown >>= λ lines. done (line ∷ lines)

-- The last line: loops per second and load.
pub record ExecLine : Type 0 where
  pub loop_rate : ℕ
  pub load : ℕ
  pub load_thousandths : ℕ

unfoldable pub exec_line : ExecUnitResult → Outcome ExecLine
exec_line r = do
  rate ← divide (u64 (r.count * 1000000)) r.duration
  load ← divide (u64 (r.load_us * 100)) r.duration
  thousandths ← divide (u64 (r.load_us * 100000)) r.duration
  done (record { loop_rate = rate; load = load; load_thousandths = thousandths % 1000 })

pub record Report : Type 0 where
  pub lines : List Line
  pub exec : ExecLine

-- The counters, the static variable `last`, and what was printed.
pub record Shows : Type 0 where
  pub perf : Perf
  pub last : ℕ
  pub printed : List Report

-- `now` is what `time_us()` returned.
unfoldable pub perf_show : Shows → ℕ → Outcome Shows
unfolding query_selected port_lines exec_line
perf_show s now =
    if ltb (sub64 now s.last) 5000000
    then done s
    else (query_selected show_order s.perf now >>= λ (perf, shown).
        let (perf', e) = perf_exec_unit_query perf now in
        port_lines perf' shown >>= λ lines. exec_line e >>= λ line. done (record {
          perf = perf';
          last = now;
          printed = record { lines = lines; exec = line } ∷ s.printed;
        }))
