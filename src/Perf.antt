-- ===== src/Perf.antt =====
-- The performance counters of lib/secure_gateway.c. A `uint64_t` is a number modulo 2 ^ 64.
pub mod Show
pub mod Counts
pub mod Report
pub mod Updates
mod Tests
use secure_mavlink_gateway.Prelude.{
  ℕ, ◌+◌, ◌-◌, ◌%◌, ◌^◌, Bool, List, get_elem?, set, leb, ltb, replicate, ◌==◌, if◌then◌else◌,
}
use secure_mavlink_gateway.Outcome.{Outcome, done, assert, or_out_of_bounds, ◌>>=◌, ◌>>◌}
use secure_mavlink_gateway.Platform.{Platform}
use secure_mavlink_gateway.Message.{Message}
use secure_mavlink_gateway.Ports.{max_sources, max_sinks}

abbrev pub u64 : ℕ → ℕ
u64 n = n % 2 ^ 64

-- `a - b` on `uint64_t`
abbrev pub sub64 : ℕ → ℕ → ℕ
sub64 a b = (a + 2 ^ 64 - b) % 2 ^ 64

abbrev pub max_perf_port_units : ℕ
max_perf_port_units = 4

-- `enum perf_port_unit_type_t`
pub data UnitType : Type 0 where
  unit_source unit_sink : UnitType

pub record PortUnit : Type 0 where
  pub prev_seq : ℕ
  pub succ_count : ℕ
  pub drop_count : ℕ
  pub succ_bytes : ℕ
  pub last_succ_count : ℕ
  pub last_drop_count : ℕ
  pub last_succ_bytes : ℕ
  pub last_query : ℕ

pub record PortUnitResult : Type 0 where
  pub duration : ℕ
  pub succ_count : ℕ
  pub drop_count : ℕ
  pub succ_bytes : ℕ

pub record ExecUnit : Type 0 where
  pub total : ℕ
  pub load_us : ℕ
  pub last_total : ℕ
  pub last_load_us : ℕ
  pub last_query : ℕ

pub record ExecUnitResult : Type 0 where
  pub duration : ℕ
  pub count : ℕ
  pub load_us : ℕ

-- The two rows of `port_units`.
pub record Perf : Type 0 where
  pub source_units : List PortUnit
  pub sink_units : List PortUnit
  pub exec_unit : ExecUnit

abbrev pub row : Perf → UnitType → List PortUnit
row perf unit_source = perf.source_units
row perf unit_sink = perf.sink_units

abbrev pub put_row : Perf → UnitType → List PortUnit → Perf
put_row perf unit_source us = record perf { source_units = us }
put_row perf unit_sink us = record perf { sink_units = us }

abbrev pub zero_unit : PortUnit
zero_unit = record {
  prev_seq = 0;
  succ_count = 0;
  drop_count = 0;
  succ_bytes = 0;
  last_succ_count = 0;
  last_drop_count = 0;
  last_succ_bytes = 0;
  last_query = 0;
}

-- `memset(perf, 0, sizeof(struct perf_t))`: nothing of the old value is left.
unfoldable pub perf_init : Perf
perf_init = record {
  source_units = replicate max_perf_port_units zero_unit;
  sink_units = replicate max_perf_port_units zero_unit;
  exec_unit = record { total = 0; load_us = 0; last_total = 0; last_load_us = 0; last_query = 0 };
}

-- The `int` computation `seq - prev_seq - 1`, and 256 more if that is negative.
unfoldable pub drop_of : ℕ → ℕ → ℕ
drop_of seq prev_seq =
    if ltb seq (prev_seq + 1) then 256 + seq - (prev_seq + 1) else seq - (prev_seq + 1)

module _ ⦃platform : Platform⦄ where
  open platform use {len, seq, compid, num_non_payload_bytes}

  -- A row of the counters with the message counted in it.
  unfoldable pub count_source : PortUnit → Message → PortUnit
  unfolding drop_of
  count_source u m =
      let drop = if compid m.msg == 1 then drop_of (seq m.msg) u.prev_seq else 0 in
      let prev = if compid m.msg == 1 then seq m.msg % 2 ^ 8 else u.prev_seq in
      record u {
        prev_seq = prev;
        succ_count = u64 (u.succ_count + 1);
        drop_count = u64 (u.drop_count + drop);
        succ_bytes = u64 (u.succ_bytes + (len m.msg + num_non_payload_bytes));
      }

  unfoldable pub count_sink : PortUnit → Message → PortUnit
  count_sink u m = record u {
    succ_count = u64 (u.succ_count + 1);
    succ_bytes = u64 (u.succ_bytes + (len m.msg + num_non_payload_bytes));
  }

  unfoldable pub perf_port_unit_update : Perf → UnitType → ℕ → Message → Outcome Perf
  perf_port_unit_update perf unit_source id m = do
    assert (leb id max_sources)
    u ← or_out_of_bounds (get_elem? perf.source_units id)
    done (record perf { source_units = set perf.source_units id (count_source u m) })
  perf_port_unit_update perf unit_sink id m = do
    assert (leb id max_sinks)
    u ← or_out_of_bounds (get_elem? perf.sink_units id)
    done (record perf { sink_units = set perf.sink_units id (count_sink u m) })

unfoldable pub query_unit : PortUnit → ℕ → PortUnit × PortUnitResult
query_unit u now = (
  record u {
    last_query = now;
    last_succ_count = u.succ_count;
    last_drop_count = u.drop_count;
    last_succ_bytes = u.succ_bytes;
  },
  record {
    duration = sub64 now u.last_query;
    succ_count = sub64 u.succ_count u.last_succ_count;
    drop_count = sub64 u.drop_count u.last_drop_count;
    succ_bytes = sub64 u.succ_bytes u.last_succ_bytes;
  },
)

unfoldable pub perf_port_unit_query : Perf → UnitType → ℕ → ℕ → Outcome (Perf × PortUnitResult)
unfolding query_unit
perf_port_unit_query perf unit id now = do
  u ← or_out_of_bounds (get_elem? (row perf unit) id)
  let (u', result) = query_unit u now
  done (put_row perf unit (set (row perf unit) id u'), result)

unfoldable pub perf_exec_unit_update : Perf → ℕ → Bool → Perf
perf_exec_unit_update perf duration has_load =
    let e = perf.exec_unit in
    record perf {
      exec_unit = record e {
        total = u64 (e.total + 1);
        load_us = if has_load then u64 (e.load_us + duration) else e.load_us;
      };
    }

unfoldable pub perf_exec_unit_query : Perf → ℕ → Perf × ExecUnitResult
perf_exec_unit_query perf now =
    let e = perf.exec_unit in
    (
      record perf {
        exec_unit = record e { last_query = now; last_total = e.total; last_load_us = e.load_us };
      },
      record {
        duration = sub64 now e.last_query;
        count = sub64 e.total e.last_total;
        load_us = sub64 e.load_us e.last_load_us;
      },
    )
