-- ===== src/Perf/Tests.antt =====
-- Runs of the counters on the small platform, and their theorems there.
use secure_mavlink_gateway.Prelude.{◌≡◌, refl, [], ◌∷◌, length, suc, arith, ltb, if◌then◌else◌}
use secure_mavlink_gateway.Outcome.{done}
use secure_mavlink_gateway.Message.{Message}
use secure_mavlink_gateway.Perf.{Perf, perf_init, zero_unit, sub64, u64}
use secure_mavlink_gateway.Perf.Counts.{measure, measure_lem, losses, bytes_of, IsCounter}
use secure_mavlink_gateway.Perf.Show.{Shows, perf_show}
use secure_mavlink_gateway.Perf.Report.{perf_init-AreQueriedAt, AreQueriedAt, perf_show_lem}
use secure_mavlink_gateway.Pipeline.{zero_message}
use secure_mavlink_gateway.Example.{toy, packet}

abbrev numbered : Message
numbered = record zero_message { msg = record (packet 5) { seq = 3 } }

zero-IsCounter : IsCounter zero_unit
zero-IsCounter = record {
  prev = omega arith;
  succ = omega arith;
  drop = omega arith;
  bytes = omega arith;
}

-- The first number is 3, so 1 and 2 are lost; 3 again, and 255 are.
measure_example :
    (perf : Perf) × (measure perf_init 2 5 (numbered ∷ numbered ∷ []) 9
      ≡ done (
        perf,
        record {
          duration = sub64 9 5;
          succ_count = u64 2;
          drop_count = u64 (losses 0 (numbered ∷ numbered ∷ []));
          succ_bytes = u64 (bytes_of (numbered ∷ numbered ∷ []));
        },
      ))
unfolding perf_init
measure_example =
    measure_lem perf_init 2 5 9 (numbered ∷ numbered ∷ []) zero_unit (omega arith) refl
      (omega arith) zero-IsCounter (omega arith, (omega arith, tt))

losses-numbered : losses 0 (numbered ∷ numbered ∷ []) ≡ 257
unfolding losses
losses-numbered = refl

abbrev start : Shows
start = record { perf = perf_init; last = 0; printed = [] }

perf_show_example :
    (s' : Shows) × (perf_show start 6000000 ≡ done s')
    × AreQueriedAt s'.perf s'.last
    × (if ltb (sub64 6000000 start.last) 5000000
        then s' ≡ start
        else (s'.last ≡ 6000000) × (length s'.printed ≡ suc (length start.printed)))
perf_show_example = perf_show_lem start 6000000 perf_init-AreQueriedAt
