-- ===== src/Bridge/Monitor.antt =====
-- `Bridge::monitor` of tools/tcp_bridge.cc: the numbers of each line.
use secure_mavlink_gateway.Prelude.{ℕ, ◌^◌, ◌<◌, ◌≡◌, refl, List, [], ◌∷◌, length, arith}
use secure_mavlink_gateway.Perf.{sub64}
use secure_mavlink_gateway.Adapter.{AdapterMetrics, add64}
use secure_mavlink_gateway.Bridge.{Bridge}

-- `struct bridge_metrics_t`
pub record BridgeMetrics : Type 0 where
  pub up_adp : AdapterMetrics
  pub down_adp : AdapterMetrics
  pub up_tun : ℕ
  pub down_tun : ℕ

-- `get_metrics` of the four parts
abbrev pub snapshot : Bridge → BridgeMetrics
snapshot b = record {
  up_adp = b.up.metrics;
  down_adp = b.down.metrics;
  up_tun = length b.uplink.tunnel.queue;
  down_tun = length b.downlink.tunnel.queue;
}

-- What one `printf` shows, in its order.
pub record MonitorLine : Type 0 where
  pub up_packets_received : ℕ
  pub up_bytes_received : ℕ
  pub down_packets_sent : ℕ
  pub down_bytes_sent : ℕ
  pub up_queue : ℕ
  pub up_packets_sent : ℕ
  pub up_bytes_sent : ℕ
  pub down_packets_received : ℕ
  pub down_bytes_received : ℕ
  pub down_queue : ℕ

unfoldable pub monitor_line : BridgeMetrics → BridgeMetrics → MonitorLine
monitor_line metrics now = record {
  up_packets_received = sub64 now.up_adp.packets_received metrics.up_adp.packets_received;
  up_bytes_received = sub64 now.up_adp.bytes_received metrics.up_adp.bytes_received;
  down_packets_sent = sub64 now.down_adp.packets_sent metrics.down_adp.packets_sent;
  down_bytes_sent = sub64 now.down_adp.bytes_sent metrics.down_adp.bytes_sent;
  up_queue = now.up_tun;
  up_packets_sent = sub64 now.up_adp.packets_sent metrics.up_adp.packets_sent;
  up_bytes_sent = sub64 now.up_adp.bytes_sent metrics.up_adp.bytes_sent;
  down_packets_received = sub64 now.down_adp.packets_received metrics.down_adp.packets_received;
  down_bytes_received = sub64 now.down_adp.bytes_received metrics.down_adp.bytes_received;
  down_queue = now.down_tun;
}

-- The loop, with what it finds each second.
unfoldable pub monitor : BridgeMetrics → List Bridge → List MonitorLine
unfolding monitor_line
monitor metrics [] = []
monitor metrics (b ∷ bs) = monitor_line metrics (snapshot b) ∷ monitor (snapshot b) bs

abbrev pub last_seen : BridgeMetrics → List Bridge → BridgeMetrics
last_seen metrics [] = metrics
last_seen metrics (b ∷ bs) = last_seen (snapshot b) bs

-- The sum of a column.
abbrev pub total : (MonitorLine → ℕ) → List MonitorLine → ℕ
total column [] = 0
total column (line ∷ lines) = add64 (column line) (total column lines)

-- The counters are values of `uint64_t`.
pub record AreWords (m : AdapterMetrics) : Type 0 where
  pub bytes_sent : m.bytes_sent < 2 ^ 64
  pub bytes_received : m.bytes_received < 2 ^ 64
  pub packets_sent : m.packets_sent < 2 ^ 64
  pub packets_received : m.packets_received < 2 ^ 64

abbrev pub AllWords : BridgeMetrics → List Bridge → Type 0
AllWords metrics [] = AreWords metrics.up_adp × AreWords metrics.down_adp
AllWords metrics (b ∷ bs) =
    (AreWords metrics.up_adp × AreWords metrics.down_adp) × AllWords (snapshot b) bs

AllWords-head :
    (metrics : BridgeMetrics) (bs : List Bridge)
    → AllWords metrics bs
    → AreWords metrics.up_adp × AreWords metrics.down_adp
AllWords-head metrics [] words = words
AllWords-head metrics (b ∷ bs) words = words.0

-- A column of differences of a counter adds up to the counter's own difference.
total-monitor :
    (column : MonitorLine → ℕ) (counter : BridgeMetrics → ℕ)
    → ((old now : BridgeMetrics)
        → column (monitor_line old now) ≡ sub64 (counter now) (counter old))
    → ((m : BridgeMetrics) → AreWords m.up_adp × AreWords m.down_adp → counter m < 2 ^ 64)
    → (metrics : BridgeMetrics) (bs : List Bridge) → AllWords metrics bs
    → (total column (monitor metrics bs) ≡ sub64 (counter (last_seen metrics bs)) (counter metrics))
      × (counter (last_seen metrics bs) < 2 ^ 64)
unfolding monitor
total-monitor column counter fits bound metrics [] words =
    (omega (arith, bound metrics words), bound metrics words)
total-monitor column counter fits bound metrics (b ∷ bs) (here, words) =
    let (rest, small) = total-monitor column counter fits bound (snapshot b) bs words in
    (
      omega (
        arith,
        fits metrics (snapshot b),
        bound metrics here,
        bound (snapshot b) (AllWords-head (snapshot b) bs words),
        small,
        rest,
      ),
      small,
    )

-- Each column of what `monitor` prints adds up, modulo 2 ^ 64, to what its counter has grown since the
-- start, and so misses nothing between two lines.
monitor_lem :
    (metrics : BridgeMetrics) (bs : List Bridge)
    → AllWords metrics bs
    → let lines = monitor metrics bs in
      let now = last_seen metrics bs in
      (total (λ l. l.up_packets_received) lines
        ≡ sub64 now.up_adp.packets_received metrics.up_adp.packets_received)
      × (total (λ l. l.up_bytes_received) lines
          ≡ sub64 now.up_adp.bytes_received metrics.up_adp.bytes_received)
      × (total (λ l. l.down_packets_sent) lines
          ≡ sub64 now.down_adp.packets_sent metrics.down_adp.packets_sent)
      × (total (λ l. l.down_bytes_sent) lines
          ≡ sub64 now.down_adp.bytes_sent metrics.down_adp.bytes_sent)
      × (total (λ l. l.up_packets_sent) lines
          ≡ sub64 now.up_adp.packets_sent metrics.up_adp.packets_sent)
      × (total (λ l. l.up_bytes_sent) lines ≡ sub64 now.up_adp.bytes_sent metrics.up_adp.bytes_sent)
      × (total (λ l. l.down_packets_received) lines
          ≡ sub64 now.down_adp.packets_received metrics.down_adp.packets_received)
      × (total (λ l. l.down_bytes_received) lines
          ≡ sub64 now.down_adp.bytes_received metrics.down_adp.bytes_received)
unfolding monitor_line
monitor_lem metrics bs words = (
  (total-monitor (λ l. l.up_packets_received) (λ m. m.up_adp.packets_received) (λ old now. refl)
      (λ m w. w.0.packets_received) metrics bs words).0,
  (total-monitor (λ l. l.up_bytes_received) (λ m. m.up_adp.bytes_received) (λ old now. refl)
      (λ m w. w.0.bytes_received) metrics bs words).0,
  (total-monitor (λ l. l.down_packets_sent) (λ m. m.down_adp.packets_sent) (λ old now. refl)
      (λ m w. w.1.packets_sent) metrics bs words).0,
  (total-monitor (λ l. l.down_bytes_sent) (λ m. m.down_adp.bytes_sent) (λ old now. refl)
      (λ m w. w.1.bytes_sent) metrics bs words).0,
  (total-monitor (λ l. l.up_packets_sent) (λ m. m.up_adp.packets_sent) (λ old now. refl)
      (λ m w. w.0.packets_sent) metrics bs words).0,
  (total-monitor (λ l. l.up_bytes_sent) (λ m. m.up_adp.bytes_sent) (λ old now. refl)
      (λ m w. w.0.bytes_sent) metrics bs words).0,
  (total-monitor (λ l. l.down_packets_received) (λ m. m.down_adp.packets_received) (λ old now. refl)
      (λ m w. w.1.packets_received) metrics bs words).0,
  (total-monitor (λ l. l.down_bytes_received) (λ m. m.down_adp.bytes_received) (λ old now. refl)
      (λ m w. w.1.bytes_received) metrics bs words).0,
)
