-- ===== src/Tunnel/Pace.antt =====
-- How long `Tunnel::sender_thread` of tools/tcp_bridge.cc sleeps after a packet.
use secure_mavlink_gateway.Prelude.{
  ℕ, ◌+◌, ◌-◌, ◌*◌, ◌/◌, ◌%◌, ◌^◌, ◌≤◌, ◌<◌, ◌≡◌, leb, ltb, if◌then◌else◌, ◌==◌, arith,
}
use secure_mavlink_gateway.Tunnel.{data_bytes}

pub record Timespec : Type 0 where
  pub tv_sec : ℕ
  pub tv_nsec : ℕ

-- The difference in microseconds. The clock is monotonic: `tend` is not before `tstart`; C's division of
-- a negative number rounds to zero.
unfoldable pub elapsed : (tstart tend : Timespec) → ℕ
elapsed tstart tend =
    if leb tstart.tv_nsec tend.tv_nsec
    then (tend.tv_sec - tstart.tv_sec) * 1000000 + (tend.tv_nsec - tstart.tv_nsec) / 1000
    else (tend.tv_sec - tstart.tv_sec) * 1000000 - (tstart.tv_nsec - tend.tv_nsec) / 1000

-- `packet_size * 1000000 / bandwidth`
unfoldable pub rate_us : (packet_size bandwidth : ℕ) → ℕ
rate_us packet_size bandwidth = packet_size * 1000000 % 2 ^ 64 / bandwidth

-- The microseconds of `usleep`, 0 where it is not called.
unfoldable pub pause : (packet_size bandwidth : ℕ) → (tstart tend : Timespec) → ℕ
unfolding rate_us
pause packet_size bandwidth tstart tend =
    let rate = rate_us packet_size bandwidth in
    if bandwidth == 0
    then 0
    else if ltb (elapsed tstart tend) rate
    then rate - elapsed tstart tend
    else 0

abbrev pub nanoseconds : Timespec → ℕ
nanoseconds t = t.tv_sec * 1000000000 + t.tv_nsec

elapsed_lem :
    (tstart tend : Timespec)
    → tstart.tv_nsec < 1000000000
    → tend.tv_nsec < 1000000000
    → nanoseconds tstart ≤ nanoseconds tend
    → (nanoseconds tend < nanoseconds tstart + (elapsed tstart tend + 1) * 1000)
      × (nanoseconds tstart + elapsed tstart tend * 1000 < nanoseconds tend + 1000)
unfolding elapsed
elapsed_lem tstart tend small small' order = ground arith

below_next : (a b : ℕ) → 0 < b → a < b * (a / b + 1)
below_next a b some = grind arith

rate_us_lem :
    (packet_size bandwidth : ℕ)
    → packet_size ≤ data_bytes
    → 0 < bandwidth
    → packet_size * 1000000 < bandwidth * (rate_us packet_size bandwidth + 1)
unfolding rate_us
rate_us_lem packet_size bandwidth small some =
    let fits : packet_size * 1000000 % 2 ^ 64 ≡ packet_size * 1000000 = omega arith in
    rw fits (below_next (packet_size * 1000000) bandwidth some)

pause-ge :
    (packet_size bandwidth : ℕ) (tstart tend : Timespec)
    → 0 < bandwidth
    → rate_us packet_size bandwidth ≤ elapsed tstart tend + pause packet_size bandwidth tstart tend
unfolding pause
pause-ge packet_size bandwidth tstart tend some = ground arith

mul_mono : (a b c : ℕ) → b ≤ c → a * b ≤ a * c
mul_mono a b c h = grind arith

-- With a bandwidth, a packet that fits into its buffer, and a clock that does not go back: the round and
-- the sleep after it take at least the time that the bandwidth allows for the packet, to the next
-- microsecond, and the time that the code reckons for the round is right to a microsecond.
pub pause_lem :
    (packet_size bandwidth : ℕ) (tstart tend : Timespec)
    → packet_size ≤ data_bytes
    → 0 < bandwidth
    → tstart.tv_nsec < 1000000000
    → tend.tv_nsec < 1000000000
    → nanoseconds tstart ≤ nanoseconds tend
    → (packet_size * 1000000
        < bandwidth * (elapsed tstart tend + pause packet_size bandwidth tstart tend + 1))
      × (nanoseconds tend < nanoseconds tstart + (elapsed tstart tend + 1) * 1000)
      × (nanoseconds tstart + elapsed tstart tend * 1000 < nanoseconds tend + 1000)
pause_lem packet_size bandwidth tstart tend fits some small small' order =
    let (below, above) = elapsed_lem tstart tend small small' order in
    (
      omega (
        arith,
        rate_us_lem packet_size bandwidth fits some,
        mul_mono bandwidth (rate_us packet_size bandwidth + 1)
            (elapsed tstart tend + pause packet_size bandwidth tstart tend + 1)
            (omega (arith, pause-ge packet_size bandwidth tstart tend some)),
      ),
      below,
      above,
    )
