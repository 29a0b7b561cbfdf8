-- ===== src/Bridge/Tests.antt =====
-- A packet on its way through the bridge that `main` starts, and the bridge's parts at small inputs.
use secure_mavlink_gateway.Prelude.{
  ◌^◌, Option, ℕ, ◌+◌, ◌*◌, ◌≡◌, ◌≢◌, ◌<◌, ◌⊎◌, inl, refl, true, some, none, List, [], ◌∷◌, ◌++◌,
  arith,
}
use secure_mavlink_gateway.Adapter.{
  Adapter, Dial, tcp_adapter, connect, is_connected, receive_once, do_recv, redial, recv,
}
use secure_mavlink_gateway.Adapter.Counters.{IsHeard, recv_lem}
use secure_mavlink_gateway.Tunnel.{
  heading, trimming, popping, waiting, looping, ended, tunnel, start, pop, shut_down, fetch,
}
use secure_mavlink_gateway.Tunnel.Progress.{Serves, handed, Serves-all}
use secure_mavlink_gateway.Tunnel.Pace.{elapsed, pause, nanoseconds, pause_lem}
use secure_mavlink_gateway.Bridge.{Bridge, Threads, local_host, on_uplink, Runs, here, later}
use secure_mavlink_gateway.Bridge.Stuck.{shut_down-blocks}

abbrev all_threads : Threads
all_threads = record {
  uplink_receiver = true;
  uplink_sender = true;
  downlink_receiver = true;
  downlink_sender = true;
}

abbrev good_dial : Dial
good_dial = record { socket = some 3; reused = true; parsed = true; accepted = true }

abbrev packet : List ℕ
packet = 253 ∷ 7 ∷ []

-- The bridge after the uplink has received a packet, and its sender has begun.
abbrev busy : Bridge
busy = record {
  up = (receive_once (some packet) (connect good_dial (tcp_adapter (b'1' ∷ []) 5762)).1).1;
  down = tcp_adapter (b'1' ∷ []) 20501;
  uplink = record {
    tunnel = record (tunnel 4000) { queue = packet ∷ []; receiver = heading; sender = looping };
    stored = packet ∷ [];
    given = [];
    sent = [];
    dropped = 0;
  };
  downlink = record {
    tunnel = (start true true (tunnel 0)).1;
    stored = [];
    given = [];
    sent = [];
    dropped = 0;
  };
}

Serves-all_example :
    (sink : Adapter) × Serves busy.uplink busy.up busy.down
      (record (busy.uplink) {
        tunnel = record (busy.uplink.tunnel) { queue = [] };
        given = [] ++ packet ∷ [];
        sent = handed busy.down [] (packet ∷ []);
      })
      busy.up
      sink
unfolding tunnel
Serves-all_example = Serves-all busy.uplink busy.up busy.down refl refl (inl refl)

-- The same tunnel when its sender waits.
abbrev idle : Bridge
idle = record busy {
  uplink = record (busy.uplink) {
    tunnel = record (busy.uplink.tunnel) { queue = []; sender = waiting };
    given = packet ∷ [];
    sent = packet ∷ [];
  };
}

-- Its destructor has woken the sender, which has found nothing and waits again.
abbrev stuck : Bridge
stuck = record idle {
  uplink = record (idle.uplink) {
    tunnel = record (idle.uplink.tunnel) { terminate = true; sender = waiting };
  };
}

stuck-Runs :
    Runs
      (record idle { uplink = record (idle.uplink) { tunnel = shut_down idle.uplink.tunnel } })
      stuck
unfolding shut_down pop
stuck-Runs = later here (on_uplink (fetch refl))

shut_down-blocks_example :
    ((stuck.uplink.tunnel.sender ≡ popping) ⊎ (stuck.uplink.tunnel.sender ≡ waiting))
    × (stuck.uplink.tunnel.sender ≢ ended)
shut_down-blocks_example = shut_down-blocks idle refl refl refl stuck-Runs

-- A packet that the uplink has received and given to `send`, which has dropped it.
abbrev relayed : Bridge
relayed = record busy {
  uplink = record (busy.uplink) {
    tunnel = record (busy.uplink.tunnel) {
      queue = [];
      max_queue_size = 1000000;
      sender = trimming 2;
    };
    given = packet ∷ [];
  };
  up = (receive_once (some packet) (connect good_dial (tcp_adapter local_host 5762)).1).1;
  down = tcp_adapter local_host 20501;
}

pause_example :
    (2 * 1000000
      < 4000
        * (elapsed
              (record { tv_sec = 5; tv_nsec = 999999000 })
              (record { tv_sec = 6; tv_nsec = 1500 })
            + pause 2 4000
                (record { tv_sec = 5; tv_nsec = 999999000 })
                (record { tv_sec = 6; tv_nsec = 1500 })
            + 1))
    × (nanoseconds (record { tv_sec = 6; tv_nsec = 1500 })
        < nanoseconds (record { tv_sec = 5; tv_nsec = 999999000 })
          + (elapsed
                (record { tv_sec = 5; tv_nsec = 999999000 })
                (record { tv_sec = 6; tv_nsec = 1500 })
              + 1)
            * 1000)
    × (nanoseconds (record { tv_sec = 5; tv_nsec = 999999000 })
          + elapsed
              (record { tv_sec = 5; tv_nsec = 999999000 })
              (record { tv_sec = 6; tv_nsec = 1500 })
            * 1000
        < nanoseconds (record { tv_sec = 6; tv_nsec = 1500 }) + 1000)
pause_example =
    pause_lem 2 4000 (record { tv_sec = 5; tv_nsec = 999999000 })
      (record { tv_sec = 6; tv_nsec = 1500 }) (omega arith) (omega arith) (omega arith)
      (omega arith) (omega arith)

-- What the socket's `recv` makes of an adapter that is connected, when it fails.
abbrev heard : Adapter
heard = (receive_once none busy.up).1

recv_example :
    IsHeard none busy.up heard
    × (◌≡◌ {A = Option (List ℕ)} none none)
    × (◌≡◌ {A = Option (List ℕ)} none none
        → 0 < busy.up.metrics.bytes_received
        → busy.up.metrics.bytes_received < 2 ^ 64
        → heard.metrics.bytes_received + 1 ≡ busy.up.metrics.bytes_received)
unfolding recv redial is_connected receive_once do_recv connect
recv_example = recv_lem [] none busy.up heard refl
