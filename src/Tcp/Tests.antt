-- ===== src/Tcp/Tests.antt =====
-- Runs of the sockets of lib/source_tcp.c on concrete bytes.
use secure_mavlink_gateway.Prelude.{
  ℕ, ◌≡◌, ◌≤◌, ◌⊎◌, ◌↔◌, refl, true, false, none, some, List, [], ◌∷◌, ◌++◌, length, drop,
  replicate, length-replicate, arith,
}
use secure_mavlink_gateway.Outcome.{done}
use secure_mavlink_gateway.Results.{succ}
use secure_mavlink_gateway.Handover.{
  asleep, idle, System, start, Runs, here, later, recv, lock, store, test, receive, rewind, resize,
  wait_test,
}
use secure_mavlink_gateway.Handover.Stream.{IsOrdered, Runs-IsOrdered}
use secure_mavlink_gateway.Handover.Progress.{HandsOver, IsOrdered-HandsOver}
use secure_mavlink_gateway.Handover.Bounds.{InBounds, Runs-InBounds}
use secure_mavlink_gateway.Tcp.{
  Tcp, TcpLink, TcpCalls, Listening, tcp_state_init, tcp_listen_to, tcp_accept_client,
  tcp_server_recv, tcp_server, tcp_init_mt, tcp_has_more_mt, tcp_read_byte_mt, tcp_route_to_mt,
  tcp_receiver,
}
use secure_mavlink_gateway.Tcp.Calls.{Runs-tcp_read_byte_mt, tcp_route_to_mt_lem}
use secure_mavlink_gateway.Tcp.Single.{
  SingleTcp, closed_reads, closed_reads_lem, tcp_route_to, tcp_init,
}

abbrev tcp_off : List ℕ → Tcp
tcp_off memory = record {
  initialized = false;
  terminate = false;
  link = record { fd = none; connection = none };
  buffer = record { bytes = memory; cur_read = 0; buffer_size = 0 };
}

abbrev listening : Listening
listening = record { fd = some 3; reused = true; bound = true; listens = true }

abbrev tcp_on : List ℕ → Tcp
tcp_on memory = record (tcp_off memory) {
  initialized = true;
  link = record { fd = some 3; connection = none };
}

abbrev two_bytes : TcpCalls
two_bytes = record { accepted = some 5; received = some (7 ∷ 9 ∷ []) }

-- After two bytes came in, the thread waits.
abbrev waiting : List ℕ → System TcpLink
waiting memory = record {
  socket = record (tcp_on memory) {
    link = record { fd = some 3; connection = some 5 };
    buffer = record { bytes = 7 ∷ 9 ∷ drop 2 memory; cur_read = 0; buffer_size = 2 };
  };
  place = asleep;
  client = idle;
  arrived = 7 ∷ 9 ∷ [];
  taken = [];
}

waiting-Runs : (memory : List ℕ) → Runs tcp_receiver (start (tcp_on memory)) (waiting memory)
unfolding tcp_server tcp_accept_client tcp_server_recv receive rewind resize wait_test
waiting-Runs memory =
    later
      (later
        (later (later here (recv two_bytes (7 ∷ 9 ∷ []) (omega arith) refl refl refl))
          (lock 2 refl))
        (store 2 refl))
      (test refl)

begins : (memory : List ℕ) → IsOrdered tcp_receiver (start (tcp_on memory))
begins memory = record { fits = omega arith; order = refl; readable = λ r. cc }

Runs-IsOrdered_example : IsOrdered tcp_receiver (waiting [])
Runs-IsOrdered_example = Runs-IsOrdered tcp_receiver (waiting-Runs []) (begins [])

IsOrdered-HandsOver_example : HandsOver tcp_receiver (waiting [])
IsOrdered-HandsOver_example =
    IsOrdered-HandsOver tcp_receiver (waiting []) refl refl
      (Runs-IsOrdered tcp_receiver (waiting-Runs []) (begins []))

Runs-InBounds_example : InBounds tcp_receiver (waiting (replicate 4096 0))
Runs-InBounds_example =
    Runs-InBounds tcp_receiver (waiting-Runs (replicate 4096 0))
      ((length-replicate {A = ℕ} 4096 0, omega arith, omega arith), tt)

Runs-tcp_read_byte_mt_example :
    (byte : ℕ) × (rest : List ℕ) × (tcp' : Tcp) × (tcp_read_byte_mt (waiting []).socket
      ≡ done (byte, false, tcp'))
    × ((waiting []).taken ++ byte ∷ rest ≡ (waiting []).arrived)
unfolding tcp_init_mt tcp_state_init tcp_listen_to tcp_has_more_mt
Runs-tcp_read_byte_mt_example =
    Runs-tcp_read_byte_mt listening listening true true (tcp_off []) refl (waiting-Runs []) refl
      refl refl

tcp_route_to_mt_lem_example :
    ((tcp_route_to_mt listening true (waiting []).socket (1 ∷ 2 ∷ []) (some 2)).0 ≡ succ)
    ↔ ((tcp_init_mt listening true (waiting []).socket).0 ≡ succ)
      × (((tcp_init_mt listening true (waiting []).socket).1.link.connection ≡ none)
          ⊎ ((n : ℕ) × (some 2 ≡ some n) × (length {A = ℕ} (1 ∷ 2 ∷ []) ≤ n)))
tcp_route_to_mt_lem_example =
    tcp_route_to_mt_lem listening true (waiting []).socket (1 ∷ 2 ∷ []) (some 2)

abbrev single_on : SingleTcp
single_on = record {
  initialized = true;
  link = record { fd = some 3; connection = some 5 };
  bytes = 7 ∷ [];
  cur_read = 1;
  buffer_size = some 1;
}

closed_reads_lem_example :
    (last : SingleTcp) × (closed_reads 3 listening none single_on
      ≡ done (0 ∷ 0 ∷ 0 ∷ [], true, last))
closed_reads_lem_example = closed_reads_lem 3 listening none single_on refl refl

-- Without threads a message of which `send` took as many bytes as the payload has counts as sent.
partly_sent : (tcp_route_to listening none single_on (1 ∷ 2 ∷ 3 ∷ 4 ∷ []) 4 1 (some 1)).0 ≡ succ
unfolding tcp_route_to tcp_init
partly_sent = refl
