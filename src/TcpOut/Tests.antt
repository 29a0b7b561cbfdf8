-- ===== src/TcpOut/Tests.antt =====
-- Runs of the sockets of lib/source_tcpout.c on concrete bytes.
use secure_mavlink_gateway.Prelude.{
  ℕ, ◌≡◌, refl, true, false, Option, none, some, List, [], ◌∷◌, ◌++◌, arith,
}
use secure_mavlink_gateway.Outcome.{done}
use secure_mavlink_gateway.Handover.{
  asleep, idle, System, start, Runs, here, later, fail, recv, lock, store, test, receive, rewind,
  resize, wait_test,
}
use secure_mavlink_gateway.TcpOut.{
  TcpOut, TcpOutCalls, tcp_state_init, tcp_connect_to, tcp_server_recv, tcp_server, tcp_init,
  tcp_has_more, tcp_read_byte, tcpout_receiver,
}
use secure_mavlink_gateway.TcpOut.Calls.{Runs-tcp_read_byte}

abbrev tcp_off : TcpOut
tcp_off = record {
  initialized = false;
  terminate = false;
  link = none;
  buffer = record { bytes = []; cur_read = 0; buffer_size = 0 };
}

-- A first attempt to connect is refused, and `recv` fails on the descriptor that it left.
abbrev refused : TcpOutCalls
refused = record {
  connecting = record { fd = some 3; reused = true; address = true; connected = false };
  received = none;
}

abbrev two_bytes : TcpOutCalls
two_bytes = record {
  connecting = record { fd = some 4; reused = true; address = true; connected = true };
  received = some (7 ∷ 9 ∷ []);
}

abbrev waiting : System (Option ℕ)
waiting = record {
  socket = record {
    initialized = true;
    terminate = false;
    link = some 4;
    buffer = record { bytes = 7 ∷ 9 ∷ []; cur_read = 0; buffer_size = 2 };
  };
  place = asleep;
  client = idle;
  arrived = 7 ∷ 9 ∷ [];
  taken = [];
}

waiting-Runs : Runs tcpout_receiver (start (record tcp_off { initialized = true })) waiting
unfolding tcp_server tcp_connect_to tcp_server_recv receive rewind resize wait_test
waiting-Runs =
    later
      (later
        (later
          (later (later (later here (fail refused refl refl refl)) (fail refused refl refl refl))
            (recv two_bytes (7 ∷ 9 ∷ []) (omega arith) refl refl refl))
          (lock 2 refl))
        (store 2 refl))
      (test refl)

Runs-tcp_read_byte_example :
    (byte : ℕ) × (rest : List ℕ) × (tcp' : TcpOut) × (tcp_read_byte waiting.socket
      ≡ done (byte, false, tcp'))
    × (waiting.taken ++ byte ∷ rest ≡ waiting.arrived)
unfolding tcp_init tcp_state_init tcp_has_more
Runs-tcp_read_byte_example = Runs-tcp_read_byte true true tcp_off refl waiting-Runs refl refl refl
