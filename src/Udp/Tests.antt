-- ===== src/Udp/Tests.antt =====
-- Runs of the socket of lib/source_udp.c on concrete datagrams.
use secure_mavlink_gateway.Prelude.{
  ℕ, List, ◌≡◌, inl, refl, true, false, none, some, [], ◌∷◌, ◌++◌, arith,
}
use secure_mavlink_gateway.Results.{succ, io_fault, no_client}
use secure_mavlink_gateway.Handover.{
  asleep, idle, System, start, Runs, here, later, fail, recv, lock, store, test, receive, rewind,
  resize, wait_test,
}
use secure_mavlink_gateway.Udp.{
  udp_init, udp_has_more, udp_read_byte, Udp, UdpLink, Datagram, Opening, note_client, udp_server,
  udp_route_to, udp_receiver,
}
use secure_mavlink_gateway.Udp.Calls.{Runs-udp_read_byte}
use secure_mavlink_gateway.Udp.Calls.Clients.{after_rounds, udp_rounds-udp_route_to}

abbrev udp_off : Udp
udp_off = record {
  initialized = false;
  terminate = false;
  link = record { fd = none; has_client = false; clt_addr = [] };
  buffer = record { bytes = []; cur_read = 0; buffer_size = 0 };
}

abbrev opening : Opening
opening = record { fd = some 3; bound = true; thread = true }

abbrev udp_on : Udp
udp_on = record udp_off {
  initialized = true;
  link = record { fd = some 3; has_client = false; clt_addr = [] };
}

abbrev lost : Datagram
lost = record { received = none; sender = [] }

abbrev two_bytes : Datagram
two_bytes = record { received = some (7 ∷ 9 ∷ []); sender = 127 ∷ 1 ∷ [] }

abbrev other_client : Datagram
other_client = record { received = some (8 ∷ []); sender = 10 ∷ 2 ∷ [] }

abbrev waiting : System UdpLink
waiting = record {
  socket = record udp_on {
    link = record { fd = some 3; has_client = true; clt_addr = 127 ∷ 1 ∷ [] };
    buffer = record { bytes = 7 ∷ 9 ∷ []; cur_read = 0; buffer_size = 2 };
  };
  place = asleep;
  client = idle;
  arrived = 7 ∷ 9 ∷ [];
  taken = [];
}

waiting-Runs : Runs udp_receiver (start udp_on) waiting
unfolding udp_server note_client receive rewind resize wait_test
waiting-Runs =
    later
      (later
        (later
          (later (later here (fail lost refl refl refl))
            (recv two_bytes (7 ∷ 9 ∷ []) (omega arith) refl refl refl))
          (lock 2 refl))
        (store 2 refl))
      (test refl)

udp_rounds-udp_route_to_example :
    let known = after_rounds ((two_bytes ∷ []) ++ lost ∷ other_client ∷ two_bytes ∷ []) udp_on in
    let lost' = after_rounds ((two_bytes ∷ []) ++ lost ∷ []) udp_on in
    (udp_route_to opening known (1 ∷ []) (some 1) ≡ (succ, some (1 ∷ [], 10 ∷ 2 ∷ []), known))
    × (udp_route_to opening known (1 ∷ []) none ≡ (io_fault, some (1 ∷ [], 10 ∷ 2 ∷ []), known))
    × (udp_route_to opening lost' (1 ∷ []) (some 1) ≡ (no_client, none, lost'))
udp_rounds-udp_route_to_example =
    udp_rounds-udp_route_to (two_bytes ∷ []) (two_bytes ∷ []) lost other_client opening udp_on
      (1 ∷ []) 1 refl (inl refl) (8, [], refl) ((7, 9 ∷ [], refl), tt)

Runs-udp_read_byte_example :
    (byte : ℕ) × (rest : List ℕ) × (udp' : Udp) × (udp_read_byte waiting.socket
      ≡ (byte, false, udp'))
    × (waiting.taken ++ byte ∷ rest ≡ waiting.arrived)
unfolding udp_init udp_has_more
Runs-udp_read_byte_example =
    Runs-udp_read_byte opening opening udp_off refl waiting-Runs refl refl refl
