-- ===== src/TcpOut/Calls.antt =====
-- What the calls of the gateway on the TCP client socket return.
use secure_mavlink_gateway.Prelude.{
  ℕ, ◌≤◌, ◌≡◌, ◌⊎◌, ◌↔◌, refl, sym, ap, ◌∙◌, Bool, true, false, not, Option, none, some, List, ◌∷◌,
  ◌++◌, length, arith,
}
use secure_mavlink_gateway.Outcome.{done}
use secure_mavlink_gateway.Results.{check_sent-succ, succ}
use secure_mavlink_gateway.Handover.{has_pending, holds_lock, start, System, Runs}
use secure_mavlink_gateway.Handover.Reads.{start-read_locked}
use secure_mavlink_gateway.TcpOut.{
  TcpOut, tcp_state_init, tcp_init, tcp_has_more, tcp_read_byte, tcp_route_to, tcpout_receiver,
}

tcp_init-empty :
    (thread : Bool) (tcp : TcpOut)
    → tcp.initialized ≡ false
    → (tcp_init thread tcp).1.buffer.buffer_size ≤ (tcp_init thread tcp).1.buffer.cur_read
unfolding tcp_init tcp_state_init
tcp_init-empty thread tcp off = grind arith

tcp_has_more-pending :
    (thread : Bool) (tcp : TcpOut)
    → tcp.initialized ≡ true
    → tcp_has_more thread tcp ≡ (has_pending tcp.buffer, not (has_pending tcp.buffer), tcp)
unfolding tcp_has_more tcp_init
tcp_has_more-pending thread tcp on = grind arith

-- `tcp_init` sets up a socket, and its thread, which connects again whenever the connection is lost,
-- and the gateway then run in any order. Whenever the lock is free and `tcp_has_more` returns 1,
-- `tcp_read_byte` returns the next of the bytes that arrived, and does not signal.
pub Runs-tcp_read_byte :
    (thread thread' : Bool) (tcp : TcpOut) {t : System (Option ℕ)}
    → tcp.initialized ≡ false
    → Runs tcpout_receiver (start (tcp_init thread tcp).1) t
    → t.socket.initialized ≡ true
    → holds_lock t.place ≡ false
    → (tcp_has_more thread' t.socket).0 ≡ true
    → (byte : ℕ) × (rest : List ℕ) × (tcp' : TcpOut) × (tcp_read_byte t.socket
        ≡ done (byte, false, tcp'))
      × (t.taken ++ byte ∷ rest ≡ t.arrived)
unfolding tcp_read_byte
Runs-tcp_read_byte thread thread' tcp {t} off run on free there =
    let seen : has_pending t.socket.buffer ≡ true =
      sym (ap (λ p. p.0) (tcp_has_more-pending thread' t.socket on)) ∙ there in
    let (byte, rest, b, got, order) =
      start-read_locked tcpout_receiver (tcp_init-empty thread tcp off) run free seen in
    (byte, rest, record (t.socket) { buffer = b }, rw (on, got) refl, order)

-- `tcp_route_to` succeeds exactly if the socket is set up, or could be, and either it is not connected or
-- `send` took the whole message; in every other case it reports an error.
tcp_route_to_lem :
    (thread : Bool) (tcp : TcpOut) (bytes : List ℕ) (sent : Option ℕ)
    → ((tcp_route_to thread tcp bytes sent).0 ≡ succ)
      ↔ ((tcp_init thread tcp).0 ≡ succ)
        × (((tcp_init thread tcp).1.link ≡ none) ⊎ ((n : ℕ) × (sent ≡ some n) × (length bytes ≤ n)))
unfolding tcp_route_to
tcp_route_to_lem thread tcp bytes sent =
    let (sends, says) = check_sent-succ sent bytes in
    (λ h. grind (arith, sends), λ (ready, can). grind (arith, says))
