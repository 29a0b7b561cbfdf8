-- ===== src/Tcp/Calls.antt =====
-- What the calls of the gateway on the TCP server socket return.
use secure_mavlink_gateway.Prelude.{
  ℕ, ◌≤◌, ◌≡◌, ◌⊎◌, ◌↔◌, refl, sym, ap, ◌∙◌, Bool, true, false, not, Option, none, some, List, ◌∷◌,
  ◌++◌, length, arith,
}
use secure_mavlink_gateway.Outcome.{done}
use secure_mavlink_gateway.Results.{check_sent-succ, succ}
use secure_mavlink_gateway.Handover.{has_pending, holds_lock, start, System, Runs}
use secure_mavlink_gateway.Handover.Reads.{start-read_locked}
use secure_mavlink_gateway.Tcp.{
  Tcp, TcpLink, tcp_state_init, Listening, tcp_init_mt, tcp_has_more_mt, tcp_read_byte_mt,
  tcp_route_to_mt, tcp_receiver,
}

-- A socket that was not initialised has nothing to read afterwards.
tcp_init_mt-empty :
    (calls : Listening) (thread : Bool) (tcp : Tcp)
    → tcp.initialized ≡ false
    → (tcp_init_mt calls thread tcp).1.buffer.buffer_size
      ≤ (tcp_init_mt calls thread tcp).1.buffer.cur_read
unfolding tcp_init_mt tcp_state_init
tcp_init_mt-empty calls thread tcp off = grind arith

tcp_has_more_mt-pending :
    (calls : Listening) (thread : Bool) (tcp : Tcp)
    → tcp.initialized ≡ true
    → tcp_has_more_mt calls thread tcp ≡ (has_pending tcp.buffer, not (has_pending tcp.buffer), tcp)
unfolding tcp_has_more_mt tcp_init_mt
tcp_has_more_mt-pending calls thread tcp on = grind arith

-- `tcp_init_mt` sets up a socket, and its thread and the gateway then run in any order. Whenever the
-- lock is free and `tcp_has_more_mt` returns 1, `tcp_read_byte_mt` returns the next of the bytes
-- that arrived, and does not signal.
pub Runs-tcp_read_byte_mt :
    (calls calls' : Listening) (thread thread' : Bool) (tcp : Tcp) {t : System TcpLink}
    → tcp.initialized ≡ false
    → Runs tcp_receiver (start (tcp_init_mt calls thread tcp).1) t
    → t.socket.initialized ≡ true
    → holds_lock t.place ≡ false
    → (tcp_has_more_mt calls' thread' t.socket).0 ≡ true
    → (byte : ℕ) × (rest : List ℕ) × (tcp' : Tcp) × (tcp_read_byte_mt t.socket
        ≡ done (byte, false, tcp'))
      × (t.taken ++ byte ∷ rest ≡ t.arrived)
unfolding tcp_read_byte_mt
Runs-tcp_read_byte_mt calls calls' thread thread' tcp {t} off run on free there =
    let seen : has_pending t.socket.buffer ≡ true =
      sym (ap (λ p. p.0) (tcp_has_more_mt-pending calls' thread' t.socket on)) ∙ there in
    let (byte, rest, b, got, order) =
      start-read_locked tcp_receiver (tcp_init_mt-empty calls thread tcp off) run free seen in
    (byte, rest, record (t.socket) { buffer = b }, rw (on, got) refl, order)

-- `tcp_route_to_mt` succeeds exactly if the socket is set up, or could be, and either no client is
-- connected or `send` took the whole message; in every other case it reports an error.
pub tcp_route_to_mt_lem :
    (calls : Listening) (thread : Bool) (tcp : Tcp) (bytes : List ℕ) (sent : Option ℕ)
    → ((tcp_route_to_mt calls thread tcp bytes sent).0 ≡ succ)
      ↔ ((tcp_init_mt calls thread tcp).0 ≡ succ)
        × (((tcp_init_mt calls thread tcp).1.link.connection ≡ none)
            ⊎ ((n : ℕ) × (sent ≡ some n) × (length bytes ≤ n)))
unfolding tcp_route_to_mt
tcp_route_to_mt_lem calls thread tcp bytes sent =
    let (sends, says) = check_sent-succ sent bytes in
    (λ h. grind (arith, sends), λ (ready, can). grind (arith, says))
