-- ===== src/Udp/Calls.antt =====
-- What the calls of the gateway on the UDP socket return.
pub mod Clients
use secure_mavlink_gateway.Prelude.{
  ℕ, ◌≤◌, ◌≡◌, refl, sym, ap, ◌∙◌, Bool, true, false, not, List, ◌∷◌, ◌++◌, arith,
}
use secure_mavlink_gateway.Handover.{has_pending, holds_lock, start, System, Runs}
use secure_mavlink_gateway.Handover.Reads.{start-read_locked}
use secure_mavlink_gateway.Udp.{
  Udp, UdpLink, Opening, udp_init, udp_has_more, udp_read_byte, udp_receiver,
}

udp_init-empty :
    (calls : Opening) (udp : Udp)
    → udp.initialized ≡ false
    → (udp_init calls udp).1.buffer.buffer_size ≤ (udp_init calls udp).1.buffer.cur_read
unfolding udp_init
udp_init-empty calls udp off = grind arith

udp_has_more-pending :
    (calls : Opening) (udp : Udp)
    → udp.initialized ≡ true
    → udp_has_more calls udp ≡ (has_pending udp.buffer, not (has_pending udp.buffer), udp)
unfolding udp_has_more udp_init
udp_has_more-pending calls udp on = grind arith

-- `udp_init` sets up a socket, and its thread and the gateway then run in any order. Whenever the lock
-- is free and `udp_has_more` returns 1, `udp_read_byte` returns the next of the bytes that arrived, and
-- does not signal.
pub Runs-udp_read_byte :
    (calls calls' : Opening) (udp : Udp) {t : System UdpLink}
    → udp.initialized ≡ false
    → Runs udp_receiver (start (udp_init calls udp).1) t
    → t.socket.initialized ≡ true
    → holds_lock t.place ≡ false
    → (udp_has_more calls' t.socket).0 ≡ true
    → (byte : ℕ) × (rest : List ℕ) × (udp' : Udp) × (udp_read_byte t.socket ≡ (byte, false, udp'))
      × (t.taken ++ byte ∷ rest ≡ t.arrived)
unfolding udp_read_byte
Runs-udp_read_byte calls calls' udp {t} off run on free there =
    let seen : has_pending t.socket.buffer ≡ true =
      sym (ap (λ p. p.0) (udp_has_more-pending calls' t.socket on)) ∙ there in
    let (byte, rest, b, got, order) =
      start-read_locked udp_receiver (udp_init-empty calls udp off) run free seen in
    (byte, rest, record (t.socket) { buffer = b }, rw got refl, order)
