-- ===== src/Cleanup/Order.antt =====
-- Which descriptors the clean-ups close, and when they join the thread.
use secure_mavlink_gateway.Prelude.{
  ℕ, ◌≡◌, refl, Bool, true, false, not, Option, none, some, List, [], ◌∷◌, ◌++◌,
}
use secure_mavlink_gateway.Udp.{Udp}
use secure_mavlink_gateway.Cleanup.{
  Release, cnd_destroy, thrd_join, close, tcp_release, tcpout_release, udp_release, uart_release,
}

abbrev pub closed : List Release → List ℕ
closed [] = []
closed (close fd ∷ rs) = fd ∷ closed rs
closed (r ∷ rs) = closed rs

abbrev pub descriptor : Option ℕ → List ℕ
descriptor none = []
descriptor (some fd) = fd ∷ []

abbrev pub has_join : List Release → Bool
has_join [] = false
has_join (thrd_join ∷ rs) = true
has_join (r ∷ rs) = has_join rs

-- Whether the thread is joined, if at all, while the condition that it waits on is there.
abbrev pub joins_in_time : List Release → Bool
joins_in_time [] = true
joins_in_time (cnd_destroy ∷ rs) = not (has_join rs)
joins_in_time (r ∷ rs) = joins_in_time rs

-- The descriptors that are closed, and that a thread is joined too late.
abbrev Releases : List Release → Bool → List ℕ → Type 0
Releases rs thread fds = (closed rs ≡ fds) × (joins_in_time rs ≡ not thread)

tcp_release_lem :
    (thread : Bool) (fd connection : Option ℕ)
    → Releases
        (tcp_release thread (record { fd = fd; connection = connection }))
        thread
        (descriptor fd ++ descriptor connection)
unfolding tcp_release
tcp_release_lem true none none = (refl, refl)
tcp_release_lem true none (some c) = (refl, refl)
tcp_release_lem true (some s) none = (refl, refl)
tcp_release_lem true (some s) (some c) = (refl, refl)
tcp_release_lem false none none = (refl, refl)
tcp_release_lem false none (some c) = (refl, refl)
tcp_release_lem false (some s) none = (refl, refl)
tcp_release_lem false (some s) (some c) = (refl, refl)

tcpout_release_lem :
    (thread : Bool) (fd : Option ℕ) → Releases (tcpout_release thread fd) thread (descriptor fd)
unfolding tcpout_release
tcpout_release_lem true none = (refl, refl)
tcpout_release_lem true (some s) = (refl, refl)
tcpout_release_lem false none = (refl, refl)
tcpout_release_lem false (some s) = (refl, refl)

uart_release_lem :
    (thread : Bool) (fd : Option ℕ) → Releases (uart_release thread fd) thread (descriptor fd)
unfolding uart_release
uart_release_lem true none = (refl, refl)
uart_release_lem true (some s) = (refl, refl)
uart_release_lem false none = (refl, refl)
uart_release_lem false (some s) = (refl, refl)

udp_release_of :
    (thread : Bool) (fd : Option ℕ) (udp : Udp)
    → udp.initialized ≡ true
    → udp.link.fd ≡ fd
    → Releases (udp_release thread udp) thread (descriptor fd)
unfolding udp_release
udp_release_of true none udp on same = rw (on, same) (refl, refl)
udp_release_of true (some s) udp on same = rw (on, same) (refl, refl)
udp_release_of false none udp on same = rw (on, same) (refl, refl)
udp_release_of false (some s) udp on same = rw (on, same) (refl, refl)

-- The clean-ups of the two TCP sockets, of an initialised UDP socket and of the UART close every descriptor
-- that is open, each once, and where there is a thread they join it after the condition that it waits
-- on is destroyed.
cleanups_lem :
    (thread : Bool) (fd connection : Option ℕ) (udp : Udp)
    → udp.initialized ≡ true
    → Releases
        (tcp_release thread (record { fd = fd; connection = connection }))
        thread
        (descriptor fd ++ descriptor connection)
      × Releases (tcpout_release thread fd) thread (descriptor fd)
      × Releases (udp_release thread udp) thread (descriptor udp.link.fd)
      × Releases (uart_release thread fd) thread (descriptor fd)
cleanups_lem thread fd connection udp on = (
  tcp_release_lem thread fd connection,
  tcpout_release_lem thread fd,
  udp_release_of thread udp.link.fd udp on refl,
  uart_release_lem thread fd,
)
