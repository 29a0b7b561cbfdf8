-- ===== src/Cleanup.antt =====
-- What the clean-ups of lib/source_tcp.c, lib/source_tcpout.c, lib/source_udp.c and lib/source_uart.c release
-- after they have set the flags, in order.
pub mod Order
use secure_mavlink_gateway.Prelude.{
  ℕ, Bool, true, false, not, Option, none, some, List, [], ◌∷◌, ◌++◌, if◌then◌else◌,
}
use secure_mavlink_gateway.Tcp.{TcpLink}
use secure_mavlink_gateway.Udp.{Udp}

pub data Release : Type 0 where
  mtx_destroy cnd_destroy thrd_join free : Release
  close : ℕ → Release

-- `if (thread != (thrd_t)-1) thrd_join(thread, NULL)`
abbrev pub join_if : Bool → List Release
join_if thread = if thread then thrd_join ∷ [] else []

-- `if (fd != -1) close(fd)`
abbrev pub close_if : Option ℕ → List Release
close_if none = []
close_if (some fd) = close fd ∷ []

-- `thread` says whether there is one.
unfoldable pub tcp_release : Bool → TcpLink → List Release
tcp_release thread link =
    mtx_destroy
    ∷ cnd_destroy
    ∷ (join_if thread ++ close_if link.fd ++ close_if link.connection ++ free ∷ [])

unfoldable pub tcpout_release : Bool → Option ℕ → List Release
tcpout_release thread fd = mtx_destroy ∷ cnd_destroy ∷ (join_if thread ++ close_if fd ++ free ∷ [])

unfoldable pub udp_release : Bool → Udp → List Release
udp_release thread udp =
    if not udp.initialized
    then []
    else mtx_destroy ∷ cnd_destroy ∷ (join_if thread ++ close_if udp.link.fd ++ free ∷ [])

unfoldable pub uart_release : Bool → Option ℕ → List Release
uart_release thread fd = mtx_destroy ∷ cnd_destroy ∷ (join_if thread ++ close_if fd ++ free ∷ [])
