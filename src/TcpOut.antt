-- ===== src/TcpOut.antt =====
-- The TCP client socket of lib/source_tcpout.c. The results of the system calls are arguments: `none` is
-- -1.
pub mod Calls
mod Tests
use secure_mavlink_gateway.Prelude.{
  ℕ, ◌+◌, ◌<◌, ◌≡◌, Bool, true, false, not, Option, none, some, List, [], ◌∷◌, length, ltb,
  if◌then◌else◌, arith,
}
use secure_mavlink_gateway.Outcome.{Outcome, done, assert, ◌>>=◌, ◌>>◌}
use secure_mavlink_gateway.Results.{Result, check_sent, succ, io_fault, thread_error}
use secure_mavlink_gateway.Handover.{Socket, Buffer, has_pending, read_locked, Receiver}

-- `fd`
abbrev pub TcpOut : Type 0
TcpOut = Socket (Option ℕ)

unfoldable pub tcp_state_init : TcpOut → TcpOut
tcp_state_init tcp = record tcp {
  terminate = false;
  link = none;
  buffer = record (tcp.buffer) { cur_read = 0; buffer_size = 0 };
}

-- The flags; what it releases is in Cleanup.
unfoldable pub tcp_cleanup : TcpOut → TcpOut
tcp_cleanup tcp = record tcp { initialized = false; terminate = true }

-- What `socket` returned, and whether `setsockopt`, `inet_pton` and `connect` succeeded.
pub record Connecting : Type 0 where
  pub fd : Option ℕ
  pub reused : Bool
  pub address : Bool
  pub connected : Bool

-- The result, and the new `fd`.
unfoldable pub tcp_connect_to : Connecting → Result × Option ℕ
tcp_connect_to calls = elim calls.fd [
  | none ↦ (io_fault, none)
  | some fd ↦ (
    if not calls.reused
        then io_fault
        else if not calls.address
        then io_fault
        else if not calls.connected
        then io_fault
        else succ,
    some fd,
  )
]

-- What the calls of one round of `tcp_server` return.
pub record TcpOutCalls : Type 0 where
  pub connecting : Connecting
  pub received : Option (List ℕ)

-- `recv` on the socket `fd`: an error or an end closes it.
unfoldable pub tcp_server_recv : Option (List ℕ) → Option ℕ → Option ℕ × Option (List ℕ)
tcp_server_recv none fd = (none, none)
tcp_server_recv (some []) fd = (none, none)
tcp_server_recv (some (byte ∷ bytes)) fd = (fd, some (byte ∷ bytes))

-- A round of `tcp_server` up to `mtx_lock`.
unfoldable pub tcp_server : TcpOutCalls → Option ℕ → Option ℕ × Option (List ℕ)
unfolding tcp_connect_to tcp_server_recv
tcp_server calls (some fd) = tcp_server_recv calls.received (some fd)
tcp_server calls none =
    let (rv, fd') = tcp_connect_to calls.connecting in
    elim rv [ succ ↦ tcp_server_recv calls.received fd' | _ ↦ (fd', none) ]

unfoldable pub tcp_init : Bool → TcpOut → Result × TcpOut
unfolding tcp_state_init
tcp_init thread tcp =
    if tcp.initialized
    then (succ, tcp)
    else (let tcp' = tcp_state_init tcp in
        if not thread then (thread_error, tcp') else (succ, record tcp' { initialized = true }))

-- Whether there is more, whether `buffer_empty` is signalled, and the socket.
unfoldable pub tcp_has_more : Bool → TcpOut → Bool × Bool × TcpOut
unfolding tcp_init has_pending
tcp_has_more thread tcp =
    let (rv, tcp') = tcp_init thread tcp in
    elim rv [
      | succ ↦ if has_pending tcp'.buffer then (true, false, tcp') else (false, true, tcp')
      | _ ↦ (false, false, tcp')
    ]

-- The byte, whether `buffer_empty` is signalled, and the socket.
unfoldable pub tcp_read_byte : TcpOut → Outcome (ℕ × Bool × TcpOut)
unfolding read_locked
tcp_read_byte tcp = do
  assert tcp.initialized
  let (byte, buffer, empty) = read_locked tcp.buffer
  done (byte, empty, record tcp { buffer = buffer })

-- `bytes` is what `mavlink_msg_to_send_buffer` stores, and `sent` what `send` returned. The result has
-- what was handed to `send`.
unfoldable pub tcp_route_to : Bool → TcpOut → List ℕ → Option ℕ → Result × Option (List ℕ) × TcpOut
unfolding tcp_init check_sent
tcp_route_to thread tcp bytes sent =
    let (rv, tcp') = tcp_init thread tcp in
    elim rv [
      | succ ↦ elim tcp'.link [
        | none ↦ (succ, none, tcp')
        | some fd ↦ (check_sent sent bytes, some bytes, tcp')
      ]
      | _ ↦ (io_fault, none, tcp')
    ]

-- Bytes that `recv` hands on.
tcp_server_recv-nonempty :
    (received : Option (List ℕ)) (fd : Option ℕ) {fd' : Option ℕ} {bytes : List ℕ}
    → tcp_server_recv received fd ≡ (fd', some bytes)
    → 0 < length bytes
unfolding tcp_server_recv
tcp_server_recv-nonempty none fd h = cc
tcp_server_recv-nonempty (some []) fd h = cc
tcp_server_recv-nonempty (some (byte ∷ bytes')) fd h = grind arith

pub tcp_server-nonempty :
    (e : TcpOutCalls) (fd : Option ℕ) {fd' : Option ℕ} {bytes : List ℕ}
    → tcp_server e fd ≡ (fd', some bytes)
    → 0 < length bytes
unfolding tcp_server
tcp_server-nonempty e none h = grind (arith, tcp_server_recv-nonempty)
tcp_server-nonempty e (some fd) h = grind (arith, tcp_server_recv-nonempty)

-- The thread as a receiver.
abbrev pub tcpout_receiver : Receiver (Option ℕ) TcpOutCalls
tcpout_receiver = record { turn = tcp_server; nonempty = tcp_server-nonempty }
