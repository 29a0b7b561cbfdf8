-- ===== src/Tcp.antt =====
-- The TCP server socket of lib/source_tcp.c in a build with threads. The results of the system calls are
-- arguments: `none` is -1. Tcp.Single has the functions of a build without threads.
pub mod Calls
pub mod Single
mod Tests
use secure_mavlink_gateway.Prelude.{
  ℕ, ◌+◌, subst, ap, suc, ◌<◌, ◌≡◌, Bool, true, false, not, Option, none, some, List, [], ◌∷◌,
  length, ltb, if◌then◌else◌, arith,
}
use secure_mavlink_gateway.Outcome.{Outcome, done, assert, ◌>>=◌, ◌>>◌}
use secure_mavlink_gateway.Results.{Result, check_sent, succ, io_fault, thread_error}
use secure_mavlink_gateway.Handover.{Socket, Buffer, has_pending, read_locked, Receiver}

-- `fd` and `connection`
pub record TcpLink : Type 0 where
  pub fd : Option ℕ
  pub connection : Option ℕ

abbrev pub Tcp : Type 0
Tcp = Socket TcpLink

unfoldable pub tcp_state_init : Tcp → Tcp
tcp_state_init tcp = record tcp {
  terminate = false;
  link = record (tcp.link) { connection = none };
  buffer = record (tcp.buffer) { cur_read = 0; buffer_size = 0 };
}

-- The flags; what it releases is in Cleanup.
unfoldable pub tcp_cleanup : Tcp → Tcp
tcp_cleanup tcp = record tcp { initialized = false; terminate = true }

-- What `socket` returned, and whether `setsockopt`, `bind` and `listen` succeeded.
pub record Listening : Type 0 where
  pub fd : Option ℕ
  pub reused : Bool
  pub bound : Bool
  pub listens : Bool

unfoldable pub tcp_listen_to : Listening → TcpLink → Result × TcpLink
tcp_listen_to calls link =
    let link' : TcpLink = record link { fd = calls.fd } in
    elim calls.fd [
      | none ↦ (io_fault, link')
      | some fd ↦ (
        if not calls.reused
            then io_fault
            else if not calls.bound
            then io_fault
            else if not calls.listens
            then io_fault
            else succ,
        link',
      )
    ]

unfoldable pub tcp_accept_client : Option ℕ → TcpLink → Result × TcpLink
tcp_accept_client accepted link =
    (elim accepted [ none ↦ io_fault | some fd ↦ succ ], record link { connection = accepted })

-- What `accept` and `recv` return in one round of `tcp_server`.
pub record TcpCalls : Type 0 where
  pub accepted : Option ℕ
  pub received : Option (List ℕ)

-- `recv` on an open connection: an error or an end closes it.
unfoldable pub tcp_server_recv : Option (List ℕ) → TcpLink → TcpLink × Option (List ℕ)
tcp_server_recv none link = (record link { connection = none }, none)
tcp_server_recv (some []) link = (record link { connection = none }, none)
tcp_server_recv (some (byte ∷ bytes)) link = (link, some (byte ∷ bytes))

-- A round of `tcp_server` up to `mtx_lock`.
unfoldable pub tcp_server : TcpCalls → TcpLink → TcpLink × Option (List ℕ)
unfolding tcp_accept_client tcp_server_recv
tcp_server calls link = elim link.connection [
  | some fd ↦ tcp_server_recv calls.received link
  | none ↦
      let (rv, link') = tcp_accept_client calls.accepted link in
      elim rv [ succ ↦ tcp_server_recv calls.received link' | _ ↦ (link', none) ]
]

unfoldable pub tcp_init_mt : Listening → Bool → Tcp → Result × Tcp
unfolding tcp_state_init tcp_listen_to
tcp_init_mt calls thread tcp =
    if tcp.initialized
    then (succ, tcp)
    else (let tcp' = tcp_state_init tcp in
        let (rv, link) = tcp_listen_to calls tcp'.link in
        let tcp'' : Tcp = record tcp' { link = link } in
        elim rv [
          | succ ↦
              if not thread
              then (thread_error, tcp'')
              else (succ, record tcp'' { initialized = true })
          | other ↦ (other, tcp'')
        ])

-- Whether there is more, whether `buffer_empty` is signalled, and the socket.
unfoldable pub tcp_has_more_mt : Listening → Bool → Tcp → Bool × Bool × Tcp
unfolding tcp_init_mt has_pending
tcp_has_more_mt calls thread tcp =
    let (rv, tcp') = tcp_init_mt calls thread tcp in
    elim rv [
      | succ ↦ if has_pending tcp'.buffer then (true, false, tcp') else (false, true, tcp')
      | _ ↦ (false, false, tcp')
    ]

-- The byte, whether `buffer_empty` is signalled, and the socket.
unfoldable pub tcp_read_byte_mt : Tcp → Outcome (ℕ × Bool × Tcp)
unfolding read_locked
tcp_read_byte_mt tcp = do
  assert tcp.initialized
  let (byte, buffer, empty) = read_locked tcp.buffer
  done (byte, empty, record tcp { buffer = buffer })

-- `bytes` is what `mavlink_msg_to_send_buffer` stores, and `sent` what `send` returned. The result has
-- what was handed to `send`.
unfoldable pub tcp_route_to_mt :
    Listening → Bool → Tcp → List ℕ → Option ℕ → Result × Option (List ℕ) × Tcp
unfolding tcp_init_mt
tcp_route_to_mt calls thread tcp bytes sent =
    let (rv, tcp') = tcp_init_mt calls thread tcp in
    elim rv [
      | succ ↦ elim tcp'.link.connection [
        | none ↦ (succ, none, tcp')
        | some fd ↦ (check_sent sent bytes, some bytes, tcp')
      ]
      | _ ↦ (io_fault, none, tcp')
    ]

-- Bytes that `recv` hands on.
tcp_server_recv-nonempty :
    (received : Option (List ℕ)) (l : TcpLink) {l' : TcpLink} {bytes : List ℕ}
    → tcp_server_recv received l ≡ (l', some bytes)
    → 0 < length bytes
unfolding tcp_server_recv
tcp_server_recv-nonempty none l h = cc
tcp_server_recv-nonempty (some []) l h = cc
tcp_server_recv-nonempty (some (byte ∷ bytes')) l h = grind arith

pub tcp_server-nonempty :
    (e : TcpCalls) (l : TcpLink) {l' : TcpLink} {bytes : List ℕ}
    → tcp_server e l ≡ (l', some bytes)
    → 0 < length bytes
unfolding tcp_server tcp_accept_client
tcp_server-nonempty e l h = grind (arith, tcp_server_recv-nonempty)

-- The thread as a receiver.
abbrev pub tcp_receiver : Receiver TcpLink TcpCalls
tcp_receiver = record { turn = tcp_server; nonempty = tcp_server-nonempty }
