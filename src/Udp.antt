-- ===== src/Udp.antt =====
-- The UDP socket of lib/source_udp.c. The results of the system calls are arguments: `none` is -1.
pub mod Calls
mod Tests
use secure_mavlink_gateway.Prelude.{
  ℕ, ◌+◌, ◌<◌, ◌≡◌, Bool, true, false, not, Option, none, some, List, [], ◌∷◌, length, ltb,
  if◌then◌else◌, arith,
}
use secure_mavlink_gateway.Results.{Result, succ, io_fault, no_client, thread_error}
use secure_mavlink_gateway.Handover.{Socket, Buffer, has_pending, read_locked, Receiver}

-- An address with its length: the bytes of a `struct sockaddr`.
abbrev pub Address : Type 0
Address = List ℕ

-- `fd`, `has_client`, and `clt_addr` with `clt_addr_len`
pub record UdpLink : Type 0 where
  pub fd : Option ℕ
  pub has_client : Bool
  pub clt_addr : Address

abbrev pub Udp : Type 0
Udp = Socket UdpLink

-- What `recvfrom` returned, and the address that it stored.
pub record Datagram : Type 0 where
  pub received : Option (List ℕ)
  pub sender : Address

-- The first datagram after a failure says who the client is.
unfoldable pub note_client : Address → UdpLink → UdpLink
note_client sender link =
    if not link.has_client then record link { has_client = true; clt_addr = sender } else link

-- A round of `udp_server` up to `mtx_lock`.
unfoldable pub udp_server : Datagram → UdpLink → UdpLink × Option (List ℕ)
unfolding note_client
udp_server datagram link = elim datagram.received [
  | none ↦ (record link { has_client = false }, none)
  | some bytes ↦ elim bytes [
    | [] ↦ (record link { has_client = false }, none)
    | byte ∷ more ↦ (note_client datagram.sender link, some (byte ∷ more))
  ]
]

-- What `socket` returned, whether `bind` succeeded, and whether the thread was created.
pub record Opening : Type 0 where
  pub fd : Option ℕ
  pub bound : Bool
  pub thread : Bool

unfoldable pub udp_init : Opening → Udp → Result × Udp
udp_init calls udp =
    if udp.initialized
    then (succ, udp)
    else (let udp' : Udp = record udp {
      terminate = false;
      link = record (udp.link) { has_client = false; fd = calls.fd };
      buffer = record (udp.buffer) { cur_read = 0; buffer_size = 0 };
    } in
        elim calls.fd [
          | none ↦ (io_fault, udp')
          | some fd ↦
              if not calls.bound
              then (io_fault, udp')
              else if not calls.thread
              then (thread_error, udp')
              else (succ, record udp' { initialized = true })
        ])

-- The flags; what it releases is in Cleanup.
unfoldable pub udp_cleanup : Udp → Udp
udp_cleanup udp =
    if not udp.initialized then udp else record udp { initialized = false; terminate = true }

-- Whether there is more, whether `buffer_empty` is signalled, and the socket.
unfoldable pub udp_has_more : Opening → Udp → Bool × Bool × Udp
unfolding udp_init has_pending
udp_has_more calls udp =
    let (rv, udp') = udp_init calls udp in
    elim rv [
      | succ ↦ if has_pending udp'.buffer then (true, false, udp') else (false, true, udp')
      | _ ↦ (false, false, udp')
    ]

-- The byte, whether `buffer_empty` is signalled, and the socket.
unfoldable pub udp_read_byte : Udp → ℕ × Bool × Udp
unfolding read_locked
udp_read_byte udp =
    let (byte, buffer, empty) = read_locked udp.buffer in
    (byte, empty, record udp { buffer = buffer })

-- `bytes` is what `mavlink_msg_to_send_buffer` stores, and `sent` what `sendto` returned. The result
-- has what was handed to `sendto`, with the address.
unfoldable pub udp_route_to :
    Opening → Udp → List ℕ → Option ℕ → Result × Option (List ℕ × Address) × Udp
unfolding udp_init
udp_route_to calls udp bytes sent =
    let (rv, udp') = udp_init calls udp in
    elim rv [
      | succ ↦ if not udp'.link.has_client then (no_client, none, udp') else (
        elim sent [ none ↦ io_fault | some n ↦ succ ],
        some (bytes, udp'.link.clt_addr),
        udp',
      )
      | other ↦ (other, none, udp')
    ]

pub udp_server-nonempty :
    (e : Datagram) (l : UdpLink) {l' : UdpLink} {bytes : List ℕ}
    → udp_server e l ≡ (l', some bytes)
    → 0 < length bytes
unfolding udp_server
udp_server-nonempty e l h = grind arith

-- The thread as a receiver.
abbrev pub udp_receiver : Receiver UdpLink Datagram
udp_receiver = record { turn = udp_server; nonempty = udp_server-nonempty }
