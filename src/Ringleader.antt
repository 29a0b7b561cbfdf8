-- ===== src/Ringleader.antt =====
-- The TCP server of lib/source_ringleader.c, which hands its system calls to the ring leader and
-- gets their results in callbacks. The ring leader is a library: what it was asked for is a list of
-- requests, and what it answered a list of completions.
pub mod ReadyBytes
pub mod Bounds
pub mod Contents
pub mod Total
pub mod Once
mod Tests
use secure_mavlink_gateway.Prelude.{
  ℕ, zero, suc, ◌+◌, Bool, true, false, not, ◌&&◌, List, [], ◌∷◌, ◌++◌, ltb, if◌then◌else◌,
}
use secure_mavlink_gateway.Outcome.{Outcome, done, ◌>>=◌}
use secure_mavlink_gateway.Results.{Result, succ}
use secure_mavlink_gateway.Ringleader.ReadyBytes.{
  Ready, packet_depth, recv_loop, has_ready, take_ready,
}

-- The results of completions: `negsuc n` is -(n + 1).
pub data ℤ : Type 0 where
  pos negsuc : ℕ → ℤ

pub data Request : Type 0 where
  arena_request socket_request bind_request listen_request accept_request : Request
  recv_request : ℕ → Request
  send_arena_request send_request : List ℕ → Request

-- What the ring leader completed, by the callback that it calls. `received` has the index of the
-- packet, what the packet holds, and the result, as 0 where it is not positive; `arena_ready`
-- and `send_arena_ready` have whether there is an arena, and the latter what is to be sent.
pub data Completion : Type 0 where
  arena_ready : Bool → Completion
  socket_ready accepted : ℤ → Completion
  received : ℕ → List ℕ → ℕ → Completion
  send_arena_ready : Bool → List ℕ → Completion
  sent : Completion

pub record MavlinkRl : Type 0 where
  pub arena_flag : Bool
  pub socket_flag : Bool
  pub bind_listen_flag : Bool
  pub arena : Bool
  pub sockfd : ℤ
  pub clientfd : ℤ
  pub ready : Ready

unfoldable pub ringleader_tcp_recv_arena_cb : Bool → MavlinkRl → MavlinkRl
ringleader_tcp_recv_arena_cb made m = record m { arena = made }

unfoldable pub ringleader_tcp_socket_cb : ℤ → MavlinkRl → MavlinkRl
ringleader_tcp_socket_cb res m = record m { sockfd = res }

-- A round for each of the at most 512 bytes is enough, and one to end.
unfoldable pub ringleader_tcp_recv_cb :
    ℕ → List ℕ → ℕ → MavlinkRl → Outcome (List Request × MavlinkRl)
unfolding recv_loop
ringleader_tcp_recv_cb index packet res m =
    if not (ltb 0 res)
    then done ([], m)
    else (recv_loop (suc res) packet res m.ready >>= λ ready.
        done (recv_request index ∷ [], record m { ready = ready }))

-- A request for each packet from `index` on.
abbrev pub recv_requests : (n index : ℕ) → List Request
recv_requests zero index = []
recv_requests (suc n) index = recv_request index ∷ recv_requests n (index + 1)

unfoldable pub ringleader_tcp_accept_cb : ℤ → MavlinkRl → List Request × MavlinkRl
ringleader_tcp_accept_cb res m = (recv_requests packet_depth 0, record m { clientfd = res })

unfoldable pub ringleader_tcp_send_arena_cb : Bool → List ℕ → List Request
ringleader_tcp_send_arena_cb made bytes = if not made then [] else send_request bytes ∷ []

-- `ringleader_consume_cqe` calls the callback of the completion.
unfoldable pub consume_cqe : Completion → MavlinkRl → Outcome (List Request × MavlinkRl)
unfolding ringleader_tcp_recv_arena_cb ringleader_tcp_socket_cb ringleader_tcp_recv_cb
    ringleader_tcp_accept_cb ringleader_tcp_send_arena_cb
consume_cqe (arena_ready made) m = done ([], ringleader_tcp_recv_arena_cb made m)
consume_cqe (socket_ready res) m = done ([], ringleader_tcp_socket_cb res m)
consume_cqe (accepted res) m = done (ringleader_tcp_accept_cb res m)
consume_cqe (received index packet res) m = ringleader_tcp_recv_cb index packet res m
consume_cqe (send_arena_ready made bytes) m = done (ringleader_tcp_send_arena_cb made bytes, m)
consume_cqe sent m = done ([], m)

unfoldable pub consume_all : List Completion → MavlinkRl → Outcome (List Request × MavlinkRl)
unfolding consume_cqe
consume_all [] m = done ([], m)
consume_all (cqe ∷ rest) m = consume_cqe cqe m >>= λ (requests, m').
    consume_all rest m' >>= λ (requests', m''). done (requests ++ requests', m'')

-- `sockfd != -1`
abbrev pub has_socket : ℤ → Bool
has_socket (negsuc zero) = false
has_socket res = true

-- What `ringleader_tcp_tick` asks for when the completions are consumed.
unfoldable pub tick_requests : MavlinkRl → List Request × MavlinkRl
tick_requests m =
    if not m.arena
    then (
      (if not m.arena_flag then arena_request ∷ [] else [])
          ++ (if not m.socket_flag then socket_request ∷ [] else []),
      record m { arena_flag = true; socket_flag = true },
    )
    else if has_socket m.sockfd && not m.bind_listen_flag
    then (bind_request ∷ listen_request ∷ accept_request ∷ [], record m { bind_listen_flag = true })
    else ([], m)

-- `finished` is whether `ringleader_init_finished` returned ERR_OK, and whether the result is a ring
-- leader.
unfoldable pub ringleader_tcp_tick :
    Bool → List Completion → MavlinkRl → Outcome (List Request × MavlinkRl)
unfolding consume_all tick_requests
ringleader_tcp_tick finished cqes m =
    if not finished
    then done ([], m)
    else (consume_all cqes m >>= λ (requests, m').
        let (requests', m'') = tick_requests m' in done (requests ++ requests', m''))

unfoldable pub ringleader_tcp_init :
    Bool → List Completion → MavlinkRl → Outcome (Result × List Request × MavlinkRl)
unfolding ringleader_tcp_tick
ringleader_tcp_init finished cqes m =
    ringleader_tcp_tick finished cqes m >>= λ (requests, m'). done (succ, requests, m')

unfoldable pub ringleader_tcp_has_more :
    Bool → List Completion → MavlinkRl → Outcome (Bool × List Request × MavlinkRl)
unfolding ringleader_tcp_tick has_ready
ringleader_tcp_has_more finished cqes m = ringleader_tcp_tick finished cqes m >>= λ (requests, m').
    done (has_ready m'.ready, requests, m')

-- The byte as an unsigned one; the gateway keeps its low 8 bits.
unfoldable pub ringleader_tcp_read_byte : MavlinkRl → ℕ × MavlinkRl
unfolding take_ready
ringleader_tcp_read_byte m =
    let (byte, ready) = take_ready m.ready in (byte, record m { ready = ready })

-- `clientfd > 0`
abbrev pub has_client : ℤ → Bool
has_client (pos n) = ltb 0 n
has_client (negsuc n) = false

-- The codes of `err_t` that the source names, and the others.
pub data Err : Type 0 where
  err_ok err_no_mem err_other : Err

-- `allocated` is whether `malloc` gave memory, `bytes` what `mavlink_msg_to_send_buffer` stores, and
-- `err` what `ringleader_request_arena_callback` returned; the completions are those of the two
-- ticks.
unfoldable pub ringleader_tcp_route_to :
    Bool
    → (cqes cqes' : List Completion) → (allocated : Bool) → List ℕ
    → Err
    → MavlinkRl
    → Outcome (Err × List Request × MavlinkRl)
unfolding ringleader_tcp_tick
ringleader_tcp_route_to finished cqes cqes' allocated bytes err m =
    ringleader_tcp_tick finished cqes m >>= λ (requests, m').
    if finished && has_client m'.clientfd
    then (if not allocated
        then done (err_no_mem, requests, m')
        else (ringleader_tcp_tick finished cqes' m' >>= λ (requests', m'').
            done (err, requests ++ send_arena_request bytes ∷ requests', m'')))
    else done (err_ok, requests, m')
