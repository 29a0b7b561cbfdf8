-- ===== src/Ringleader/Tests.antt =====
-- Runs of the ring leader's server on concrete completions.
use secure_mavlink_gateway.Prelude.{
  ℕ, ◌≤◌, ◌≡◌, refl, Bool, true, false, not, List, [], ◌∷◌, ◌++◌, length, replicate,
  length-replicate, ◌==◌, arith,
}
use secure_mavlink_gateway.Outcome.{Ensures}
use secure_mavlink_gateway.Ringleader.{
  pos, negsuc, recv_request, Completion, arena_ready, socket_ready, accepted, received, MavlinkRl,
  ringleader_tcp_recv_cb, ringleader_tcp_read_byte,
}
use secure_mavlink_gateway.Ringleader.ReadyBytes.{Ready, push_tail, has_ready}
use secure_mavlink_gateway.Ringleader.Bounds.{IsInside}
use secure_mavlink_gateway.Ringleader.Contents.{
  contents, ringleader_tcp_recv_cb-contents, ringleader_tcp_read_byte-contents,
}
use secure_mavlink_gateway.Ringleader.Total.{ticks}
use secure_mavlink_gateway.Ringleader.Once.{count, is_arena, is_socket, is_accept, ticks-count}

abbrev at_end : Ready
at_end = record { bytes = replicate 8192 0; head = 8191; tail = 8190 }

abbrev empty : Ready
empty = record { bytes = replicate 8192 0; head = 0; tail = 0 }

abbrev fresh : Ready → MavlinkRl
fresh ready = record {
  arena_flag = false;
  socket_flag = false;
  bind_listen_flag = false;
  arena = false;
  sockfd = negsuc 0;
  clientfd = negsuc 0;
  ready = ready;
}

at_end-IsInside : IsInside at_end
at_end-IsInside = record {
  size = length-replicate {A = ℕ} 8192 0;
  head_in = omega arith;
  tail_in = omega arith;
}

empty-IsInside : IsInside empty
empty-IsInside = record {
  size = length-replicate {A = ℕ} 8192 0;
  head_in = omega arith;
  tail_in = omega arith;
}

-- A packet that goes past the end of the `ready` bytes.
ringleader_tcp_recv_cb-contents_example :
    Ensures (ringleader_tcp_recv_cb 0 (1 ∷ 2 ∷ 3 ∷ []) 3 (fresh at_end)) (λ (requests, m').
      (requests ≡ recv_request 0 ∷ [])
      × (contents m'.ready ≡ contents at_end ++ (1 ∷ []) ++ (1 ∷ 2 ∷ [])))
ringleader_tcp_recv_cb-contents_example =
    ringleader_tcp_recv_cb-contents 0 (1 ∷ 2 ∷ 3 ∷ []) 3 (fresh at_end) (omega arith) (omega arith)
      at_end-IsInside (omega arith)

ringleader_tcp_read_byte-contents_example :
    (has_ready at_end ≡ not (length (contents at_end) == 0))
    × (has_ready at_end ≡ true
        → let (byte, m') = ringleader_tcp_read_byte (fresh at_end) in
          (contents at_end ≡ byte ∷ contents m'.ready) × IsInside m'.ready)
ringleader_tcp_read_byte-contents_example =
    ringleader_tcp_read_byte-contents (fresh at_end) at_end-IsInside

abbrev calls : List (Bool × List Completion)
calls =
    (true, [])
    ∷ (true, arena_ready true ∷ socket_ready (pos 3) ∷ [])
    ∷ (true, accepted (pos 4) ∷ received 0 (7 ∷ 9 ∷ []) 2 ∷ [])
    ∷ []

ticks-count_example : Ensures (ticks calls (fresh empty)) (λ (requests, m').
    (count is_arena requests ≤ 1)
    × (count is_socket requests ≤ 1)
    × (count is_accept requests ≤ 1)
    × IsInside m'.ready)
ticks-count_example =
    ticks-count calls (fresh empty) refl refl refl
      (tt, ((tt, (tt, tt)), ((tt, (omega arith, tt)), tt))) empty-IsInside

-- Bytes that pass the tail up to the very end of `ready` leave the tail where it is.
overrun : push_tail (record { bytes = replicate 8192 0; head = 8000; tail = 8100 }) 0 ≡ 8100
unfolding push_tail
overrun = refl
