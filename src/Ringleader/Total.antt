-- ===== src/Ringleader/Total.antt =====
-- Calls of `ringleader_tcp_tick` with what the ring leader completed before each.
use secure_mavlink_gateway.Prelude.{
  suc, ◌≤◌, ◌≡◌, refl, sym, subst, length, ltb, Bool, true, false, List, [], ◌∷◌, ◌++◌, Bool-cases,
  inl, inr, arith,
}
use secure_mavlink_gateway.Outcome.{Outcome, done, ◌>>=◌, Ensures}
use secure_mavlink_gateway.Ringleader.Bounds.{IsInside, recv_loop-IsInside}
use secure_mavlink_gateway.Ringleader.{
  Request, recv_request, Completion, arena_ready, socket_ready, accepted, received,
  send_arena_ready, sent, MavlinkRl, ringleader_tcp_recv_arena_cb, ringleader_tcp_socket_cb,
  ringleader_tcp_recv_cb, ringleader_tcp_accept_cb, ringleader_tcp_send_arena_cb, consume_cqe,
  consume_all, tick_requests, ringleader_tcp_tick,
}

-- Calls of `ringleader_tcp_tick`, each with what it finds.
unfoldable pub ticks :
    List (Bool × List Completion) → MavlinkRl → Outcome (List Request × MavlinkRl)
ticks [] m = done ([], m)
ticks ((finished, cqes) ∷ rest) m = ringleader_tcp_tick finished cqes m >>= λ (requests, m').
    ticks rest m' >>= λ (requests', m''). done (requests ++ requests', m'')

-- No completion has more bytes than the packet that they were received in.
abbrev pub Fits : Completion → Type 0
Fits (received index packet res) = res ≤ length packet
Fits _ = Unit

abbrev pub AllFit : List Completion → Type 0
AllFit [] = Unit
AllFit (cqe ∷ rest) = Fits cqe × AllFit rest

abbrev pub CallsFit : List (Bool × List Completion) → Type 0
CallsFit [] = Unit
CallsFit (call ∷ rest) = AllFit call.1 × CallsFit rest

tick_requests-ready : (m : MavlinkRl) → (tick_requests m).1.ready ≡ m.ready
unfolding tick_requests
tick_requests-ready m = grind arith

consume_cqe-IsInside :
    (cqe : Completion) (m : MavlinkRl)
    → Fits cqe
    → IsInside m.ready
    → Ensures (consume_cqe cqe m) (λ (requests, m'). IsInside m'.ready)
unfolding consume_cqe ringleader_tcp_recv_arena_cb ringleader_tcp_socket_cb ringleader_tcp_recv_cb
    ringleader_tcp_accept_cb ringleader_tcp_send_arena_cb
consume_cqe-IsInside (arena_ready made) m fits v = (_, refl, v)
consume_cqe-IsInside (socket_ready res) m fits v = (_, refl, v)
consume_cqe-IsInside (accepted res) m fits v = (_, refl, v)
consume_cqe-IsInside (received index packet res) m fits v =
    let (ready, copied, inside) =
      recv_loop-IsInside (suc res) packet res m.ready (omega arith) fits v in
    elim (Bool-cases (ltb 0 res)) [
      | inl some ↦
          ((recv_request index ∷ [], record m { ready = ready }), rw (some, copied) refl, inside)
      | inr nothing ↦ (([], m), rw nothing refl, v)
    ]
consume_cqe-IsInside (send_arena_ready made bytes) m fits v = (_, refl, v)
consume_cqe-IsInside sent m fits v = (_, refl, v)

consume_all-IsInside :
    (cqes : List Completion) (m : MavlinkRl)
    → AllFit cqes
    → IsInside m.ready
    → Ensures (consume_all cqes m) (λ (requests, m'). IsInside m'.ready)
unfolding consume_all
consume_all-IsInside [] m fits v = (_, refl, v)
consume_all-IsInside (cqe ∷ rest) m (fit, fits) v =
    let ((xs, m₁), first, v₁) = consume_cqe-IsInside cqe m fit v in
    let ((ys, m₂), second, v₂) = consume_all-IsInside rest m₁ fits v₁ in
    ((xs ++ ys, m₂), rw (first, second) refl, v₂)

tick-IsInside :
    (finished : Bool) (cqes : List Completion) (m : MavlinkRl)
    → AllFit cqes
    → IsInside m.ready
    → Ensures (ringleader_tcp_tick finished cqes m) (λ (requests, m'). IsInside m'.ready)
unfolding ringleader_tcp_tick
tick-IsInside false cqes m fits v = (_, refl, v)
tick-IsInside true cqes m fits v =
    let ((xs, m₁), first, v₁) = consume_all-IsInside cqes m fits v in
    (
      (xs ++ (tick_requests m₁).0, (tick_requests m₁).1),
      rw first refl,
      subst IsInside (sym (tick_requests-ready m₁)) v₁,
    )

pub ticks-IsInside :
    (calls : List (Bool × List Completion)) (m : MavlinkRl)
    → CallsFit calls
    → IsInside m.ready
    → Ensures (ticks calls m) (λ (requests, m'). IsInside m'.ready)
unfolding ticks
ticks-IsInside [] m fits v = (_, refl, v)
ticks-IsInside ((finished, cqes) ∷ rest) m (fit, fits) v =
    let ((xs, m₁), first, v₁) = tick-IsInside finished cqes m fit v in
    let ((ys, m₂), second, v₂) = ticks-IsInside rest m₁ fits v₁ in
    ((xs ++ ys, m₂), rw (first, second) refl, v₂)
