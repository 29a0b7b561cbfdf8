-- ===== src/Ringleader/Once.antt =====
-- The requests that set up the server socket.
use secure_mavlink_gateway.Prelude.{
  ℕ, zero, suc, ◌+◌, ◌≤◌, ◌≡◌, refl, sym, ltb, lt→ltb, ◌∙◌, Bool, true, false, List, [], ◌∷◌, ◌++◌,
  if◌then◌else◌, Bool-cases, inl, inr, arith,
}
use secure_mavlink_gateway.Outcome.{Outcome, done, ◌>>=◌, >>=-eq-done, Ensures}
use secure_mavlink_gateway.Ringleader.Total.{ticks, CallsFit, ticks-IsInside}
use secure_mavlink_gateway.Ringleader.Bounds.{IsInside}
use secure_mavlink_gateway.Ringleader.ReadyBytes.{Ready, recv_loop}
use secure_mavlink_gateway.Ringleader.{
  Request, arena_request, socket_request, accept_request, recv_request, Completion, arena_ready,
  socket_ready, accepted, received, send_arena_ready, sent, MavlinkRl, ringleader_tcp_recv_arena_cb,
  ringleader_tcp_socket_cb, ringleader_tcp_recv_cb, ringleader_tcp_accept_cb,
  ringleader_tcp_send_arena_cb, recv_requests, consume_cqe, consume_all, tick_requests,
  ringleader_tcp_tick,
}

-- The requests of each kind among `requests`.
abbrev pub count : (Request → Bool) → List Request → ℕ
count p [] = 0
count p (x ∷ xs) = if p x then suc (count p xs) else count p xs

abbrev pub is_arena : Request → Bool
is_arena arena_request = true
is_arena _ = false

abbrev pub is_socket : Request → Bool
is_socket socket_request = true
is_socket _ = false

abbrev pub is_accept : Request → Bool
is_accept accept_request = true
is_accept _ = false

-- The number of requests that are still to come.
abbrev pub left : Bool → ℕ
left flag = if flag then 0 else 1

-- What a call asks for, against the flags before and after.
abbrev Paid : List Request → MavlinkRl → MavlinkRl → Type 0
Paid requests m m' =
    (count is_arena requests + left m'.arena_flag ≡ left m.arena_flag)
    × (count is_socket requests + left m'.socket_flag ≡ left m.socket_flag)
    × (count is_accept requests + left m'.bind_listen_flag ≡ left m.bind_listen_flag)

count-append :
    (p : Request → Bool) (xs ys : List Request) → count p (xs ++ ys) ≡ count p xs + count p ys
count-append p [] ys = omega arith
count-append p (x ∷ xs) ys = elim (Bool-cases (p x)) [
  | inl h ↦ rw h (omega (arith, count-append p xs ys))
  | inr h ↦ rw h (count-append p xs ys)
]

Paid-append :
    (xs ys : List Request) (m m' m'' : MavlinkRl)
    → Paid xs m m'
    → Paid ys m' m''
    → Paid (xs ++ ys) m m''
Paid-append xs ys m m' m'' (a, s, c) (a', s', c') = (
  omega (arith, count-append is_arena xs ys, a, a'),
  omega (arith, count-append is_socket xs ys, s, s'),
  omega (arith, count-append is_accept xs ys, c, c'),
)

tick_requests-Paid : (m : MavlinkRl) → let (requests, m') = tick_requests m in Paid requests m m'
unfolding tick_requests
tick_requests-Paid m = grind arith

count-recv_requests :
    (n index : ℕ)
    → (count is_arena (recv_requests n index) ≡ 0)
      × (count is_socket (recv_requests n index) ≡ 0)
      × (count is_accept (recv_requests n index) ≡ 0)
count-recv_requests zero index = (refl, refl, refl)
count-recv_requests (suc n) index = count-recv_requests n (index + 1)

received-Paid :
    (index : ℕ) (packet : List ℕ) (res : ℕ) (m : MavlinkRl) (requests : List Request)
    (m' : MavlinkRl)
    → ringleader_tcp_recv_cb index packet res m ≡ done (requests, m')
    → Paid requests m m'
unfolding ringleader_tcp_recv_cb
received-Paid index packet zero m requests m' h = grind arith
received-Paid index packet (suc n) m requests m' h =
    let there : ltb 0 (suc n) ≡ true = lt→ltb 0 (suc n) (omega arith) in
    let asks : MavlinkRl → List Request × MavlinkRl = λ next. (recv_request index ∷ [], next) in
    let keep : Ready → Outcome (List Request × MavlinkRl) =
      λ ready. done (asks (record m { ready = ready })) in
    let opened : ringleader_tcp_recv_cb index packet (suc n) m
        ≡ (recv_loop (suc (suc n)) packet (suc n) m.ready >>= keep) =
      rw there refl in
    let (ready, copied, same) =
      >>=-eq-done (recv_loop (suc (suc n)) packet (suc n) m.ready) keep (sym opened ∙ h) in
    grind (arith, same)

consume_cqe-Paid :
    (cqe : Completion) (m : MavlinkRl) (requests : List Request) (m' : MavlinkRl)
    → consume_cqe cqe m ≡ done (requests, m')
    → Paid requests m m'
unfolding consume_cqe ringleader_tcp_recv_arena_cb ringleader_tcp_socket_cb ringleader_tcp_recv_cb
    ringleader_tcp_accept_cb ringleader_tcp_send_arena_cb
consume_cqe-Paid (arena_ready made) m requests m' h = grind arith
consume_cqe-Paid (socket_ready res) m requests m' h = grind arith
consume_cqe-Paid (accepted res) m requests m' h = grind (arith, count-recv_requests 16 0)
consume_cqe-Paid (received index packet res) m requests m' h =
    received-Paid index packet res m requests m' h
consume_cqe-Paid (send_arena_ready made bytes) m requests m' h = grind arith
consume_cqe-Paid sent m requests m' h = grind arith

consume_all-Paid :
    (cqes : List Completion) (m : MavlinkRl) (requests : List Request) (m' : MavlinkRl)
    → consume_all cqes m ≡ done (requests, m')
    → Paid requests m m'
unfolding consume_all
consume_all-Paid [] m requests m' h = grind arith
consume_all-Paid (cqe ∷ rest) m requests m' h =
    let ((xs, m₁), first, h₁) = >>=-eq-done (consume_cqe cqe m) _ h in
    let ((ys, m₂), second, h₂) = >>=-eq-done (consume_all rest m₁) _ h₁ in
    let both =
      Paid-append xs ys m m₁ m₂ (consume_cqe-Paid cqe m xs m₁ first)
        (consume_all-Paid rest m₁ ys m₂ second) in
    grind (arith, both, h₂)

tick-Paid :
    (finished : Bool) (cqes : List Completion) (m : MavlinkRl) (requests : List Request)
    (m' : MavlinkRl)
    → ringleader_tcp_tick finished cqes m ≡ done (requests, m')
    → Paid requests m m'
unfolding ringleader_tcp_tick
tick-Paid false cqes m requests m' h = grind arith
tick-Paid true cqes m requests m' h =
    let ((xs, m₁), first, h₁) = >>=-eq-done (consume_all cqes m) _ h in
    let (ys, m₂) = tick_requests m₁ in
    let both =
      Paid-append xs ys m m₁ m₂ (consume_all-Paid cqes m xs m₁ first) (tick_requests-Paid m₁) in
    grind (arith, both, h₁)

ticks-Paid :
    (calls : List (Bool × List Completion)) (m : MavlinkRl) (requests : List Request)
    (m' : MavlinkRl)
    → ticks calls m ≡ done (requests, m')
    → Paid requests m m'
unfolding ticks
ticks-Paid [] m requests m' h = grind arith
ticks-Paid ((finished, cqes) ∷ rest) m requests m' h =
    let ((xs, m₁), first, h₁) = >>=-eq-done (ringleader_tcp_tick finished cqes m) _ h in
    let ((ys, m₂), second, h₂) = >>=-eq-done (ticks rest m₁) _ h₁ in
    let both =
      Paid-append xs ys m m₁ m₂ (tick-Paid finished cqes m xs m₁ first)
        (ticks-Paid rest m₁ ys m₂ second) in
    grind (arith, both, h₂)

-- From a start with nothing asked for, in however many calls of `ringleader_tcp_tick` and whatever
-- they find completed, with no more bytes received than a packet holds: every call ends, the
-- indices into the `ready` bytes stay inside, and the arena, the socket and a client are asked for at
-- most once each.
pub ticks-count :
    (calls : List (Bool × List Completion)) (m : MavlinkRl)
    → m.arena_flag ≡ false
    → m.socket_flag ≡ false
    → m.bind_listen_flag ≡ false
    → CallsFit calls
    → IsInside m.ready
    → Ensures (ticks calls m) (λ (requests, m').
      (count is_arena requests ≤ 1)
      × (count is_socket requests ≤ 1)
      × (count is_accept requests ≤ 1)
      × IsInside m'.ready)
ticks-count calls m no_arena no_socket no_client fits v =
    let ((requests, m'), same, inside) = ticks-IsInside calls m fits v in
    let (a, s, c) = ticks-Paid calls m requests m' same in
    (
      (requests, m'),
      same,
      (
        grind (arith, a, no_arena),
        grind (arith, s, no_socket),
        grind (arith, c, no_client),
        inside,
      ),
    )
