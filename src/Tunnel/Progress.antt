-- ===== src/Tunnel/Progress.antt =====
-- The sending thread gets through the queue.
use mathlib.Core.List.{append_assoc, append-nil}
use secure_mavlink_gateway.Prelude.{
  ℕ, ◌+◌, ◌≤◌, ◌≡◌, ◌⊎◌, refl, sym, ap₂, subst, false, List, [], ◌∷◌, ◌++◌, length, if◌then◌else◌,
  Bool-cases, inl, inr, arith,
}
use secure_mavlink_gateway.Adapter.{Adapter, is_connected, count_sent}
use secure_mavlink_gateway.Tunnel.{
  looping, trimming, pacing, Tunnel, pop, pop_from, trim, overflows, Flow, at_sender, past, begin,
  finish, fetch, skip, check, write, cut, rest, Step,
}

-- The steps of the sending thread, but not a return of `cnd_wait`.
abbrev pub IsOwn :
    {f f' : Flow} {source sink source' sink' : Adapter}
    → Step f source sink f' source' sink'
    → Type 0
IsOwn (begin at on) = Unit {0}
IsOwn (finish at ends) = Unit {0}
IsOwn (fetch at) = Unit {0}
IsOwn (skip packet at down) = Unit {0}
IsOwn (check packet at up) = Unit {0}
IsOwn (write packet at) = Unit {0}
IsOwn (cut size at) = Unit {0}
IsOwn (rest size at) = Unit {0}
IsOwn _ = ⊥

-- Runs of these steps alone.
pub data Serves (f : Flow) (source sink : Adapter) : Flow → Adapter → Adapter → Type 0 where
  still : Serves f source sink f source sink
  next :
      {f₁ f₂ : Flow} {source₁ sink₁ source₂ sink₂ : Adapter}
      → Serves f source sink f₁ source₁ sink₁
      → (step : Step f₁ source₁ sink₁ f₂ source₂ sink₂) → IsOwn step
      → Serves f source sink f₂ source₂ sink₂

-- What the socket has got when these packets were given to `send`.
abbrev pub handed : Adapter → List (List ℕ) → List (List ℕ) → List (List ℕ)
handed sink sent packets = if is_connected sink then sent ++ packets else sent

-- The sender stands at the head of its loop, and this is in the queue.
abbrev pub loaded : Flow → List (List ℕ) → Flow
loaded f queue = record f { tunnel = record (f.tunnel) { queue = queue; sender = looping } }

abbrev holds : Flow → List (List ℕ) → Tunnel
holds f queue = record (f.tunnel) { queue = queue }

-- There is no limit, or it is not passed.
abbrev pub WithinLimit : Flow → List (List ℕ) → Type 0
WithinLimit f queue = (f.tunnel.max_queue_size ≡ 0) ⊎ (length queue ≤ f.tunnel.max_queue_size)

WithinLimit-overflows :
    (f : Flow) (size : ℕ) (queue : List (List ℕ))
    → WithinLimit f queue
    → overflows (record (f.tunnel) { queue = queue; sender = trimming size }) ≡ false
unfolding overflows
WithinLimit-overflows f size queue (inl off) = rw off refl
WithinLimit-overflows f size queue (inr small) = ground arith

-- Up to the packet's end in `send`, with or without a connection.
send_one :
    (f : Flow) (source sink : Adapter) (packet : List ℕ) (queue : List (List ℕ))
    → f.tunnel.terminate ≡ false
    → (sink' : Adapter) × (is_connected sink' ≡ is_connected sink)
      × Serves
          (loaded f (packet ∷ queue))
          source
          sink
          (record (past packet (loaded f queue)) { sent = handed sink f.sent (packet ∷ []) })
          source
          sink'
unfolding pop pop_from is_connected count_sent
send_one f source sink packet queue on =
    let fetched = next (next still (begin refl on) tt) (fetch refl) tt in
    elim (Bool-cases (is_connected sink)) [
      | inl up ↦ (
        count_sent (length packet) sink,
        refl,
        rw up (next (next fetched (check packet refl up) tt) (write packet refl) tt),
      )
      | inr down ↦ (sink, refl, rw down (next fetched (skip packet refl down) tt))
    ]

-- One round of its loop.
serve_one :
    (f : Flow) (source sink : Adapter) (packet : List ℕ) (queue : List (List ℕ))
    → f.tunnel.terminate ≡ false
    → WithinLimit f queue
    → (sink' : Adapter) × (is_connected sink' ≡ is_connected sink)
      × Serves
          (loaded f (packet ∷ queue))
          source
          sink
          (record (loaded f queue) {
            given = f.given ++ packet ∷ [];
            sent = handed sink f.sent (packet ∷ []);
          })
          source
          sink'
unfolding trim
serve_one f source sink packet queue on small =
    let (sink', same, run) = send_one f source sink packet queue on in
    let size = length packet in
    let fits = WithinLimit-overflows f size queue small in
    let trimmed = record (f.tunnel) { queue = queue; sender = trimming size } in
    let kept : (record {
      tunnel = record trimmed {
        sender = pacing size;
        queue = if overflows trimmed then [] else queue;
      };
      stored = f.stored;
      given = f.given ++ packet ∷ [];
      sent = handed sink f.sent (packet ∷ []);
      dropped = if overflows trimmed then f.dropped + length queue else f.dropped;
    })
        ≡ record (at_sender (pacing size) (loaded f queue)) {
          given = f.given ++ packet ∷ [];
          sent = handed sink f.sent (packet ∷ []);
        } =
      rw fits refl in
    (
      sink',
      same,
      next
          (subst (λ g. Serves (loaded f (packet ∷ queue)) source sink g source sink') kept
            (next run (cut size refl) tt))
          (rest size refl) tt,
    )

Serves-trans :
    {f g : Flow} {a b c d : Adapter} {h : Flow} {e k : Adapter}
    → Serves f a b g c d
    → Serves g c d h e k
    → Serves f a b h e k
Serves-trans run still = run
Serves-trans run (next run' step own) = next (Serves-trans run run') step own

WithinLimit-tail :
    (f : Flow) (packet : List ℕ) (queue : List (List ℕ))
    → WithinLimit f (packet ∷ queue)
    → WithinLimit f queue
WithinLimit-tail f packet queue (inl off) = inl off
WithinLimit-tail f packet queue (inr small) = inr (omega arith)

handed-nil : (sink : Adapter) (sent : List (List ℕ)) → handed sink sent [] ≡ sent
handed-nil sink sent = elim (Bool-cases (is_connected sink)) [
  | inl up ↦ rw up (append-nil sent)
  | inr down ↦ rw down refl
]

handed-cons :
    (sink sink' : Adapter) (sent : List (List ℕ)) (packet : List ℕ) (queue : List (List ℕ))
    → is_connected sink' ≡ is_connected sink
    → handed sink' (handed sink sent (packet ∷ [])) queue ≡ handed sink sent (packet ∷ queue)
handed-cons sink sink' sent packet queue same = elim (Bool-cases (is_connected sink)) [
  | inl up ↦ rw (same, up) (append_assoc sent (packet ∷ []) queue)
  | inr down ↦ rw (same, down) refl
]

serve_all :
    (queue : List (List ℕ)) (f : Flow) (source sink : Adapter)
    → f.tunnel.terminate ≡ false
    → WithinLimit f queue
    → (sink' : Adapter) × Serves
        (loaded f queue)
        source
        sink
        (record (loaded f []) { given = f.given ++ queue; sent = handed sink f.sent queue })
        source
        sink'
serve_all [] f source sink on small = (
  sink,
  subst
      (λ (x : List (List ℕ) × List (List ℕ)).
        Serves (loaded f []) source sink (record (loaded f []) { given = x.0; sent = x.1 }) source
          sink)
      (ap₂ (λ (given sent : List (List ℕ)). (given, sent)) (sym (append-nil f.given))
        (sym (handed-nil sink f.sent)))
      still,
)
serve_all (packet ∷ queue) f source sink on small =
    let fewer = WithinLimit-tail f packet queue small in
    let (sink₁, same, first) = serve_one f source sink packet queue on fewer in
    let sent = handed sink f.sent (packet ∷ []) in
    let (sink₂, others) =
      serve_all queue (record f { given = f.given ++ packet ∷ []; sent = sent }) source sink₁ on
        fewer in
    (
      sink₂,
      Serves-trans first (
          subst
            (λ (x : List (List ℕ) × List (List ℕ)).
              Serves (record (loaded f queue) { given = f.given ++ packet ∷ []; sent = sent })
                source sink₁ (record (loaded f []) { given = x.0; sent = x.1 }) source sink₂)
            (ap₂ (λ (given sent : List (List ℕ)). (given, sent))
              (append_assoc f.given (packet ∷ []) queue)
              (handed-cons sink sink₁ f.sent packet queue same))
            others),
    )

-- While the tunnel goes on and its queue is not over the limit, the sender at the head of its loop gets, by
-- steps of its own alone and with no return of `cnd_wait`, to where the queue is empty and every packet of
-- it has been given to `Adapter::send`, in order, and handed on to the socket if the sink is connected, and
-- none of them if it is not.
pub Serves-all :
    (f : Flow) (source sink : Adapter)
    → f.tunnel.sender ≡ looping
    → f.tunnel.terminate ≡ false
    → WithinLimit f f.tunnel.queue
    → (sink' : Adapter) × Serves f source sink
        (record f {
          tunnel = record (f.tunnel) { queue = [] };
          given = f.given ++ f.tunnel.queue;
          sent = handed sink f.sent f.tunnel.queue;
        })
        source
        sink'
Serves-all f source sink at on small =
    let (sink', run) = serve_all f.tunnel.queue f source sink on small in
    (
      sink',
      subst
          (λ place.
            Serves (record f { tunnel = record (f.tunnel) { sender = place } }) source sink
              (record f {
                tunnel = record (f.tunnel) { queue = []; sender = place };
                given = f.given ++ f.tunnel.queue;
                sent = handed sink f.sent f.tunnel.queue;
              })
              source sink')
          (sym at) run,
    )
