-- ===== src/Adapter/Counters.antt =====
-- What `Adapter::recv` of tools/tcp_bridge.cc does to the connection and the counters.
use secure_mavlink_gateway.Prelude.{
  ℕ, ◌+◌, ◌^◌, ◌<◌, ◌≡◌, ◌≢◌, refl, ap, ◌∙◌, subst, true, false, Option, none, some, List, [], ◌∷◌,
  if◌then◌else◌, Bool-cases, Option-cases, inl, inr, arith,
}
use secure_mavlink_gateway.Adapter.{
  Adapter, AdapterMetrics, Dial, add64, succeeds, connect, is_connected, do_recv, as_u64,
  receive_once, redial, recv,
}

connect-metrics : (d : Dial) (a : Adapter) → (connect d a).1.metrics ≡ a.metrics
unfolding connect
connect-metrics d a = elim (Option-cases d.socket) [
  | inl failed ↦ rw failed refl
  | inr (fd, opened) ↦
      rw opened (elim (Bool-cases (succeeds d)) [ inl good ↦ rw good refl | inr bad ↦ rw bad refl ])
]

redial-metrics : (dials : List Dial) (a : Adapter) → (redial dials a).metrics ≡ a.metrics
unfolding redial
redial-metrics [] a = refl
redial-metrics (d ∷ ds) a = elim (Bool-cases (is_connected a)) [
  | inl up ↦ rw up refl
  | inr down ↦ rw down (redial-metrics ds (connect d a).1 ∙ connect-metrics d a)
]

-- What one call of `recv` on the socket leaves.
pub record IsHeard (answer : Option (List ℕ)) (before after : Adapter) : Type 0 where
  pub packets : after.metrics.packets_received ≡ add64 before.metrics.packets_received 1
  pub bytes : after.metrics.bytes_received ≡ add64 before.metrics.bytes_received (as_u64 answer)
  pub sent :
      (after.metrics.packets_sent ≡ before.metrics.packets_sent)
      × (after.metrics.bytes_sent ≡ before.metrics.bytes_sent)
  pub closed : answer ≡ some [] → is_connected after ≡ false
  pub stays : answer ≢ some [] → is_connected after ≡ true

receive_once-IsHeard :
    (answer : Option (List ℕ)) (a : Adapter)
    → is_connected a ≡ true
    → IsHeard answer a (receive_once answer a).1 × ((receive_once answer a).0 ≡ answer)
unfolding receive_once do_recv is_connected
receive_once-IsHeard none a up = (
  record {
    packets = refl;
    bytes = refl;
    sent = (refl, refl);
    closed = λ e. cc;
    stays = λ other. up;
  },
  refl,
)
receive_once-IsHeard (some []) a up = (
  record {
    packets = refl;
    bytes = refl;
    sent = (refl, refl);
    closed = λ e. refl;
    stays = λ other. absurd (other refl);
  },
  refl,
)
receive_once-IsHeard (some (byte ∷ bytes)) a up = (
  record {
    packets = refl;
    bytes = refl;
    sent = (refl, refl);
    closed = λ e. cc;
    stays = λ other. up;
  },
  refl,
)

-- `recv` on a connected adapter.
recv_connected :
    (answer : Option (List ℕ)) (a before after : Adapter) {rv : Option (List ℕ)}
    → before.metrics ≡ a.metrics
    → (if is_connected before then some (receive_once answer before) else none) ≡ some (rv, after)
    → IsHeard answer a after × (rv ≡ answer)
recv_connected answer a before after {rv} same got = elim (Bool-cases (is_connected before)) [
  | inr down ↦
      let no : ◌≡◌ {A = Option (Option (List ℕ) × Adapter)} none (some (rv, after)) =
        rw down at got in
      cc
  | inl up ↦
      let there : some (receive_once answer before) ≡ some (rv, after) = rw up at got in
      let result : receive_once answer before ≡ (rv, after) = cc in
      let (heard, value) = receive_once-IsHeard answer before up in
      let it =
        subst (λ (r : Option (List ℕ) × Adapter). IsHeard answer before r.1 × (r.0 ≡ answer)) result
          (heard, value) in
      (
        record {
          packets = it.0.packets ∙ ap (λ (m : AdapterMetrics). add64 m.packets_received 1) same;
          bytes =
              it.0.bytes ∙ ap (λ (m : AdapterMetrics). add64 m.bytes_received (as_u64 answer)) same;
          sent = (
            it.0.sent.0 ∙ ap (λ (m : AdapterMetrics). m.packets_sent) same,
            it.0.sent.1 ∙ ap (λ (m : AdapterMetrics). m.bytes_sent) same,
          );
          closed = it.0.closed;
          stays = it.0.stays;
        },
        it.1,
      )
]

-- Whenever `recv` returns, after however many attempts to connect, it returns what the socket's `recv` did
-- and has counted one packet more and that many bytes modulo 2 ^ 64, where -1 takes one byte off a
-- count that was not 0; the counters of what was sent are as before, and the adapter is without a
-- connection exactly if it came to its end.
pub recv_lem :
    (dials : List Dial) (answer : Option (List ℕ)) (a after : Adapter) {rv : Option (List ℕ)}
    → recv dials answer a ≡ some (rv, after)
    → IsHeard answer a after
      × (rv ≡ answer)
      × (answer ≡ none
          → 0 < a.metrics.bytes_received
          → a.metrics.bytes_received < 2 ^ 64
          → after.metrics.bytes_received + 1 ≡ a.metrics.bytes_received)
unfolding recv as_u64
recv_lem dials answer a after got =
    let (heard, value) =
      recv_connected answer a (redial dials a) after (redial-metrics dials a) got in
    (
      heard,
      value,
      λ failed some small.
          let counted =
            heard.bytes
            ∙ ap (λ (r : Option (List ℕ)). add64 a.metrics.bytes_received (as_u64 r)) failed in
          omega (arith, counted),
    )
