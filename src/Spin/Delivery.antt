-- ===== src/Spin/Delivery.antt =====
-- About a push on a ready gateway (`pipeline_push` of lib/secure_gateway.c).
use secure_mavlink_gateway.Prelude.{
  ℕ, zero, suc, ◌<◌, ◌≤◌, ◌≡◌, refl, Bool, true, false, Option, none, some, List, [], ◌∷◌,
  get_elem?, get_elem?-inside, lt→ltb, arith, Bool-cases, inl, inr, Option-cases,
}
use secure_mavlink_gateway.Outcome.{done, Ensures, >>=-Ensures}
use secure_mavlink_gateway.Platform.{Platform}
use secure_mavlink_gateway.Message.{Message}
use secure_mavlink_gateway.Ports.{Sink, max_sources, max_sinks, sink_type_discard}
use secure_mavlink_gateway.Perf.{unit_sink, perf_port_unit_update}
use secure_mavlink_gateway.Perf.Report.{AreQueriedAt}
use secure_mavlink_gateway.Perf.Updates.{perf_port_unit_update-Ensures}
use secure_mavlink_gateway.Pipeline.{
  Pipeline, Push, pipeline_get_sink, transformed, call_route, deliver, route_discarded,
  pipeline_push,
}
use secure_mavlink_gateway.Pipeline.Verdict.{blocked}
use secure_mavlink_gateway.Pipeline.Routes.{
  destinations, deliver_all, routed, marked, pipeline_push_lem,
}
use secure_mavlink_gateway.Spin.{Build}
use secure_mavlink_gateway.Spin.Ready.{Derived, as_it_was, transformed_by, IsReady, Keeps, IsKept}

destinations-inside : (k j i : ℕ) → get_elem? (destinations k) j ≡ some i → i < max_sinks
destinations-inside (suc zero) zero i h = ground arith
destinations-inside (suc zero) (suc zero) i h = ground arith
destinations-inside (suc (suc zero)) zero i h = ground arith
destinations-inside (suc (suc (suc zero))) zero i h = ground arith
destinations-inside zero j i h = cc
destinations-inside (suc zero) (suc (suc j)) i h = cc
destinations-inside (suc (suc zero)) (suc j) i h = cc
destinations-inside (suc (suc (suc zero))) (suc j) i h = cc
destinations-inside (suc (suc (suc (suc k)))) j i h = cc

module _ ⦃platform : Platform⦄ (Inv : platform.World → Type 0) (pending : platform.World → ℕ)
    (last : ℕ) where
  open platform use {World}

  -- After a push that began in `w`.
  pub record Delivered (w : World) (s : Push) : Type 0 where
    pub queried : AreQueriedAt s.perf last
    pub inv : Inv s.world
    pub bound : pending s.world ≤ pending w

  transformed-Derived :
      (p : Pipeline) (i : ℕ) (sink : Sink) (m m' : Message) (on : Bool)
      (o : Option (Message → Message))
      → get_elem? p.sinks i ≡ some sink
      → p.transform_enabled ≡ on
      → sink.transform ≡ o
      → Derived p m m'
      → Derived p m (transformed on o m')
  transformed-Derived p i sink m m' true none there e e' derived = derived
  transformed-Derived p i sink m m' true (some f) there e e' derived =
      transformed_by i sink f there e' e derived
  transformed-Derived p i sink m m' false o there e e' derived = derived

  call_route-Ensures :
      (p : Pipeline) (i : ℕ) (sink : Sink) (o : Option (Message → World → ℕ × World)) (m : Message)
      (s : Push)
      → get_elem? p.sinks i ≡ some sink
      → i < max_sinks
      → ((f : Message → World → ℕ × World) (m' : Message)
          → o ≡ some f
          → Derived p m m'
          → Keeps Inv pending s.world (f m' s.world).1)
      → Derived p m s.message
      → AreQueriedAt s.perf last
      → Inv s.world
      → Ensures (call_route p i sink o s) (λ s'. Delivered s.world s' × Derived p m s'.message)
  unfolding call_route
  call_route-Ensures p i sink none m s there inside keeps derived q inv =
      (s, refl, (record { queried = q; inv = inv; bound = omega arith }, derived))
  call_route-Ensures p i sink (some route) m s there inside keeps derived q inv =
      let m' = transformed p.transform_enabled sink.transform s.message in
      let derived' =
        transformed-Derived p i sink m s.message p.transform_enabled sink.transform there refl refl
          derived in
      let (inv', bound) = keeps route m' refl derived' inv in
      >>=-Ensures (perf_port_unit_update s.perf unit_sink i m') _
        (perf_port_unit_update-Ensures s.perf last i unit_sink m' inside q)
        (λ perf q'. (_, refl, (record { queried = q'; inv = inv'; bound = bound }, derived')))

  found :
      (p : Pipeline) (i : ℕ)
      → IsReady p
      → i < max_sinks
      → (sink : Sink) × (get_elem? p.sinks i ≡ some sink) × (pipeline_get_sink p i ≡ done sink)
  unfolding pipeline_get_sink
  found p i ready inside =
      let (sink, there) = get_elem?-inside p.sinks i (omega (arith, ready.sinks)) in
      (sink, there, rw (lt→ltb i max_sinks inside, there))

  deliver-Ensures :
      (p : Pipeline) (i : ℕ) (m : Message) (s : Push)
      → IsReady p
      → i < max_sinks
      → ((sink : Sink) (f : Message → World → ℕ × World) (m' : Message)
          → get_elem? p.sinks i ≡ some sink
          → sink.route ≡ some f
          → Derived p m m'
          → (w : World) → Keeps Inv pending w (f m' w).1)
      → Derived p m s.message
      → AreQueriedAt s.perf last
      → Inv s.world
      → Ensures (deliver p i s) (λ s'. Delivered s.world s' × Derived p m s'.message)
  unfolding deliver
  deliver-Ensures p i m s ready inside keeps derived q inv =
      let (sink, there, got) = found p i ready inside in
      rw got (
        call_route-Ensures p i sink sink.route m s there inside
          (λ f m' e derived'. keeps sink f m' there e derived' s.world) derived q inv)

  deliver_all-Ensures :
      (p : Pipeline) (is : List ℕ) (m : Message) (s : Push)
      → IsReady p
      → Derived p m s.message
      → ((j i : ℕ) → get_elem? is j ≡ some i → i < max_sinks)
      → ((j i : ℕ) (sink : Sink) (f : Message → World → ℕ × World) (m' : Message)
          → get_elem? is j ≡ some i
          → get_elem? p.sinks i ≡ some sink
          → sink.route ≡ some f
          → Derived p m m'
          → (w : World) → Keeps Inv pending w (f m' w).1)
      → AreQueriedAt s.perf last
      → Inv s.world
      → Ensures (deliver_all p is s) (Delivered s.world)
  unfolding deliver_all
  deliver_all-Ensures p [] m s ready derived inside keeps q inv =
      (s, refl, record { queried = q; inv = inv; bound = omega arith })
  deliver_all-Ensures p (i ∷ is) m s ready derived inside keeps q inv =
      >>=-Ensures (deliver p i s) _
        (deliver-Ensures p i m s ready (inside 0 i refl) (λ sink f m'. keeps 0 i sink f m' refl)
          derived q inv)
        (λ s' (d, derived').
          let (s'', e, d') =
            deliver_all-Ensures p is m s' ready derived' (λ j. inside (suc j)) (λ j. keeps (suc j))
              d.queried d.inv in
          (
            s'',
            e,
            record { queried = d'.queried; inv = d'.inv; bound = omega (arith, d.bound, d'.bound) },
          ))

  route_discarded-Ensures :
      (b : Build) (p : Pipeline) (s : Push)
      → IsReady p
      → IsKept Inv pending b p
      → b.debug ≡ true
      → AreQueriedAt s.perf last
      → Inv s.world
      → Ensures (route_discarded p s) (Delivered s.world)
  unfolding route_discarded
  route_discarded-Ensures b p s ready laws on q inv =
      let (sink, there, got) = found p sink_type_discard ready (omega arith) in
      >>=-Ensures {P = λ x. get_elem? p.sinks sink_type_discard ≡ some x}
        (pipeline_get_sink p sink_type_discard) _ (sink, got, there)
        (λ x there'. elim (Option-cases x.route) [
          | inl null ↦ rw null (s, refl, record { queried = q; inv = inv; bound = omega arith })
          | inr (f, e) ↦
              let (inv', bound) = laws.discard s.message x f on there' e s.world inv in
              rw e (_, refl, record { queried = q; inv = inv'; bound = bound })
        ])

  pub pipeline_push-Ensures :
      (b : Build) (p : Pipeline) (s : Push)
      → IsReady p
      → IsKept Inv pending b p
      → s.message.source < max_sources
      → AreQueriedAt s.perf last
      → Inv s.world
      → Ensures (pipeline_push b.debug p s) (Delivered s.world)
  pipeline_push-Ensures b p s ready laws known q inv =
      rw (pipeline_push_lem b.debug p s ready.policies ready.table ready.keeps known)
        (elim (Bool-cases (blocked p s.message)) [
          | inl yes_blocked ↦ rw yes_blocked (elim (Bool-cases b.debug) [
            | inl on ↦ rw on (route_discarded-Ensures b p (marked (routed s)) ready laws on q inv)
            | inr release ↦
                rw release (_, refl, record { queried = q; inv = inv; bound = omega arith })
          ])
          | inr free ↦ rw free (
              deliver_all-Ensures p (destinations s.message.source) (routed s).message (routed s)
                ready as_it_was (destinations-inside s.message.source)
                (λ j i sink f m' to there e derived w.
                  laws.route (routed s).message m' j i sink f free known to there e derived w)
                q inv)
        ])
