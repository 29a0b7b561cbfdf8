-- ===== src/Pipeline/Routes.antt =====
-- Where a message goes: the default route table as a table of destinations, and the loop over the
-- sinks as the list of those that it calls.
use secure_mavlink_gateway.Prelude.{
  ℕ, zero, suc, ◌+◌, ◌<◌, ◌≡◌, refl, ap, ◌∙◌, Bool, true, false, Option, none, some, List, [], ◌∷◌,
  get_elem?, get_or, if◌then◌else◌, arith, truthy, lt→ltb, Bool-cases, inl, inr,
}
use secure_mavlink_gateway.Outcome.{Outcome, done, or_out_of_bounds, ◌>>=◌, >>=-cong, >>=-eq-done}
use secure_mavlink_gateway.Platform.{Platform}
use secure_mavlink_gateway.Bitmap.{Bitmap, bitmap_const, bitmap_set, bitmap_test}
use secure_mavlink_gateway.Perf.{unit_sink, perf_port_unit_update}
use secure_mavlink_gateway.Message.{Message}
use secure_mavlink_gateway.Ports.{
  Sink, max_sinks, max_sources, sink_type_discard, sink_type_vmc, sink_type_enclave,
  sink_type_legacy,
}
use secure_mavlink_gateway.Pipeline.{
  Pipeline, Push, default_route_table, route_table_route, pipeline_get_sink, transformed,
  call_route, deliver, push_loop, route_discarded, dispatch, pipeline_push,
}
use secure_mavlink_gateway.Pipeline.Verdict.{IsDefault, blocked, discarded, pipeline_inspect_lem}

-- The vehicle talks to the ground side, the ground side to the vehicle, and nobody to itself.
abbrev pub destinations : ℕ → List ℕ
destinations zero = []
destinations (suc zero) = sink_type_enclave ∷ sink_type_legacy ∷ []
destinations (suc (suc zero)) = sink_type_vmc ∷ []
destinations (suc (suc (suc zero))) = sink_type_vmc ∷ []
destinations (suc (suc (suc (suc n)))) = []

-- The row of the default table.
abbrev pub row_of : ℕ → Bitmap
row_of source = get_or default_route_table source (bitmap_const 0)

-- The indices from `i` on, `n` at most, at which the bitmap tests true.
abbrev chosen : ℕ → ℕ → Bitmap → List ℕ
chosen zero i b = []
chosen (suc n) i b =
    let rest = chosen n (i + 1) b in if truthy (bitmap_test b i) then i ∷ rest else rest

chosen-row_of : (k : ℕ) → k < max_sources → chosen max_sinks 0 (row_of k) ≡ destinations k
unfolding bitmap_test
chosen-row_of zero h = refl
chosen-row_of (suc zero) h = refl
chosen-row_of (suc (suc zero)) h = refl
chosen-row_of (suc (suc (suc zero))) h = refl
chosen-row_of (suc (suc (suc (suc k)))) h = absurd (omega arith)

-- No row has the sink of discarded messages; a marked one has.
row_of-discard :
    (k : ℕ)
    → k < max_sources
    → (get_elem? default_route_table k ≡ some (row_of k))
      × (truthy (bitmap_test (row_of k) sink_type_discard) ≡ false)
      × (truthy (bitmap_test (bitmap_set (row_of k) sink_type_discard) sink_type_discard) ≡ true)
unfolding bitmap_test bitmap_set
row_of-discard zero h = (refl, refl, refl)
row_of-discard (suc zero) h = (refl, refl, refl)
row_of-discard (suc (suc zero)) h = (refl, refl, refl)
row_of-discard (suc (suc (suc zero))) h = (refl, refl, refl)
row_of-discard (suc (suc (suc (suc k)))) h = absurd (omega arith)

module _ ⦃platform : Platform⦄ where
  open platform use {World}

  -- The sinks called one after the other.
  unfoldable pub deliver_all : Pipeline → List ℕ → Push → Outcome Push
  deliver_all p [] s = done s
  deliver_all p (i ∷ is) s = deliver p i s >>= deliver_all p is

  -- The sinks' transformers leave the routing of a message alone.
  abbrev pub KeepsSinks : Pipeline → Type 0
  KeepsSinks p =
      (i : ℕ) (sink : Sink)
      → get_elem? p.sinks i ≡ some sink
      → (f : Message → Message) → sink.transform ≡ some f
      → (m : Message) → (f m).sinks ≡ m.sinks

  pipeline_get_sink-inside :
      (p : Pipeline) (i : ℕ) (sink : Sink)
      → pipeline_get_sink p i ≡ done sink
      → get_elem? p.sinks i ≡ some sink
  unfolding pipeline_get_sink
  pipeline_get_sink-inside p i sink h = ground arith

  transformed-sinks :
      (on : Bool) (f : Option (Message → Message)) (m : Message)
      → ((g : Message → Message) → f ≡ some g → (m : Message) → (g m).sinks ≡ m.sinks)
      → (transformed on f m).sinks ≡ m.sinks
  transformed-sinks true none m keeps = refl
  transformed-sinks true (some f) m keeps = keeps f refl m
  transformed-sinks false f m keeps = refl

  call_route-sinks :
      (p : Pipeline) (i : ℕ) (sink : Sink) (o : Option (Message → World → ℕ × World)) (s s' : Push)
      → ((g : Message → Message) → sink.transform ≡ some g → (m : Message) → (g m).sinks ≡ m.sinks)
      → call_route p i sink o s ≡ done s'
      → s'.message.sinks ≡ s.message.sinks
  unfolding call_route
  call_route-sinks p i sink none s s' keeps h = ground arith
  call_route-sinks p i sink (some route) s s' keeps h =
      let (perf, counted, same) =
        >>=-eq-done
          (perf_port_unit_update s.perf unit_sink i
            (transformed p.transform_enabled sink.transform s.message))
          _ h in
      ground (arith, same, transformed-sinks p.transform_enabled sink.transform s.message keeps)

  deliver-sinks :
      (p : Pipeline) (i : ℕ) (s s' : Push)
      → KeepsSinks p
      → deliver p i s ≡ done s'
      → s'.message.sinks ≡ s.message.sinks
  unfolding deliver
  deliver-sinks p i s s' keeps h =
      let (sink, found, called) = >>=-eq-done (pipeline_get_sink p i) _ h in
      call_route-sinks p i sink sink.route s s'
        (keeps i sink (pipeline_get_sink-inside p i sink found)) called

  push_loop_lem :
      (p : Pipeline) (n i : ℕ) (s : Push)
      → KeepsSinks p
      → push_loop n i p s ≡ deliver_all p (chosen n i s.message.sinks) s
  unfolding push_loop deliver_all
  push_loop_lem p zero i s keeps = refl
  push_loop_lem p (suc n) i s keeps = elim (Bool-cases (truthy (bitmap_test s.message.sinks i))) [
    | inl y ↦ rw y (
        >>=-cong (deliver p i s) _ _ (λ s' e.
          push_loop_lem p n (i + 1) s' keeps
          ∙ ap (λ b. deliver_all p (chosen n (i + 1) b) s') (deliver-sinks p i s s' keeps e)))
    | inr no_bit ↦ rw no_bit (push_loop_lem p n (i + 1) s keeps)
  ]

  -- The message with its row of the default table.
  abbrev pub routed : Push → Push
  routed s = record s { message = record (s.message) { sinks = row_of s.message.source } }

  abbrev pub marked : Push → Push
  marked s = record s { message = discarded s.message }

  dispatch-row :
      (debug : Bool) (p : Pipeline) (s : Push) (k : ℕ)
      → k < max_sources
      → KeepsSinks p
      → s.message.sinks ≡ row_of k
      → dispatch debug p s ≡ deliver_all p (destinations k) s
  unfolding dispatch
  dispatch-row debug p s k known keeps e =
      rw (ap (λ b. truthy (bitmap_test b sink_type_discard)) e ∙ (row_of-discard k known).1) (
        push_loop_lem p max_sinks 0 s keeps
        ∙ ap (λ is. deliver_all p is s) (ap (chosen max_sinks 0) e ∙ chosen-row_of k known))

  dispatch-marked :
      (debug : Bool) (p : Pipeline) (s : Push) (k : ℕ)
      → k < max_sources
      → s.message.sinks ≡ bitmap_set (row_of k) sink_type_discard
      → dispatch debug p s ≡ (if debug then route_discarded p s else done s)
  unfolding dispatch
  dispatch-marked debug p s k known e =
      rw (ap (λ b. truthy (bitmap_test b sink_type_discard)) e ∙ (row_of-discard k known).2)

  routed_lem :
      (table : List Bitmap) (s : Push)
      → table ≡ default_route_table
      → s.message.source < max_sources
      → route_table_route table s.message ≡ done (routed s).message
  unfolding route_table_route
  routed_lem table s e known = rw (lt→ltb s.message.source max_sources known) (
      ap
        (λ t. or_out_of_bounds (get_elem? t s.message.source) >>= λ b.
          done (record (s.message) { sinks = b }))
        e
      ∙ ap (λ o. or_out_of_bounds o >>= λ b. done (record (s.message) { sinks = b }))
          (row_of-discard s.message.source known).0)

  -- With the default policies and route table a message that the policies block is marked and goes to
  -- no sink, but in a build with DEBUG to the sink of discarded messages. Every other message goes to
  -- the destinations of its source, in order, and to no other sink.
  pub pipeline_push_lem :
      (debug : Bool) (p : Pipeline) (s : Push)
      → IsDefault p.policies
      → p.route_table ≡ default_route_table
      → KeepsSinks p
      → s.message.source < max_sources
      → pipeline_push debug p s ≡ (
          if blocked p s.message
          then (if debug then route_discarded p (marked (routed s)) else done (marked (routed s)))
          else deliver_all p (destinations s.message.source) (routed s))
  unfolding pipeline_push
  pipeline_push_lem debug p s default table keeps known =
      rw (routed_lem p.route_table s table known, pipeline_inspect_lem p (routed s).message default)
        (elim (Bool-cases (blocked p s.message)) [
          | inl yes_blocked ↦
              rw yes_blocked
                (dispatch-marked debug p (marked (routed s)) s.message.source known refl)
          | inr free ↦ rw free (dispatch-row debug p (routed s) s.message.source known keeps refl)
        ])
