-- ===== src/Hooks/Ready.antt =====
-- What the hooks leave of a ready pipeline.
use secure_mavlink_gateway.Prelude.{
  ℕ, zero, suc, ◌<◌, ◌≡◌, refl, ap, ◌∙◌, subst, true, none, some, List, [], ◌∷◌, get_elem?, set,
  length, length-set, get_elem?-inside, get_elem?-set_self, lt→ltb, arith, inl, inr,
}
use secure_mavlink_gateway.Outcome.{Outcome, done, Ensures}
use secure_mavlink_gateway.Platform.{Platform}
use secure_mavlink_gateway.Message.{Message}
use secure_mavlink_gateway.Ports.{
  Source, Sink, max_sources, max_sinks, source_allocate, sink_allocate,
}
use secure_mavlink_gateway.Pipeline.{Pipeline}
use secure_mavlink_gateway.Spin.Ready.{KeepsOrigin, IsReady, IsSource}
use secure_mavlink_gateway.Spin.Sources.{get_elem?-set_cases}
use secure_mavlink_gateway.Results.{Result, succ}
use secure_mavlink_gateway.Hooks.{
  Connection, attach_source, attach_sink, attach_route, attach, attach_twice,
}

-- The second of two writes counts.
pub set-set {ℓ} : {A : Type ℓ} (xs : List A) (i : ℕ) (a b : A) → set (set xs i a) i b ≡ set xs i b
set-set [] i a b = refl
set-set (x ∷ xs) zero a b = refl
set-set (x ∷ xs) (suc i) a b = ap (λ r. x ∷ r) (set-set xs i a b)

module _ ⦃platform : Platform⦄ where
  abbrev pub hooked_source : Connection → ℕ → Source → Source
  hooked_source c id src = record src {
    source_id = id;
    is_connected = true;
    init = some c.init;
    has_more = some c.has_more;
    read_byte = some c.read_byte;
    transform = none;
    cleanup = some c.cleanup;
  }

  abbrev pub hooked_sink : Connection → Sink → Sink
  hooked_sink c sink = record sink {
    is_connected = true;
    route = some c.route;
    transform = none;
    init = some c.init;
    cleanup = some c.cleanup;
  }

  -- With the `init` and `cleanup` that it had.
  abbrev pub routed_sink : Connection → Sink → Sink
  routed_sink c sink = record sink { is_connected = true; route = some c.route; transform = none }

  pub set_source-IsReady :
      (p : Pipeline) (i : ℕ) (src : Source)
      → IsReady p
      → i < max_sources
      → (src.is_connected ≡ true → IsSource src)
      → KeepsOrigin src
      → IsReady (record p { sources = set p.sources i src })
  set_source-IsReady p i src ready inside fits origin = record {
    policies = ready.policies;
    table = ready.table;
    sources = length-set p.sources i src ∙ ready.sources;
    sinks = ready.sinks;
    keeps = ready.keeps;
    origins = λ j other found.
        elim (get_elem?-set_cases p.sources i j src other (omega (arith, ready.sources)) found) [
          | inl self ↦ subst KeepsOrigin self origin
          | inr old ↦ ready.origins j other old
        ];
    connected = λ j other found on.
        elim (get_elem?-set_cases p.sources i j src other (omega (arith, ready.sources)) found) [
          | inl self ↦ subst IsSource self (fits (ap (λ (s : Source). s.is_connected) self ∙ on))
          | inr old ↦ ready.connected j other old on
        ];
  }

  pub set_sink-IsReady :
      (p : Pipeline) (i : ℕ) (sink : Sink)
      → IsReady p
      → i < max_sinks
      → ((f : Message → Message) → sink.transform ≡ some f → (m : Message) → (f m).sinks ≡ m.sinks)
      → IsReady (record p { sinks = set p.sinks i sink })
  set_sink-IsReady p i sink ready inside fits = record {
    policies = ready.policies;
    table = ready.table;
    sources = ready.sources;
    sinks = length-set p.sinks i sink ∙ ready.sinks;
    keeps = λ j other found f there m.
        elim (get_elem?-set_cases p.sinks i j sink other (omega (arith, ready.sinks)) found) [
          | inl self ↦ fits f (ap (λ (s : Sink). s.transform) self ∙ there) m
          | inr old ↦ ready.keeps j other old f there m
        ];
    origins = ready.origins;
    connected = ready.connected;
  }

  -- The pipeline with the connection in place.
  abbrev pub hooked : Connection → Pipeline → ℕ → Source → ℕ → Sink → Pipeline
  hooked c p source_id src sink_type sink = record p {
    sources = set p.sources source_id (hooked_source c source_id src);
    sinks = set p.sinks sink_type (hooked_sink c sink);
  }

  abbrev pub routed : Connection → Pipeline → ℕ → Source → ℕ → Sink → Pipeline
  routed c p source_id src sink_type sink = record p {
    sources = set p.sources source_id (hooked_source c source_id src);
    sinks = set p.sinks sink_type (routed_sink c sink);
  }

  attach_source_lem :
      (c : Connection) (p : Pipeline) (source_id : ℕ) (src : Source)
      → IsReady p
      → source_id < max_sources
      → get_elem? p.sources source_id ≡ some src
      → attach_source c p source_id
        ≡ done (record p { sources = set p.sources source_id (hooked_source c source_id src) })
  unfolding attach_source source_allocate
  attach_source_lem c p source_id src ready known there =
      let alloc : Source = record src {
        source_id = source_id;
        has_more = none;
        read_byte = none;
        transform = none;
        is_connected = true;
      } in
      rw
        (
          lt→ltb source_id max_sources known,
          there,
          get_elem?-set_self p.sources source_id alloc (omega (arith, ready.sources)),
          set-set p.sources source_id alloc (hooked_source c source_id src),
        )
        refl

  attach_sink_lem :
      (c : Connection) (p : Pipeline) (sink_type : ℕ) (sink : Sink)
      → length p.sinks ≡ max_sinks
      → sink_type < max_sinks
      → get_elem? p.sinks sink_type ≡ some sink
      → (attach_sink c p sink_type
          ≡ done (record p { sinks = set p.sinks sink_type (hooked_sink c sink) }))
        × (attach_route c p sink_type
            ≡ done (record p { sinks = set p.sinks sink_type (routed_sink c sink) }))
  unfolding attach_sink attach_route sink_allocate
  attach_sink_lem c p sink_type sink full known there =
      let alloc : Sink = record sink { route = none; transform = none; is_connected = true } in
      let inside = get_elem?-set_self p.sinks sink_type alloc (omega (arith, full)) in
      (
        rw (there, inside, set-set p.sinks sink_type alloc (hooked_sink c sink)) refl,
        rw (there, inside, set-set p.sinks sink_type alloc (routed_sink c sink)) refl,
      )

  hooked_source-IsReady :
      (c : Connection) (p : Pipeline) (source_id : ℕ) (src : Source)
      → IsReady p
      → source_id < max_sources
      → IsReady (record p { sources = set p.sources source_id (hooked_source c source_id src) })
  hooked_source-IsReady c p source_id src ready known =
      set_source-IsReady p source_id (hooked_source c source_id src) ready known
        (λ on. record {
          has_more = (c.has_more, refl);
          read_byte = (c.read_byte, refl);
          known = known;
        })
        (λ f h m. cc)

  -- A hook that succeeds, connects a source and a sink to the connection, changes no other port, and
  -- leaves the pipeline ready.
  abbrev pub IsHooked : Outcome (Result × Pipeline) → Connection → Pipeline → ℕ → ℕ → Type 0
  IsHooked hook c p source_id sink_type = Ensures hook (λ (rv, p').
      (rv ≡ succ)
      × IsReady p'
      × ((src : Source) × (sink : Sink) × (get_elem? p.sources source_id ≡ some src)
          × (get_elem? p.sinks sink_type ≡ some sink)
          × (p' ≡ hooked c p source_id src sink_type sink)))

  -- The same, but that the sink keeps its `init` and `cleanup`.
  abbrev pub IsRouted : Outcome (Result × Pipeline) → Connection → Pipeline → ℕ → ℕ → Type 0
  IsRouted hook c p source_id sink_type = Ensures hook (λ (rv, p').
      (rv ≡ succ)
      × IsReady p'
      × ((src : Source) × (sink : Sink) × (get_elem? p.sources source_id ≡ some src)
          × (get_elem? p.sinks sink_type ≡ some sink)
          × (p' ≡ routed c p source_id src sink_type sink)))

  pub attach-IsHooked :
      (c : Connection) (p : Pipeline) (source_id sink_type : ℕ)
      → IsReady p
      → source_id < max_sources
      → sink_type < max_sinks
      → IsHooked (attach c p source_id sink_type) c p source_id sink_type
        × IsRouted (attach_twice c p source_id sink_type) c p source_id sink_type
  unfolding attach attach_twice
  attach-IsHooked c p source_id sink_type ready known known' =
      let (src, there) = get_elem?-inside p.sources source_id (omega (arith, ready.sources)) in
      let (sink, there') = get_elem?-inside p.sinks sink_type (omega (arith, ready.sinks)) in
      let p₁ = record p { sources = set p.sources source_id (hooked_source c source_id src) } in
      let ready₁ = hooked_source-IsReady c p source_id src ready known in
      let (all, route) = attach_sink_lem c p₁ sink_type sink ready.sinks known' there' in
      let first = attach_source_lem c p source_id src ready known there in
      (
        (
          (succ, hooked c p source_id src sink_type sink),
          rw (first, all) refl,
          (
            refl,
            set_sink-IsReady p₁ sink_type (hooked_sink c sink) ready₁ known' (λ f h m. cc),
            (src, sink, there, there', refl),
          ),
        ),
        (
          (succ, routed c p source_id src sink_type sink),
          rw (first, route) refl,
          (
            refl,
            set_sink-IsReady p₁ sink_type (routed_sink c sink) ready₁ known' (λ f h m. cc),
            (src, sink, there, there', refl),
          ),
        ),
      )
