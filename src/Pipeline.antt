-- ===== src/Pipeline.antt =====
-- The pipeline of lib/secure_gateway.c with the default route table (lib/route_table.c) and the
-- default policies (lib/security_policies.c): routing, inspection and delivery of one message.
-- The pointers `push` and `get_sink` are set once, to `pipeline_push` and `pipeline_get_sink`, and
-- called directly here.
mod Tests
pub mod Verdict
pub mod Routes
pub mod Limits
use secure_mavlink_gateway.Prelude.{
  ℕ, zero, suc, ◌+◌, Bool, true, false, not, Option, none, some, List, [], ◌∷◌, get_elem?, set, ltb,
  leb, truthy, bit_or, if◌then◌else◌, replicate,
}
use secure_mavlink_gateway.Outcome.{
  Outcome, done, assert, or_out_of_bounds, or_null_call, ◌>>=◌, ◌>>◌,
}
use secure_mavlink_gateway.Platform.{Platform}
use secure_mavlink_gateway.Bitmap.{Bitmap, bit_of, bitmap_const, bitmap_set, bitmap_test}
use secure_mavlink_gateway.Message.{Message}
use secure_mavlink_gateway.Ports.{
  Source, Sink, PortType, port_type_source, port_type_sink, max_sources, max_sinks, sink_get,
  sink_type_discard, sink_type_vmc, sink_type_enclave, sink_type_legacy,
}
use secure_mavlink_gateway.Policy.{Policy, PolicyMgmt, policy_register}
use secure_mavlink_gateway.Policy.Rules.{
  policy_id_accept_vmc, policy_id_reject_disable_geofence, policy_id_reject_meminfo,
  security_policy_match_vmc, security_policy_match_mmc, security_policy_check_accept,
  security_policy_reject_mavlink_cmd_disable_geofence, security_policy_reject_mavlink_cmd_meminfo,
}
use secure_mavlink_gateway.Perf.{Perf, unit_sink, perf_init, perf_port_unit_update}

-- `default_route_table`, indexed by source.
abbrev pub default_route_table : List Bitmap
default_route_table =
    bitmap_const 0
    ∷ bitmap_const (bit_or (bit_of sink_type_legacy) (bit_of sink_type_enclave))
    ∷ bitmap_const (bit_of sink_type_vmc)
    ∷ bitmap_const (bit_of sink_type_vmc)
    ∷ []

module _ ⦃platform : Platform⦄ where
  open platform use {World, zero_msg, zero_status}

  pub record Pipeline : Type 0 where
    pub terminated : Bool
    pub policy_enabled : Bool
    pub transform_enabled : Bool
    pub sources : List Source
    pub sinks : List Sink
    pub route_table : List Bitmap
    pub policies : PolicyMgmt

  abbrev pub zero_message : Message
  zero_message = record {
    msg = zero_msg;
    status = zero_status;
    sinks = bitmap_const 0;
    source = 0;
    attribute = 0;
  }

  abbrev pub zero_source : Source
  zero_source = record {
    is_connected = false;
    source_id = 0;
    cur = zero_message;
    has_more = none;
    read_byte = none;
    transform = none;
    init = none;
    cleanup = none;
  }

  abbrev pub zero_sink : Sink
  zero_sink = record {
    is_connected = false;
    route = none;
    transform = none;
    init = none;
    cleanup = none;
  }

  unfoldable pub security_policy_init : PolicyMgmt → Outcome PolicyMgmt
  unfolding policy_register
  security_policy_init mgmt = do
    mgmt ←
        policy_register mgmt policy_id_accept_vmc (some security_policy_match_vmc)
          (some security_policy_check_accept)
    mgmt ←
        policy_register mgmt policy_id_reject_disable_geofence (some security_policy_match_mmc)
          (some security_policy_reject_mavlink_cmd_disable_geofence)
    policy_register mgmt policy_id_reject_meminfo (some security_policy_match_mmc)
        (some security_policy_reject_mavlink_cmd_meminfo)

  -- The pipeline and the counters `perf_secure_gateway`. `transform_enabled` stays as it was.
  unfoldable pub pipeline_init : Pipeline → Outcome (Pipeline × Perf)
  unfolding security_policy_init
  pipeline_init p = do
    policies ← security_policy_init (record (p.policies) { count = 0 })
    done (
      record p {
        sources = replicate max_sources zero_source;
        sinks = replicate max_sinks zero_sink;
        terminated = false;
        policy_enabled = true;
        route_table = default_route_table;
        policies = policies;
      },
      perf_init,
    )

  unfoldable pub route_table_route : List Bitmap → Message → Outcome Message
  route_table_route table m = do
    assert (ltb m.source max_sources)
    sinks ← or_out_of_bounds (get_elem? table m.source)
    done (record m { sinks = sinks })

  -- One round of the loop of `pipeline_inspect`: the message afterwards, and whether the loop breaks.
  unfoldable pub inspect_policy : Policy → Message → Outcome (Message × Bool)
  inspect_policy policy m = do
    match ← or_null_call policy.match
    if match policy.policy_id m
        then (or_null_call policy.check >>= λ check.
            let (is_secure, attribute) = check policy.policy_id m m.attribute in
            let m' = record m { attribute = bit_or m.attribute attribute } in
            if is_secure
            then done (m', false)
            else done (record m' { sinks = bitmap_set m'.sinks sink_type_discard }, true))
        else done (m, false)

  -- The loop from policy `i` on, with `n` rounds left.
  unfoldable pub inspect_loop : ℕ → ℕ → List Policy → Message → Outcome Message
  inspect_loop zero i policies m = done m
  inspect_loop (suc n) i policies m = do
    policy ← or_out_of_bounds (get_elem? policies i)
    (m', stop) ← inspect_policy policy m
    elim stop [ true ↦ done m' | false ↦ inspect_loop n (i + 1) policies m' ]

  unfoldable pub pipeline_inspect : Pipeline → Message → Outcome Message
  pipeline_inspect p m =
      if not p.policy_enabled then done m else inspect_loop p.policies.count 0 p.policies.policies m

  unfoldable pub pipeline_get_sink : Pipeline → ℕ → Outcome Sink
  unfolding sink_get
  pipeline_get_sink p type = sink_get p.sinks type

  -- What a push changes: the message, the counters and the world.
  pub record Push : Type 0 where
    pub message : Message
    pub perf : Perf
    pub world : World

  -- A transformer is called only if it is enabled and there.
  abbrev pub transformed : Bool → Option (Message → Message) → Message → Message
  transformed true (some f) m = f m
  transformed true none m = m
  transformed false f m = m

  -- `sink->route(sink, msg)` if it is not null, with the transformer before it and the counter after
  -- it.
  unfoldable pub call_route :
      Pipeline → ℕ → Sink → Option (Message → World → ℕ × World) → Push → Outcome Push
  call_route p i sink none s = done s
  call_route p i sink (some route) s =
      let m = transformed p.transform_enabled sink.transform s.message in
      let (rv, w) = route m s.world in
      perf_port_unit_update s.perf unit_sink i m >>= λ perf.
      done (record { message = m; perf = perf; world = w })

  -- The body of the loop over the sinks, for a sink that the message goes to.
  unfoldable pub deliver : Pipeline → ℕ → Push → Outcome Push
  unfolding pipeline_get_sink call_route
  deliver p i s = pipeline_get_sink p i >>= λ sink. call_route p i sink sink.route s

  -- The loop over the sinks from `i` on, with `n` rounds left.
  unfoldable pub push_loop : ℕ → ℕ → Pipeline → Push → Outcome Push
  push_loop zero i p s = done s
  push_loop (suc n) i p s =
      (if truthy (bitmap_test s.message.sinks i) then deliver p i s else done s) >>= λ s'.
      push_loop n (i + 1) p s'

  -- The sink for discarded messages, which only a build with DEBUG calls.
  unfoldable pub route_discarded : Pipeline → Push → Outcome Push
  unfolding pipeline_get_sink
  route_discarded p s = do
    sink ← pipeline_get_sink p sink_type_discard
    elim sink.route [
      | none ↦ done s
      | some route ↦ let (rv, w) = route s.message s.world in done (record s { world = w })
    ]

  -- What `pipeline_push` does after the inspection.
  unfoldable pub dispatch : Bool → Pipeline → Push → Outcome Push
  dispatch debug p s =
      if truthy (bitmap_test s.message.sinks sink_type_discard)
      then (if debug then route_discarded p s else done s)
      else push_loop max_sinks 0 p s

  -- `debug` is whether the build defines DEBUG. The result of the call is always 0, that of
  -- `route_table_route`.
  unfoldable pub pipeline_push : Bool → Pipeline → Push → Outcome Push
  unfolding dispatch
  pipeline_push debug p s = do
    routed ← route_table_route p.route_table s.message
    m ← pipeline_inspect p routed
    dispatch debug p (record s { message = m })

  unfoldable pub add_transformer :
      Pipeline → PortType → ℕ → Option (Message → Message) → Outcome Pipeline
  add_transformer p port_type_source id transform = do
    assert (leb id max_sources)
    src ← or_out_of_bounds (get_elem? p.sources id)
    done (record p { sources = set p.sources id (record src { transform = transform }) })
  add_transformer p port_type_sink id transform = do
    assert (leb id max_sinks)
    sink ← sink_get p.sinks id
    done (record p { sinks = set p.sinks id (record sink { transform = transform }) })
