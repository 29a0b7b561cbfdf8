-- ===== src/Pipeline/Tests.antt =====
-- Runs of the pipeline on the small platform, and its theorems there.
use secure_mavlink_gateway.Prelude.{◌≡◌, refl, false, none, [], ◌∷◌, arith}
use secure_mavlink_gateway.Outcome.{done, out_of_bounds, assert_failed}
use secure_mavlink_gateway.Pipeline.Limits.{add_transformer_lem}
use secure_mavlink_gateway.Pipeline.{add_transformer, pipeline_inspect, pipeline_push}
use secure_mavlink_gateway.Ports.{port_type_source, port_type_sink}
use secure_mavlink_gateway.Pipeline.Verdict.{discarded, pipeline_inspect_lem}
use secure_mavlink_gateway.Pipeline.Routes.{deliver_all, routed, pipeline_push_lem}
use secure_mavlink_gateway.Example.{
  pipeline-KeepsSinks, toy, packet, fence_off, pipeline, pipeline-IsDefault, push_of,
}

pipeline_inspect_example :
    pipeline_inspect pipeline (push_of 2 fence_off).message
    ≡ done (discarded (push_of 2 fence_off).message)
pipeline_inspect_example =
    pipeline_inspect_lem pipeline (push_of 2 fence_off).message pipeline-IsDefault

-- An ordinary message of the ground side goes to the vehicle.
pipeline_push_example :
    pipeline_push false pipeline (push_of 2 (packet 5))
    ≡ deliver_all pipeline (1 ∷ []) (routed (push_of 2 (packet 5)))
pipeline_push_example =
    pipeline_push_lem false pipeline (push_of 2 (packet 5)) pipeline-IsDefault refl
      pipeline-KeepsSinks (omega arith)

-- At the first index past the tables.
add_transformer_example :
    (add_transformer pipeline port_type_source 4 none ≡ out_of_bounds)
    × (add_transformer pipeline port_type_sink 4 none ≡ assert_failed)
add_transformer_example = add_transformer_lem pipeline 4 none refl refl
