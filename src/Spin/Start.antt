-- ===== src/Spin/Start.antt =====
-- About what `pipeline_init` of lib/secure_gateway.c leaves.
use secure_mavlink_gateway.Prelude.{
  ℕ, zero, suc, ◌≡◌, refl, ap, ◌∙◌, true, false, none, some, get_elem?, length, replicate,
}
use secure_mavlink_gateway.Outcome.{Ensures}
use secure_mavlink_gateway.Platform.{Platform}
use secure_mavlink_gateway.Ports.{Source, Sink, max_sources, max_sinks}
use secure_mavlink_gateway.Policy.{max_policies}
use secure_mavlink_gateway.Perf.Report.{perf_init-AreQueriedAt, AreQueriedAt}
use secure_mavlink_gateway.Pipeline.{Pipeline, zero_source, zero_sink, pipeline_init}
use secure_mavlink_gateway.Pipeline.Verdict.{security_policy_init_lem}
use secure_mavlink_gateway.Spin.Ready.{IsReady}

pub get_elem?-replicate {ℓ} :
    {A : Type ℓ} (n i : ℕ) (a x : A) → get_elem? (replicate n a) i ≡ some x → a ≡ x
get_elem?-replicate zero i a x h = cc
get_elem?-replicate (suc n) zero a x h = cc
get_elem?-replicate (suc n) (suc i) a x h = get_elem?-replicate n i a x h

module _ ⦃platform : Platform⦄ where
  pub pipeline_init-zero :
      (p : Pipeline)
      → length p.policies.policies ≡ max_policies
      → Ensures (pipeline_init p) (λ (p', perf).
        IsReady p'
        × AreQueriedAt perf 0
        × (p'.transform_enabled ≡ p.transform_enabled)
        × (p'.sources ≡ replicate max_sources zero_source)
        × (p'.sinks ≡ replicate max_sinks zero_sink))
  unfolding pipeline_init
  pipeline_init-zero p slots =
      let (mgmt, same, default, len) = security_policy_init_lem p.policies.policies slots in
      rw same (
        _,
        refl,
        (
          record {
            policies = default;
            table = refl;
            sources = refl;
            sinks = refl;
            keeps = λ i sink found f there m.
                let null : zero_sink ≡ sink =
                  get_elem?-replicate max_sinks i zero_sink sink found in
                let no : none ≡ some f = ap (λ (s : Sink). s.transform) null ∙ there in cc;
            origins = λ i src found f there m.
                let null : zero_source ≡ src =
                  get_elem?-replicate max_sources i zero_source src found in
                let no : none ≡ some f = ap (λ (s : Source). s.transform) null ∙ there in cc;
            connected = λ i src found on.
                let null : zero_source ≡ src =
                  get_elem?-replicate max_sources i zero_source src found in
                let no : false ≡ true = ap (λ (s : Source). s.is_connected) null ∙ on in cc;
          },
          perf_init-AreQueriedAt,
          refl,
          refl,
          refl,
        ),
      )

  -- On a pipeline with a table of 16 policies, `pipeline_init` succeeds and leaves a ready pipeline and
  -- counters queried at 0. Whether the transformers are on stays as it was.
  pipeline_init_lem :
      (p : Pipeline)
      → length p.policies.policies ≡ max_policies
      → Ensures (pipeline_init p) (λ (p', perf).
        IsReady p' × AreQueriedAt perf 0 × (p'.transform_enabled ≡ p.transform_enabled))
  pipeline_init_lem p slots =
      let (result, ends, (ready, queried, same, sources, sinks)) = pipeline_init-zero p slots in
      (result, ends, (ready, queried, same))
