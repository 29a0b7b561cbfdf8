-- ===== src/Spin/Loop.antt =====
-- The loop of `main` (main.c) over `pipeline_spin`, which always returns SUCC.
use secure_mavlink_gateway.Prelude.{
  ℕ, zero, suc, ◌<◌, ◌≡◌, refl, sym, ap, ◌∙◌, Bool, false, get_elem?, if◌then◌else◌, arith,
}
use secure_mavlink_gateway.Outcome.{if-Ensures, Outcome, done, Ensures, ◌>>=◌, >>=-Ensures}
use secure_mavlink_gateway.Platform.{Platform}
use secure_mavlink_gateway.Message.{Message}
use secure_mavlink_gateway.Perf.Report.{AreQueriedAt}
use secure_mavlink_gateway.Pipeline.{Pipeline}
use secure_mavlink_gateway.Spin.{Build, Gateway, pipeline_spin}
use secure_mavlink_gateway.Spin.Ready.{
  IsReady, IsKept, Derived, as_it_was, transformed_by, SameDevices,
}
use secure_mavlink_gateway.Spin.Total.{IsSpun, pipeline_spin_lem}

module _ ⦃platform : Platform⦄ where
  -- `rounds` is how long the loop is followed, and `fuel` that of each round.
  unfoldable pub main_loop : (rounds fuel : ℕ) → Build → Gateway → Outcome Gateway
  main_loop zero fuel b g = done g
  main_loop (suc rounds) fuel b g =
      let next = pipeline_spin fuel b g >>= λ g'. main_loop rounds fuel b g' in
      if g.pipeline.terminated then done g else next

  -- The pipeline with other flags.
  abbrev pub flagged : Pipeline → Bool → Bool → Pipeline
  flagged p policy transform = record p { policy_enabled = policy; transform_enabled = transform }

module _ ⦃platform : Platform⦄ (Inv : platform.World → Type 0) (pending : platform.World → ℕ) where
  open platform use {World}

  -- The devices are as described, whatever flags the console can set.
  abbrev pub IsAlwaysKept : Build → Pipeline → Type 0
  IsAlwaysKept b p =
      (policy transform : Bool)
      → (b.use_console ≡ false → (policy ≡ p.policy_enabled) × (transform ≡ p.transform_enabled))
      → IsKept Inv pending b (flagged p policy transform)

  flagged-Derived :
      (p₀ p : Pipeline) (m m' : Message)
      → SameDevices p₀ p
      → Derived p m m'
      → Derived (flagged p₀ p.policy_enabled p.transform_enabled) m m'
  flagged-Derived p₀ p m m' same as_it_was = as_it_was
  flagged-Derived p₀ p m m' same (transformed_by {m' = m₁} i sink f there coded on before) =
      transformed_by i sink f (ap (λ sinks. get_elem? sinks i) (sym same.sinks) ∙ there) coded on
        (flagged-Derived p₀ p m m₁ same before)

  SameDevices-IsKept :
      (b : Build) (p₀ p : Pipeline)
      → SameDevices p₀ p
      → IsKept Inv pending b (flagged p₀ p.policy_enabled p.transform_enabled)
      → IsKept Inv pending b p
  SameDevices-IsKept b p₀ p same laws = record {
    parse = laws.parse;
    time = laws.time;
    key = laws.key;
    ascii = laws.ascii;
    sources = λ i src found.
        let (old, found', more, byte) = same.sources i src found in
        let kept = laws.sources i old found' in
        record {
          more = λ f e. kept.more f (sym more ∙ e);
          byte = λ f g e e'. kept.byte f g (sym more ∙ e) (sym byte ∙ e');
        };
    route = λ m m' j i sink f free known to there e derived.
        laws.route m m' j i sink f free known to
          (ap (λ sinks. get_elem? sinks i) (sym same.sinks) ∙ there) e
          (flagged-Derived p₀ p m m' same derived);
    discard = λ m sink f on there.
        laws.discard m sink f on (ap (λ sinks. get_elem? sinks 0) (sym same.sinks) ∙ there);
  }

  -- Where a round stands that follows others.
  SameDevices-trans : (p₀ p p' : Pipeline) → SameDevices p₀ p → SameDevices p p' → SameDevices p₀ p'
  SameDevices-trans p₀ p p' same same' = record {
    sinks = same'.sinks ∙ same.sinks;
    terminated = same'.terminated ∙ same.terminated;
    sources = λ i src found.
        let (mid, found', more, byte) = same'.sources i src found in
        let (old, found'', more', byte') = same.sources i mid found' in
        (old, found'', more ∙ more', byte ∙ byte');
  }

  main_loop-IsSpun :
      (rounds fuel : ℕ) (b : Build) (p₀ : Pipeline) (w₀ : World) (g : Gateway)
      → IsAlwaysKept b p₀
      → pending w₀ < fuel
      → IsSpun Inv pending b p₀ w₀ g
      → Ensures (main_loop rounds fuel b g) (IsSpun Inv pending b p₀ w₀)
  unfolding main_loop
  main_loop-IsSpun zero fuel b p₀ w₀ g laws enough v = (g, refl, v)
  main_loop-IsSpun (suc rounds) fuel b p₀ w₀ g laws enough v =
      let p = g.pipeline in
      if-Ensures p.terminated (λ _. (g, refl, v))
        (λ _.
          let kept =
            SameDevices-IsKept b p₀ p v.same (laws p.policy_enabled p.transform_enabled v.flags) in
          >>=-Ensures (pipeline_spin fuel b g) _
            (pipeline_spin_lem Inv pending fuel b g v.ready kept v.queried v.inv
              (omega (arith, v.bound)))
            (λ g' spun. main_loop-IsSpun rounds fuel b p₀ w₀ g' laws enough (record {
              same = SameDevices-trans p₀ p g'.pipeline v.same spun.same;
              flags = λ off.
                  let (policy, transform) = v.flags off in
                  let (policy', transform') = spun.flags off in
                  (policy' ∙ policy, transform' ∙ transform);
              ready = spun.ready;
              queried = spun.queried;
              inv = spun.inv;
              bound = omega (arith, v.bound, spun.bound);
            })))

  -- On a ready gateway, with devices as described whatever flags the console can set, and more fuel for
  -- each round than there is input: however long the loop of `main` is followed, every round comes to a
  -- result, and afterwards the gateway is ready, has its devices and, without a console, its flags,
  -- and the property of the world that the devices keep still holds.
  pub main_loop_lem :
      (rounds fuel : ℕ) (b : Build) (g : Gateway)
      → IsReady g.pipeline
      → IsAlwaysKept b g.pipeline
      → AreQueriedAt g.shows.perf g.shows.last
      → Inv g.world
      → pending g.world < fuel
      → Ensures (main_loop rounds fuel b g) (IsSpun Inv pending b g.pipeline g.world)
  main_loop_lem rounds fuel b g ready laws q inv enough =
      main_loop-IsSpun rounds fuel b g.pipeline g.world g laws enough (record {
        same = record {
          sinks = refl;
          terminated = refl;
          sources = λ i src there. (src, there, refl, refl);
        };
        flags = λ _. (refl, refl);
        ready = ready;
        queried = q;
        inv = inv;
        bound = omega arith;
      })
