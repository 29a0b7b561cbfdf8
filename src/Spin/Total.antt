-- ===== src/Spin/Total.antt =====
-- About a whole round of the main loop on a ready gateway (`pipeline_spin` of
-- lib/secure_gateway.c).
use secure_mavlink_gateway.Prelude.{
  ◌∙◌, true, ◌≡◌, ℕ, ◌<◌, ◌≤◌, refl, sym, subst, Bool, false, arith, Bool-cases, inl, inr,
  if◌then◌else◌, ltb, lt→ltb, ◌==◌,
}
use secure_mavlink_gateway.Outcome.{if-Ensures, done, Ensures, >>=-Ensures}
use secure_mavlink_gateway.Platform.{Platform}
use secure_mavlink_gateway.Ports.{max_sources}
use secure_mavlink_gateway.Perf.{Perf, perf_exec_unit_update, sub64}
use secure_mavlink_gateway.Perf.Report.{AreQueriedAt, perf_show_lem}
use secure_mavlink_gateway.Perf.Show.{Shows}
use secure_mavlink_gateway.Pipeline.{Pipeline}
use secure_mavlink_gateway.Console.{Console, press, console_spin}
use secure_mavlink_gateway.Console.Keys.{pressed, press_lem}
use secure_mavlink_gateway.Spin.{Build, Gateway, spin_console, spin_loop, pipeline_spin}
use secure_mavlink_gateway.Spin.Ready.{SameDevices, SameFlags, IsReady, IsKept}
use secure_mavlink_gateway.Spin.Sources.{Between, spin_loop-Ensures}

update-AreQueriedAt :
    (perf : Perf) (last duration : ℕ) (has_load : Bool)
    → AreQueriedAt perf last
    → AreQueriedAt (perf_exec_unit_update perf duration has_load) last
unfolding perf_exec_unit_update
update-AreQueriedAt perf last duration has_load q = record {
  vmc_source = q.vmc_source;
  vmc_sink = q.vmc_sink;
  sources = q.sources;
  sinks = q.sinks;
  exec = q.exec;
}

module _ ⦃platform : Platform⦄ (Inv : platform.World → Type 0) (pending : platform.World → ℕ) where
  open platform use {World, time_us, read_char}

  pressed-IsReady : (p : Pipeline) (c : ℕ) → IsReady p → IsReady (pressed p c)
  pressed-IsReady p c ready = record {
    policies = ready.policies;
    table = ready.table;
    sources = ready.sources;
    sinks = ready.sinks;
    keeps = ready.keeps;
    origins = ready.origins;
    connected = ready.connected;
  }

  press-Ensures :
      (p₀ p : Pipeline) (c : ℕ)
      → c < 128
      → IsReady p
      → SameDevices p₀ p
      → Ensures (press p c) (λ p'. IsReady p' × SameDevices p₀ p')
  press-Ensures p₀ p c ascii ready same = rw (press_lem p c) (
      rw (lt→ltb c 128 ascii) (
        pressed p c,
        refl,
        (
          pressed-IsReady p c ready,
          record { sinks = same.sinks; terminated = same.terminated; sources = same.sources },
        ),
      ))

  -- After the console.
  record Attended (p₀ : Pipeline) (w : World) (p : Pipeline) (w' : World) : Type 0 where
    same : SameDevices p₀ p
    ready : IsReady p
    inv : Inv w'
    bound : pending w' ≤ pending w

  console_spin-Ensures :
      (b : Build) (p₀ p : Pipeline) (c : Console)
      → IsKept Inv pending b p
      → SameDevices p₀ c.pipeline
      → IsReady c.pipeline
      → Inv c.world
      → Ensures (console_spin c) (λ c'. Attended p₀ c.world c'.pipeline c'.world)
  unfolding console_spin
  console_spin-Ensures b p₀ p c laws same ready inv =
      let (cur_time, w) = time_us c.world in
      let (char, w') = read_char w in
      let (inv₁, bound₁) = laws.time c.world inv in
      let (inv₂, bound₂) = laws.key w inv₁ in
      elim (Bool-cases (ltb (sub64 cur_time c.last_time) 100000)) [
        | inl soon ↦
            rw soon (_, refl, record { same = same; ready = ready; inv = inv₁; bound = bound₁ })
        | inr later ↦ rw later (elim (Bool-cases (char == 0)) [
          | inl no_key ↦ rw no_key (
            _,
            refl,
            record {
              same = same;
              ready = ready;
              inv = inv₂;
              bound = omega (arith, bound₁, bound₂);
            },
          )
          | inr key ↦ rw key (
              >>=-Ensures (press c.pipeline char) _
                (press-Ensures p₀ c.pipeline char (laws.ascii w) ready same)
                (λ p' (ready', same'). (
                  _,
                  refl,
                  record {
                    same = same';
                    ready = ready';
                    inv = inv₂;
                    bound = omega (arith, bound₁, bound₂);
                  },
                )))
        ])
      ]

  -- After a round of the main loop that began with `p₀` in `w`.
  pub record IsSpun (b : Build) (p₀ : Pipeline) (w : World) (g : Gateway) : Type 0 where
    pub same : SameDevices p₀ g.pipeline
    pub flags : b.use_console ≡ false → SameFlags p₀ g.pipeline
    pub ready : IsReady g.pipeline
    pub queried : AreQueriedAt g.shows.perf g.shows.last
    pub inv : Inv g.world
    pub bound : pending g.world ≤ pending w

  spin_console-Ensures :
      (b : Build) (last : ℕ) (p₀ : Pipeline) (w : World) (g : Gateway)
      → Between Inv pending last p₀ b w g
      → Ensures (if b.use_console then spin_console g else done g) (IsSpun b p₀ w)
  unfolding spin_console
  spin_console-Ensures b last p₀ w g v =
      let q = subst (AreQueriedAt g.shows.perf) (sym v.same_last) v.queried in
      if-Ensures b.use_console
        (λ on.
          >>=-Ensures (console_spin _) _
            (console_spin-Ensures b p₀ g.pipeline
              (record { pipeline = g.pipeline; last_time = g.last_time; world = g.world }) v.laws
              v.same v.ready v.inv)
            (λ c a. (
              _,
              refl,
              record {
                same = a.same;
                flags = λ off. let both : true ≡ false = sym on ∙ off in cc;
                ready = a.ready;
                queried = q;
                inv = a.inv;
                bound = omega (arith, a.bound, v.bound);
              },
            )))
        (λ off. (
          g,
          refl,
          record {
            same = v.same;
            flags = λ _. v.flags;
            ready = v.ready;
            queried = q;
            inv = v.inv;
            bound = v.bound;
          },
        ))

  -- On a ready gateway, its transformers on or off, with devices as described and more fuel than there is
  -- input, a round of the main loop comes to a result and leaves a ready gateway. Every property of
  -- the world is kept that the devices keep and that the sinks keep on messages which the policies let
  -- pass, to the destinations of their source, as they are and as the sinks' transformers make them.
  pub pipeline_spin_lem :
      (fuel : ℕ) (b : Build) (g : Gateway)
      → IsReady g.pipeline
      → IsKept Inv pending b g.pipeline
      → AreQueriedAt g.shows.perf g.shows.last
      → Inv g.world
      → pending g.world < fuel
      → Ensures (pipeline_spin fuel b g) (IsSpun b g.pipeline g.world)
  unfolding pipeline_spin
  pipeline_spin_lem fuel b g ready laws q inv enough =
      let (tstart, w) = time_us g.world in
      let (inv₁, bound₁) = laws.time g.world inv in
      >>=-Ensures (spin_loop fuel b max_sources 0 (record g { world = w }) false) _
        (spin_loop-Ensures Inv pending g.shows.last g.pipeline fuel b max_sources 0 g.world
          (record g { world = w }) false (omega arith) enough
          (record {
            ready = ready;
            laws = laws;
            queried = q;
            same_last = refl;
            flags = (refl, refl);
            same = record {
              sinks = refl;
              terminated = refl;
              sources = λ i src there. (src, there, refl, refl);
            };
            inv = inv₁;
            bound = bound₁;
          }))
        (λ (g₁, has_load) v.
          >>=-Ensures (if b.use_console then spin_console g₁ else done g₁) _
            (spin_console-Ensures b g.shows.last g.pipeline g.world g₁ v)
            (λ g₂ spun.
              let (tend, w₂) = time_us g₂.world in
              let (now, w₃) = time_us w₂ in
              let (inv₂, bound₂) = laws.time g₂.world spun.inv in
              let (inv₃, bound₃) = laws.time w₂ inv₂ in
              let s : Shows = record (g₂.shows) {
                perf = perf_exec_unit_update g₂.shows.perf (sub64 tend tstart) has_load;
              } in
              let (s', same, q', rest) = perf_show_lem s now (
                update-AreQueriedAt g₂.shows.perf g₂.shows.last (sub64 tend tstart) has_load
                  spun.queried) in
              rw same (
                _,
                refl,
                record {
                  same = spun.same;
                  flags = spun.flags;
                  ready = spun.ready;
                  queried = q';
                  inv = inv₃;
                  bound = omega (arith, spun.bound, bound₂, bound₃);
                },
              )))
