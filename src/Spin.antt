-- ===== src/Spin.antt =====
-- `pipeline_spin`, `pipeline_connect` and `pipeline_disconnect` of lib/secure_gateway.c. The loop on
-- `has_more` is left to the device, so it takes fuel.
pub mod Ready
pub mod Delivery
pub mod Bytes
pub mod Sources
pub mod Total
pub mod Start
pub mod Loop
pub mod Connect
pub mod Tests
use secure_mavlink_gateway.Prelude.{
  ℕ, zero, suc, ◌+◌, ◌%◌, ◌^◌, Bool, true, false, not, Option, none, some, List, [], ◌∷◌, get_elem?,
  set, truthy, if◌then◌else◌, ◌==◌,
}
use secure_mavlink_gateway.Outcome.{Outcome, done, no_fuel, or_out_of_bounds, ◌>>=◌}
use secure_mavlink_gateway.Platform.{Platform}
use secure_mavlink_gateway.Ports.{Source, Sink, max_sources}
use secure_mavlink_gateway.Perf.{unit_source, perf_port_unit_update, perf_exec_unit_update, sub64}
use secure_mavlink_gateway.Perf.Show.{Shows, perf_show}
use secure_mavlink_gateway.Pipeline.{Pipeline, Push, pipeline_push, transformed}
use secure_mavlink_gateway.Console.{console_spin}

-- Which of DEBUG and USE_CONSOLE the build defines.
pub record Build : Type 0 where
  pub debug : Bool
  pub use_console : Bool

-- The static variables, the pipeline and the world.
module _ ⦃platform : Platform⦄ where
  open platform use {World, parse_char, framing_incomplete, framing_ok, time_us}

  pub record Gateway : Type 0 where
    pub pipeline : Pipeline
    pub shows : Shows
    pub last_time : ℕ
    pub total_bytes : ℕ
    pub world : World

  -- `is_some` for a function pointer
  abbrev pub not_null {ℓ} : {A : Type ℓ} → Option A → Bool
  not_null none = false
  not_null (some f) = true

  -- What the loop over the bytes of a source changes: `src->cur`, the counters, the world,
  -- `has_load` and `total_bytes`.
  pub record Reading : Type 0 where
    pub push : Push
    pub has_load : Bool
    pub total_bytes : ℕ

  -- A complete message of source `i`: it is counted, transformed and pushed.
  unfoldable pub on_message : Build → Pipeline → ℕ → Source → Push → Outcome Push
  on_message b p i src s = do
    let m = record (s.message) { source = src.source_id }
    perf ← perf_port_unit_update s.perf unit_source i m
    pipeline_push b.debug p
        (record s { message = transformed p.transform_enabled src.transform m; perf = perf })

  -- One byte of source `i`.
  unfoldable pub on_byte : Build → Pipeline → ℕ → Source → ℕ → Push → Outcome Push
  unfolding on_message
  on_byte b p i src byte s =
      let (rv, msg, status, w) = parse_char i byte s.message.msg s.message.status s.world in
      let s' = record s {
        message = record (s.message) { msg = msg; status = status };
        world = w;
      } in
      if rv == framing_incomplete
      then done s'
      else if rv == framing_ok
      then on_message b p i src s'
      else done s'

  -- `while (src->has_more(src))`
  unfoldable pub read_loop :
      ℕ
      → Build
      → Pipeline
      → ℕ
      → Source
      → (World → ℕ × World)
      → (World → ℕ × World)
      → Reading
      → Outcome Reading
  read_loop zero b p i src has_more read_byte s = no_fuel
  read_loop (suc fuel) b p i src has_more read_byte s =
      let (more, w) = has_more s.push.world in
      let (c, w') = read_byte w in
      let next = on_byte b p i src (c % 2 ^ 8) (record (s.push) { world = w' }) >>= λ push.
      read_loop fuel b p i src has_more read_byte
        (record { push = push; has_load = true; total_bytes = (s.total_bytes + 1) % 2 ^ 64 }) in
      if truthy more then next else done (record s { push = record (s.push) { world = w } })

  -- One round of the loop over the sources. `src->cur` lives in the table, and is put back there
  -- when the bytes are read: nothing reads it there in between.
  unfoldable pub spin_source : ℕ → Build → ℕ → Gateway → Bool → Outcome (Gateway × Bool)
  unfolding read_loop
  spin_source fuel b i g has_load = do
    src ← or_out_of_bounds (get_elem? g.pipeline.sources i)
    if not src.is_connected then done (g, has_load) else elim src.has_more [
      | none ↦ Outcome.assert_failed
      | some has_more ↦ elim src.read_byte [
        | none ↦ Outcome.assert_failed
        | some read_byte ↦
            read_loop fuel b g.pipeline i src has_more read_byte (record {
              push = record { message = src.cur; perf = g.shows.perf; world = g.world };
              has_load = has_load;
              total_bytes = g.total_bytes;
            })
            >>= λ r. done (
              record g {
                pipeline = record (g.pipeline) {
                  sources = set g.pipeline.sources i (record src { cur = r.push.message });
                };
                shows = record (g.shows) { perf = r.push.perf };
                total_bytes = r.total_bytes;
                world = r.push.world;
              },
              r.has_load,
            )
      ]
    ]

  unfoldable pub spin_loop : ℕ → Build → (n i : ℕ) → Gateway → Bool → Outcome (Gateway × Bool)
  unfolding spin_source
  spin_loop fuel b zero i g has_load = done (g, has_load)
  spin_loop fuel b (suc n) i g has_load =
      spin_source fuel b i g has_load >>= λ (g', has_load'). spin_loop fuel b n (i + 1) g' has_load'

  -- `console_spin` on the gateway's state.
  unfoldable pub spin_console : Gateway → Outcome Gateway
  spin_console g =
      console_spin (record { pipeline = g.pipeline; last_time = g.last_time; world = g.world })
      >>= λ c. done (record g { pipeline = c.pipeline; last_time = c.last_time; world = c.world })

  -- The result of the call is always SUCC.
  unfoldable pub pipeline_spin : ℕ → Build → Gateway → Outcome Gateway
  unfolding spin_loop spin_console
  pipeline_spin fuel b g = do
    let (tstart, w) = time_us g.world
    (g₁, has_load) ← spin_loop fuel b max_sources 0 (record g { world = w }) false
    g₂ ← (if b.use_console then spin_console g₁ else done g₁)
    let (tend, w₂) = time_us g₂.world
    let (now, w₃) = time_us w₂
    shows ←
        perf_show
          (record (g₂.shows) {
            perf = perf_exec_unit_update g₂.shows.perf (sub64 tend tstart) has_load;
          })
          now
    done (record g₂ { shows = shows; world = w₃ })

  -- `src->init(src)` of one port
  abbrev pub call_if : Bool → Option (World → World) → World → World
  call_if true (some f) w = f w
  call_if true none w = w
  call_if false f w = w

  pub connect_sources : List Source → World → World
  connect_sources [] w = w
  connect_sources (s ∷ rest) w = connect_sources rest (call_if s.is_connected s.init w)

  pub connect_sinks : List Sink → World → World
  connect_sinks [] w = w
  connect_sinks (s ∷ rest) w = connect_sinks rest (call_if s.is_connected s.init w)

  pub pipeline_connect : Pipeline → World → World
  pipeline_connect p w = connect_sinks p.sinks (connect_sources p.sources w)

  pub disconnect_sources : List Source → World → World
  disconnect_sources [] w = w
  disconnect_sources (s ∷ rest) w = disconnect_sources rest (call_if s.is_connected s.cleanup w)

  pub disconnect_sinks : List Sink → World → World
  disconnect_sinks [] w = w
  disconnect_sinks (s ∷ rest) w = disconnect_sinks rest (call_if s.is_connected s.cleanup w)

  pub pipeline_disconnect : Pipeline → World → World
  pipeline_disconnect p w = disconnect_sinks p.sinks (disconnect_sources p.sources w)
