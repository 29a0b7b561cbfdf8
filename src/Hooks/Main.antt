-- ===== src/Hooks/Main.antt =====
-- `main` of main.c: what it sets up, `pipeline_connect`, and its loop on `pipeline_spin`.
use secure_mavlink_gateway.Prelude.{
  ℕ, ◌<◌, ◌≤◌, ◌≡◌, refl, sym, subst, true, some, [], length, arith, truthy,
}
use secure_mavlink_gateway.Outcome.{Outcome, Ensures, ◌>>=◌, >>=-Ensures}
use secure_mavlink_gateway.Platform.{Platform}
use secure_mavlink_gateway.Message.{Message}
use secure_mavlink_gateway.Ports.{Source, Sink}
use secure_mavlink_gateway.Policy.{max_policies}
use secure_mavlink_gateway.Perf.{Perf}
use secure_mavlink_gateway.Perf.Report.{AreQueriedAt}
use secure_mavlink_gateway.Pipeline.{Pipeline}
use secure_mavlink_gateway.Spin.{Build, Gateway, pipeline_connect}
use secure_mavlink_gateway.Spin.Ready.{Keeps, KeepsSource, IsReady, IsKept}
use secure_mavlink_gateway.Spin.Loop.{main_loop, flagged, main_loop_lem}
use secure_mavlink_gateway.Spin.Connect.{KeepsCall, pipeline_connect-Keeps}
use secure_mavlink_gateway.Hooks.{Connection}
use secure_mavlink_gateway.Hooks.Ready.{hooked_source, hooked_sink}
use secure_mavlink_gateway.Hooks.Fits.{Fits}
use secure_mavlink_gateway.Hooks.Setup.Total.{main_setup-Fits}
use secure_mavlink_gateway.Hooks.Setup.{Machine, Devices, Suits, printing_sink, main_setup}

module _ ⦃platform : Platform⦄ where
  open platform use {World, Msg, Status, time_us, parse_char, read_char}

  -- The static variables of `pipeline_spin` and of the console start at 0.
  abbrev pub start : Pipeline → Perf → World → Gateway
  start p perf w = record {
    pipeline = p;
    shows = record { perf = perf; last = 0; printed = [] };
    last_time = 0;
    total_bytes = 0;
    world = w;
  }

  -- `rounds` is how long the loop is followed, and `fuel` that of each round.
  unfoldable pub main :
      (rounds fuel : ℕ) → Machine → Devices → Build → Pipeline → World → Outcome Gateway
  unfolding main_setup main_loop
  main rounds fuel m d b p w = do
    (p', perf) ← main_setup m d p
    main_loop rounds fuel b (start p' perf (pipeline_connect p' w))

  module _ (Inv : World → Type 0) (pending : World → ℕ) where
    -- The connection keeps `Inv`, and only the outside brings input.
    pub record KeepsConnection (c : Connection) : Type 0 where
      pub init : (w : World) → Keeps Inv pending w (c.init w)
      pub more : (w : World) → Keeps Inv pending w (c.has_more w).1
      pub byte :
          (w : World)
          → truthy (c.has_more w).0 ≡ true
          → Inv w
          → Inv (c.read_byte (c.has_more w).1).1
            × (pending (c.read_byte (c.has_more w).1).1 < pending w)
      pub route : (m : Message) (w : World) → Keeps Inv pending w (c.route m w).1

    -- The devices, the parser, the clock and the terminal keep `Inv`, and keys are ASCII.
    pub record AreTame (d : Devices) : Type 0 where
      pub parse :
          (i byte : ℕ) (m : Msg) (s : Status) (w : World)
          → Keeps Inv pending w (let (rv, m', s', w') = parse_char i byte m s w in w')
      pub time : (w : World) → Keeps Inv pending w (time_us w).1
      pub key : (w : World) → Keeps Inv pending w (read_char w).1
      pub ascii : (w : World) → (read_char w).0 < 128
      pub tcp : KeepsConnection d.tcp
      pub uart : KeepsConnection d.uart
      pub stdio : KeepsConnection d.stdio

    abbrev TameSource : Source → Type 0
    TameSource src = KeepsSource Inv pending src × KeepsCall Inv pending src.init

    abbrev TameSink : Sink → Type 0
    TameSink sink =
        ((f : Message → World → ℕ × World)
          → sink.route ≡ some f
          → (m : Message) (w : World) → Keeps Inv pending w (f m w).1)
        × KeepsCall Inv pending sink.init

    call-Keeps :
        (call : World → World)
        → ((w : World) → Keeps Inv pending w (call w))
        → KeepsCall Inv pending (some call)
    call-Keeps call kept f same w inv =
        let it : call ≡ f = cc in
        subst (λ (f' : World → World). Inv (f' w) × (pending (f' w) ≤ pending w)) it (kept w inv)

    hooked_source-Tame :
        (c : Connection) (id : ℕ) (src : Source)
        → KeepsConnection c
        → TameSource (hooked_source c id src)
    hooked_source-Tame c id src tame = (
      record {
        more = λ f same w inv.
            let it : c.has_more ≡ f = cc in
            subst (λ (f' : World → ℕ × World). Inv (f' w).1 × (pending (f' w).1 ≤ pending w)) it
              (tame.more w inv);
        byte = λ f g same same' w more inv.
            let it : c.has_more ≡ f = cc in
            let it' : c.read_byte ≡ g = cc in
            subst
              (λ (g' : World → ℕ × World).
                Inv (g' (f w).1).1 × (pending (g' (f w).1).1 < pending w))
              it'
              (subst
                (λ (f' : World → ℕ × World).
                  truthy (f' w).0 ≡ true
                  → Inv (c.read_byte (f' w).1).1 × (pending (c.read_byte (f' w).1).1 < pending w))
                it (λ here. tame.byte w here inv) more);
      },
      call-Keeps c.init tame.init,
    )

    -- A port with the functions of a connection.
    connected_sink-Tame :
        (c : Connection) (sink : Sink)
        → KeepsConnection c
        → sink.route ≡ some c.route
        → sink.init ≡ some c.init
        → TameSink sink
    connected_sink-Tame c sink tame routes inits = (
      λ f same m w inv.
          let it : c.route ≡ f = cc in
          subst
            (λ (f' : Message → World → ℕ × World).
              Inv (f' m w).1 × (pending (f' m w).1 ≤ pending w))
            it (tame.route m w inv),
      subst (KeepsCall Inv pending) (sym inits) (call-Keeps c.init tame.init),
    )

    AreTame-Suits : (d : Devices) → AreTame d → Suits d TameSource TameSink
    AreTame-Suits d tame = record {
      no_source =
          (record { more = λ f e w inv. cc; byte = λ f g e e' w more inv. cc }, λ f e w inv. cc);
      no_sink = (λ f e m w inv. cc, λ f e w inv. cc);
      tcp_source = λ id src. hooked_source-Tame d.tcp id src tame.tcp;
      uart_source = λ id src. hooked_source-Tame d.uart id src tame.uart;
      tcp_sink = λ sink. connected_sink-Tame d.tcp (hooked_sink d.tcp sink) tame.tcp refl refl;
      uart_sink = λ sink. connected_sink-Tame d.uart (hooked_sink d.uart sink) tame.uart refl refl;
      stdio_sink =
          λ sink. connected_sink-Tame d.stdio (printing_sink d.stdio sink) tame.stdio refl refl;
      decoded = λ src (keeps, init). (record { more = keeps.more; byte = keeps.byte }, init);
      encoded = λ sink kept. kept;
    }

    Fits-IsKept :
        (b : Build) (d : Devices) (p : Pipeline)
        → AreTame d
        → Fits TameSource TameSink p
        → IsKept Inv pending b p
    Fits-IsKept b d p tame (sources, sinks) = record {
      parse = tame.parse;
      time = tame.time;
      key = tame.key;
      ascii = tame.ascii;
      sources = λ i src there. (sources i src there).0;
      route = λ m m' j i sink f free known to there e derived. (sinks i sink there).0 f e m';
      discard = λ m sink f on there e. (sinks _ sink there).0 f e m;
    }

    -- On a pipeline with a table of 16 policies, with devices, a parser, a clock and a terminal that keep a
    -- property of the world, whatever the devices are sent, where only ASCII characters and no end of
    -- the input come from the terminal, only the devices have input, each byte read uses some up, and
    -- there is more fuel for each round than input: what `main` sets up succeeds, and however long its
    -- loop is followed, every round comes to a result, and afterwards the gateway is ready, the property
    -- holds and there is no more input than there was.
    pub main_lem :
        (rounds fuel : ℕ) (m : Machine) (d : Devices) (b : Build) (p : Pipeline) (w : World)
        → AreTame d
        → length p.policies.policies ≡ max_policies
        → Inv w
        → pending w < fuel
        → Ensures (main rounds fuel m d b p w) (λ g.
          IsReady g.pipeline
          × AreQueriedAt g.shows.perf g.shows.last
          × Inv g.world
          × (pending g.world ≤ pending w))
    unfolding main
    main_lem rounds fuel m d b p w tame slots inv enough =
        >>=-Ensures (main_setup m d p) _ (main_setup-Fits m d p (AreTame-Suits d tame) slots)
          (λ (p', perf) (ready, queried, same, fits).
            let (inv', bound) =
              pipeline_connect-Keeps Inv pending p' w (λ i src there. (fits.0 i src there).1)
                (λ i sink there. (fits.1 i sink there).1) inv in
            let (g, ends, spun) =
              main_loop_lem Inv pending rounds fuel b (start p' perf (pipeline_connect p' w)) ready
                (λ policy transform flags. Fits-IsKept b d (flagged p' policy transform) tame fits)
                queried inv' (omega (arith, bound)) in
            (g, ends, (spun.ready, spun.queried, spun.inv, omega (arith, bound, spun.bound))))
