-- ===== src/Spin/Ready.antt =====
-- What a spin relies on: a gateway whose tables are full and hold what `pipeline_init` and the hooks
-- put there, and devices of which a property of the world and a bound on their input are known.
use secure_mavlink_gateway.Prelude.{ℕ, ◌<◌, ◌≤◌, ◌≡◌, true, false, some, get_elem?, length, truthy}
use secure_mavlink_gateway.Platform.{Platform}
use secure_mavlink_gateway.Message.{Message}
use secure_mavlink_gateway.Ports.{Source, Sink, max_sources, max_sinks, sink_type_discard}
use secure_mavlink_gateway.Pipeline.{Pipeline, default_route_table}
use secure_mavlink_gateway.Pipeline.Verdict.{IsDefault, blocked}
use secure_mavlink_gateway.Pipeline.Routes.{KeepsSinks, destinations}
use secure_mavlink_gateway.Spin.{Build}

module _ ⦃platform : Platform⦄ where
  open platform use {World, Msg, Status, parse_char, time_us, read_char}

  -- A connected source has its two functions and a known number.
  pub record IsSource (src : Source) : Type 0 where
    pub has_more : (f : World → ℕ × World) × (src.has_more ≡ some f)
    pub read_byte : (f : World → ℕ × World) × (src.read_byte ≡ some f)
    pub known : src.source_id < max_sources

  -- A source's transformer leaves the number of the source alone.
  abbrev pub KeepsOrigin : Source → Type 0
  KeepsOrigin src =
      (f : Message → Message) → src.transform ≡ some f → (m : Message) → (f m).source ≡ m.source

  -- What the sinks' transformers, where they are on, make of a message on its way from sink to sink.
  pub data Derived (p : Pipeline) (m : Message) : Message → Type 0 where
    as_it_was : Derived p m m
    transformed_by :
        {m' : Message} (i : ℕ) (sink : Sink) (f : Message → Message)
        → get_elem? p.sinks i ≡ some sink
        → sink.transform ≡ some f
        → p.transform_enabled ≡ true
        → Derived p m m'
        → Derived p m (f m')

  pub record IsReady (p : Pipeline) : Type 0 where
    pub policies : IsDefault p.policies
    pub table : p.route_table ≡ default_route_table
    pub sources : length p.sources ≡ max_sources
    pub sinks : length p.sinks ≡ max_sinks
    pub keeps : KeepsSinks p
    pub origins : (i : ℕ) (src : Source) → get_elem? p.sources i ≡ some src → KeepsOrigin src
    pub connected :
        (i : ℕ) (src : Source)
        → get_elem? p.sources i ≡ some src
        → src.is_connected ≡ true
        → IsSource src

  -- The pipeline `p` has the sinks and the devices of `p₀`; flags and messages under way may differ.
  pub record SameDevices (p₀ p : Pipeline) : Type 0 where
    pub sinks : p.sinks ≡ p₀.sinks
    pub terminated : p.terminated ≡ p₀.terminated
    pub sources :
        (i : ℕ) (src : Source)
        → get_elem? p.sources i ≡ some src
        → (old : Source) × (get_elem? p₀.sources i ≡ some old)
          × (src.has_more ≡ old.has_more)
          × (src.read_byte ≡ old.read_byte)

  -- The two flags are as they were.
  abbrev pub SameFlags : Pipeline → Pipeline → Type 0
  SameFlags p₀ p =
      (p.policy_enabled ≡ p₀.policy_enabled) × (p.transform_enabled ≡ p₀.transform_enabled)

  -- `Inv` is a property of the world, and `pending` bounds the input that the devices still have.
  module _ (Inv : World → Type 0) (pending : World → ℕ) where
    -- A call that finds `Inv` keeps it, and brings no input.
    abbrev pub Keeps : World → World → Type 0
    Keeps w w' = Inv w → Inv w' × (pending w' ≤ pending w)

    -- A source whose `has_more` says so has a byte, which is then gone.
    pub record KeepsSource (src : Source) : Type 0 where
      pub more : (f : World → ℕ × World) → src.has_more ≡ some f → (w : World) → Keeps w (f w).1
      pub byte :
          (f g : World → ℕ × World)
          → src.has_more ≡ some f
          → src.read_byte ≡ some g
          → (w : World) → truthy (f w).0 ≡ true
          → Inv w
          → Inv (g (f w).1).1 × (pending (g (f w).1).1 < pending w)

    -- The sinks are only known to keep `Inv` on messages that the policies let pass, to the
    -- destinations of their source, as they are and as the sinks' transformers make them.
    pub record IsKept (b : Build) (p : Pipeline) : Type 0 where
      pub parse :
          (i byte : ℕ) (m : Msg) (s : Status) (w : World)
          → Keeps w (let (rv, m', s', w') = parse_char i byte m s w in w')
      pub time : (w : World) → Keeps w (time_us w).1
      pub key : (w : World) → Keeps w (read_char w).1
      pub ascii : (w : World) → (read_char w).0 < 128
      pub sources : (i : ℕ) (src : Source) → get_elem? p.sources i ≡ some src → KeepsSource src
      pub route :
          (m m' : Message) (j i : ℕ) (sink : Sink) (f : Message → World → ℕ × World)
          → blocked p m ≡ false
          → m.source < max_sources
          → get_elem? (destinations m.source) j ≡ some i
          → get_elem? p.sinks i ≡ some sink
          → sink.route ≡ some f
          → Derived p m m'
          → (w : World) → Keeps w (f m' w).1
      -- for a build with DEBUG
      pub discard :
          (m : Message) (sink : Sink) (f : Message → World → ℕ × World)
          → b.debug ≡ true
          → get_elem? p.sinks sink_type_discard ≡ some sink
          → sink.route ≡ some f
          → (w : World) → Keeps w (f m w).1
