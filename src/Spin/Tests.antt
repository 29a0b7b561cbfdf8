-- ===== src/Spin/Tests.antt =====
-- A round of the main loop on the small platform: the legacy system sends a memory report and another
-- message, and no memory report reaches the vehicle.
use secure_mavlink_gateway.Prelude.{
  ℕ, zero, suc, ◌<◌, ◌≤◌, ◌≡◌, ◌⊎◌, refl, sym, ap, ◌∙◌, subst, true, false, some, none, List, [],
  ◌∷◌, get_elem?, length, arith, Bool-cases, inl, inr, ◌==◌, ◌&&◌, truthy, Bool,
}
use secure_mavlink_gateway.Outcome.{Ensures}
use secure_mavlink_gateway.Message.{Message}
use secure_mavlink_gateway.Ports.{Source, Sink}
use secure_mavlink_gateway.Perf.{perf_init}
use secure_mavlink_gateway.Perf.Report.{perf_init-AreQueriedAt}
use secure_mavlink_gateway.Pipeline.{zero_source, zero_sink}
use secure_mavlink_gateway.Pipeline.Verdict.{from_ground, blocked}
use secure_mavlink_gateway.Pipeline.Routes.{destinations}
use secure_mavlink_gateway.Example.{
  toy, Devices, pipeline, pipeline-IsDefault, pipeline-KeepsSinks, reader, writer, write, has_input,
  next_input,
}
use secure_mavlink_gateway.Spin.{Build, Gateway, pipeline_spin}
use secure_mavlink_gateway.Spin.Ready.{
  Derived, as_it_was, transformed_by, IsReady, IsSource, KeepsSource, IsKept,
}
use secure_mavlink_gateway.Spin.Loop.{main_loop, flagged, main_loop_lem}
use secure_mavlink_gateway.Spin.Total.{IsSpun, pipeline_spin_lem}

-- No memory report was sent to the vehicle.
abbrev Clean : List (ℕ × ℕ) → Type 0
Clean [] = Unit
Clean ((sink, id) ∷ sent) = (((sink == 1) && (id == 152)) ≡ false) × Clean sent

abbrev IsClean : Devices → Type 0
IsClean w = Clean w.sent

abbrev input_left : Devices → ℕ
input_left w = length w.input

abbrev release : Build
release = record { debug = false; use_console = true }

abbrev start : Gateway
start = record {
  pipeline = pipeline;
  shows = record { perf = perf_init; last = 0; printed = [] };
  last_time = 0;
  total_bytes = 0;
  world = record { input = 0 ∷ 152 ∷ 5 ∷ []; sent = []; clock = 7 };
}

pipeline-sources :
    (i : ℕ) (src : Source)
    → get_elem? pipeline.sources i ≡ some src
    → (zero_source ≡ src) ⊎ (reader ≡ src)
pipeline-sources zero src h = inl cc
pipeline-sources (suc zero) src h = inl cc
pipeline-sources (suc (suc zero)) src h = inr cc
pipeline-sources (suc (suc (suc zero))) src h = inl cc
pipeline-sources (suc (suc (suc (suc i)))) src h = cc

reader-IsSource : IsSource reader
reader-IsSource = record {
  has_more = (has_input, refl);
  read_byte = (next_input, refl);
  known = omega arith;
}

pub pipeline-IsReady : IsReady pipeline
pipeline-IsReady = record {
  policies = pipeline-IsDefault;
  table = refl;
  sources = refl;
  sinks = refl;
  keeps = pipeline-KeepsSinks;
  origins = λ i src there f e m. elim (pipeline-sources i src there) [
    | inl null ↦ let no : none ≡ some f = ap (λ (s : Source). s.transform) null ∙ e in cc
    | inr same ↦ let no : none ≡ some f = ap (λ (s : Source). s.transform) same ∙ e in cc
  ];
  connected = λ i src there on. elim (pipeline-sources i src there) [
    | inl null ↦ let no : false ≡ true = ap (λ (s : Source). s.is_connected) null ∙ on in cc
    | inr same ↦ subst IsSource same reader-IsSource
  ];
}

has_input-same : (w : Devices) (input : List ℕ) → w.input ≡ input → (has_input w).1 ≡ w
has_input-same w [] h = rw h refl
has_input-same w (x ∷ xs) h = rw h refl

-- A byte that is there is read.
next_input-after :
    (w : Devices) (input : List ℕ)
    → w.input ≡ input
    → truthy (has_input w).0 ≡ true
    → Clean w.sent
    → IsClean (next_input (has_input w).1).1
      × (input_left (next_input (has_input w).1).1 < input_left w)
next_input-after w [] h more clean = let no : false ≡ true = rw h at more in cc
next_input-after w (x ∷ xs) h more clean = rw h (clean, omega arith)

reader-KeepsSource : KeepsSource IsClean input_left reader
reader-KeepsSource = record {
  more = λ f e w inv.
      let same : has_input ≡ f = cc in
      subst (λ w'. IsClean w' × (input_left w' ≤ input_left w))
        (sym (has_input-same w w.input refl) ∙ ap (λ f'. (f' w).1) same) (inv, omega arith);
  byte = λ f g e e' w yes_more inv.
      let same : has_input ≡ f = cc in
      let same' : next_input ≡ g = cc in
      subst (λ w'. IsClean w' × (input_left w' < input_left w))
        (ap (λ g'. (g' (has_input w).1).1) same' ∙ ap (λ f'. (g (f' w).1).1) same)
        (next_input-after w w.input refl (ap (λ f'. truthy (f' w).0) same ∙ yes_more) inv);
}

zero-KeepsSource : KeepsSource IsClean input_left zero_source
zero-KeepsSource = record { more = λ f e w inv. cc; byte = λ f g e e' w yes_more inv. cc }

-- Only the ground side sends to the vehicle.
ground_to_vmc : (k j : ℕ) → get_elem? (destinations k) j ≡ some 1 → from_ground k ≡ true
ground_to_vmc (suc zero) zero h = ground arith
ground_to_vmc (suc zero) (suc zero) h = ground arith
ground_to_vmc (suc (suc zero)) j h = refl
ground_to_vmc (suc (suc (suc zero))) j h = refl
ground_to_vmc zero j h = cc
ground_to_vmc (suc zero) (suc (suc j)) h = cc
ground_to_vmc (suc (suc (suc (suc k)))) j h = cc

route-writer :
    (i : ℕ) (sink : Sink) (f : Message → Devices → ℕ × Devices) (m : Message) (w : Devices)
    → writer i ≡ sink
    → sink.route ≡ some f
    → record w { sent = (i, m.msg.id) ∷ w.sent } ≡ (f m w).1
route-writer i sink f m w same e =
    let routes : some (write i) ≡ some f = ap (λ (s : Sink). s.route) same ∙ e in
    let one : write i ≡ f = cc in ap (λ f'. (f' m w).1) one

route-writes :
    (i : ℕ) (sink : Sink) (f : Message → Devices → ℕ × Devices) (m : Message) (w : Devices)
    → get_elem? pipeline.sinks i ≡ some sink
    → sink.route ≡ some f
    → record w { sent = (i, m.msg.id) ∷ w.sent } ≡ (f m w).1
route-writes zero sink f m w there e =
    let same : zero_sink ≡ sink = cc in
    let no : none ≡ some f = ap (λ (s : Sink). s.route) same ∙ e in cc
route-writes (suc zero) sink f m w there e = route-writer 1 sink f m w (cc) e
route-writes (suc (suc zero)) sink f m w there e = route-writer 2 sink f m w (cc) e
route-writes (suc (suc (suc zero))) sink f m w there e = route-writer 3 sink f m w (cc) e
route-writes (suc (suc (suc (suc i)))) sink f m w there e = cc

route-Clean :
    (m : Message) (j i : ℕ) (w : Devices)
    → blocked pipeline m ≡ false
    → get_elem? (destinations m.source) j ≡ some i
    → Clean w.sent
    → Clean ((i, m.msg.id) ∷ w.sent)
route-Clean m j i w free to clean = elim (Bool-cases (i == 1)) [
  | inl vmc ↦
      let e : i ≡ 1 = ground arith in
      let ground_side = ground_to_vmc m.source j (to ∙ ap some e) in (ground arith, clean)
  | inr other ↦ (rw other refl, clean)
]

-- The transformers are off.
untransformed : (m m' : Message) → Derived pipeline m m' → m ≡ m'
untransformed m m' as_it_was = refl
untransformed m m' (transformed_by i sink f there e on derived) = let no : false ≡ true = on in cc

pipeline-IsKept : IsKept IsClean input_left release pipeline
pipeline-IsKept = record {
  parse = λ i byte m s w inv. elim (Bool-cases (byte == 0)) [
    | inl first ↦ rw first (inv, omega arith)
    | inr whole ↦ rw whole (inv, omega arith)
  ];
  time = λ w inv. (inv, omega arith);
  key = λ w inv. (inv, omega arith);
  ascii = λ w. omega arith;
  sources = λ i src there. elim (pipeline-sources i src there) [
    | inl null ↦ subst (KeepsSource IsClean input_left) null zero-KeepsSource
    | inr same ↦ subst (KeepsSource IsClean input_left) same reader-KeepsSource
  ];
  route = λ m m' j i sink f free known to there e derived w inv.
      let same = untransformed m m' derived in
      subst (λ w'. IsClean w' × (input_left w' ≤ input_left w)) (route-writes i sink f m' w there e)
        (
          subst (λ m''. Clean ((i, m''.msg.id) ∷ w.sent)) same (route-Clean m j i w free to inv),
          omega arith,
        );
  discard = λ m sink f on there e w inv. cc;
}

pipeline_spin_example :
    Ensures (pipeline_spin 9 release start) (IsSpun IsClean input_left release pipeline start.world)
pipeline_spin_example =
    pipeline_spin_lem IsClean input_left 9 release start pipeline-IsReady pipeline-IsKept
      perf_init-AreQueriedAt tt (omega arith)

-- The gateway without a console, where nobody switches the policies off.
abbrev headless : Build
headless = record { debug = false; use_console = false }

headless-IsKept :
    (policy transform : Bool)
    → true ≡ policy
    → false ≡ transform
    → IsKept IsClean input_left headless (flagged pipeline policy transform)
headless-IsKept policy transform on off =
    subst (λ transform'. IsKept IsClean input_left headless (flagged pipeline policy transform'))
      off
      (subst (λ policy'. IsKept IsClean input_left headless (flagged pipeline policy' false)) on
        (record {
          parse = pipeline-IsKept.parse;
          time = pipeline-IsKept.time;
          key = pipeline-IsKept.key;
          ascii = pipeline-IsKept.ascii;
          sources = pipeline-IsKept.sources;
          route = pipeline-IsKept.route;
          discard = pipeline-IsKept.discard;
        }))

main_loop_example :
    Ensures (main_loop 3 9 headless start) (IsSpun IsClean input_left headless pipeline start.world)
main_loop_example =
    main_loop_lem IsClean input_left 3 9 headless start pipeline-IsReady
      (λ policy transform flags.
        let (on, off) = flags refl in headless-IsKept policy transform (sym on) (sym off))
      perf_init-AreQueriedAt tt (omega arith)
