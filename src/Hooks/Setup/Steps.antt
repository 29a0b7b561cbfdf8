-- ===== src/Hooks/Setup/Steps.antt =====
-- What each step of the set-up in `main` of main.c leaves.
use secure_mavlink_gateway.Prelude.{
  sym, ◌≡◌, refl, ap, subst, ◌∙◌, Bool, true, false, Option, some, set, get_elem?-inside,
  Bool-cases, inl, inr, arith,
}
use secure_mavlink_gateway.Outcome.{Ensures}
use secure_mavlink_gateway.Platform.{Platform}
use secure_mavlink_gateway.Message.{Message}
use secure_mavlink_gateway.Ports.{
  Source, Sink, sink_get, source_type_vmc, source_type_legacy, sink_type_discard, sink_type_vmc,
  sink_type_legacy,
}
use secure_mavlink_gateway.Pipeline.{Pipeline, pipeline_get_sink, add_transformer}
use secure_mavlink_gateway.Transformer.{xor_encode, xor_decode}
use secure_mavlink_gateway.Spin.Ready.{IsReady}
use secure_mavlink_gateway.Results.{io_fault, no_memory}
use secure_mavlink_gateway.Hooks.{hook_tcp, hook_stdio_sink}
use secure_mavlink_gateway.Hooks.Ready.{attach-IsHooked, set_source-IsReady, set_sink-IsReady}
use secure_mavlink_gateway.Hooks.Fits.{Fits, set_source-Fits, set_sink-Fits, hooked-Fits}
use secure_mavlink_gateway.Uart.Hook.{hook_uart}
use secure_mavlink_gateway.Hooks.Setup.{
  Machine, Devices, Suits, printing_sink, hook_devices, add_transformers,
}

module _ ⦃platform : Platform⦄ where
  -- The pipeline is ready, the transformers are on or off as before, and the ports fit if they did.
  abbrev pub Stays : (Source → Type 0) → (Sink → Type 0) → Pipeline → Pipeline → Type 0
  Stays S K p p' =
      IsReady p' × (p'.transform_enabled ≡ p.transform_enabled) × (Fits S K p → Fits S K p')

  hook_tcp-Stays :
      {S : Source → Type 0} {K : Sink → Type 0} (d : Devices) (memory : Bool) (p : Pipeline)
      → Suits d S K
      → IsReady p
      → Ensures
          (hook_tcp memory d.tcp p source_type_legacy sink_type_legacy)
          (λ (rv, p'). Stays S K p p')
  unfolding hook_tcp
  hook_tcp-Stays d false p suits ready = ((no_memory, p), refl, (ready, refl, λ fits. fits))
  hook_tcp-Stays {S = S} {K = K} d true p suits ready =
      let (result, ends, (good, ready', (src, sink, found, found', same))) =
        (attach-IsHooked d.tcp p source_type_legacy sink_type_legacy ready (omega arith)
          (omega arith)).0 in
      (
        result,
        ends,
        (
          ready',
          ap (λ (q : Pipeline). q.transform_enabled) same,
          λ fits. subst (Fits S K) (sym same) (
              hooked-Fits d.tcp p source_type_legacy sink_type_legacy src sink ready (omega arith)
                (omega arith) (suits.tcp_source source_type_legacy src) (suits.tcp_sink sink) fits),
        ),
      )

  hook_uart-Stays :
      {S : Source → Type 0} {K : Sink → Type 0} (d : Devices) (memory : Bool) (p : Pipeline)
      → Suits d S K
      → IsReady p
      → Ensures
          (hook_uart memory d.uart p source_type_vmc sink_type_vmc)
          (λ (rv, p'). Stays S K p p')
  unfolding hook_uart
  hook_uart-Stays d false p suits ready = ((io_fault, p), refl, (ready, refl, λ fits. fits))
  hook_uart-Stays {S = S} {K = K} d true p suits ready =
      let (result, ends, (good, ready', (src, sink, found, found', same))) =
        (attach-IsHooked d.uart p source_type_vmc sink_type_vmc ready (omega arith)
          (omega arith)).0 in
      (
        result,
        ends,
        (
          ready',
          ap (λ (q : Pipeline). q.transform_enabled) same,
          λ fits. subst (Fits S K) (sym same) (
              hooked-Fits d.uart p source_type_vmc sink_type_vmc src sink ready (omega arith)
                (omega arith) (suits.uart_source source_type_vmc src) (suits.uart_sink sink) fits),
        ),
      )

  pub hook_devices-Stays :
      {S : Source → Type 0} {K : Sink → Type 0} (m : Machine) (d : Devices) (p : Pipeline)
      → Suits d S K
      → IsReady p
      → Ensures (hook_devices m d p) (Stays S K p)
  unfolding hook_devices
  hook_devices-Stays m d p suits ready = elim (Bool-cases m.std_libc) [
    | inr no_libc ↦ rw no_libc (p, refl, (ready, refl, λ fits. fits))
    | inl libc ↦
        let ((rv, p₁), first, (ready₁, same₁, fits₁)) =
          hook_tcp-Stays d m.tcp_memory p suits ready in
        let ((rv', p₂), second, (ready₂, same₂, fits₂)) =
          hook_uart-Stays d m.uart_memory p₁ suits ready₁ in
        (p₂, rw (libc, first, second) refl, (ready₂, same₂ ∙ same₁, λ fits. fits₂ (fits₁ fits)))
  ]

  pub hook_stdio_sink-Stays :
      {S : Source → Type 0} {K : Sink → Type 0} (d : Devices) (p : Pipeline)
      → Suits d S K
      → IsReady p
      → Ensures (hook_stdio_sink d.stdio p sink_type_discard) (Stays S K p)
  unfolding hook_stdio_sink pipeline_get_sink sink_get
  hook_stdio_sink-Stays d p suits ready =
      let (sink, there) = get_elem?-inside p.sinks sink_type_discard (omega (arith, ready.sinks)) in
      let sink' = printing_sink d.stdio sink in
      (
        record p { sinks = set p.sinks sink_type_discard sink' },
        rw there refl,
        (
          set_sink-IsReady p sink_type_discard sink' ready (omega arith)
              (ready.keeps sink_type_discard sink there),
          refl,
          set_sink-Fits p sink_type_discard sink' (omega (arith, ready.sinks))
              (suits.stdio_sink sink),
        ),
      )

  encoded_sinks :
      (f : Message → Message)
      → (let coded : Option (Message → Message) = some xor_encode in coded) ≡ some f
      → (m : Message) → (f m).sinks ≡ m.sinks
  unfolding xor_encode
  encoded_sinks f same m =
      let coded : xor_encode ≡ f = cc in
      subst (λ (g : Message → Message). (g m).sinks ≡ m.sinks) coded refl

  decoded_source :
      (f : Message → Message)
      → (let coded : Option (Message → Message) = some xor_decode in coded) ≡ some f
      → (m : Message) → (f m).source ≡ m.source
  unfolding xor_decode
  decoded_source f same m =
      let coded : xor_decode ≡ f = cc in
      subst (λ (g : Message → Message). (g m).source ≡ m.source) coded refl

  pub add_transformers-Stays :
      {S : Source → Type 0} {K : Sink → Type 0} (m : Machine) (d : Devices) (p : Pipeline)
      → Suits d S K
      → IsReady p
      → Ensures (add_transformers m p) (Stays S K p)
  unfolding add_transformers add_transformer sink_get
  add_transformers-Stays m d p suits ready = elim (Bool-cases m.use_xor) [
    | inr no_xor ↦ rw no_xor (p, refl, (ready, refl, λ fits. fits))
    | inl xor ↦
        let (src, there) =
          get_elem?-inside p.sources source_type_vmc (omega (arith, ready.sources)) in
        let (sink, there') = get_elem?-inside p.sinks sink_type_vmc (omega (arith, ready.sinks)) in
        let src' = record src { transform = some xor_decode } in
        let sink' = record sink { transform = some xor_encode } in
        let p₁ = record p { sources = set p.sources source_type_vmc src' } in
        let ready₁ =
          set_source-IsReady p source_type_vmc src' ready (omega arith)
            (λ on.
              let known = ready.connected source_type_vmc src there on in
              record {
                has_more = known.has_more;
                read_byte = known.read_byte;
                known = known.known;
              })
            (λ f same m. decoded_source f same m) in
        (
          record p₁ { sinks = set p.sinks sink_type_vmc sink' },
          rw (xor, there, there') refl,
          (
            set_sink-IsReady p₁ sink_type_vmc sink' ready₁ (omega arith)
                (λ f same m. encoded_sinks f same m),
            refl,
            λ fits.
                set_sink-Fits p₁ sink_type_vmc sink' (omega (arith, ready.sinks))
                  (suits.encoded sink (fits.1 sink_type_vmc sink there'))
                  (set_source-Fits p source_type_vmc src' (omega (arith, ready.sources))
                    (suits.decoded src (fits.0 source_type_vmc src there)) fits),
          ),
        )
  ]
