-- ===== src/Spin/Connect.antt =====
-- What the `init` functions that `pipeline_connect` of lib/secure_gateway.c calls keep.
use secure_mavlink_gateway.Prelude.{
  ℕ, suc, ◌≡◌, refl, Bool, true, false, Option, some, none, List, [], ◌∷◌, get_elem?, arith,
}
use secure_mavlink_gateway.Platform.{Platform}
use secure_mavlink_gateway.Ports.{Source, Sink}
use secure_mavlink_gateway.Pipeline.{Pipeline}
use secure_mavlink_gateway.Spin.{call_if, connect_sources, connect_sinks, pipeline_connect}
use secure_mavlink_gateway.Spin.Ready.{Keeps}

module _ ⦃platform : Platform⦄ (Inv : platform.World → Type 0) (pending : platform.World → ℕ) where
  open platform use {World}

  -- A function of a port that keeps `Inv` and brings no input, if there is one.
  abbrev pub KeepsCall : Option (World → World) → Type 0
  KeepsCall call = (f : World → World) → call ≡ some f → (w : World) → Keeps Inv pending w (f w)

  call_if-Keeps :
      (on : Bool) (call : Option (World → World)) (w : World)
      → KeepsCall call
      → Keeps Inv pending w (call_if on call w)
  call_if-Keeps true (some f) w kept inv = kept f refl w inv
  call_if-Keeps true none w kept inv = (inv, omega arith)
  call_if-Keeps false call w kept inv = (inv, omega arith)

  connect_sources-Keeps :
      (sources : List Source) (w : World)
      → ((i : ℕ) (src : Source) → get_elem? sources i ≡ some src → KeepsCall src.init)
      → Keeps Inv pending w (connect_sources sources w)
  unfolding connect_sources
  connect_sources-Keeps [] w kept inv = (inv, omega arith)
  connect_sources-Keeps (src ∷ rest) w kept inv =
      let (inv₁, bound₁) = call_if-Keeps src.is_connected src.init w (kept 0 src refl) inv in
      let (inv₂, bound₂) =
        connect_sources-Keeps rest (call_if src.is_connected src.init w) (λ i. kept (suc i)) inv₁ in
      (inv₂, omega (arith, bound₁, bound₂))

  connect_sinks-Keeps :
      (sinks : List Sink) (w : World)
      → ((i : ℕ) (sink : Sink) → get_elem? sinks i ≡ some sink → KeepsCall sink.init)
      → Keeps Inv pending w (connect_sinks sinks w)
  unfolding connect_sinks
  connect_sinks-Keeps [] w kept inv = (inv, omega arith)
  connect_sinks-Keeps (sink ∷ rest) w kept inv =
      let (inv₁, bound₁) = call_if-Keeps sink.is_connected sink.init w (kept 0 sink refl) inv in
      let (inv₂, bound₂) =
        connect_sinks-Keeps rest (call_if sink.is_connected sink.init w) (λ i. kept (suc i)) inv₁ in
      (inv₂, omega (arith, bound₁, bound₂))

  pub pipeline_connect-Keeps :
      (p : Pipeline) (w : World)
      → ((i : ℕ) (src : Source) → get_elem? p.sources i ≡ some src → KeepsCall src.init)
      → ((i : ℕ) (sink : Sink) → get_elem? p.sinks i ≡ some sink → KeepsCall sink.init)
      → Keeps Inv pending w (pipeline_connect p w)
  unfolding pipeline_connect
  pipeline_connect-Keeps p w sources sinks inv =
      let (inv₁, bound₁) = connect_sources-Keeps p.sources w sources inv in
      let (inv₂, bound₂) = connect_sinks-Keeps p.sinks (connect_sources p.sources w) sinks inv₁ in
      (inv₂, omega (arith, bound₁, bound₂))
