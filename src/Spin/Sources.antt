-- ===== src/Spin/Sources.antt =====
-- The loop over the sources, on a ready gateway.
use secure_mavlink_gateway.Prelude.{
  ℕ, zero, suc, ◌+◌, ◌<◌, ◌≤◌, ◌≡◌, ◌⊎◌, refl, sym, ap, ◌∙◌, subst, Bool, some, List, get_elem?,
  set, length, length-set, get_elem?-inside, get_elem?-set_self, get_elem?-set_ne, arith,
  Bool-cases, inl, inr, ◌==◌,
}
use secure_mavlink_gateway.Outcome.{Ensures, >>=-Ensures, or_out_of_bounds}
use secure_mavlink_gateway.Platform.{Platform}
use secure_mavlink_gateway.Message.{Message}
use secure_mavlink_gateway.Ports.{Source, max_sources}
use secure_mavlink_gateway.Perf.Report.{AreQueriedAt}
use secure_mavlink_gateway.Pipeline.{Pipeline}
use secure_mavlink_gateway.Spin.{Build, Gateway, read_loop, spin_source, spin_loop}
use secure_mavlink_gateway.Spin.Ready.{
  SameDevices, SameFlags, KeepsOrigin, Derived, as_it_was, transformed_by, IsReady, IsSource,
  KeepsSource, IsKept,
}
use secure_mavlink_gateway.Spin.Bytes.{read_loop-Ensures}

-- What stands in an array after a write.
pub get_elem?-set_cases {ℓ} :
    {A : Type ℓ} (xs : List A) (i j : ℕ) (v a : A)
    → i < length xs
    → get_elem? (set xs i v) j ≡ some a
    → (v ≡ a) ⊎ (get_elem? xs j ≡ some a)
get_elem?-set_cases xs i j v a inside h = elim (Bool-cases (i == j)) [
  | inl self ↦
      let e : i ≡ j = ground arith in
      let both : some v ≡ some a =
        sym (get_elem?-set_self xs i v inside) ∙ ap (get_elem? (set xs i v)) e ∙ h in
      inl cc
  | inr other ↦ inr (sym (get_elem?-set_ne xs i j v (ground arith)) ∙ h)
]

module _ ⦃platform : Platform⦄ (Inv : platform.World → Type 0) (pending : platform.World → ℕ)
    (last : ℕ) (p₀ : Pipeline) where
  open platform use {World}

  -- The gateway between two sources of a spin that began in `w`.
  pub record Between (b : Build) (w : World) (g : Gateway) : Type 0 where
    pub ready : IsReady g.pipeline
    pub laws : IsKept Inv pending b g.pipeline
    pub queried : AreQueriedAt g.shows.perf last
    pub same_last : g.shows.last ≡ last
    pub same : SameDevices p₀ g.pipeline
    pub flags : SameFlags p₀ g.pipeline
    pub inv : Inv g.world
    pub bound : pending g.world ≤ pending w

  -- The table with the message under way of one source put back.
  abbrev put_back : Pipeline → ℕ → Source → Message → Pipeline
  put_back p i src m = record p { sources = set p.sources i (record src { cur = m }) }

  put_back-IsReady :
      (p : Pipeline) (i : ℕ) (src : Source) (m : Message)
      → IsReady p
      → i < max_sources
      → get_elem? p.sources i ≡ some src
      → IsReady (put_back p i src m)
  put_back-IsReady p i src m ready inside there = record {
    policies = ready.policies;
    table = ready.table;
    sources = length-set p.sources i (record src { cur = m }) ∙ ready.sources;
    sinks = ready.sinks;
    keeps = ready.keeps;
    origins = λ j other found.
        elim (get_elem?-set_cases p.sources i j (record src { cur = m }) other
          (omega (arith, ready.sources)) found) [
            | inl self ↦ subst KeepsOrigin self (λ f on m'. ready.origins i src there f on m')
            | inr old ↦ ready.origins j other old
          ];
    connected = λ j other found on.
        elim (get_elem?-set_cases p.sources i j (record src { cur = m }) other
          (omega (arith, ready.sources)) found) [
            | inl self ↦ subst IsSource self (
                let old =
                  ready.connected i src there (ap (λ (s : Source). s.is_connected) self ∙ on) in
                record { has_more = old.has_more; read_byte = old.read_byte; known = old.known })
            | inr old ↦ ready.connected j other old on
          ];
  }

  put_back-Derived :
      (p : Pipeline) (i : ℕ) (src : Source) (m m₀ m' : Message)
      → Derived (put_back p i src m) m₀ m'
      → Derived p m₀ m'
  put_back-Derived p i src m m₀ m' as_it_was = as_it_was
  put_back-Derived p i src m m₀ m' (transformed_by {m' = m₁} j sink f found coded on before) =
      transformed_by j sink f found coded on (put_back-Derived p i src m m₀ m₁ before)

  put_back-IsKept :
      (b : Build) (p : Pipeline) (i : ℕ) (src : Source) (m : Message)
      → IsReady p
      → IsKept Inv pending b p
      → i < max_sources
      → get_elem? p.sources i ≡ some src
      → IsKept Inv pending b (put_back p i src m)
  put_back-IsKept b p i src m ready laws inside there = record {
    parse = laws.parse;
    time = laws.time;
    key = laws.key;
    ascii = laws.ascii;
    sources = λ j other found.
        elim (get_elem?-set_cases p.sources i j (record src { cur = m }) other
          (omega (arith, ready.sources)) found) [
            | inl self ↦
                subst (KeepsSource Inv pending) self (
                  let old = laws.sources i src there in record { more = old.more; byte = old.byte })
            | inr old ↦ laws.sources j other old
          ];
    route = λ m₀ m' j k sink f free known to found e derived.
        laws.route m₀ m' j k sink f free known to found e
          (put_back-Derived p i src m m₀ m' derived);
    discard = laws.discard;
  }

  put_back-SameDevices :
      (p : Pipeline) (i : ℕ) (src : Source) (m : Message)
      → IsReady p
      → i < max_sources
      → get_elem? p.sources i ≡ some src
      → SameDevices p₀ p
      → SameDevices p₀ (put_back p i src m)
  put_back-SameDevices p i src m ready inside there same = record {
    sinks = same.sinks;
    terminated = same.terminated;
    sources = λ j other found. elim (Bool-cases (i == j)) [
      | inl self ↦
          let (old, found', more, byte) = same.sources i src there in
          let e : i ≡ j = ground arith in
          let put : some (record src { cur = m }) ≡ some other =
            sym (
              get_elem?-set_self p.sources i (record src { cur = m })
                (omega (arith, ready.sources)))
            ∙ ap (get_elem? (set p.sources i (record src { cur = m }))) e
            ∙ found in
          let new : record src { cur = m } ≡ other = cc in
          (
            old,
            ap (get_elem? p₀.sources) (sym e) ∙ found',
            ap (λ (s : Source). s.has_more) (sym new) ∙ more,
            ap (λ (s : Source). s.read_byte) (sym new) ∙ byte,
          )
      | inr other_one ↦
          same.sources j other
            (sym (get_elem?-set_ne p.sources i j (record src { cur = m }) (ground arith)) ∙ found)
    ];
  }

  spin_source-Ensures :
      (fuel : ℕ) (b : Build) (i : ℕ) (w : World) (g : Gateway) (has_load : Bool)
      → i < max_sources
      → pending w < fuel
      → Between b w g
      → Ensures (spin_source fuel b i g has_load) (λ (g', has_load'). Between b w g')
  unfolding spin_source
  spin_source-Ensures fuel b i w g has_load inside enough v =
      let p = g.pipeline in
      >>=-Ensures {P = λ src. get_elem? p.sources i ≡ some src}
        (or_out_of_bounds (get_elem? p.sources i)) _
        (let (src, there) = get_elem?-inside p.sources i (omega (arith, v.ready.sources)) in
          (src, ap or_out_of_bounds there, there))
        (λ src there. elim (Bool-cases src.is_connected) [
          | inr idle ↦ rw idle (_, refl, v)
          | inl on ↦
              let device = v.ready.connected i src there on in
              let (f, e) = device.has_more in
              let (h, e') = device.read_byte in
              rw on (
                rw e (
                  rw e' (
                    >>=-Ensures (read_loop fuel b p i src f h _) _
                      (read_loop-Ensures Inv pending last fuel b p i src f h _ v.ready v.laws
                        (v.ready.origins i src there) inside device.known
                        (v.laws.sources i src there) e e' (omega (arith, v.bound)) v.queried v.inv)
                      (λ r d. (
                        _,
                        refl,
                        record {
                          ready = put_back-IsReady p i src r.push.message v.ready inside there;
                          laws =
                              put_back-IsKept b p i src r.push.message v.ready v.laws inside there;
                          queried = d.queried;
                          same_last = v.same_last;
                          flags = v.flags;
                          same =
                              put_back-SameDevices p i src r.push.message v.ready inside there
                                v.same;
                          inv = d.inv;
                          bound = omega (arith, d.bound, v.bound);
                        },
                      )))))
        ])

  pub spin_loop-Ensures :
      (fuel : ℕ) (b : Build) (n i : ℕ) (w : World) (g : Gateway) (has_load : Bool)
      → i + n ≤ max_sources
      → pending w < fuel
      → Between b w g
      → Ensures (spin_loop fuel b n i g has_load) (λ (g', has_load'). Between b w g')
  unfolding spin_loop
  spin_loop-Ensures fuel b zero i w g has_load inside enough v = (_, refl, v)
  spin_loop-Ensures fuel b (suc n) i w g has_load inside enough v =
      >>=-Ensures (spin_source fuel b i g has_load) _
        (spin_source-Ensures fuel b i w g has_load (omega arith) enough v)
        (λ (g', has_load') v'.
          spin_loop-Ensures fuel b n (i + 1) w g' has_load' (omega arith) enough v')
