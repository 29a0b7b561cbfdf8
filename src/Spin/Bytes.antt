-- ===== src/Spin/Bytes.antt =====
-- The loop over the bytes of a source, on a ready gateway.
use secure_mavlink_gateway.Prelude.{
  ℕ, zero, suc, ◌+◌, ◌%◌, ◌^◌, ◌<◌, ◌≡◌, refl, sym, subst, Option, none, Bool, true, false, some,
  arith, Bool-cases, inl, inr, truthy, ◌==◌,
}
use secure_mavlink_gateway.Outcome.{done, Ensures, >>=-Ensures}
use secure_mavlink_gateway.Platform.{Platform}
use secure_mavlink_gateway.Ports.{Source, max_sources}
use secure_mavlink_gateway.Message.{Message}
use secure_mavlink_gateway.Perf.{unit_source, perf_port_unit_update}
use secure_mavlink_gateway.Perf.Report.{AreQueriedAt}
use secure_mavlink_gateway.Perf.Updates.{perf_port_unit_update-Ensures}
use secure_mavlink_gateway.Pipeline.{Pipeline, Push, transformed}
use secure_mavlink_gateway.Spin.{Build, Reading, on_message, on_byte, read_loop}
use secure_mavlink_gateway.Spin.Ready.{KeepsOrigin, IsReady, KeepsSource, IsKept}
use secure_mavlink_gateway.Spin.Delivery.{Delivered, pipeline_push-Ensures}

module _ ⦃platform : Platform⦄ (Inv : platform.World → Type 0) (pending : platform.World → ℕ)
    (last : ℕ) where
  open platform use {World, parse_char, framing_incomplete, framing_ok}

  abbrev pub Delivers : World → Push → Type 0
  Delivers w s = Delivered Inv pending last w s

  transformed-source :
      (on : Bool) (o : Option (Message → Message)) (m : Message)
      → ((f : Message → Message) → o ≡ some f → (m : Message) → (f m).source ≡ m.source)
      → (transformed on o m).source ≡ m.source
  transformed-source true none m keeps = refl
  transformed-source true (some f) m keeps = keeps f refl m
  transformed-source false o m keeps = refl

  on_message-Ensures :
      (b : Build) (p : Pipeline) (i : ℕ) (src : Source) (s : Push)
      → IsReady p
      → IsKept Inv pending b p
      → KeepsOrigin src
      → i < max_sources
      → src.source_id < max_sources
      → AreQueriedAt s.perf last
      → Inv s.world
      → Ensures (on_message b p i src s) (Delivers s.world)
  unfolding on_message
  on_message-Ensures b p i src s ready laws origin inside known q inv =
      let m = record (s.message) { source = src.source_id } in
      >>=-Ensures (perf_port_unit_update s.perf unit_source i m) _
        (perf_port_unit_update-Ensures s.perf last i unit_source m inside q)
        (λ perf q'.
          let m' = transformed p.transform_enabled src.transform m in
          pipeline_push-Ensures Inv pending last b p (record s { message = m'; perf = perf }) ready
            laws
            (subst (λ (k : ℕ). k < max_sources)
              (sym (transformed-source p.transform_enabled src.transform m origin)) known)
            q' inv)

  on_byte-Ensures :
      (b : Build) (p : Pipeline) (i byte : ℕ) (src : Source) (s : Push)
      → IsReady p
      → IsKept Inv pending b p
      → KeepsOrigin src
      → i < max_sources
      → src.source_id < max_sources
      → AreQueriedAt s.perf last
      → Inv s.world
      → Ensures (on_byte b p i src byte s) (Delivers s.world)
  unfolding on_byte
  on_byte-Ensures b p i byte src s ready laws origin inside known q inv =
      let (rv, msg, status, w) = parse_char i byte s.message.msg s.message.status s.world in
      let (inv', bound) = laws.parse i byte s.message.msg s.message.status s.world inv in
      let s' : Push = record s {
        message = record (s.message) { msg = msg; status = status };
        world = w;
      } in
      let ignored : Ensures (done s') (Delivers s.world) =
        (s', refl, record { queried = q; inv = inv'; bound = bound }) in
      elim (Bool-cases (rv == framing_incomplete)) [
        | inl more ↦ rw more ignored
        | inr whole ↦ elim (Bool-cases (rv == framing_ok)) [
          | inl ok ↦
              let (s'', e, d) =
                on_message-Ensures b p i src s' ready laws origin inside known q inv' in
              rw whole (
                rw ok (
                  s'',
                  e,
                  record {
                    queried = d.queried;
                    inv = d.inv;
                    bound = omega (arith, d.bound, bound);
                  },
                ))
          | inr bad ↦ rw whole (rw bad ignored)
        ]
      ]

  pub read_loop-Ensures :
      (fuel : ℕ) (b : Build) (p : Pipeline) (i : ℕ) (src : Source) (f g : World → ℕ × World)
      (r : Reading)
      → IsReady p
      → IsKept Inv pending b p
      → KeepsOrigin src
      → i < max_sources
      → src.source_id < max_sources
      → KeepsSource Inv pending src
      → src.has_more ≡ some f
      → src.read_byte ≡ some g
      → pending r.push.world < fuel
      → AreQueriedAt r.push.perf last
      → Inv r.push.world
      → Ensures (read_loop fuel b p i src f g r) (λ r'. Delivers r.push.world r'.push)
  unfolding read_loop
  read_loop-Ensures zero b p i src f g r ready laws origin inside known device e e' enough q inv =
      absurd (omega arith)
  read_loop-Ensures (suc fuel) b p i src f g r ready laws origin inside known device e e' enough q
        inv =
      let (more, w) = f r.push.world in
      let (c, w') = g w in
      elim (Bool-cases (truthy more)) [
        | inl yes_more ↦
            let (inv', bound) = device.byte f g e e' r.push.world yes_more inv in
            rw yes_more (
              >>=-Ensures (on_byte b p i src (c % 2 ^ 8) (record (r.push) { world = w' })) _
                (on_byte-Ensures b p i (c % 2 ^ 8) src (record (r.push) { world = w' }) ready laws
                  origin inside known q inv')
                (λ push d.
                  let r' : Reading = record {
                    push = push;
                    has_load = true;
                    total_bytes = (r.total_bytes + 1) % 2 ^ 64;
                  } in
                  let (r'', same, d') =
                    read_loop-Ensures fuel b p i src f g r' ready laws origin inside known device e
                      e' (omega (arith, d.bound, bound)) d.queried d.inv in
                  (
                    r'',
                    same,
                    record {
                      queried = d'.queried;
                      inv = d'.inv;
                      bound = omega (arith, d.bound, d'.bound, bound);
                    },
                  )))
        | inr no_more ↦
            let (inv', bound) = device.more f e r.push.world inv in
            rw no_more (_, refl, record { queried = q; inv = inv'; bound = bound })
      ]
