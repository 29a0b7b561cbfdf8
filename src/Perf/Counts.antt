-- ===== src/Perf/Counts.antt =====
-- What the counters say: lost messages from gaps in the sequence numbers, and the messages, bytes and
-- losses between two queries.
use secure_mavlink_gateway.Prelude.{
  ℕ, ◌+◌, ◌-◌, ◌%◌, ◌^◌, ◌<◌, ◌≡◌, refl, ap, ◌∙◌, some, List, [], ◌∷◌, get_elem?, set, length,
  get_elem?-set_self, length-set, if◌then◌else◌, ◌==◌, arith,
}
use secure_mavlink_gateway.Outcome.{Outcome, done, ◌>>=◌}
use secure_mavlink_gateway.Platform.{Platform}
use secure_mavlink_gateway.Message.{Message}
use secure_mavlink_gateway.Ports.{max_sources}
use secure_mavlink_gateway.Perf.{
  Perf, PortUnit, PortUnitResult, unit_source, u64, sub64, drop_of, count_source,
  perf_port_unit_update, perf_port_unit_query, query_unit,
}

-- For two sequence numbers that are bytes, the losses are the number modulo 256 that leads from the
-- earlier one to just before the later one.
drop_of_lem :
    (seq prev_seq : ℕ)
    → seq < 256
    → prev_seq < 256
    → (drop_of seq prev_seq ≡ (seq + 255 - prev_seq) % 256)
      × ((prev_seq + drop_of seq prev_seq + 1) % 256 ≡ seq)
unfolding drop_of
drop_of_lem seq prev_seq h k = (ground arith, ground arith)

-- The fields are what they can hold.
pub record IsCounter (u : PortUnit) : Type 0 where
  pub prev : u.prev_seq < 256
  pub succ : u.succ_count < 2 ^ 64
  pub drop : u.drop_count < 2 ^ 64
  pub bytes : u.succ_bytes < 2 ^ 64

sub64-u64 : (a b : ℕ) → a < 2 ^ 64 → sub64 (u64 (a + b)) a ≡ u64 b
sub64-u64 a b h = omega arith

module _ ⦃platform : Platform⦄ where
  open platform use {len, seq, compid, num_non_payload_bytes}

  -- The bytes of the messages, and the losses after sequence number `prev`.
  pub bytes_of : List Message → ℕ
  bytes_of [] = 0
  bytes_of (m ∷ ms) = len m.msg + num_non_payload_bytes + bytes_of ms

  unfoldable pub losses : ℕ → List Message → ℕ
  losses prev [] = 0
  losses prev (m ∷ ms) =
      (if compid m.msg == 1 then (seq m.msg + 255 - prev) % 256 else 0)
      + losses (if compid m.msg == 1 then seq m.msg else prev) ms

  -- The counters of a source after a list of messages.
  pub update_all : Perf → ℕ → List Message → Outcome Perf
  update_all perf id [] = done perf
  update_all perf id (m ∷ ms) =
      perf_port_unit_update perf unit_source id m >>= λ perf'. update_all perf' id ms

  -- A query, some messages, and a second query.
  pub measure : Perf → ℕ → ℕ → List Message → ℕ → Outcome (Perf × PortUnitResult)
  measure perf id start ms end = perf_port_unit_query perf unit_source id start >>= λ (perf', r).
      update_all perf' id ms >>= λ perf''. perf_port_unit_query perf'' unit_source id end

  count_all : PortUnit → List Message → PortUnit
  count_all u [] = u
  count_all u (m ∷ ms) = count_all (count_source u m) ms

  update-count :
      (perf : Perf) (id : ℕ) (m : Message) (u : PortUnit)
      → id < max_sources
      → get_elem? perf.source_units id ≡ some u
      → perf_port_unit_update perf unit_source id m
        ≡ done (record perf { source_units = set perf.source_units id (count_source u m) })
  unfolding perf_port_unit_update
  update-count perf id m u h e = ground arith

  update_all-count :
      (ms : List Message) (perf : Perf) (id : ℕ) (u : PortUnit)
      → id < max_sources
      → id < length perf.source_units
      → get_elem? perf.source_units id ≡ some u
      → (perf' : Perf) × (update_all perf id ms ≡ done perf')
        × (get_elem? perf'.source_units id ≡ some (count_all u ms))
  unfolding update_all count_all
  update_all-count [] perf id u h inside e = (perf, refl, e)
  update_all-count (m ∷ ms) perf id u h inside e =
      let units = set perf.source_units id (count_source u m) in
      let (perf', same, there) =
        update_all-count ms (record perf { source_units = units }) id (count_source u m) h
          (omega (arith, length-set perf.source_units id (count_source u m)))
          (get_elem?-set_self perf.source_units id (count_source u m) inside) in
      (perf', rw (update-count perf id m u h e) same, there)

  -- Sequence numbers are bytes.
  abbrev pub AreBytes : List Message → Type 0
  AreBytes [] = Unit
  AreBytes (m ∷ ms) = (seq m.msg < 256) × AreBytes ms

  -- What a list of messages does to the counters, which wrap around at 2 ^ 64.
  record Counted (u v : PortUnit) (ms : List Message) : Type 0 where
    succ : v.succ_count ≡ u64 (u.succ_count + length ms)
    drop : v.drop_count ≡ u64 (u.drop_count + losses u.prev_seq ms)
    bytes : v.succ_bytes ≡ u64 (u.succ_bytes + bytes_of ms)
    old_succ : v.last_succ_count ≡ u.last_succ_count
    old_drop : v.last_drop_count ≡ u.last_drop_count
    old_bytes : v.last_succ_bytes ≡ u.last_succ_bytes
    old_query : v.last_query ≡ u.last_query

  count_one :
      (u : PortUnit) (m : Message)
      → seq m.msg < 256
      → u.prev_seq < 256
      → Counted u (count_source u m) (m ∷ [])
        × ((count_source u m).prev_seq ≡ (if compid m.msg == 1 then seq m.msg else u.prev_seq))
  unfolding count_source losses bytes_of
  count_one u m h k = ground (arith, drop_of_lem (seq m.msg) u.prev_seq h k)

  count_source-IsCounter :
      (u : PortUnit) (m : Message) → seq m.msg < 256 → IsCounter u → IsCounter (count_source u m)
  unfolding count_source
  count_source-IsCounter u m h v = ground arith

  count_all-Counted :
      (ms : List Message) (u : PortUnit) → AreBytes ms → IsCounter u → Counted u (count_all u ms) ms
  unfolding count_all losses bytes_of
  count_all-Counted [] u b v = ground arith
  count_all-Counted (m ∷ ms) u b v =
      let (one, prev) = count_one u m b.0 v.prev in
      let rest = count_all-Counted ms (count_source u m) b.1 (count_source-IsCounter u m b.0 v) in
      let same = ap (λ (t : ℕ). losses t ms) prev in
      record {
        succ = omega (arith, one.succ, rest.succ);
        drop = omega (arith, one.drop, rest.drop, same);
        bytes = omega (arith, one.bytes, rest.bytes);
        old_succ = rest.old_succ ∙ one.old_succ;
        old_drop = rest.old_drop ∙ one.old_drop;
        old_bytes = rest.old_bytes ∙ one.old_bytes;
        old_query = rest.old_query ∙ one.old_query;
      }

  -- The second query, if the first one was at `u`.
  query-Counted :
      (u w : PortUnit) (ms : List Message) (start end : ℕ)
      → IsCounter u
      → Counted (query_unit u start).0 w ms
      → (query_unit w end).1 ≡ record {
        duration = sub64 end start;
        succ_count = u64 (length ms);
        drop_count = u64 (losses u.prev_seq ms);
        succ_bytes = u64 (bytes_of ms);
      }
  unfolding query_unit
  query-Counted u w ms start end v c =
      let open_succ = c.succ in
      let open_drop = c.drop in
      let open_bytes = c.bytes in ground (arith, c.old_succ, c.old_drop, c.old_bytes, c.old_query)

  -- For a source whose counters are in range and messages whose sequence numbers are bytes: between
  -- two queries of the source's counters, the second result has the time between the queries, the
  -- number of messages, the losses that the gaps in their sequence numbers show, counted from the
  -- last number before them, and their bytes, each modulo 2 ^ 64.
  pub measure_lem :
      (perf : Perf) (id start end : ℕ) (ms : List Message) (u : PortUnit)
      → id < max_sources
      → get_elem? perf.source_units id ≡ some u
      → id < length perf.source_units
      → IsCounter u
      → AreBytes ms
      → (perf' : Perf) × (measure perf id start ms end
          ≡ done (
            perf',
            record {
              duration = sub64 end start;
              succ_count = u64 (length ms);
              drop_count = u64 (losses u.prev_seq ms);
              succ_bytes = u64 (bytes_of ms);
            },
          ))
  unfolding measure perf_port_unit_query
  measure_lem perf id start end ms u h there inside v b =
      let u' = (query_unit u start).0 in
      let units = set perf.source_units id u' in
      let (perf', same, there') =
        update_all-count ms (record perf { source_units = units }) id u' h
          (omega (arith, length-set perf.source_units id u'))
          (get_elem?-set_self perf.source_units id u' inside) in
      let w = count_all u' ms in
      (
        record perf' { source_units = set perf'.source_units id (query_unit w end).0 },
        rw (there, same, there')
            (ap
              (λ r.
                done (
                  record perf' { source_units = set perf'.source_units id (query_unit w end).0 },
                  r,
                ))
              (query-Counted u w ms start end v (
                count_all-Counted ms u' b
                  (record { prev = v.prev; succ = v.succ; drop = v.drop; bytes = v.bytes })))),
      )
