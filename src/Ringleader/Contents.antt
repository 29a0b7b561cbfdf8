-- ===== src/Ringleader/Contents.antt =====
-- The `ready` bytes as the queue of those that wait, oldest first.
use native.Mathlib.Nat.{mod-eq_of_lt, add-mul-mod_self_right}
use mathlib.Core.List.{append_assoc, append-nil}
use secure_mavlink_gateway.Prelude.{
  ℕ, zero, suc, ◌+◌, ◌-◌, ◌*◌, ◌%◌, ◌<◌, ◌≤◌, ◌≡◌, refl, sym, ap, ap₂, ◌∙◌, true, false, not, List,
  [], ◌∷◌, ◌++◌, length, take, set, get_or, length-set, length-take, ◌==◌, dec_lt, lt→ltb, arith,
}
use secure_mavlink_gateway.Outcome.{Ensures}
use secure_mavlink_gateway.Ring.Refine.{
  bytes_from, bytes_from-write, bytes_from-first, length-bytes_from,
}
use secure_mavlink_gateway.Ring.Copies.{store_all}
use secure_mavlink_gateway.Ringleader.ReadyBytes.{
  Ready, ready_size, push_tail, recv_loop, has_ready, take_ready,
}
use secure_mavlink_gateway.Ringleader.Bounds.{
  IsInside, advance, chunk, recv_round-advance, advance-IsInside,
}
use secure_mavlink_gateway.Ringleader.{
  MavlinkRl, recv_request, ringleader_tcp_recv_cb, ringleader_tcp_read_byte,
}

-- How many bytes wait.
abbrev pub held : Ready → ℕ
held r = (ready_size + r.head - r.tail) % ready_size

abbrev pub contents : Ready → List ℕ
contents r = bytes_from ready_size r.bytes r.tail (held r)

-- A write of many bytes just past `n` adds them.
bytes_from-store_all :
    (m : ℕ) (xs buf : List ℕ) (t n i q : ℕ)
    → n + length xs < m
    → i + length xs ≤ m
    → m ≤ length buf
    → t + n ≡ i + q * m
    → bytes_from m (store_all buf i xs) t (n + length xs) ≡ bytes_from m buf t n ++ xs
unfolding store_all
bytes_from-store_all m [] buf t n i q room inside size at =
    ap (bytes_from m buf t) {x = n + 0} {y = n} (omega arith)
    ∙ sym (append-nil (bytes_from m buf t n))
bytes_from-store_all m (x ∷ xs) buf t n i q room inside size at =
    let slot : i ≡ (t + n) % m =
      sym (ap (λ (a : ℕ). a % m) at ∙ add-mul-mod_self_right i q m ∙ mod-eq_of_lt (omega arith)) in
    ap (bytes_from m (store_all (set buf i x) (i + 1) xs) t) {x = n + suc (length xs)}
      {y = suc n + length xs} (omega arith)
    ∙ bytes_from-store_all m xs (set buf i x) t (suc n) (i + 1) q (omega arith) (omega arith)
        (omega (arith, length-set buf i x)) (omega arith)
    ∙ ap (λ b. b ++ xs) (bytes_from-write m buf t n i x (omega arith) (omega arith) slot)
    ∙ append_assoc (bytes_from m buf t n) (x ∷ []) xs

-- Where the head stands.
held-head : (r : Ready) → IsInside r → (q : ℕ) × (r.tail + held r ≡ r.head + q * ready_size)
held-head r v = elim (dec_lt r.head r.tail) [
  | yes below ↦ (1, omega arith)
  | no above ↦ (0, omega arith)
]

-- A round that has room.
advance-contents :
    (packet : List ℕ) (k : ℕ) (r : Ready)
    → IsInside r
    → k ≤ ready_size - r.head
    → k ≤ length packet
    → held r + k < ready_size
    → (held (advance packet k r) ≡ held r + k)
      × (contents (advance packet k r) ≡ contents r ++ take k packet)
unfolding push_tail
advance-contents packet k r v fits there room =
    let (q, at) = held-head r v in
    let same : push_tail r ((r.head + k) % ready_size) ≡ r.tail = ground arith in
    let more : held (advance packet k r) ≡ held r + k = rw same (omega arith) in
    let taken = length-take k packet in
    let counted : held (advance packet k r) ≡ held r + length (take k packet) =
      omega (arith, more, taken) in
    (
      more,
      ap₂ (λ (t n : ℕ). bytes_from ready_size (advance packet k r).bytes t n) same counted
          ∙ bytes_from-store_all ready_size (take k packet) r.bytes r.tail (held r) r.head q
              (omega (arith, taken)) (omega (arith, taken)) (omega (arith, v.size)) at,
    )

-- A packet that goes no further than the end of the `ready` bytes.
recv_loop-short :
    (fuel : ℕ) (packet : List ℕ) (n : ℕ) (r : Ready)
    → n < fuel
    → n ≤ length packet
    → IsInside r
    → held r + n < ready_size
    → n ≤ ready_size - r.head
    → Ensures (recv_loop fuel packet n r) (λ r'. contents r' ≡ contents r ++ take n packet)
unfolding recv_loop
recv_loop-short zero packet n r enough there v room fits = absurd (omega arith)
recv_loop-short (suc fuel) packet zero r enough there v room fits =
    (r, refl, sym (append-nil (contents r)))
recv_loop-short (suc zero) packet (suc n) r enough there v room fits = absurd (omega arith)
recv_loop-short (suc (suc fuel)) packet (suc n) r enough there v room fits =
    let all : chunk (suc n) r ≡ suc n = omega arith in
    let goes : (suc n == 0) ≡ false = ground arith in
    let none_left : suc n - chunk (suc n) r ≡ 0 = omega arith in
    (
      advance packet (suc n) r,
      rw (goes, recv_round-advance packet (suc n) r there v, none_left, all) refl,
      (advance-contents packet (suc n) r v fits there room).1,
    )

no_chunks : (c packet : List ℕ) (k : ℕ) → k ≡ 0 → c ≡ c ++ take k packet ++ take (0 - k) packet
no_chunks c packet zero h = sym (append-nil c) ∙ sym (append-nil (c ++ []))
no_chunks c packet (suc k) h = absurd (omega arith)

recv_loop-contents :
    (fuel : ℕ) (packet : List ℕ) (n : ℕ) (r : Ready)
    → n < fuel
    → n ≤ length packet
    → IsInside r
    → held r + n < ready_size
    → let k = chunk n r in
      Ensures
        (recv_loop fuel packet n r)
        (λ r'. contents r' ≡ contents r ++ take k packet ++ take (n - k) packet)
unfolding recv_loop
recv_loop-contents zero packet n r enough there v room = absurd (omega arith)
recv_loop-contents (suc fuel) packet zero r enough there v room =
    (r, refl, no_chunks (contents r) packet (chunk 0 r) (omega arith))
recv_loop-contents (suc fuel) packet (suc n) r enough there v room =
    let k = chunk (suc n) r in
    let goes : (suc n == 0) ≡ false = ground arith in
    let next = advance packet k r in
    let (more, first) = advance-contents packet k r v (omega arith) (omega arith) (omega arith) in
    let (r', same, second) =
      recv_loop-short fuel packet (suc n - k) next (ground arith) (omega arith)
        (advance-IsInside packet k r v) (omega (arith, more)) (ground arith) in
    (
      r',
      rw (goes, recv_round-advance packet (suc n) r there v) same,
      second ∙ ap (λ c. c ++ take (suc n - k) packet) first,
    )

-- When a packet of `n` bytes comes in and the `ready` bytes have room for them, the callback asks for
-- the next packet and adds to what waits the bytes of the packet that reach to the end of
-- `ready`, and then, for those that are left, as many from the beginning of the packet again:
-- all of the packet in order if it reaches no further.
pub ringleader_tcp_recv_cb-contents :
    (index : ℕ) (packet : List ℕ) (n : ℕ) (m : MavlinkRl)
    → 0 < n
    → n ≤ length packet
    → IsInside m.ready
    → held m.ready + n < ready_size
    → let k = chunk n m.ready in
      Ensures (ringleader_tcp_recv_cb index packet n m) (λ (requests, m').
        (requests ≡ recv_request index ∷ [])
        × (contents m'.ready ≡ contents m.ready ++ take k packet ++ take (n - k) packet))
unfolding ringleader_tcp_recv_cb
ringleader_tcp_recv_cb-contents index packet n m some there v room =
    let (r', same, all) = recv_loop-contents (suc n) packet n m.ready (omega arith) there v room in
    (
      (recv_request index ∷ [], record m { ready = r' }),
      rw (lt→ltb 0 n some, same) refl,
      (refl, all),
    )

-- With the indices inside, `has_more` is whether bytes wait, and then `read_byte` takes the oldest and
-- leaves the others.
pub ringleader_tcp_read_byte-contents :
    (m : MavlinkRl)
    → IsInside m.ready
    → (has_ready m.ready ≡ not (length (contents m.ready) == 0))
      × (has_ready m.ready ≡ true
          → let (byte, m') = ringleader_tcp_read_byte m in
            (contents m.ready ≡ byte ∷ contents m'.ready) × IsInside m'.ready)
unfolding has_ready ringleader_tcp_read_byte take_ready
ringleader_tcp_read_byte-contents m v =
    let r = m.ready in
    (
      rw (length-bytes_from ready_size r.bytes r.tail (held r)) (ground arith),
      λ some.
          let there : 0 < held r = ground arith in
          let one_less : held r - 1
              ≡ (ready_size + r.head - (r.tail + 1) % ready_size) % ready_size =
            ground arith in
          (
            bytes_from-first ready_size r.bytes r.tail (held r) v.tail_in there
                ∙ ap
                    (λ (k : ℕ).
                      get_or r.bytes r.tail 0
                      ∷ bytes_from ready_size r.bytes ((r.tail + 1) % ready_size) k)
                    one_less,
            record { size = v.size; head_in = v.head_in; tail_in = omega arith },
          ),
    )
