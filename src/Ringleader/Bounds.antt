-- ===== src/Ringleader/Bounds.antt =====
-- The indices into the `ready` bytes and into a packet, and the end of the loop that copies one.
use secure_mavlink_gateway.Prelude.{
  ℕ, zero, suc, ◌+◌, ◌-◌, ◌%◌, min, ◌<◌, ◌≤◌, ◌≡◌, refl, List, [], ◌∷◌, length, take, set,
  length-set, ◌==◌, Bool-cases, inl, inr, arith,
}
use secure_mavlink_gateway.Outcome.{done, Ensures}
use secure_mavlink_gateway.Ring.Copies.{store_all}
use secure_mavlink_gateway.Ringleader.ReadyBytes.{
  Ready, ready_size, copy_packet, push_tail, recv_round, recv_loop,
}

pub record IsInside (r : Ready) : Type 0 where
  pub size : length r.bytes ≡ ready_size
  pub head_in : r.head < ready_size
  pub tail_in : r.tail < ready_size

length-store_all :
    (xs : List ℕ) (buffer : List ℕ) (i : ℕ) → length (store_all buffer i xs) ≡ length buffer
unfolding store_all
length-store_all [] buffer i = refl
length-store_all (x ∷ xs) buffer i =
    omega (arith, length-store_all xs (set buffer i x) (i + 1), length-set buffer i x)

-- What `recv_round` leaves when it copies `k` bytes.
abbrev pub advance : List ℕ → ℕ → Ready → Ready
advance packet k r = record {
  bytes = store_all r.bytes r.head (take k packet);
  head = (r.head + k) % ready_size;
  tail = push_tail r ((r.head + k) % ready_size);
}

-- The number of bytes that a round copies.
abbrev pub chunk : ℕ → Ready → ℕ
chunk n r = min n (ready_size - r.head)

pub recv_round-advance :
    (packet : List ℕ) (n : ℕ) (r : Ready)
    → n ≤ length packet
    → IsInside r
    → recv_round packet n r ≡ done (n - chunk n r, advance packet (chunk n r) r)
unfolding recv_round copy_packet
recv_round-advance packet n r there v = grind arith

pub advance-IsInside :
    (packet : List ℕ) (k : ℕ) (r : Ready) → IsInside r → IsInside (advance packet k r)
unfolding push_tail
advance-IsInside packet k r v = record {
  size = omega (arith, length-store_all (take k packet) r.bytes r.head, v.size);
  head_in = omega arith;
  tail_in = ground arith;
}

-- A packet of at most as many bytes as `length` says, with the two indices inside: the loop ends
-- within one round for each byte and one more, reads and writes nothing outside the packet and the
-- `ready` bytes, and leaves the indices inside.
pub recv_loop-IsInside :
    (fuel : ℕ) (packet : List ℕ) (n : ℕ) (r : Ready)
    → n < fuel
    → n ≤ length packet
    → IsInside r
    → Ensures (recv_loop fuel packet n r) IsInside
unfolding recv_loop
recv_loop-IsInside zero packet n r enough there v = absurd (omega arith)
recv_loop-IsInside (suc fuel) packet n r enough there v = elim (Bool-cases (n == 0)) [
  | inl ends ↦ rw ends (r, refl, v)
  | inr goes ↦
      let k = chunk n r in
      let (r', same, inside) =
        recv_loop-IsInside fuel packet (n - k) (advance packet k r) (ground arith) (omega arith)
          (advance-IsInside packet k r v) in
      (r', rw (goes, recv_round-advance packet n r there v) same, inside)
]
