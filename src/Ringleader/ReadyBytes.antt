-- ===== src/Ringleader/ReadyBytes.antt =====
-- The `ready` bytes of lib/source_ringleader.c. The sizes are powers of two, so `& (READY_SIZE - 1)` is
-- the remainder.
use secure_mavlink_gateway.Prelude.{
  ℕ, zero, suc, ◌+◌, ◌-◌, ◌%◌, min, Bool, not, ◌&&◌, ◌||◌, List, length, take, get_or, ltb, leb,
  ◌==◌, if◌then◌else◌,
}
use secure_mavlink_gateway.Outcome.{Outcome, done, out_of_bounds, no_fuel, ◌>>=◌}
use secure_mavlink_gateway.Ring.Copies.{store_all}

abbrev pub max_packet_size : ℕ
max_packet_size = 512

abbrev pub packet_depth : ℕ
packet_depth = 16

abbrev pub ready_size : ℕ
ready_size = 8192

pub record Ready : Type 0 where
  pub bytes : List ℕ
  pub head : ℕ
  pub tail : ℕ

-- `memcpy(ready + head, packet, to_copy)`
unfoldable pub copy_packet : List ℕ → ℕ → Ready → Outcome (List ℕ)
unfolding store_all
copy_packet packet to_copy r =
    if ltb (length packet) to_copy || ltb (length r.bytes) (r.head + to_copy)
    then out_of_bounds
    else done (store_all r.bytes r.head (take to_copy packet))

-- The tail when the head moves to `new_head`.
unfoldable pub push_tail : Ready → ℕ → ℕ
push_tail r new_head =
    if (ltb r.head r.tail && leb r.tail new_head) || (leb r.tail new_head && ltb new_head r.head)
    then (new_head + 1) % ready_size
    else r.tail

-- The body of `while (length > 0)`.
unfoldable pub recv_round : List ℕ → ℕ → Ready → Outcome (ℕ × Ready)
unfolding copy_packet push_tail
recv_round packet length r =
    let to_copy = min length (ready_size - r.head) in
    let new_head = (r.head + to_copy) % ready_size in
    copy_packet packet to_copy r >>= λ bytes.
    done (length - to_copy, record { bytes = bytes; head = new_head; tail = push_tail r new_head })

unfoldable pub recv_loop : ℕ → List ℕ → ℕ → Ready → Outcome Ready
unfolding recv_round
recv_loop zero packet length r = no_fuel
recv_loop (suc fuel) packet length r =
    let rest = recv_round packet length r >>= λ (length', r'). recv_loop fuel packet length' r' in
    if length == 0 then done r else rest

-- `ready_head != ready_tail`
unfoldable pub has_ready : Ready → Bool
has_ready r = not (r.head == r.tail)

unfoldable pub take_ready : Ready → ℕ × Ready
take_ready r = (get_or r.bytes r.tail 0, record r { tail = (r.tail + 1) % ready_size })
