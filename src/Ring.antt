-- ===== src/Ring.antt =====
-- lib/ring_buffer.h: the byte ring between the UART reader and the gateway. `size_t` arithmetic is
-- modulo 2 ^ 64. The functions take `rb` by reference, so its assertions against NULL hold; those on
-- a size are kept.
pub mod Queue
pub mod Valid
pub mod Refine
pub mod Transfer
pub mod Copies
mod Tests
use secure_mavlink_gateway.Prelude.{
  ℕ, zero, suc, ◌+◌, ◌-◌, ◌%◌, ◌^◌, Bool, true, false, not, ◌&&◌, List, [], ◌∷◌, length, get_or,
  set, ltb, leb, ◌==◌, if◌then◌else◌,
}
use secure_mavlink_gateway.Outcome.{Outcome, done, assert, ◌>>=◌, ◌>>◌}

-- `struct ring_buffer_t`
pub record Ring : Type 0 where
  pub buffer : List ℕ
  pub head : ℕ
  pub tail : ℕ
  pub max : ℕ
  pub full : Bool

abbrev pub size_t : ℕ → ℕ
size_t n = n % 2 ^ 64

-- `rb` is what the memory of the ring held before.
unfoldable pub ring_buffer_init : Ring → List ℕ → ℕ → Outcome Ring
ring_buffer_init rb buffer size = do
  assert (ltb 0 size)
  done (record { buffer = buffer; head = 0; tail = 0; max = size; full = false })

pub ring_buffer_reset : Ring → Ring
ring_buffer_reset rb = record rb { head = 0; tail = 0; full = false }

unfoldable pub ring_buffer_is_empty : Ring → Bool
ring_buffer_is_empty rb = not rb.full && (rb.head == rb.tail)

unfoldable pub ring_buffer_is_full : Ring → Bool
ring_buffer_is_full rb = rb.full

-- `(i + 1) % rb->max`
abbrev pub next_slot : Ring → ℕ → ℕ
next_slot rb i = size_t (i + 1) % rb.max

unfoldable pub ring_buffer_push : Ring → ℕ → Ring
ring_buffer_push rb byte =
    let head = next_slot rb rb.head in
    let full = if head == rb.tail then true else rb.full in
    record rb {
      buffer = set rb.buffer rb.head byte;
      head = head;
      tail = if full then head else rb.tail;
      full = full;
    }

-- Take the byte at the tail.
unfoldable pub take_tail : Ring → Ring
take_tail rb = record rb { tail = next_slot rb rb.tail; full = false }

unfoldable pub ring_buffer_pop : Ring → ℕ × Ring
unfolding ring_buffer_is_empty take_tail
ring_buffer_pop rb =
    if ring_buffer_is_empty rb then (0, rb) else (get_or rb.buffer rb.tail 0, take_tail rb)

unfoldable pub ring_buffer_size : Ring → ℕ
ring_buffer_size rb =
    if rb.full
    then rb.max
    else if leb rb.tail rb.head
    then rb.head - rb.tail
    else size_t (size_t (rb.max + rb.head) + 2 ^ 64 - rb.tail)

pub ring_buffer_capacity : Ring → ℕ
ring_buffer_capacity rb = rb.max

unfoldable pub ring_buffer_available : Ring → ℕ
unfolding ring_buffer_size
ring_buffer_available rb = size_t (rb.max + 2 ^ 64 - ring_buffer_size rb)

-- The loop of `ring_buffer_copy_to`, with `n` rounds left of `size` and `i` bytes copied.
unfoldable pub copy_to_loop : (n i : ℕ) → Ring → List ℕ → ℕ × Ring × List ℕ
copy_to_loop zero i rb buffer = (i, rb, buffer)
copy_to_loop (suc n) i rb buffer =
    let rest = copy_to_loop n (i + 1) (take_tail rb) (set buffer i (get_or rb.buffer rb.tail 0)) in
    if ring_buffer_is_empty rb then (i, rb, buffer) else rest

-- The number of bytes copied, the ring and the buffer afterwards.
unfoldable pub ring_buffer_copy_to : Ring → List ℕ → ℕ → Outcome (ℕ × Ring × List ℕ)
unfolding copy_to_loop take_tail ring_buffer_is_empty
ring_buffer_copy_to rb buffer size = do assert (ltb 0 size); done (copy_to_loop size 0 rb buffer)

-- The loop of `ring_buffer_copy_from` over the bytes `buffer[i .. size)`; its body is that of
-- `ring_buffer_push`.
unfoldable pub copy_from_loop : Ring → List ℕ → Ring
copy_from_loop rb [] = rb
copy_from_loop rb (byte ∷ rest) = copy_from_loop (ring_buffer_push rb byte) rest

-- The list is `buffer[0 .. size)`.
unfoldable pub ring_buffer_copy_from : Ring → List ℕ → Outcome Ring
unfolding copy_from_loop
ring_buffer_copy_from rb bytes = do assert (ltb 0 (length bytes)); done (copy_from_loop rb bytes)
