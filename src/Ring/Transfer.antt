-- ===== src/Ring/Transfer.antt =====
-- Taking bytes out of the ring, and the loops that move many bytes at once.
use secure_mavlink_gateway.Prelude.{
  ℕ, ◌+◌, ◌-◌, ◌%◌, ◌<◌, ◌≡◌, refl, ◌∙◌, ap, ap₂, sym, true, false, List, [], ◌∷◌, ◌++◌, length,
  drop, arith, get_or, Bool-cases, inl, inr, ◌==◌, lt→ltb,
}
use secure_mavlink_gateway.Outcome.{done, assert_failed}
use secure_mavlink_gateway.Ring.{
  Ring, ring_buffer_is_empty, ring_buffer_is_full, ring_buffer_push, ring_buffer_pop,
  ring_buffer_size, ring_buffer_available, ring_buffer_copy_from, take_tail, copy_from_loop,
}
use secure_mavlink_gateway.Ring.Queue
use secure_mavlink_gateway.Ring.Valid.{
  IsValid, size_cases, next_slot-cases, ring_buffer_push-IsValid,
}
use secure_mavlink_gateway.Ring.Refine.{
  contents, length-contents, ring_buffer_push_refines, bytes_from, bytes_from-first,
}

max-push : (rb : Ring) (x : ℕ) → (ring_buffer_push rb x).max ≡ rb.max
unfolding ring_buffer_push
max-push rb x = refl

-- A valid ring is empty when its queue is, and full when its queue has `max` bytes; its size is
-- that of the queue, and what is available makes up the rest, with no wrap-around.
pub observers_lem :
    {rb : Ring}
    → IsValid rb
    → (ring_buffer_is_empty rb ≡ (length (contents rb) == 0))
      × (ring_buffer_is_full rb ≡ (length (contents rb) == rb.max))
      × (ring_buffer_size rb ≡ length (contents rb))
      × (ring_buffer_available rb + length (contents rb) ≡ rb.max)
unfolding ring_buffer_is_empty ring_buffer_is_full ring_buffer_size ring_buffer_available
observers_lem {rb} v = (
  rw (length-contents rb) (ground arith),
  rw (length-contents rb) (ground arith),
  sym (length-contents rb),
  rw (length-contents rb) (ground (arith, size_cases v)),
)

module _ {rb : Ring} (v : IsValid rb) where
  size-take_tail :
      ring_buffer_is_empty rb ≡ false
      → (0 < ring_buffer_size rb)
        × (ring_buffer_size (take_tail rb) ≡ ring_buffer_size rb - 1)
        × ((take_tail rb).tail ≡ (rb.tail + 1) % rb.max)
  unfolding ring_buffer_is_empty ring_buffer_size take_tail
  size-take_tail h =
      (ground arith, ground (arith, next_slot-cases v rb.tail v.tail_in), ground arith)

  -- A ring that is not empty gives its oldest byte, and keeps the others.
  pub contents-take_tail :
      ring_buffer_is_empty rb ≡ false
      → contents rb ≡ get_or rb.buffer rb.tail 0 ∷ contents (take_tail rb)
  unfolding take_tail
  contents-take_tail h =
      bytes_from-first rb.max rb.buffer rb.tail (ring_buffer_size rb) v.tail_in (size-take_tail h).0
      ∙ ap₂ (λ (t n : ℕ). get_or rb.buffer rb.tail 0 ∷ bytes_from rb.max rb.buffer t n)
          (sym (size-take_tail h).2) (sym (size-take_tail h).1)

  pub contents_of_empty : ring_buffer_is_empty rb ≡ true → contents rb ≡ []
  contents_of_empty h =
      ap (bytes_from rb.max rb.buffer rb.tail) (let e : ring_buffer_size rb ≡ 0 = zero_size h in e)
    where
      zero_size : ring_buffer_is_empty rb ≡ true → ring_buffer_size rb ≡ 0
      zero_size h = ground (arith, observers_lem v, length-contents rb)

pop_cases :
    (rb : Ring)
    → (ring_buffer_is_empty rb ≡ true → ring_buffer_pop rb ≡ (0, rb))
      × (ring_buffer_is_empty rb ≡ false
          → ring_buffer_pop rb ≡ (get_or rb.buffer rb.tail 0, take_tail rb))
unfolding ring_buffer_pop
pop_cases rb = (λ e. rw e, λ e. rw e)

-- On a valid ring, `ring_buffer_pop` returns what the queue's `pop` returns, and leaves its rest.
pub ring_buffer_pop_refines :
    {rb : Ring}
    → IsValid rb
    → let (byte, rb') = ring_buffer_pop rb in (byte, contents rb') ≡ Queue.pop (contents rb)
unfolding Queue.pop
ring_buffer_pop_refines {rb} v = elim (Bool-cases (ring_buffer_is_empty rb)) [
  | inl e ↦ rw ((pop_cases rb).0 e, contents_of_empty v e)
  | inr e ↦ rw ((pop_cases rb).1 e, contents-take_tail v e)
]

-- On a valid ring, `ring_buffer_pop` returns what the queue's `pop` returns, and leaves its rest; the four
-- observers are those of the queue, and the available room and the size make up `max`.
pub reads_refine :
    {rb : Ring}
    → IsValid rb
    → (let (byte, rb') = ring_buffer_pop rb in (byte, contents rb') ≡ Queue.pop (contents rb))
      × (ring_buffer_is_empty rb ≡ (length (contents rb) == 0))
      × (ring_buffer_is_full rb ≡ (length (contents rb) == rb.max))
      × (ring_buffer_size rb ≡ length (contents rb))
      × (ring_buffer_available rb + length (contents rb) ≡ rb.max)
reads_refine v =
    let (empty, full, size, available) = observers_lem v in
    (ring_buffer_pop_refines v, empty, full, size, available)

-- The loop of `ring_buffer_copy_from`.
copy_from_loop_refines :
    (bytes : List ℕ) {rb : Ring}
    → IsValid rb
    → (contents (copy_from_loop rb bytes) ≡ Queue.push_all rb.max (contents rb) bytes)
      × IsValid (copy_from_loop rb bytes)
unfolding copy_from_loop Queue.push_all
copy_from_loop_refines [] v = (refl, v)
copy_from_loop_refines (x ∷ xs) {rb} v =
    let (same, valid) = copy_from_loop_refines xs (ring_buffer_push-IsValid x v) in
    (
      same
          ∙ ap₂ (λ (m : ℕ) (q : List ℕ). Queue.push_all m q xs) (max-push rb x)
              (ring_buffer_push_refines x v),
      valid,
    )

-- On a valid ring and at least one byte, `ring_buffer_copy_from` leaves a valid ring with the last
-- `max` bytes of the queue followed by what was copied: all of them if they fit, and else without
-- the oldest. On no bytes it fails its assertion.
pub ring_buffer_copy_from_lem :
    {rb : Ring} (bytes : List ℕ)
    → IsValid rb
    → 0 < length bytes
    → (rb' : Ring) × (ring_buffer_copy_from rb bytes ≡ done rb')
      × (contents rb' ≡ drop (length (contents rb) + length bytes - rb.max) (contents rb ++ bytes))
      × IsValid rb'
      × (ring_buffer_copy_from rb [] ≡ assert_failed)
unfolding ring_buffer_copy_from
ring_buffer_copy_from_lem {rb} bytes v some =
    let (same, valid) = copy_from_loop_refines bytes v in
    (
      copy_from_loop rb bytes,
      rw (lt→ltb 0 (length bytes) some),
      same
          ∙ Queue.push_all-drop rb.max (contents rb) bytes v.some_room
              (omega (arith, length-contents rb, size_cases v)),
      valid,
      refl,
    )
