-- ===== src/Ring/Tests.antt =====
-- Runs of the ring, and its theorems at a ring that goes round the end of its memory.
use secure_mavlink_gateway.Prelude.{◌+◌, ◌≡◌, refl, true, false, [], ◌∷◌, arith}
use secure_mavlink_gateway.Outcome.{done, assert_failed, Ensures, ◌>>=◌}
use secure_mavlink_gateway.Ring.{
  Ring, ring_buffer_is_empty, ring_buffer_is_full, ring_buffer_push, ring_buffer_pop,
  ring_buffer_size, ring_buffer_available, ring_buffer_copy_from, ring_buffer_copy_to,
}
use secure_mavlink_gateway.Ring.Queue
use secure_mavlink_gateway.Ring.Valid.{IsValid}
use secure_mavlink_gateway.Ring.Refine.{contents, ring_buffer_push_refines}
use secure_mavlink_gateway.Ring.Copies.{store_all, copy_to-copy_from}
use secure_mavlink_gateway.Ring.Transfer.{reads_refine}

-- 8, then 9, round the end of the memory.
abbrev wrapped : Ring
wrapped = record { buffer = 9 ∷ 7 ∷ 8 ∷ []; head = 1; tail = 2; max = 3; full = false }

wrapped-IsValid : IsValid wrapped
wrapped-IsValid = record {
  some_room = omega arith;
  inside = omega arith;
  small = omega arith;
  head_in = omega arith;
  tail_in = omega arith;
  met = λ e. cc;
}

push_fills :
    ring_buffer_push wrapped 4
    ≡ record { buffer = 9 ∷ 4 ∷ 8 ∷ []; head = 2; tail = 2; max = 3; full = true }
unfolding ring_buffer_push
push_fills = refl

-- Five bytes go into a ring of three: the last three stay.
copy_from_forgets :
    ring_buffer_copy_from wrapped (1 ∷ 2 ∷ 3 ∷ 4 ∷ 5 ∷ [])
    ≡ done (record { buffer = 3 ∷ 4 ∷ 5 ∷ []; head = 0; tail = 0; max = 3; full = true })
unfolding ring_buffer_copy_from ring_buffer_push
copy_from_forgets = refl

push_refines_example : contents (ring_buffer_push wrapped 4) ≡ Queue.push 3 (8 ∷ 9 ∷ []) 4
unfolding ring_buffer_size
push_refines_example = ring_buffer_push_refines 4 wrapped-IsValid

reads_refine_example :
    (let (byte, rb) = ring_buffer_pop wrapped in (byte, contents rb) ≡ Queue.pop (8 ∷ 9 ∷ []))
    × (ring_buffer_is_empty wrapped ≡ false)
    × (ring_buffer_is_full wrapped ≡ false)
    × (ring_buffer_size wrapped ≡ 2)
    × (ring_buffer_available wrapped + 2 ≡ 3)
unfolding ring_buffer_size
reads_refine_example = reads_refine wrapped-IsValid

-- 9, 4 and 5 are left of the four bytes, and 9 is copied out.
copy_to-copy_from_example :
    Ensures
      (ring_buffer_copy_from wrapped (4 ∷ 5 ∷ []) >>= λ rb. ring_buffer_copy_to rb (0 ∷ 0 ∷ []) 1)
      (λ (count, rest, stored).
        (count ≡ 1) × (contents rest ≡ 4 ∷ 5 ∷ []) × (stored ≡ 9 ∷ 0 ∷ []) × IsValid rest)
    × (ring_buffer_copy_from wrapped [] ≡ assert_failed)
    × (ring_buffer_copy_to wrapped (0 ∷ 0 ∷ []) 0 ≡ assert_failed)
unfolding ring_buffer_size store_all
copy_to-copy_from_example =
    copy_to-copy_from (4 ∷ 5 ∷ []) (0 ∷ 0 ∷ []) 1 wrapped-IsValid (omega arith) (omega arith)
