-- ===== src/Ring/Copies.antt =====
-- Bytes that are copied into the ring of lib/ring_buffer.h and out of it.
use secure_mavlink_gateway.Prelude.{
  ℕ, zero, suc, ◌+◌, ◌-◌, ◌<◌, ◌≡◌, refl, ◌∙◌, ap, ap₂, List, [], ◌∷◌, ◌++◌, length, drop, take,
  arith, get_or, set, Bool-cases, inl, inr, lt→ltb,
}
use secure_mavlink_gateway.Outcome.{done, assert_failed, Ensures, ◌>>=◌}
use secure_mavlink_gateway.Ring.{
  Ring, ring_buffer_is_empty, ring_buffer_copy_from, ring_buffer_copy_to, copy_to_loop,
}
use secure_mavlink_gateway.Ring.Valid.{IsValid, take_tail-IsValid}
use secure_mavlink_gateway.Ring.Refine.{contents}
use secure_mavlink_gateway.Ring.Transfer.{
  contents_of_empty, contents-take_tail, ring_buffer_copy_from_lem,
}

-- The buffer with the bytes stored from index `i` on.
unfoldable pub store_all : List ℕ → ℕ → List ℕ → List ℕ
store_all buffer i [] = buffer
store_all buffer i (x ∷ xs) = store_all (set buffer i x) (i + 1) xs

-- The loop of `ring_buffer_copy_to`.
copy_to_loop_lem :
    (n i : ℕ) {rb : Ring} (buffer : List ℕ)
    → IsValid rb
    → let (count, rb', buffer') = copy_to_loop n i rb buffer in
      (count ≡ i + length (take n (contents rb)))
      × (contents rb' ≡ drop n (contents rb))
      × (buffer' ≡ store_all buffer i (take n (contents rb)))
      × IsValid rb'
unfolding copy_to_loop store_all
copy_to_loop_lem zero i buffer v = (omega arith, refl, refl, v)
copy_to_loop_lem (suc n) i {rb} buffer v = elim (Bool-cases (ring_buffer_is_empty rb)) [
  | inl e ↦ rw (e, contents_of_empty v e) (omega arith, refl, refl, v)
  | inr e ↦
      let ih =
        copy_to_loop_lem n (i + 1) (set buffer i (get_or rb.buffer rb.tail 0))
          (take_tail-IsValid v) in
      rw (e, contents-take_tail v e) (omega (arith, ih.0), ih.1, ih.2, ih.3)
]

-- On a valid ring and a size of at least 1, `ring_buffer_copy_to` moves the oldest bytes, at most
-- `size`, to the front of the buffer, in order, returns their number and leaves the others in the
-- ring. At size 0 it fails its assertion.
ring_buffer_copy_to_lem :
    {rb : Ring} (buffer : List ℕ) (size : ℕ)
    → IsValid rb
    → 0 < size
    → (rb' : Ring) × (ring_buffer_copy_to rb buffer size
        ≡ done
            (length (take size (contents rb)), rb', store_all buffer 0 (take size (contents rb))))
      × (contents rb' ≡ drop size (contents rb))
      × IsValid rb'
      × (ring_buffer_copy_to rb buffer 0 ≡ assert_failed)
unfolding ring_buffer_copy_to
ring_buffer_copy_to_lem {rb} buffer size v some =
    let (count, rest, stored, valid) = copy_to_loop_lem size 0 buffer v in
    (
      (copy_to_loop size 0 rb buffer).1,
      rw (lt→ltb 0 size some) (
          ap₂ (λ (c : ℕ) (b : List ℕ). done (c, (copy_to_loop size 0 rb buffer).1, b))
            (let c : (copy_to_loop size 0 rb buffer).0 ≡ length (take size (contents rb)) =
                omega (arith, count) in
              c)
            stored),
      rest,
      valid,
      refl,
    )

-- On a valid ring, when at least one byte is copied in and then out to a buffer of at least one: the buffer
-- gets the oldest bytes, at most `size`, of the last `max` of those that waited and those copied in, in
-- order, and the ring keeps the others. A copy of no bytes fails its assertion, in and out.
pub copy_to-copy_from :
    {rb : Ring} (bytes buffer : List ℕ) (size : ℕ)
    → IsValid rb
    → 0 < length bytes
    → 0 < size
    → let queue = drop (length (contents rb) + length bytes - rb.max) (contents rb ++ bytes) in
      Ensures
        (ring_buffer_copy_from rb bytes >>= λ rb'. ring_buffer_copy_to rb' buffer size)
        (λ (count, rest, stored).
          (count ≡ length (take size queue))
          × (contents rest ≡ drop size queue)
          × (stored ≡ store_all buffer 0 (take size queue))
          × IsValid rest)
      × (ring_buffer_copy_from rb [] ≡ assert_failed)
      × (ring_buffer_copy_to rb buffer 0 ≡ assert_failed)
copy_to-copy_from {rb} bytes buffer size v some room =
    let (rb', copied_in, same, valid, none_in) = ring_buffer_copy_from_lem bytes v some in
    let (rest, copied_out, left, valid', _) = ring_buffer_copy_to_lem buffer size valid room in
    let (_, _, _, _, none_out) = ring_buffer_copy_to_lem buffer size v room in
    (
      (
        _,
        ap (λ o. o >>= λ r. ring_buffer_copy_to r buffer size) copied_in ∙ copied_out,
        (
          ap (λ (q : List ℕ). length (take size q)) same,
          left ∙ ap (λ (q : List ℕ). drop size q) same,
          ap (λ (q : List ℕ). store_all buffer 0 (take size q)) same,
          valid',
        ),
      ),
      none_in,
      none_out,
    )
