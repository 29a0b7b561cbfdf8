-- ===== src/Ring/Valid.antt =====
-- The representation invariant of the ring, and what it gives: no wrap and no access outside.
use secure_mavlink_gateway.Prelude.{
  ℕ, ◌+◌, ◌-◌, ◌%◌, ◌^◌, ◌≤◌, ◌<◌, ◌≡◌, true, false, length, length-set, arith, Bool-cases, inl,
  inr, ◌⊎◌, dec_lt, sym,
}
use native.Mathlib.Nat.{mod-eq_of_lt, mod_self}
use secure_mavlink_gateway.Ring.{
  Ring, next_slot, ring_buffer_push, ring_buffer_pop, ring_buffer_size, take_tail,
}

-- An object of C has fewer than 2 ^ 63 bytes.
pub record IsValid (rb : Ring) : Type 0 where
  pub some_room : 0 < rb.max
  pub inside : rb.max ≤ length rb.buffer
  pub small : rb.max < 2 ^ 63
  pub head_in : rb.head < rb.max
  pub tail_in : rb.tail < rb.max
  pub met : rb.full ≡ true → rb.head ≡ rb.tail

-- The size, with no wrap-around in it.
pub size_cases :
    {rb : Ring}
    → IsValid rb
    → (ring_buffer_size rb ≤ rb.max)
      × (rb.full ≡ true → ring_buffer_size rb ≡ rb.max)
      × (rb.full ≡ false → ring_buffer_size rb < rb.max)
      × (rb.full ≡ false → rb.tail ≤ rb.head → ring_buffer_size rb ≡ rb.head - rb.tail)
      × (rb.full ≡ false → rb.head < rb.tail → ring_buffer_size rb + rb.tail ≡ rb.max + rb.head)
unfolding ring_buffer_size
size_cases v = (ground arith, ground arith, ground arith, ground arith, ground arith)

mod_once : (h m s : ℕ) → h < m → s ≡ h + m → h ≡ s % m
mod_once h m s lt e = rw e (grind arith)

mod_none : (h m s : ℕ) → h < m → s ≡ h → h ≡ s % m
mod_none h m s lt e = rw e (sym (mod-eq_of_lt lt))

-- The head stands `size` slots after the tail.
pub head_lem : {rb : Ring} → IsValid rb → rb.head ≡ (rb.tail + ring_buffer_size rb) % rb.max
head_lem {rb} v = elim (Bool-cases rb.full) [
  | inl f ↦ mod_once rb.head rb.max _ v.head_in (omega (arith, (size_cases v).1 f, v.met f))
  | inr f ↦ elim (dec_lt rb.head rb.tail) [
    | yes below ↦ mod_once rb.head rb.max _ v.head_in (omega (arith, (size_cases v).4 f below))
    | no above ↦
        mod_none rb.head rb.max _ v.head_in (omega (arith, (size_cases v).3 f (omega arith)))
  ]
]

pub ring_buffer_push-IsValid : {rb : Ring} (x : ℕ) → IsValid rb → IsValid (ring_buffer_push rb x)
unfolding ring_buffer_push
ring_buffer_push-IsValid {rb} x v = ground (arith, length-set rb.buffer rb.head x)

pub take_tail-IsValid : {rb : Ring} → IsValid rb → IsValid (take_tail rb)
unfolding take_tail
take_tail-IsValid {rb} v = ground arith

pub ring_buffer_pop-IsValid : {rb : Ring} → IsValid rb → IsValid (ring_buffer_pop rb).1
unfolding ring_buffer_pop
ring_buffer_pop-IsValid {rb} v = ground arith

-- The next slot is one further, or the first.
pub next_slot-cases :
    {rb : Ring}
    → IsValid rb
    → (i : ℕ) → i < rb.max
    → ((next_slot rb i ≡ i + 1) × (i + 1 < rb.max)) ⊎ ((next_slot rb i ≡ 0) × (i + 1 ≡ rb.max))
next_slot-cases {rb} v i h = elim (dec_lt (i + 1) rb.max) [
  | yes more ↦
      inl (rw (mod-eq_of_lt (let e : i + 1 < 2 ^ 64 = omega arith in e)) (mod-eq_of_lt more), more)
  | no last ↦ inr (
    rw (mod-eq_of_lt (let e : i + 1 < 2 ^ 64 = omega arith in e))
        (rw (let e : i + 1 ≡ rb.max = omega arith in e) (mod_self rb.max)),
    omega arith,
  )
]
