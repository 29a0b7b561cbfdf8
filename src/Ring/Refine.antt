-- ===== src/Ring/Refine.antt =====
-- A valid ring as the queue of the bytes that it holds, oldest first (lib/ring_buffer.h).
use native.Mathlib.Nat.{mod-eq_of_lt, mod-add-mod, mod-mod, div-add-mod, mul-le-mul_left}
use secure_mavlink_gateway.Prelude.{
  ℕ, zero, suc, ◌+◌, ◌-◌, ◌*◌, ◌/◌, ◌%◌, ◌≤◌, ◌<◌, ◌≡◌, refl, ◌≢◌, ◌∙◌, ap, ap₂, sym, true, false,
  List, [], ◌∷◌, ◌++◌, length, drop, arith, get_or, set, get_or-set_self, get_or-set_ne, dec_le,
  Bool-cases, inl, inr,
}
use secure_mavlink_gateway.Ring.{Ring, ring_buffer_push, ring_buffer_size}
use secure_mavlink_gateway.Ring.Queue
use secure_mavlink_gateway.Ring.Valid.{IsValid, size_cases, head_lem, next_slot-cases}

-- Two multiples of `m` are not `d` apart for `d` between 0 and `m`.
multiples : (m a b d : ℕ) → m * b ≡ m * a + d → 0 < d → d < m → ⊥
multiples m a b d e pos small = elim (dec_le b a) [
  | yes le ↦ omega (arith, mul-le-mul_left m le)
  | no gt ↦ omega (arith, mul-le-mul_left m (let h : suc a ≤ b = omega arith in h))
]

-- Fewer than `m` slots apart are different slots.
slot_ne : (m t k n : ℕ) → k < n → n < k + m → (t + k) % m ≢ (t + n) % m
slot_ne m t k n lt near e =
    multiples m ((t + k) / m) ((t + n) / m) (n - k)
      (omega (arith, div-add-mod (t + k) m, div-add-mod (t + n) m)) (omega arith) (omega arith)

module _ (m : ℕ) where
  -- The `n` bytes from slot `t` on, going round at `m`.
  abbrev pub bytes_from : List ℕ → ℕ → ℕ → List ℕ
  bytes_from buf t zero = []
  bytes_from buf t (suc n) = get_or buf (t % m) 0 ∷ bytes_from buf (t + 1) n

  pub length-bytes_from : (buf : List ℕ) (t n : ℕ) → length (bytes_from buf t n) ≡ n
  length-bytes_from buf t zero = refl
  length-bytes_from buf t (suc n) = ap suc (length-bytes_from buf (t + 1) n)

  pub bytes_from-mod : (buf : List ℕ) (t n : ℕ) → bytes_from buf (t % m) n ≡ bytes_from buf t n
  bytes_from-mod buf t zero = refl
  bytes_from-mod buf t (suc n) =
      ap₂ (λ (a : ℕ) (b : List ℕ). get_or buf a 0 ∷ b) (mod-mod t m)
        (sym (bytes_from-mod buf (t % m + 1) n)
          ∙ ap (λ (a : ℕ). bytes_from buf a n) (mod-add-mod t m 1)
          ∙ bytes_from-mod buf (t + 1) n)

  bytes_from-last :
      (buf : List ℕ) (t n : ℕ)
      → bytes_from buf t (suc n) ≡ bytes_from buf t n ++ get_or buf ((t + n) % m) 0 ∷ []
  bytes_from-last buf t zero = ap (λ (a : ℕ). get_or buf (a % m) 0 ∷ []) (omega arith)
  bytes_from-last buf t (suc n) = ap (◌∷◌ (get_or buf (t % m) 0)) (
      bytes_from-last buf (t + 1) n
      ∙ ap (λ (a : ℕ). bytes_from buf (t + 1) n ++ get_or buf (a % m) 0 ∷ []) (omega arith))

  bytes_from-set :
      (buf : List ℕ) (i x t n : ℕ)
      → ((k : ℕ) → k < n → (t + k) % m ≢ i)
      → bytes_from (set buf i x) t n ≡ bytes_from buf t n
  bytes_from-set buf i x t zero h = refl
  bytes_from-set buf i x t (suc n) h =
      ap₂ ◌∷◌
        (get_or-set_ne buf i (t % m) x 0
          (λ e. h 0 (omega arith) (ap (λ (a : ℕ). a % m) (omega arith) ∙ sym e)))
        (bytes_from-set buf i x (t + 1) n
          (λ k lt e. h (suc k) (omega arith) (ap (λ (a : ℕ). a % m) (omega arith) ∙ e)))

-- The bytes that the ring holds, oldest first.
abbrev pub contents : Ring → List ℕ
contents rb = bytes_from rb.max rb.buffer rb.tail (ring_buffer_size rb)

pub length-contents : (rb : Ring) → length (contents rb) ≡ ring_buffer_size rb
length-contents rb = length-bytes_from rb.max rb.buffer rb.tail (ring_buffer_size rb)

module _ (m : ℕ) (buf : List ℕ) where
  -- A write just past `n` bytes adds that byte to them.
  pub bytes_from-write :
      (t n i x : ℕ)
      → n < m
      → i < length buf
      → i ≡ (t + n) % m
      → bytes_from m (set buf i x) t (suc n) ≡ bytes_from m buf t n ++ x ∷ []
  bytes_from-write t n i x room inside e =
      bytes_from-last m (set buf i x) t n
      ∙ ap₂ (λ (a : List ℕ) (b : ℕ). a ++ b ∷ [])
          (bytes_from-set m buf i x t n (λ k lt q. slot_ne m t k n lt (omega arith) (q ∙ e)))
          (ap (λ (a : ℕ). get_or (set buf i x) a 0) (sym e) ∙ get_or-set_self buf i x 0 inside)

  drop-bytes_from : (t n : ℕ) → drop 1 (bytes_from m buf t n) ≡ bytes_from m buf (t + 1) (n - 1)
  drop-bytes_from t zero = refl
  drop-bytes_from t (suc n) = ap (bytes_from m buf (t + 1)) (omega arith)

  -- The oldest byte is read at the tail.
  pub bytes_from-first :
      (t n : ℕ)
      → t < m
      → 0 < n
      → bytes_from m buf t n ≡ get_or buf t 0 ∷ bytes_from m buf ((t + 1) % m) (n - 1)
  bytes_from-first t zero lt h = absurd (omega arith)
  bytes_from-first t (suc n) lt h =
      ap₂ (λ (a : ℕ) (b : List ℕ). get_or buf a 0 ∷ b) (mod-eq_of_lt lt)
        (sym (bytes_from-mod m buf (t + 1) n) ∙ ap (bytes_from m buf ((t + 1) % m)) (omega arith))

-- The size after a push, and the place of the tail.
size-push_full :
    {rb : Ring} (x : ℕ)
    → IsValid rb
    → rb.full ≡ true
    → (ring_buffer_size (ring_buffer_push rb x) ≡ rb.max)
      × ((ring_buffer_push rb x).tail ≡ (rb.tail + 1) % rb.max)
unfolding ring_buffer_size ring_buffer_push
size-push_full x v f = (ground arith, ground arith)

size-push_room :
    {rb : Ring} (x : ℕ)
    → IsValid rb
    → rb.full ≡ false
    → (ring_buffer_size (ring_buffer_push rb x) ≡ suc (ring_buffer_size rb))
      × ((ring_buffer_push rb x).tail ≡ rb.tail)
unfolding ring_buffer_size ring_buffer_push
size-push_room {rb} x v f = (ground (arith, next_slot-cases v rb.head v.head_in), ground arith)

module _ {rb : Ring} (x : ℕ) (v : IsValid rb) where
  open rb use {buffer, head, tail, max}

  push_refines_full :
      rb.full ≡ true → contents (ring_buffer_push rb x) ≡ Queue.push max (contents rb) x
  unfolding ring_buffer_push
  push_refines_full f =
      rw
        (
          (size-push_full x v f).0,
          (size-push_full x v f).1,
          Queue.push-full max (contents rb) x (length-contents rb ∙ (size_cases v).1 f),
          drop-bytes_from max buffer tail (ring_buffer_size rb),
          (size_cases v).1 f,
          bytes_from-mod max (set buffer head x) (tail + 1) max,
        )
        (ap (bytes_from max (set buffer head x) (tail + 1))
            (let e : max ≡ suc (max - 1) = omega arith in e)
          ∙ bytes_from-write max buffer (tail + 1) (max - 1) head x (omega arith) (omega arith)
              round)
    where
      round : head ≡ (tail + 1 + (max - 1)) % max
      round = head_lem v ∙ ap (λ (a : ℕ). a % max) (omega (arith, (size_cases v).1 f))

  push_refines_room :
      rb.full ≡ false → contents (ring_buffer_push rb x) ≡ Queue.push max (contents rb) x
  unfolding ring_buffer_push
  push_refines_room f =
      rw
        (
          (size-push_room x v f).0,
          (size-push_room x v f).1,
          Queue.push-room max (contents rb) x
              (λ e. omega (arith, length-contents rb, (size_cases v).2 f)),
        )
        (bytes_from-write max buffer tail (ring_buffer_size rb) head x ((size_cases v).2 f)
          (omega arith) (head_lem v))

-- On a valid ring, `ring_buffer_push` adds its byte at the end of the queue, which loses its oldest
-- byte if it was full.
pub ring_buffer_push_refines :
    {rb : Ring} (x : ℕ)
    → IsValid rb
    → contents (ring_buffer_push rb x) ≡ Queue.push rb.max (contents rb) x
ring_buffer_push_refines {rb} x v = elim (Bool-cases rb.full) [
  | inl f ↦ push_refines_full x v f
  | inr f ↦ push_refines_room x v f
]
