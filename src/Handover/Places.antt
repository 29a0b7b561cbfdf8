-- ===== src/Handover/Places.antt =====
-- The sizes of the buffer by where the receiving thread stands.
use secure_mavlink_gateway.Prelude.{
  ℕ, zero, suc, ◌+◌, ◌<◌, ◌≤◌, ◌≡◌, refl, sym, ap, ap₂, ◌∙◌, subst, Bool, true, false, List, [],
  ◌∷◌, ◌++◌, length, take, drop, get_or, leb, arith, Bool-cases, inl, inr,
}
use secure_mavlink_gateway.Handover.{
  Buffer, Place, top, testing, asleep, woken, ended, locking, resizing, holds_lock, unread,
  has_pending, read_locked, wait_test, signal,
}

-- The sizes, by where the thread stands.
abbrev pub Fits : Place → Buffer → Type 0
Fits top b = b.buffer_size ≤ b.cur_read
Fits ended b = b.buffer_size ≤ b.cur_read
Fits (locking n) b = (0 < n) × (n ≤ length b.bytes) × (b.buffer_size ≤ b.cur_read)
Fits (resizing n) b = (0 < n) × (n ≤ length b.bytes) × (b.cur_read ≡ 0)
Fits testing b = b.buffer_size ≤ length b.bytes
Fits asleep b = b.buffer_size ≤ length b.bytes
Fits woken b = b.buffer_size ≤ length b.bytes

abbrev pub rest_of : Buffer → List ℕ
rest_of b = drop b.cur_read (take b.buffer_size b.bytes)

-- The bytes that were received and not read yet.
abbrev pub pending : Place → Buffer → List ℕ
pending top b = []
pending ended b = []
pending (locking n) b = take n b.bytes
pending (resizing n) b = take n b.bytes
pending testing b = rest_of b
pending asleep b = rest_of b
pending woken b = rest_of b

-- Where the thread can be while the gateway is about to read.
abbrev pub Readable : Place → Buffer → Type 0
Readable top b = ⊥
Readable ended b = ⊥
Readable (locking n) b = ⊥
Readable (resizing n) b = Unit
Readable testing b = b.cur_read < b.buffer_size
Readable asleep b = b.cur_read < b.buffer_size
Readable woken b = b.cur_read < b.buffer_size

pub take-length_append : (xs ys : List ℕ) → take (length xs) (xs ++ ys) ≡ xs
take-length_append [] ys = refl
take-length_append (x ∷ xs) ys = ap (λ r. x ∷ r) (take-length_append xs ys)

pub drop-take_all : (n c : ℕ) (xs : List ℕ) → n ≤ c → drop c (take n xs) ≡ []
drop-take_all zero zero xs h = refl
drop-take_all zero (suc c) xs h = refl
drop-take_all (suc n) zero xs h = absurd (omega arith)
drop-take_all (suc n) (suc c) [] h = refl
drop-take_all (suc n) (suc c) (x ∷ xs) h = drop-take_all n c xs (omega arith)

pub drop-take_next :
    (n c : ℕ) (xs : List ℕ)
    → c < n
    → n ≤ length xs
    → drop c (take n xs) ≡ get_or xs c 0 ∷ drop (suc c) (take n xs)
drop-take_next zero c xs h k = absurd (omega arith)
drop-take_next (suc n) c [] h k = absurd (omega arith)
drop-take_next (suc n) zero (x ∷ xs) h k = refl
drop-take_next (suc n) (suc c) (x ∷ xs) h k = drop-take_next n c xs (omega arith) (omega arith)

-- The test of the inner loop.
pub wait_test-Fits :
    (b : Buffer)
    → b.buffer_size ≤ length b.bytes
    → Fits (wait_test b) b
      × (pending (wait_test b) b ≡ rest_of b)
      × (b.cur_read < b.buffer_size → Readable (wait_test b) b)
unfolding wait_test
wait_test-Fits b v = elim (Bool-cases (unread b)) [
  | inl left ↦ rw left (v, refl, λ lt. lt)
  | inr all ↦
      let over : b.buffer_size ≤ b.cur_read = ground arith in
      rw all (
        over,
        sym (drop-take_all b.buffer_size b.cur_read b.bytes over),
        λ lt. absurd (omega arith),
      )
]

pub signal-Fits :
    (p : Place) (b : Buffer) → Fits p b → Fits (signal p) b × (pending (signal p) b ≡ pending p b)
unfolding signal
signal-Fits top b v = (v, refl)
signal-Fits ended b v = (v, refl)
signal-Fits (locking n) b v = (v, refl)
signal-Fits (resizing n) b v = (v, refl)
signal-Fits testing b v = (v, refl)
signal-Fits asleep b v = (v, refl)
signal-Fits woken b v = (v, refl)

-- What `has_more` sees without the lock is there.
pub has_pending-Readable : (p : Place) (b : Buffer) → Fits p b → has_pending b ≡ true → Readable p b
unfolding has_pending
has_pending-Readable top b v h = absurd (ground arith)
has_pending-Readable ended b v h = absurd (ground arith)
has_pending-Readable (locking n) b v h = absurd (ground arith)
has_pending-Readable (resizing n) b v h = tt
has_pending-Readable testing b v h = ground arith
has_pending-Readable asleep b v h = ground arith
has_pending-Readable woken b v h = ground arith

-- A read of a byte that is there.
read_next :
    (b b' : Buffer) (byte : ℕ) (empty : Bool)
    → b.buffer_size ≤ length b.bytes
    → b.cur_read < b.buffer_size
    → read_locked b ≡ (byte, b', empty)
    → (empty ≡ false) × (b'.buffer_size ≤ length b'.bytes) × (rest_of b ≡ byte ∷ rest_of b')
unfolding read_locked
read_next b b' byte empty v r h =
    let there : leb b.buffer_size b.cur_read ≡ false = ground arith in
    let b₁ : Buffer = record b { cur_read = b.cur_read + 1 } in
    let known : read_locked b ≡ (get_or b.bytes b.cur_read 0, b₁, false) = rw there refl in
    let both = sym known ∙ h in
    let new : b₁ ≡ b' = ap (λ p. p.1) both in
    (
      sym (ap (λ p. p.2) both),
      subst (λ (c : Buffer). c.buffer_size ≤ length c.bytes) new v,
      drop-take_next b.buffer_size b.cur_read b.bytes r v
          ∙ ap (λ (n : ℕ). get_or b.bytes b.cur_read 0 ∷ drop n (take b.buffer_size b.bytes))
              {x = suc b.cur_read} {y = b.cur_read + 1} (omega arith)
          ∙ ap₂ (λ (x : ℕ) (c : Buffer). x ∷ rest_of c) (ap (λ p. p.0) both) new,
    )

-- With the lock free, the read takes the next byte, and the thread stays where it is.
pub read_locked-Fits :
    (p : Place) (b b' : Buffer) (byte : ℕ) (empty : Bool)
    → Fits p b
    → Readable p b
    → holds_lock p ≡ false
    → read_locked b ≡ (byte, b', empty)
    → (empty ≡ false) × Fits p b' × (pending p b ≡ byte ∷ pending p b')
read_locked-Fits top b b' byte empty v r free h = absurd r
read_locked-Fits ended b b' byte empty v r free h = absurd r
read_locked-Fits (locking n) b b' byte empty v r free h = absurd r
read_locked-Fits (resizing n) b b' byte empty v r free h = cc
read_locked-Fits testing b b' byte empty v r free h = cc
read_locked-Fits asleep b b' byte empty v r free h = read_next b b' byte empty v r h
read_locked-Fits woken b b' byte empty v r free h = read_next b b' byte empty v r h
