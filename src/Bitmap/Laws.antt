-- ===== src/Bitmap/Laws.antt =====
-- The bits of a bitmap after each of its operations, and what `bitmap_test` sees of them.
use secure_mavlink_gateway.Prelude.{
  ℕ, zero, suc, ◌-◌, ◌*◌, ◌/◌, ◌%◌, ◌^◌, ◌≤◌, ◌<◌, ◌≡◌, refl, ◌∙◌, ◌≢◌, ap, false, not, ◌&&◌, ◌||◌,
  arith, get_or, length, get_or-set_self, get_or-set_ne, truthy, ◌==◌, if◌then◌else◌, ℕ_discrete,
  dec_le, bit_and, length-set, replicate, bit_or, bit_xor,
}
use native.Mathlib.Nat.{pow-suc, one-le-pow}
use secure_mavlink_gateway.Prelude.Bits.{
  bit, bit-lt, bit-zero, bit-bit_or, bit-bit_and, bit-bit_xor, bit-pow_self, bit-pow_ne, all_but,
  bit-all_but_self, bit-all_but_ne, bit_and-pow, pow_lt,
}
use secure_mavlink_gateway.Bitmap.{
  Bitmap, word_count, word_of, put_word, bitmap_clear, bitmap_set, bitmap_unset, bitmap_toggle,
  bitmap_test, bit_of,
}

-- Every word of the array is there.
abbrev pub IsWhole : Bitmap → Type 0
IsWhole b = length b.words ≡ word_count

-- Bit `i` of the bitmap.
abbrev pub bit_at : Bitmap → ℕ → ℕ
bit_at b i = bit (word_of b i) (i % 64)

-- The bits that `bitmap_test` can show: those in the low half of a word.
abbrev pub IsLow : ℕ → Type 0
IsLow i = (i < 128) × (i % 64 < 32)

low_mask-test : (d p : ℕ) → d < 2 → 0 < p → p < 2 ^ 32 → truthy (d * p % 2 ^ 32) ≡ (d == 1)
low_mask-test zero p h pos small = ground arith
low_mask-test (suc zero) p h pos small = ground arith
low_mask-test (suc (suc d)) p h pos small = absurd (omega arith)

pow_high : (k : ℕ) → 32 ≤ k → 2 ^ k % 2 ^ 32 ≡ 0
pow_high zero h = absurd (omega arith)
pow_high (suc k) h = elim (dec_le 32 k) [
  | yes more ↦ omega (arith, pow-suc 2 k, pow_high k more)
  | no last ↦ ap (λ (t : ℕ). 2 ^ suc t % 2 ^ 32) (let e : k ≡ 31 = omega arith in e)
]

high_mask : (d p : ℕ) → d < 2 → p % 2 ^ 32 ≡ 0 → d * p % 2 ^ 32 ≡ 0
high_mask zero p h e = omega arith
high_mask (suc zero) p h e = omega arith
high_mask (suc (suc d)) p h e = absurd (omega arith)

-- A bit in the low half of its word survives the cast to `int`.
pub bitmap_test_low :
    (b : Bitmap) (i : ℕ) → i % 64 < 32 → truthy (bitmap_test b i) ≡ (bit_at b i == 1)
unfolding bitmap_test
bitmap_test_low b i h = rw (bit_and-pow (word_of b i) (i % 64)) (
    low_mask-test (bit_at b i) (2 ^ (i % 64)) (omega arith) (one-le-pow (i % 64) 2 (omega arith))
      (pow_lt (i % 64) 32 h))

-- `bitmap_test` is 0 at every index whose bit lies in the high half of its word, whatever the
-- bitmap holds.
bitmap_test_high : (b : Bitmap) (i : ℕ) → 32 ≤ i % 64 → bitmap_test b i ≡ 0
unfolding bitmap_test
bitmap_test_high b i h =
    rw (bit_and-pow (word_of b i) (i % 64))
      (high_mask (bit_at b i) (2 ^ (i % 64)) (omega arith) (pow_high (i % 64) h))

-- The bit of a word that was put back.
module _ (b : Bitmap) (i j w : ℕ) (whole : IsWhole b) where
  word_of-put_word_same : i / 64 ≡ j / 64 → i < 128 → word_of (put_word b i w) j ≡ w
  word_of-put_word_same e h = rw (← e) (get_or-set_self b.words (i / 64) w 0 (omega arith))

  word_of-put_word_ne : i / 64 ≢ j / 64 → word_of (put_word b i w) j ≡ word_of b j
  word_of-put_word_ne ne = get_or-set_ne b.words (i / 64) (j / 64) w 0 ne

  -- In the word of `i` the new word counts, elsewhere the old one.
  pub bit_at-put_word :
      i < 128
      → bit_at (put_word b i w) j ≡ (if i / 64 == j / 64 then bit w (j % 64) else bit_at b j)
  bit_at-put_word h = elim (ℕ_discrete (i / 64) (j / 64)) [
    | yes e ↦ ground (arith, ap (λ (t : ℕ). bit t (j % 64)) (word_of-put_word_same e h))
    | no ne ↦ ground (arith, ap (λ (t : ℕ). bit t (j % 64)) (word_of-put_word_ne ne))
  ]

module _ (b : Bitmap) (i j : ℕ) (whole : IsWhole b) (hi : i < 128) where
  -- Bit `j` after a word was put back whose bits are those of `d` at the place of `i`, and the old
  -- ones elsewhere.
  bit_at-put :
      (w d : ℕ)
      → (i % 64 ≡ j % 64 → bit w (j % 64) ≡ d)
      → (i % 64 ≢ j % 64 → bit w (j % 64) ≡ bit (word_of b i) (j % 64))
      → bit_at (put_word b i w) j ≡ (if i == j then d else bit_at b j)
  bit_at-put w d same other = elim (ℕ_discrete (i % 64) (j % 64)) [
    | yes e ↦ ground (arith, bit_at-put_word b i j w whole hi, same e)
    | no ne ↦ elim (ℕ_discrete (i / 64) (j / 64)) [
      | yes e ↦ ground (
        arith,
        bit_at-put_word b i j w whole hi,
        other ne,
        ap (λ (t : ℕ). bit (get_or b.words t 0) (j % 64)) e,
      )
      | no _ ↦ ground (arith, bit_at-put_word b i j w whole hi)
    ]
  ]

  pub bit_at-bitmap_set : bit_at (bitmap_set b i) j ≡ (if i == j then 1 else bit_at b j)
  unfolding bitmap_set
  bit_at-bitmap_set =
      bit_at-put (bit_or (word_of b i) (bit_of i)) 1
        (λ e.
          rw (← e)
            (omega (arith, bit-bit_or (word_of b i) (bit_of i) (i % 64), bit-pow_self (i % 64))))
        (λ ne.
          omega
            (arith, bit-bit_or (word_of b i) (bit_of i) (j % 64), bit-pow_ne (i % 64) (j % 64) ne))

  pub bit_at-bitmap_unset : bit_at (bitmap_unset b i) j ≡ (if i == j then 0 else bit_at b j)
  unfolding bitmap_unset
  bit_at-bitmap_unset =
      bit_at-put (bit_and (word_of b i) (all_but 64 (i % 64))) 0
        (λ e. rw (← e) (
          omega (
            arith,
            bit-bit_and (word_of b i) (all_but 64 (i % 64)) (i % 64),
            bit-all_but_self 64 (i % 64) (omega arith),
          )))
        (λ ne. omega (
          arith,
          bit-bit_and (word_of b i) (all_but 64 (i % 64)) (j % 64),
          bit-all_but_ne 64 (i % 64) (j % 64) (omega arith) (omega arith) ne,
        ))

  pub bit_at-bitmap_toggle :
      bit_at (bitmap_toggle b i) j ≡ (if i == j then 1 - bit_at b i else bit_at b j)
  unfolding bitmap_toggle
  bit_at-bitmap_toggle =
      bit_at-put (bit_xor (word_of b i) (bit_of i)) (1 - bit_at b i)
        (λ e.
          rw (← e)
            (omega (arith, bit-bit_xor (word_of b i) (bit_of i) (i % 64), bit-pow_self (i % 64))))
        (λ ne.
          omega
            (arith, bit-bit_xor (word_of b i) (bit_of i) (j % 64), bit-pow_ne (i % 64) (j % 64) ne))

get_or-zeros : (n m : ℕ) → ◌≡◌ {A = ℕ} (get_or (replicate n 0) m 0) 0
get_or-zeros zero m = refl
get_or-zeros (suc n) zero = refl
get_or-zeros (suc n) (suc m) = get_or-zeros n m

pub bit_at-bitmap_clear : (b : Bitmap) (j : ℕ) → bit_at (bitmap_clear b) j ≡ 0
unfolding bitmap_clear
bit_at-bitmap_clear b j =
    ap (λ (t : ℕ). bit t (j % 64)) (get_or-zeros word_count (j / 64)) ∙ bit-zero (j % 64)

bit_at-lt : (b : Bitmap) (i : ℕ) → bit_at b i < 2
bit_at-lt b i = bit-lt (word_of b i) (i % 64)

bitmap_test-toggle :
    (b : Bitmap) (i j : ℕ)
    → IsWhole b
    → i < 128
    → j % 64 < 32
    → truthy (bitmap_test (bitmap_toggle b i) j)
      ≡ (if i == j then not (truthy (bitmap_test b j)) else truthy (bitmap_test b j))
bitmap_test-toggle b i j whole hi low =
    rw
      (
        bitmap_test_low (bitmap_toggle b i) j low,
        bitmap_test_low b j low,
        bit_at-bitmap_toggle b i j whole hi,
      )
      (elim (ℕ_discrete i j) [
        | yes e ↦ ground (arith, bit_at-lt b i, ap (bit_at b) e)
        | no ne ↦ ground arith
      ])

-- What `bitmap_test` shows after each operation at index `i` of a bitmap of whole words, at every
-- index `j` whose bit lies in the low half of its word: after `bitmap_set` the bit `i` is there
-- besides those from before, after `bitmap_unset` it is gone, after `bitmap_toggle` it has changed,
-- and after `bitmap_clear` none is there.
pub bitmap_test_after :
    (b : Bitmap) (i j : ℕ)
    → IsWhole b
    → i < 128
    → j % 64 < 32
    → (truthy (bitmap_test (bitmap_set b i) j) ≡ ((i == j) || truthy (bitmap_test b j)))
      × (truthy (bitmap_test (bitmap_unset b i) j) ≡ (not (i == j) && truthy (bitmap_test b j)))
      × (truthy (bitmap_test (bitmap_toggle b i) j)
          ≡ (if i == j then not (truthy (bitmap_test b j)) else truthy (bitmap_test b j)))
      × (truthy (bitmap_test (bitmap_clear b) j) ≡ false)
bitmap_test_after b i j whole hi low = (
  ground (
    arith,
    bitmap_test_low (bitmap_set b i) j low,
    bitmap_test_low b j low,
    bit_at-bitmap_set b i j whole hi,
  ),
  ground (
    arith,
    bitmap_test_low (bitmap_unset b i) j low,
    bitmap_test_low b j low,
    bit_at-bitmap_unset b i j whole hi,
  ),
  bitmap_test-toggle b i j whole hi low,
  ground (arith, bitmap_test_low (bitmap_clear b) j low, bit_at-bitmap_clear b j),
)

pub IsWhole-bitmap_set : (b : Bitmap) (i : ℕ) → IsWhole b → IsWhole (bitmap_set b i)
unfolding bitmap_set
IsWhole-bitmap_set b i h = length-set b.words (i / 64) _ ∙ h
