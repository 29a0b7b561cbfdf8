-- ===== src/Prelude/Bits.antt =====
-- Bits of a native number: bit `j` of `x` is `x / 2 ^ j % 2`, and the laws of `bit_and`, `bit_or`
-- and `bit_xor` one bit at a time.
use Prim.Native.Nat.{ℕ, zero, suc, ◌+◌, ◌-◌, ◌*◌, ◌/◌, ◌%◌, ◌^◌, ◌≤◌, ◌<◌, min, max}
use Prim.Native.Nat.{bit_and, bit_or, bit_xor, digits, bitwise, differ}
use Prim.Native.Nat.{bit_and-bitwise, bit_or-bitwise, bit_xor-bitwise}
use mathlib.Core.Path.{◌≡◌, refl, ap, ◌∙◌}
use mathlib.Core.Logic.{◌≢◌}
use native.Mathlib.Nat.{le_refl, pow-suc, pow-succ', div-div-eq-div-mul, one-le-pow}
use native.Mathlib.Omega.{arith}

-- `bitwise` hands its first number to `digits` as fuel: fuel beyond that number makes no difference.
module _ (zero_case : ℕ → ℕ) (on_digits : ℕ → ℕ → ℕ) where
  spare_fuel :
      (fuel more x y : ℕ)
      → x ≤ fuel
      → fuel ≤ more
      → digits zero_case on_digits more x y ≡ digits zero_case on_digits fuel x y
  spare_fuel fuel zero (suc x) y h k = absurd (omega arith)
  spare_fuel zero more (suc x) y h k = absurd (omega arith)
  spare_fuel zero zero zero y h k = refl
  spare_fuel zero (suc more) zero y h k = refl
  spare_fuel (suc fuel) zero zero y h k = refl
  spare_fuel (suc fuel) (suc more) zero y h k = refl
  spare_fuel (suc fuel) (suc more) (suc x) y h k =
      ap (λ (d : ℕ). d * 2 + on_digits (suc x % 2) (y % 2))
        (spare_fuel fuel more (suc x / 2) (y / 2) (omega arith) (omega arith))

  -- The last digit on its own.
  last_digit :
      (x y : ℕ)
      → bitwise zero_case on_digits (suc x) y
        ≡ on_digits (suc x % 2) (y % 2) + 2 * bitwise zero_case on_digits (suc x / 2) (y / 2)
  last_digit x y =
      omega (arith, spare_fuel (suc x / 2) x (suc x / 2) (y / 2) (omega arith) (omega arith))

pub bit_or_step : (x y : ℕ) → bit_or x y ≡ max (x % 2) (y % 2) + 2 * bit_or (x / 2) (y / 2)
bit_or_step zero y = simp bit_or-bitwise (omega arith)
bit_or_step (suc x) y = simp bit_or-bitwise (last_digit (λ n. n) max x y)

pub bit_and_step : (x y : ℕ) → bit_and x y ≡ min (x % 2) (y % 2) + 2 * bit_and (x / 2) (y / 2)
bit_and_step zero y = simp bit_and-bitwise (omega arith)
bit_and_step (suc x) y = simp bit_and-bitwise (last_digit (λ n. 0) min x y)

-- `differ` tells two digits apart.
differ_digits : (a b : ℕ) → a < 2 → b < 2 → differ a b ≡ (a + b) % 2
differ_digits zero b p q = omega arith
differ_digits (suc zero) zero p q = refl
differ_digits (suc zero) (suc zero) p q = refl
differ_digits (suc zero) (suc (suc b)) p q = absurd (omega arith)
differ_digits (suc (suc a)) b p q = absurd (omega arith)

pub bit_xor_step : (x y : ℕ) → bit_xor x y ≡ (x + y) % 2 + 2 * bit_xor (x / 2) (y / 2)
bit_xor_step zero y = simp bit_xor-bitwise (omega arith)
bit_xor_step (suc x) y = simp bit_xor-bitwise (
    last_digit (λ n. n) differ x y
    ∙ ap (λ (d : ℕ). d + 2 * bitwise (λ n. n) differ (suc x / 2) (y / 2))
        (differ_digits (suc x % 2) (y % 2) (omega arith) (omega arith) ∙ omega arith))

-- Bit `j` of `x`.
abbrev pub bit : ℕ → ℕ → ℕ
bit x j = x / 2 ^ j % 2

pub bit-suc : (x j : ℕ) → bit x (suc j) ≡ bit (x / 2) j
bit-suc x j = rw (pow-succ', ← div-div-eq-div-mul)

pub bit-lt : (x j : ℕ) → bit x j < 2
bit-lt x j = omega arith

pub bit-bit_or : (x y j : ℕ) → bit (bit_or x y) j ≡ max (bit x j) (bit y j)
bit-bit_or x y zero = omega (arith, bit_or_step x y)
bit-bit_or x y (suc j) = omega (
  arith,
  bit-suc (bit_or x y) j,
  bit-suc x j,
  bit-suc y j,
  bit-bit_or (x / 2) (y / 2) j,
  ap (λ (t : ℕ). bit t j) (half x y),
)
  where
    half : (x y : ℕ) → bit_or x y / 2 ≡ bit_or (x / 2) (y / 2)
    half x y = omega (arith, bit_or_step x y)

pub bit-bit_and : (x y j : ℕ) → bit (bit_and x y) j ≡ min (bit x j) (bit y j)
bit-bit_and x y zero = omega (arith, bit_and_step x y)
bit-bit_and x y (suc j) = omega (
  arith,
  bit-suc (bit_and x y) j,
  bit-suc x j,
  bit-suc y j,
  bit-bit_and (x / 2) (y / 2) j,
  ap (λ (t : ℕ). bit t j) (half x y),
)
  where
    half : (x y : ℕ) → bit_and x y / 2 ≡ bit_and (x / 2) (y / 2)
    half x y = omega (arith, bit_and_step x y)

pub bit-bit_xor : (x y j : ℕ) → bit (bit_xor x y) j ≡ (bit x j + bit y j) % 2
bit-bit_xor x y zero = omega (arith, bit_xor_step x y)
bit-bit_xor x y (suc j) = omega (
  arith,
  bit-suc (bit_xor x y) j,
  bit-suc x j,
  bit-suc y j,
  bit-bit_xor (x / 2) (y / 2) j,
  ap (λ (t : ℕ). bit t j) (half x y),
)
  where
    half : (x y : ℕ) → bit_xor x y / 2 ≡ bit_xor (x / 2) (y / 2)
    half x y = omega (arith, bit_xor_step x y)

pub bit-zero : (j : ℕ) → bit 0 j ≡ 0
bit-zero zero = refl
bit-zero (suc j) = bit-suc 0 j ∙ bit-zero j

-- The power `2 ^ k` has bit `k`, and no other.
pub bit-pow_self : (k : ℕ) → bit (2 ^ k) k ≡ 1
bit-pow_self zero = refl
bit-pow_self (suc k) =
    omega (arith, bit-suc (2 ^ suc k) k, bit-pow_self k, ap (λ (t : ℕ). bit t k) (half k))
  where
    half : (k : ℕ) → 2 ^ suc k / 2 ≡ 2 ^ k
    half k = omega (arith, pow-suc 2 k)

pub bit-pow_ne : (k j : ℕ) → k ≢ j → bit (2 ^ k) j ≡ 0
bit-pow_ne zero zero h = absurd (h refl)
bit-pow_ne zero (suc j) h = bit-suc 1 j ∙ bit-zero j
bit-pow_ne (suc k) zero h = omega (arith, pow-suc 2 k)
bit-pow_ne (suc k) (suc j) h = omega (
  arith,
  bit-suc (2 ^ suc k) j,
  bit-pow_ne k j (λ e. h (ap suc e)),
  ap (λ (t : ℕ). bit t j) (half k),
)
  where
    half : (k : ℕ) → 2 ^ suc k / 2 ≡ 2 ^ k
    half k = omega (arith, pow-suc 2 k)

pub pow_lt : (k n : ℕ) → k < n → 2 ^ k < 2 ^ n
pow_lt k zero h = absurd (omega arith)
pow_lt zero (suc n) h = omega (arith, pow-suc 2 n, one-le-pow n 2 (omega arith))
pow_lt (suc k) (suc n) h = omega (arith, pow-suc 2 n, pow-suc 2 k, pow_lt k n (omega arith))

-- All `n` low bits but bit `k`: the complement of `2 ^ k` in an `n`-bit word.
abbrev pub all_but : ℕ → ℕ → ℕ
all_but n k = 2 ^ n - 1 - 2 ^ k

half-all_but : (n k : ℕ) → all_but (suc n) (suc k) / 2 ≡ all_but n k
half-all_but n k = omega (arith, pow-suc 2 n, pow-suc 2 k)

half-all_but_zero : (n : ℕ) → all_but (suc n) 0 / 2 ≡ 2 ^ n - 1
half-all_but_zero n = omega (arith, pow-suc 2 n, one-le-pow n 2 (omega arith))

bit-ones : (n j : ℕ) → j < n → bit (2 ^ n - 1) j ≡ 1
bit-ones zero j h = absurd (omega arith)
bit-ones (suc n) zero h = omega (arith, pow-suc 2 n, one-le-pow n 2 (omega arith))
bit-ones (suc n) (suc j) h =
    omega (
      arith,
      bit-suc (2 ^ suc n - 1) j,
      bit-ones n j (omega arith),
      ap (λ (t : ℕ). bit t j) (half n),
    )
  where
    half : (n : ℕ) → (2 ^ suc n - 1) / 2 ≡ 2 ^ n - 1
    half n = omega (arith, pow-suc 2 n)

pub bit-all_but_self : (n k : ℕ) → k < n → bit (all_but n k) k ≡ 0
bit-all_but_self zero k h = absurd (omega arith)
bit-all_but_self (suc n) zero h = omega (arith, pow-suc 2 n, one-le-pow n 2 (omega arith))
bit-all_but_self (suc n) (suc k) h = omega (
  arith,
  bit-suc (all_but (suc n) (suc k)) k,
  bit-all_but_self n k (omega arith),
  ap (λ (t : ℕ). bit t k) (half-all_but n k),
)

pub bit-all_but_ne : (n k j : ℕ) → k < n → j < n → k ≢ j → bit (all_but n k) j ≡ 1
bit-all_but_ne zero k j h l ne = absurd (omega arith)
bit-all_but_ne (suc n) zero zero h l ne = absurd (ne refl)
bit-all_but_ne (suc n) zero (suc j) h l ne = omega (
  arith,
  bit-suc (all_but (suc n) 0) j,
  bit-ones n j (omega arith),
  ap (λ (t : ℕ). bit t j) (half-all_but_zero n),
)
bit-all_but_ne (suc n) (suc k) zero h l ne =
    omega (arith, pow-suc 2 n, pow-suc 2 k, pow_lt k n (omega arith))
bit-all_but_ne (suc n) (suc k) (suc j) h l ne = omega (
  arith,
  bit-suc (all_but (suc n) (suc k)) j,
  bit-all_but_ne n k j (omega arith) (omega arith) (λ e. ne (ap suc e)),
  ap (λ (t : ℕ). bit t j) (half-all_but n k),
)

zero-bit_and : (b : ℕ) → bit_and 0 b ≡ 0
zero-bit_and b = bit_and-bitwise 0 b

bit_and-zero : (n a : ℕ) → a ≤ n → bit_and a 0 ≡ 0
bit_and-zero n zero h = refl
bit_and-zero zero (suc a) h = absurd (omega arith)
bit_and-zero (suc n) (suc a) h =
    omega (arith, bit_and_step (suc a) 0, bit_and-zero n (suc a / 2) (omega arith))

-- A mask of one bit leaves that bit in its place.
pub bit_and-pow : (x k : ℕ) → bit_and x (2 ^ k) ≡ bit x k * 2 ^ k
bit_and-pow x zero = omega (arith, bit_and_step x 1, bit_and-zero (x / 2) (x / 2) (le_refl _))
bit_and-pow x (suc k) = omega (
  arith,
  bit_and_step x (2 ^ suc k),
  pow-suc 2 k,
  ap (λ (t : ℕ). bit_and (x / 2) t) (half k),
  bit_and-pow (x / 2) k,
  ap (λ (t : ℕ). t * 2 ^ suc k) (bit-suc x k),
  ap (λ (t : ℕ). bit (x / 2) k * t) (pow-suc 2 k),
)
  where
    half : (k : ℕ) → 2 ^ suc k / 2 ≡ 2 ^ k
    half k = omega (arith, pow-suc 2 k)
