-- ===== src/Outcome.antt =====
-- What a call of the C code comes to. `assert_failed` is an `ASSERT` of certikos/debug.h that does
-- not hold, `out_of_bounds` an access outside an array, `null_call` a call through a null function
-- pointer, `div_by_zero` a division by 0, and `no_fuel` stands for a loop that was given too few rounds by the model.
use secure_mavlink_gateway.Prelude.{
  if◌then◌else◌, ap, ◌∙◌, ℕ, zero, suc, ◌/◌, Bool, true, false, Option, none, some, ◌≡◌, refl, ◌<◌,
  arith,
}

pub data Outcome {ℓ} (A : Type ℓ) : Type ℓ where
  done : A → Outcome A
  assert_failed out_of_bounds null_call div_by_zero no_fuel : Outcome A

-- `abbrev`, so that `done a >>= f` computes wherever it stands.
infixl 5 ◌>>=◌ ◌>>◌
abbrev pub ◌>>=◌ {ℓ κ} : {A : Type ℓ} {B : Type κ} → Outcome A → (A → Outcome B) → Outcome B
done a >>= f = f a
assert_failed >>= f = assert_failed
out_of_bounds >>= f = out_of_bounds
null_call >>= f = null_call
div_by_zero >>= f = div_by_zero
no_fuel >>= f = no_fuel

abbrev pub ◌>>◌ {ℓ} : {B : Type ℓ} → Outcome (Unit {0}) → Outcome B → Outcome B
m >> k = m >>= λ _. k

-- `ASSERT(b)`
abbrev pub assert : Bool → Outcome (Unit {0})
assert true = done tt
assert false = assert_failed

-- A read of an array at an index.
abbrev pub or_out_of_bounds {ℓ} : {A : Type ℓ} → Option A → Outcome A
or_out_of_bounds none = out_of_bounds
or_out_of_bounds (some a) = done a

-- A call through a function pointer.
abbrev pub or_null_call {ℓ} : {A : Type ℓ} → Option A → Outcome A
or_null_call none = null_call
or_null_call (some f) = done f

-- Unsigned division.
abbrev pub divide : ℕ → ℕ → Outcome ℕ
divide a zero = div_by_zero
divide a (suc b) = done (a / suc b)

-- The result of a call that comes to one.
abbrev pub Done {ℓ} : {A : Type ℓ} → Outcome A → Type ℓ
Done {A = A} o = (a : A) × (o ≡ done a)

pub >>=-eq-done {ℓ κ} :
    {A : Type ℓ} {B : Type κ} (m : Outcome A) (f : A → Outcome B) {b : B}
    → (m >>= f) ≡ done b
    → (a : A) × (m ≡ done a) × (f a ≡ done b)
>>=-eq-done (done a) f h = (a, refl, h)
>>=-eq-done assert_failed f h = cc
>>=-eq-done out_of_bounds f h = cc
>>=-eq-done null_call f h = cc
>>=-eq-done div_by_zero f h = cc
>>=-eq-done no_fuel f h = cc

-- A call that comes to a result with a property.
abbrev pub Ensures {ℓ κ} : {A : Type ℓ} → Outcome A → (A → Type κ) → Type (ℓ ⊔ κ)
Ensures {A = A} o P = (a : A) × (o ≡ done a) × P a

pub >>=-Ensures {ℓ κ ι μ} :
    {A : Type ℓ} {B : Type κ} {P : A → Type ι} {Q : B → Type μ} (m : Outcome A) (f : A → Outcome B)
    → Ensures m P
    → ((a : A) → P a → Ensures (f a) Q)
    → Ensures (m >>= f) Q
>>=-Ensures {Q = Q} m f (a, same, p) rest =
    let (b, same', q) = rest a p in (b, ap (λ o. o >>= f) same ∙ same', q)

-- A branch is taken on what its test comes to.
pub if-Ensures {ℓ κ} :
    {A : Type ℓ} {P : A → Type κ} (b : Bool) {m n : Outcome A}
    → (b ≡ true → Ensures m P)
    → (b ≡ false → Ensures n P)
    → Ensures (if b then m else n) P
if-Ensures true then_m else_n = then_m refl
if-Ensures false then_m else_n = else_n refl

-- Two calls that come to a result do so one after the other.
pub >>=-Done {ℓ κ} :
    {A : Type ℓ} {B : Type κ} (m : Outcome A) (f : A → Outcome B)
    → Done m
    → ((a : A) → m ≡ done a → Done (f a))
    → Done (m >>= f)
>>=-Done (done a) f (b, e) rest = rest a refl
>>=-Done assert_failed f (b, e) rest = cc
>>=-Done out_of_bounds f (b, e) rest = cc
>>=-Done null_call f (b, e) rest = cc
>>=-Done div_by_zero f (b, e) rest = cc
>>=-Done no_fuel f (b, e) rest = cc

pub divide-Done : (a b : ℕ) → 0 < b → Done (divide a b)
divide-Done a zero h = absurd (omega arith)
divide-Done a (suc b) h = (a / suc b, refl)

-- Two continuations that agree on the result of a call agree after it.
pub >>=-cong {ℓ κ} :
    {A : Type ℓ} {B : Type κ} (m : Outcome A) (f g : A → Outcome B)
    → ((a : A) → m ≡ done a → f a ≡ g a)
    → (m >>= f) ≡ (m >>= g)
>>=-cong (done a) f g h = h a refl
>>=-cong assert_failed f g h = refl
>>=-cong out_of_bounds f g h = refl
>>=-cong null_call f g h = refl
>>=-cong div_by_zero f g h = refl
>>=-cong no_fuel f g h = refl
