-- ===== src/Ring/Queue.antt =====
-- What the ring promises: a FIFO of at most `max` bytes that forgets its oldest byte when one more
-- is put into it.
use mathlib.Core.List.{append_assoc, append-nil}
use secure_mavlink_gateway.Prelude.{
  ℕ, zero, suc, List, [], ◌∷◌, ◌++◌, length, drop, ◌==◌, if◌then◌else◌, ◌≡◌, ◌≢◌, arith, ◌+◌, ◌-◌,
  ◌≤◌, ◌<◌, length-append, ap, ap₂, ◌∙◌, sym, ℕ_discrete, refl,
}

unfoldable pub push : ℕ → List ℕ → ℕ → List ℕ
push max q x = (if length q == max then drop 1 q else q) ++ x ∷ []

-- An empty queue gives 0.
unfoldable pub pop : List ℕ → ℕ × List ℕ
pop [] = (0, [])
pop (x ∷ q) = (x, q)

unfoldable pub push_all : ℕ → List ℕ → List ℕ → List ℕ
push_all max q [] = q
push_all max q (x ∷ xs) = push_all max (push max q x) xs

pub push-full : (max : ℕ) (q : List ℕ) (x : ℕ) → length q ≡ max → push max q x ≡ drop 1 q ++ x ∷ []
unfolding push
push-full max q x h = ground arith

pub push-room : (max : ℕ) (q : List ℕ) (x : ℕ) → length q ≢ max → push max q x ≡ q ++ x ∷ []
unfolding push
push-room max q x h = ground arith

pub length-push :
    (max : ℕ) (q : List ℕ) (x : ℕ)
    → 0 < max
    → length q ≤ max
    → length (push max q x) ≡ (if length q == max then max else length q + 1)
unfolding push
length-push max [] x pos h = ground arith
length-push max (a ∷ q) x pos h =
    ground (arith, length-append q (x ∷ []), length-append (a ∷ q) (x ∷ []))

-- Putting in `x` drops as many bytes from the front as there are too many.
push-drop :
    (max : ℕ) (q : List ℕ) (x : ℕ)
    → 0 < max
    → length q ≤ max
    → push max q x ≡ drop (length q + 1 - max) (q ++ x ∷ [])
push-drop max q x pos h = elim (ℕ_discrete (length q) max) [
  | yes e ↦
      push-full max q x e
      ∙ full q (omega arith)
      ∙ ap (λ (k : ℕ). drop k (q ++ x ∷ [])) (let e : 1 ≡ length q + 1 - max = omega arith in e)
  | no ne ↦
      push-room max q x ne
      ∙ ap (λ (k : ℕ). drop k (q ++ x ∷ [])) (let e : 0 ≡ length q + 1 - max = omega arith in e)
]
  where
    full : (q : List ℕ) → 0 < length q → drop 1 q ++ x ∷ [] ≡ drop 1 (q ++ x ∷ [])
    full [] h = absurd (omega arith)
    full (a ∷ q) h = refl

pub drop-drop_append :
    (j k : ℕ) (q r : List ℕ) → j ≤ length q → drop k (drop j q ++ r) ≡ drop (j + k) (q ++ r)
drop-drop_append zero k q r h = ap (λ (i : ℕ). drop i (q ++ r)) (omega arith)
drop-drop_append (suc j) k [] r h = absurd (omega arith)
drop-drop_append (suc j) k (a ∷ q) r h =
    drop-drop_append j k q r (omega arith)
    ∙ ap (λ (i : ℕ). drop i (a ∷ (q ++ r))) (let e : suc (j + k) ≡ suc j + k = omega arith in e)

-- After all of `xs`, the queue holds the last `max` bytes of what it was given.
pub push_all-drop :
    (max : ℕ) (q xs : List ℕ)
    → 0 < max
    → length q ≤ max
    → push_all max q xs ≡ drop (length q + length xs - max) (q ++ xs)
unfolding push_all
push_all-drop max q [] pos h =
    sym (append-nil q)
    ∙ ap (λ (k : ℕ). drop k (q ++ [])) (let e : 0 ≡ length q + 0 - max = omega arith in e)
push_all-drop max q (x ∷ xs) pos h =
    push_all-drop max (push max q x) xs pos (ground (arith, length-push max q x pos h))
    ∙ ap (λ (p : List ℕ). drop k (p ++ xs)) (push-drop max q x pos h)
    ∙ drop-drop_append j k (q ++ x ∷ []) xs (omega (arith, length-append q (x ∷ [])))
    ∙ ap₂ drop (ground (arith, length-push max q x pos h)) (append_assoc q (x ∷ []) xs)
  where
    j : ℕ
    j = length q + 1 - max

    k : ℕ
    k = length (push max q x) + length xs - max
