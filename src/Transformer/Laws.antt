-- ===== src/Transformer/Laws.antt =====
-- About encoding and decoding (lib/transformer_xor.c).
use secure_mavlink_gateway.Prelude.{
  ℕ, zero, suc, ◌+◌, ◌/◌, ◌<◌, ◌≤◌, ◌≡◌, ◌≢◌, refl, ap, ap₂, sym, subst, ◌∙◌, some, List, [], ◌∷◌,
  get_elem?, take, bit_xor, arith,
}
use secure_mavlink_gateway.Prelude.Bits.{bit_xor_step}
use secure_mavlink_gateway.Platform.{Platform}
use secure_mavlink_gateway.Message.{Message}
use secure_mavlink_gateway.Transformer.{key, xor_crypto, xor_encode, xor_decode}

bit_xor_half : (a b : ℕ) → bit_xor a b / 2 ≡ bit_xor (a / 2) (b / 2)
bit_xor_half a b = omega (arith, bit_xor_step a b)

bit_xor_twice-fuel : (n a b : ℕ) → a ≤ n → b ≤ n → bit_xor (bit_xor a b) b ≡ a
bit_xor_twice-fuel zero zero zero h k = refl
bit_xor_twice-fuel zero zero (suc b) h k = absurd (omega arith)
bit_xor_twice-fuel zero (suc a) b h k = absurd (omega arith)
bit_xor_twice-fuel (suc n) a b h k = omega (
  arith,
  bit_xor_step (bit_xor a b) b,
  bit_xor_step a b,
  ap (λ c. bit_xor c (b / 2)) (bit_xor_half a b),
  bit_xor_twice-fuel n (a / 2) (b / 2) (omega arith) (omega arith),
)

bit_xor_twice : (a b : ℕ) → bit_xor (bit_xor a b) b ≡ a
bit_xor_twice a b = bit_xor_twice-fuel (a + b) a b (omega arith) (omega arith)

xor_crypto_twice : (bytes : List ℕ) (n : ℕ) → xor_crypto (xor_crypto bytes n) n ≡ bytes
unfolding xor_crypto
xor_crypto_twice bytes zero = refl
xor_crypto_twice [] (suc n) = refl
xor_crypto_twice (c ∷ bytes) (suc n) =
    ap₂ (λ d ds. d ∷ ds) (bit_xor_twice c key) (xor_crypto_twice bytes n)

take-xor_crypto :
    (bytes : List ℕ) (n : ℕ) → take n (xor_crypto bytes n) ≡ xor_crypto (take n bytes) n
unfolding xor_crypto
take-xor_crypto bytes zero = refl
take-xor_crypto [] (suc n) = refl
take-xor_crypto (c ∷ bytes) (suc n) = ap (λ ds. bit_xor c key ∷ ds) (take-xor_crypto bytes n)

get_elem?-xor_crypto :
    (bytes : List ℕ) (n k b : ℕ)
    → k < n
    → get_elem? bytes k ≡ some b
    → get_elem? (xor_crypto bytes n) k ≡ some (bit_xor b key)
unfolding xor_crypto
get_elem?-xor_crypto bytes zero k b h e = absurd (omega arith)
get_elem?-xor_crypto [] (suc n) k b h e = cc
get_elem?-xor_crypto (c ∷ bytes) (suc n) zero b h e = cc
get_elem?-xor_crypto (c ∷ bytes) (suc n) (suc k) b h e =
    get_elem?-xor_crypto bytes n k b (omega arith) e

get_elem?-take : (bytes : List ℕ) (n k : ℕ) → k < n → get_elem? (take n bytes) k ≡ get_elem? bytes k
get_elem?-take bytes zero k h = absurd (omega arith)
get_elem?-take [] (suc n) k h = refl
get_elem?-take (c ∷ bytes) (suc n) zero h = refl
get_elem?-take (c ∷ bytes) (suc n) (suc k) h = get_elem?-take bytes n k (omega arith)

module _ ⦃platform : Platform⦄ where
  open platform use {Msg, Status, payload, set_payload, finalize_message, len}

  -- What the generated headers promise: writing the payload changes nothing else, and finalizing a
  -- message whose last byte is not 0 keeps its length and its bytes up to there.
  pub record IsFinalizing : Type 0 where
    pub payload-set : (m : Msg) (b : List ℕ) → payload (set_payload m b) ≡ b
    pub finalize-len :
        (m : Msg) (s : Status) (k c : ℕ)
        → get_elem? (payload m) k ≡ some c
        → c ≢ 0
        → len (finalize_message m s (suc k)).0 ≡ suc k
    pub finalize-payload :
        (m : Msg) (s : Status) (n : ℕ)
        → len (finalize_message m s n).0 ≡ n
        → take n (payload (finalize_message m s n).0) ≡ take n (payload m)

  -- What either call does to the payload, if the last byte does not become 0.
  record Coded (m m' : Message) (k b : ℕ) : Type 0 where
    same_len : len m'.msg ≡ suc k
    coded : take (suc k) (payload m'.msg) ≡ xor_crypto (take (suc k) (payload m.msg)) (suc k)
    last : get_elem? (payload m'.msg) k ≡ some (bit_xor b key)

  -- `n` and `l` are the length, as an `int` and as a byte.
  abbrev recoded : Message → ℕ → ℕ → Message
  recoded m n l =
      let (msg, status) =
        finalize_message (set_payload m.msg (xor_crypto (payload m.msg) l)) m.status n in
      record m { msg = msg; status = status }

  recoded-Coded :
      (m : Message) (k b : ℕ)
      → IsFinalizing
      → get_elem? (payload m.msg) k ≡ some b
      → bit_xor b key ≢ 0
      → Coded m (recoded m (suc k) (suc k)) k b
  recoded-Coded m k b laws there nonzero =
      let bytes = xor_crypto (payload m.msg) (suc k) in
      let msg = set_payload m.msg bytes in
      let new = payload (finalize_message msg m.status (suc k)).0 in
      let coded_last = get_elem?-xor_crypto (payload m.msg) (suc k) k b (omega arith) there in
      let written = laws.payload-set m.msg bytes in
      let kept =
        laws.finalize-len msg m.status k (bit_xor b key)
          (ap (λ p. get_elem? p k) written ∙ coded_last) nonzero in
      let same = laws.finalize-payload msg m.status (suc k) kept ∙ ap (take (suc k)) written in
      record {
        same_len = kept;
        coded = same ∙ take-xor_crypto (payload m.msg) (suc k);
        last =
            sym (get_elem?-take new (suc k) k (omega arith))
            ∙ ap (λ p. get_elem? p k) same
            ∙ get_elem?-take bytes (suc k) k (omega arith)
            ∙ coded_last;
      }

  xor_encode-Coded :
      (m : Message) (k b : ℕ)
      → IsFinalizing
      → len m.msg ≡ suc k
      → suc k < 256
      → get_elem? (payload m.msg) k ≡ some b
      → bit_xor b key ≢ 0
      → Coded m (xor_encode m) k b
  unfolding xor_encode
  xor_encode-Coded m k b laws e small there nonzero =
      subst (λ (l : ℕ). Coded m (recoded m (len m.msg) l) k b) {x = suc k} (omega arith)
        (subst (λ (n : ℕ). Coded m (recoded m n (suc k)) k b) (sym e)
          (recoded-Coded m k b laws there nonzero))

  -- The two functions have the same body.
  decode-encode_same : (m : Message) → xor_decode m ≡ xor_encode m
  unfolding xor_encode xor_decode
  decode-encode_same m = refl

  -- If finalizing is as described, a message of 1 to 255 payload bytes, whose last one is neither 0
  -- nor the key, has the same length and the same payload after it is encoded and decoded.
  pub xor_decode-xor_encode :
      (m : Message) (k b : ℕ)
      → IsFinalizing
      → len m.msg ≡ suc k
      → suc k < 256
      → get_elem? (payload m.msg) k ≡ some b
      → b ≢ 0
      → b ≢ key
      → (len (xor_decode (xor_encode m)).msg ≡ suc k)
        × (take (suc k) (payload (xor_decode (xor_encode m)).msg) ≡ take (suc k) (payload m.msg))
  xor_decode-xor_encode m k b laws e small there nonzero other =
      let one =
        xor_encode-Coded m k b laws e small there
          (λ z. other (sym (bit_xor_twice b key) ∙ ap (λ c. bit_xor c key) z)) in
      let two =
        subst (λ m'. Coded (xor_encode m) m' k (bit_xor b key))
          (sym (decode-encode_same (xor_encode m)))
          (xor_encode-Coded (xor_encode m) k (bit_xor b key) laws one.same_len small one.last
            (λ z. nonzero (sym (bit_xor_twice b key) ∙ z))) in
      (
        two.same_len,
        two.coded
            ∙ ap (λ bytes. xor_crypto bytes (suc k)) one.coded
            ∙ xor_crypto_twice (take (suc k) (payload m.msg)) (suc k),
      )
