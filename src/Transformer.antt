-- ===== src/Transformer.antt =====
-- The transformers of lib/transformer_xor.c and lib/transformer_none.c.
pub mod Laws
mod Tests
use secure_mavlink_gateway.Prelude.{ℕ, zero, suc, ◌%◌, ◌^◌, List, [], ◌∷◌, bit_xor}
use secure_mavlink_gateway.Platform.{Platform}
use secure_mavlink_gateway.Message.{Message}

-- `'X'`
abbrev pub key : ℕ
key = b'X'

-- The loop over `len` bytes.
unfoldable pub xor_crypto : List ℕ → ℕ → List ℕ
xor_crypto message zero = message
xor_crypto [] (suc len) = []
xor_crypto (c ∷ message) (suc len) = bit_xor c key ∷ xor_crypto message len

module _ ⦃platform : Platform⦄ where
  open platform use {payload, set_payload, finalize_message, len}

  -- The length is an `int`, which the call of `xor_crypto` makes a `uint8_t`.
  unfoldable pub xor_encode : Message → Message
  unfolding xor_crypto
  xor_encode m =
      let n = len m.msg in
      let coded = set_payload m.msg (xor_crypto (payload m.msg) (n % 2 ^ 8)) in
      let (msg, status) = finalize_message coded m.status n in
      record m { msg = msg; status = status }

  unfoldable pub xor_decode : Message → Message
  unfolding xor_crypto
  xor_decode m =
      let n = len m.msg in
      let coded = set_payload m.msg (xor_crypto (payload m.msg) (n % 2 ^ 8)) in
      let (msg, status) = finalize_message coded m.status n in
      record m { msg = msg; status = status }

  pub transformer_encode : Message → Message
  transformer_encode m = m

  pub transformer_decode : Message → Message
  transformer_decode m = m
