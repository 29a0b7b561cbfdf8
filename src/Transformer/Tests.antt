-- ===== src/Transformer/Tests.antt =====
-- A message of the small platform, encoded and decoded.
use secure_mavlink_gateway.Prelude.{◌≡◌, refl, arith, [], ◌∷◌, take}
use secure_mavlink_gateway.Transformer.{xor_encode, xor_decode, xor_crypto}
use secure_mavlink_gateway.Transformer.Laws.{IsFinalizing, xor_decode-xor_encode}
use secure_mavlink_gateway.Pipeline.{zero_message}
use secure_mavlink_gateway.Example.{toy}

xor_crypto_hi : xor_crypto (b'H' ∷ b'i' ∷ 7 ∷ []) 2 ≡ 16 ∷ 49 ∷ 7 ∷ []
unfolding xor_crypto
xor_crypto_hi = refl

toy-IsFinalizing : IsFinalizing
toy-IsFinalizing = record {
  payload-set = λ m b. refl;
  finalize-len = λ m s k c e nonzero. refl;
  finalize-payload = λ m s n e. refl;
}

xor_decode-xor_encode_example :
    (toy.len (xor_decode (xor_encode zero_message)).msg ≡ 2)
    × (take 2 (toy.payload (xor_decode (xor_encode zero_message)).msg)
        ≡ take 2 (toy.payload zero_message.msg))
xor_decode-xor_encode_example =
    xor_decode-xor_encode zero_message 1 2 toy-IsFinalizing refl (omega arith) refl (omega arith)
      (omega arith)
