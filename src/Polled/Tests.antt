-- ===== src/Polled/Tests.antt =====
-- Runs of the polled sources on concrete packets.
use secure_mavlink_gateway.Prelude.{ℕ, ◌≡◌, refl, true, List, [], ◌∷◌, replicate, arith}
use secure_mavlink_gateway.Outcome.{out_of_bounds}
use secure_mavlink_gateway.Example.{toy}
use secure_mavlink_gateway.Polled.Every.{HandsAllOver, drain-every}
use secure_mavlink_gateway.Polled.{Inbox}
use secure_mavlink_gateway.Polled.Drain.{drain}
use secure_mavlink_gateway.Polled.Partee.{partee_polled}
use secure_mavlink_gateway.Polled.CertikosUart.{certikos_uart_polled}
use secure_mavlink_gateway.Polled.Thinros.{ThinrosSocket, thinros_polled, on_thinros_mavlink_recv}

-- One byte of the last packet is left.
abbrev one_left : Inbox
one_left = record { bytes = 5 ∷ 6 ∷ 0 ∷ []; len = 2; current_read = 1 }

abbrev packets : List (List ℕ)
packets = (7 ∷ []) ∷ (8 ∷ 9 ∷ []) ∷ []

abbrev thinros_on : ThinrosSocket
thinros_on = record { initialized = true; publisher = true; inbox = one_left }

-- Longer than a packet of partee or thinros.
abbrev long_packets : List (List ℕ)
long_packets = replicate 300 7 ∷ []

drain-every_example :
    HandsAllOver
      (λ ros. ros.inbox)
      (λ ros. ros.initialized)
      one_left
      packets
      (drain partee_polled 400 packets (record { initialized = true; inbox = one_left }))
    × HandsAllOver
        (λ ros. ros.inbox)
        (λ ros. ros.initialized)
        one_left
        packets
        (drain (thinros_polled true) 400 packets thinros_on)
    × HandsAllOver
        (λ uart. uart.inbox)
        (λ uart. uart.initialized)
        one_left
        long_packets
        (drain
          (certikos_uart_polled 1)
          400
          long_packets
          (record { initialized = true; stream = 1; inbox = one_left }))
drain-every_example =
    drain-every 400 packets packets long_packets true true 1 1 one_left (omega arith) (omega arith)
      (omega arith) (omega arith) (omega arith, refl, (omega arith, refl, tt))
      (omega arith, refl, (omega arith, refl, tt)) (omega arith, refl, tt)

-- A message that says that it is longer than 280 bytes is copied past the end of `data`.
overlong : on_thinros_mavlink_recv (replicate 281 1) thinros_on ≡ out_of_bounds
unfolding on_thinros_mavlink_recv
overlong = refl
