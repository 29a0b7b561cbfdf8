-- ===== src/Polled/Every.antt =====
-- The loop on `has_more` over the three sources of lib/source_partee.c, lib/source_thinros_certikos.c and
-- lib/source_certikos_uart.c.
use secure_mavlink_gateway.Prelude.{
  ℕ, ◌+◌, ◌<◌, ◌≤◌, ◌≡◌, refl, Bool, true, false, List, [], ◌∷◌, ◌++◌, length,
}
use secure_mavlink_gateway.Outcome.{Outcome, Ensures}
use secure_mavlink_gateway.Polled.{Inbox, left, some_bytes, max_packet_len}
use secure_mavlink_gateway.Polled.Drain.{unread_of, joined, drain, AllAccepted}
use secure_mavlink_gateway.Polled.Partee.{partee_polled, drain-partee_polled}
use secure_mavlink_gateway.Polled.Thinros.{thinros_polled, drain-thinros_polled}
use secure_mavlink_gateway.Polled.CertikosUart.{
  uart_data_bytes, certikos_uart_polled, drain-certikos_uart_polled,
}

-- No packet is empty, or longer than this.
abbrev pub AllWithin : ℕ → List (List ℕ) → Type 0
AllWithin size [] = Unit {0}
AllWithin size (packet ∷ packets) =
    (length packet ≤ size) × (some_bytes packet ≡ true) × AllWithin size packets

partee_accepts :
    (packets : List (List ℕ)) → AllWithin max_packet_len packets → AllAccepted partee_polled packets
unfolding partee_polled
partee_accepts [] all = tt
partee_accepts (packet ∷ packets) (fits, some, all) = (fits, some, partee_accepts packets all)

thinros_accepts :
    (advertised : Bool) (packets : List (List ℕ))
    → AllWithin max_packet_len packets
    → AllAccepted (thinros_polled advertised) packets
unfolding thinros_polled
thinros_accepts advertised [] all = tt
thinros_accepts advertised (packet ∷ packets) (fits, some, all) =
    (fits, some, thinros_accepts advertised packets all)

uart_accepts :
    (device : ℕ) (packets : List (List ℕ))
    → AllWithin uart_data_bytes packets
    → AllAccepted (certikos_uart_polled device) packets
unfolding certikos_uart_polled
uart_accepts device [] all = tt
uart_accepts device (packet ∷ packets) (fits, some, all) =
    (fits, some, uart_accepts device packets all)

-- The loop ends with all bytes, in order, on a socket that is still initialised and has none left.
abbrev pub HandsAllOver :
    {S : Type 0} → (S → Inbox) → (S → Bool) → Inbox → List (List ℕ) → Outcome (List ℕ × S) → Type 0
HandsAllOver inbox initialized b packets result = Ensures result (λ (bytes, s).
    (bytes ≡ unread_of b ++ joined packets) × (initialized s ≡ true) × (left (inbox s) ≡ false))

-- On an initialised socket of partee, thinros or the CertiKOS UART whose device has packets, none of them
-- empty, of at most 280 bytes each for partee and thinros and of at most 4096 for the UART, which is what
-- their arrays hold: the loop on `has_more` and `read_byte` ends, after one round for each byte and one
-- more, having handed over what was left of the last packet and then every packet, in order, and nothing is
-- left.
pub drain-every :
    (fuel : ℕ) (packets packets' packets'' : List (List ℕ)) (advertised publisher : Bool)
    (device stream : ℕ) (b : Inbox)
    → b.len ≤ length b.bytes
    → length (unread_of b) + length (joined packets) < fuel
    → length (unread_of b) + length (joined packets') < fuel
    → length (unread_of b) + length (joined packets'') < fuel
    → AllWithin max_packet_len packets
    → AllWithin max_packet_len packets'
    → AllWithin uart_data_bytes packets''
    → HandsAllOver
        (λ ros. ros.inbox)
        (λ ros. ros.initialized)
        b
        packets
        (drain partee_polled fuel packets (record { initialized = true; inbox = b }))
      × HandsAllOver
          (λ ros. ros.inbox)
          (λ ros. ros.initialized)
          b
          packets'
          (drain
            (thinros_polled advertised)
            fuel
            packets'
            (record { initialized = true; publisher = publisher; inbox = b }))
      × HandsAllOver
          (λ uart. uart.inbox)
          (λ uart. uart.initialized)
          b
          packets''
          (drain
            (certikos_uart_polled device)
            fuel
            packets''
            (record { initialized = true; stream = stream; inbox = b }))
drain-every fuel packets packets' packets'' advertised publisher device stream b inside enough
      enough' enough'' all all' all'' =
    (
      drain-partee_polled fuel packets (record { initialized = true; inbox = b }) refl inside enough
          (partee_accepts packets all),
      drain-thinros_polled advertised fuel packets'
          (record { initialized = true; publisher = publisher; inbox = b }) refl inside enough'
          (thinros_accepts advertised packets' all'),
      drain-certikos_uart_polled device fuel packets''
          (record { initialized = true; stream = stream; inbox = b }) refl inside enough''
          (uart_accepts device packets'' all''),
    )
