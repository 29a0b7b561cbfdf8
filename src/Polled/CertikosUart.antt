-- ===== src/Polled/CertikosUart.antt =====
-- lib/source_certikos_uart.c. The system calls are parameters: the stream that `sys_device_control`
-- stores, and the bytes that `reads` stores.
use secure_mavlink_gateway.Prelude.{
  ℕ, ◌<◌, ◌++◌, ◌+◌, ◌≤◌, ◌≡◌, refl, Bool, true, false, List, [], ◌∷◌, length, leb, ltb,
  if◌then◌else◌, arith,
}
use secure_mavlink_gateway.Outcome.{Ensures, Outcome, done, out_of_bounds, assert, ◌>>◌}
use secure_mavlink_gateway.Polled.{Inbox, left, fill, take_left, some_bytes, max_packet_len, Polled}
use secure_mavlink_gateway.Polled.Drain.{
  left-fill, fill-inside, unread_of, joined, drain, AllAccepted, drain_lem,
}

pub record CertikosUartSocket : Type 0 where
  pub initialized : Bool
  pub stream : ℕ
  pub inbox : Inbox

unfoldable pub certikos_uart_socket_init : ℕ → CertikosUartSocket → CertikosUartSocket
certikos_uart_socket_init stream uart = if uart.initialized then uart else record uart {
  initialized = true;
  stream = stream;
  inbox = record (uart.inbox) { len = 0; current_read = 0 };
}

-- The stream and the bytes that are written.
unfoldable pub certikos_uart_route_to :
    ℕ → List ℕ → CertikosUartSocket → Outcome ((ℕ × List ℕ) × CertikosUartSocket)
unfolding certikos_uart_socket_init
certikos_uart_route_to stream bytes uart = do
  let uart' = certikos_uart_socket_init stream uart
  assert (leb (length bytes) max_packet_len)
  done ((uart'.stream, bytes), uart')

-- `sizeof(data)`
abbrev pub uart_data_bytes : ℕ
uart_data_bytes = 4096

-- `reads` stores what it received into `data`.
unfoldable pub certikos_uart_has_more :
    ℕ → List ℕ → CertikosUartSocket → Outcome (Bool × CertikosUartSocket)
unfolding certikos_uart_socket_init fill
certikos_uart_has_more stream received uart =
    let uart' = certikos_uart_socket_init stream uart in
    let filled = fill received uart'.inbox in
    let asked =
      (if ltb uart_data_bytes (length received)
        then out_of_bounds
        else done (ltb 0 filled.len, record uart' { inbox = filled })) in
    if left uart'.inbox then done (true, uart') else asked

unfoldable pub certikos_uart_read_byte : ℕ → CertikosUartSocket → ℕ × CertikosUartSocket
unfolding certikos_uart_socket_init take_left
certikos_uart_read_byte stream uart =
    let uart' = certikos_uart_socket_init stream uart in
    let (byte, inbox) = take_left uart'.inbox in (byte, record uart' { inbox = inbox })

pub ltb-some_bytes : (bytes : List ℕ) → ltb 0 (length bytes) ≡ some_bytes bytes
ltb-some_bytes [] = refl
ltb-some_bytes (byte ∷ bytes) = ground arith

pub certikos_uart_has_more-fill :
    (stream : ℕ) (bytes : List ℕ) (uart : CertikosUartSocket)
    → uart.initialized ≡ true
    → left uart.inbox ≡ false
    → length bytes ≤ uart_data_bytes
    → certikos_uart_has_more stream bytes uart
      ≡ done (some_bytes bytes, record uart { inbox = fill bytes uart.inbox })
unfolding certikos_uart_has_more certikos_uart_socket_init fill
certikos_uart_has_more-fill stream bytes uart on nothing fits =
    let small : ltb uart_data_bytes (length bytes) ≡ false = ground arith in
    rw (on, nothing, small, ltb-some_bytes bytes) refl

-- The socket as a source with an inbox.
unfoldable pub certikos_uart_polled : ℕ → Polled CertikosUartSocket
unfolding certikos_uart_has_more certikos_uart_read_byte certikos_uart_socket_init take_left
certikos_uart_polled stream = record {
  inbox = λ uart. uart.inbox;
  IsReady = λ uart. (uart.initialized ≡ true) × (uart.inbox.len ≤ length uart.inbox.bytes);
  Accepts = λ bytes. length bytes ≤ uart_data_bytes;
  has_more = certikos_uart_has_more stream;
  read_byte = λ uart. done (certikos_uart_read_byte stream uart);
  inside = λ uart ready. ready.1;
  has_more-left =
      λ bytes uart ready there. ((true, uart), rw (ready.0, there) refl, (refl, ready, refl));
  has_more-fill = λ bytes uart ready fits there nothing. (
    (true, record uart { inbox = fill bytes uart.inbox }),
    rw (certikos_uart_has_more-fill stream bytes uart ready.0 nothing fits, there) refl,
    (refl, (ready.0, fill-inside bytes uart.inbox), refl),
  );
  has_more-none = λ uart ready nothing. (
    (false, record uart { inbox = fill [] uart.inbox }),
    rw (certikos_uart_has_more-fill stream [] uart ready.0 nothing (omega arith)) refl,
    (refl, (ready.0, fill-inside [] uart.inbox), left-fill [] uart.inbox),
  );
  read_byte-take_left = λ uart ready there. (
    ((take_left uart.inbox).0, record uart { inbox = (take_left uart.inbox).1 }),
    rw ready.0 refl,
    ((ready.0, rw there ready.1), refl),
  );
}

-- An initialised socket whose device has packets, none of them empty, and of at most 4096 bytes each: the
-- loop on `has_more` and `read_byte` ends, after one round for each byte and one more, having handed
-- over what was left of the last packet and then every packet, in order, and nothing is left.
pub drain-certikos_uart_polled :
    (stream : ℕ) (fuel : ℕ) (packets : List (List ℕ)) (uart : CertikosUartSocket)
    → uart.initialized ≡ true
    → uart.inbox.len ≤ length uart.inbox.bytes
    → length (unread_of uart.inbox) + length (joined packets) < fuel
    → AllAccepted (certikos_uart_polled stream) packets
    → Ensures (drain (certikos_uart_polled stream) fuel packets uart) (λ (bytes, uart').
      (bytes ≡ unread_of uart.inbox ++ joined packets)
      × (uart'.initialized ≡ true)
      × (left uart'.inbox ≡ false))
unfolding certikos_uart_polled
drain-certikos_uart_polled stream fuel packets uart on inside enough all =
    let (result, ends, (order, ready, nothing)) =
      drain_lem (certikos_uart_polled stream) fuel packets uart enough (on, inside) all in
    (result, ends, (order, ready.0, nothing))
