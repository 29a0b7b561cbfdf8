-- ===== src/Uart/Overlap.antt =====
-- The memory that the input ring and the output share.
use secure_mavlink_gateway.Prelude.{
  ℕ, zero, suc, ◌<◌, ◌≡◌, refl, Bool, true, false, Option, List, [], ◌∷◌, ◌++◌, length, drop,
  get_or, arith,
}
use secure_mavlink_gateway.Outcome.{Ensures}
use secure_mavlink_gateway.Ring.{ring_buffer_is_empty, ring_buffer_pop}
use secure_mavlink_gateway.Uart.{Uart, uart_init, uart_route_to, uart_read_byte}

get_or-append : (xs ys : List ℕ) (i d : ℕ) → i < length xs → get_or (xs ++ ys) i d ≡ get_or xs i d
get_or-append [] ys i d h = absurd (omega arith)
get_or-append (x ∷ xs) ys zero d h = refl
get_or-append (x ∷ xs) ys (suc i) d h = get_or-append xs ys i d (omega arith)

-- On an initialised connection, if a byte waits in the ring at a slot that an outgoing message
-- covers, then after the message is routed the gateway reads a byte of that message in its place,
-- whatever `write` returned.
pub uart_route_to-uart_read_byte :
    (device thread : Bool) (uart : Uart) (bytes : List ℕ) (written : Option ℕ)
    → uart.initialized ≡ true
    → ring_buffer_is_empty uart.input_buffer ≡ false
    → uart.input_buffer.tail < length bytes
    → Ensures
        (uart_route_to device thread uart bytes written)
        (λ (rv, uart'). (uart_read_byte uart').0 ≡ get_or bytes uart.input_buffer.tail 0)
unfolding uart_route_to uart_init uart_read_byte ring_buffer_pop ring_buffer_is_empty
uart_route_to-uart_read_byte device thread uart bytes written on some covered =
    let ring = uart.input_buffer in
    let after = get_or-append bytes (drop (length bytes) ring.buffer) ring.tail 0 covered in
    rw on (_, refl, rw some after)
