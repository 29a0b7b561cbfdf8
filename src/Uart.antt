-- ===== src/Uart.antt =====
-- The UART connection of lib/source_uart.c. `input_buffer` is a ring in the memory of
-- `output_buffer`, so its `buffer` field stands for both. What runs under `uart->lock` is one step.
-- The device and the thread library are parameters: what `read`, `write` and `thrd_create` returned.
pub mod Stream
pub mod Overlap
pub mod Hook
pub mod Device
mod Tests
use secure_mavlink_gateway.Prelude.{
  ℕ, zero, suc, ◌+◌, Bool, true, false, not, Option, none, some, List, [], ◌∷◌, ◌++◌, length, drop,
  ltb, if◌then◌else◌,
}
use secure_mavlink_gateway.Outcome.{Outcome, done, ◌>>=◌}
use secure_mavlink_gateway.Results.{Result, succ, io_fault, thread_error}
use secure_mavlink_gateway.Ring.{
  Ring, ring_buffer_init, ring_buffer_is_empty, ring_buffer_is_full, ring_buffer_pop,
  ring_buffer_copy_from,
}

-- `sizeof(uart->output_buffer)`, and that of `uart_input`
abbrev pub output_size : ℕ
output_size = 4096

abbrev pub input_size : ℕ
input_size = 256

pub record Uart : Type 0 where
  pub initialized : Bool
  pub terminate : Bool
  pub input_buffer : Ring

-- `uart_state_init`
unfoldable pub uart_state_init : Uart → Outcome Uart
uart_state_init uart = do
  ring ← ring_buffer_init uart.input_buffer uart.input_buffer.buffer output_size
  done (record uart { terminate = false; input_buffer = ring })

-- `uart_init`: whether the device could be opened and set up, and whether the thread was created.
unfoldable pub uart_init : Bool → Bool → Uart → Outcome (Result × Uart)
unfolding uart_state_init
uart_init device thread uart =
    if uart.initialized
    then done (succ, uart)
    else if not device
    then done (io_fault, uart)
    else (uart_state_init uart >>= λ uart'.
        if not thread
        then done (thread_error, uart')
        else done (succ, record uart' { initialized = true }))

-- Where `uart_server` stands: before `read`, with the bytes read and without the lock, in `cnd_wait`,
-- or at its end.
pub data Server : Type 0 where
  reading waiting : Server
  received : List ℕ → Server
  returned : Result → Server

-- The test of the outer loop and the call of `read`, which returns -1 or what it stored.
unfoldable pub server_read : Uart → Option (List ℕ) → Server
server_read uart result =
    if uart.terminate
    then returned succ
    else elim result [ none ↦ returned io_fault | some bytes ↦ received bytes ]

-- The test of the inner loop, which holds the lock.
unfoldable pub server_test : Uart → Server
server_test uart = if ring_buffer_is_full uart.input_buffer then waiting else reading

-- From `mtx_lock` to `cnd_wait` or `mtx_unlock`.
unfoldable pub server_copy : Uart → List ℕ → Outcome (Uart × Server)
unfolding server_test
server_copy uart bytes = do
  ring ← ring_buffer_copy_from uart.input_buffer bytes
  let uart' : Uart = record uart { input_buffer = ring }
  done (uart', server_test uart')

unfoldable pub uart_has_more : Bool → Bool → Uart → Outcome (Bool × Uart)
unfolding uart_init
uart_has_more device thread uart = uart_init device thread uart >>= λ (rv, uart').
    done ((elim rv [ succ ↦ not (ring_buffer_is_empty uart'.input_buffer) | _ ↦ false ]), uart')

unfoldable pub uart_read_byte : Uart → ℕ × Uart
uart_read_byte uart =
    let (byte, ring) = ring_buffer_pop uart.input_buffer in
    (byte, record uart { input_buffer = ring })

-- The flags of `uart_cleanup`; what it releases is in Cleanup.
unfoldable pub uart_cleanup : Uart → Uart
uart_cleanup uart = record uart { initialized = false; terminate = true }

-- The bytes of the message written to the front of `output_buffer`.
abbrev pub write_front : List ℕ → List ℕ → List ℕ
write_front buffer bytes = bytes ++ drop (length bytes) buffer

-- `bytes` is what `mavlink_msg_to_send_buffer` stores, and `written` what `write` returned.
unfoldable pub uart_route_to : Bool → Bool → Uart → List ℕ → Option ℕ → Outcome (Result × Uart)
unfolding uart_init
uart_route_to device thread uart bytes written = uart_init device thread uart >>= λ (rv, uart').
    let ring = uart'.input_buffer in
    let uart'' : Uart = record uart' {
      input_buffer = record ring { buffer = write_front ring.buffer bytes };
    } in
    done (elim rv [
      | succ ↦ (
        elim written [ none ↦ io_fault | some n ↦ if ltb n (length bytes) then io_fault else succ ],
        uart'',
      )
      | _ ↦ (io_fault, uart')
    ])
