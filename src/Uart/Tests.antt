-- ===== src/Uart/Tests.antt =====
-- A run of the thread beside the gateway, and a message over a waiting byte.
use secure_mavlink_gateway.Prelude.{
  ℕ, ◌+◌, ◌-◌, ◌++◌, ◌≡◌, refl, true, false, some, [], ◌∷◌, replicate, length, length-replicate,
  get_or, arith,
}
use secure_mavlink_gateway.Outcome.{Ensures}
use secure_mavlink_gateway.Ring.{
  ring_buffer_is_empty, ring_buffer_size, ring_buffer_push, ring_buffer_copy_from, copy_from_loop,
}
use secure_mavlink_gateway.Ring.Refine.{contents}
use secure_mavlink_gateway.Example.{toy}
use secure_mavlink_gateway.Uart.{
  Uart, reading, output_size, server_read, server_test, server_copy, uart_route_to, uart_read_byte,
}
use secure_mavlink_gateway.Uart.Stream.{
  System, read, copy, take, Runs, here, later, IsStream, Runs-IsStream,
}
use secure_mavlink_gateway.Uart.Overlap.{uart_route_to-uart_read_byte}

abbrev empty : Uart
empty = record {
  initialized = true;
  terminate = false;
  input_buffer = record {
    buffer = replicate output_size 0;
    head = 0;
    tail = 0;
    max = output_size;
    full = false;
  };
}

abbrev start : System
start = record { uart = empty; server = reading; arrived = []; taken = []; lost = 0 }

start-IsStream : IsStream start
unfolding ring_buffer_size
start-IsStream = record {
  valid = record {
    some_room = omega arith;
    inside = omega (arith, length-replicate {A = ℕ} output_size 0);
    small = omega arith;
    head_in = omega arith;
    tail_in = omega arith;
    met = λ h. cc;
  };
  size = refl;
  account = refl;
  suffix = refl;
  whole = λ none_lost. refl;
}

-- The thread reads two bytes and copies them, and the gateway takes one.
abbrev arriving : System
arriving = record start { server = server_read empty (some (7 ∷ 8 ∷ [])) }

abbrev filled : Uart
filled = record empty { input_buffer = copy_from_loop empty.input_buffer (7 ∷ 8 ∷ []) }

abbrev arrived : System
arrived = record {
  uart = filled;
  server = server_test filled;
  arrived = 7 ∷ 8 ∷ [];
  taken = [];
  lost = 0 + (length (contents empty.input_buffer) + 2 - output_size);
}

abbrev at_the_end : System
at_the_end = record arrived {
  uart = (uart_read_byte filled).1;
  taken = [] ++ (uart_read_byte filled).0 ∷ [];
}

run : Runs start at_the_end
unfolding server_read server_copy ring_buffer_copy_from copy_from_loop ring_buffer_push
    ring_buffer_is_empty
run =
    later (later (later here (read (some (7 ∷ 8 ∷ [])) refl)) (copy (7 ∷ 8 ∷ []) refl refl))
      (take refl)

Runs-IsStream_example : IsStream at_the_end
Runs-IsStream_example = Runs-IsStream run start-IsStream

-- Three bytes wait, and a message of two is sent.
abbrev pending : Uart
pending = record empty {
  input_buffer = record { buffer = 7 ∷ 8 ∷ 9 ∷ 0 ∷ []; head = 3; tail = 0; max = 4; full = false };
}

uart_route_to-uart_read_byte_example :
    Ensures
      (uart_route_to true true pending (253 ∷ 9 ∷ []) (some 2))
      (λ (rv, uart'). (uart_read_byte uart').0 ≡ get_or (253 ∷ 9 ∷ []) 0 0)
unfolding ring_buffer_is_empty
uart_route_to-uart_read_byte_example =
    uart_route_to-uart_read_byte true true pending (253 ∷ 9 ∷ []) (some 2) refl refl (omega arith)
