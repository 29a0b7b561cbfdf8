-- ===== src/Lib.antt =====
-- The Secure MAVLink Gateway. It stands between a drone's flight controller (the vehicle) and the
-- ground side (a legacy operating system and enclaves) and passes MAVLink messages between them, but
-- for those that its security policies reject.
--
-- The parts, and the files that model them:
-- - Bitmap: `struct bitmap_t` of lib/secure_gateway.h, the set of sinks of a message.
-- - Message, Ports: `struct message_t`, the tables of sources and sinks, `source_allocate`,
--   `sink_allocate`, `source_get` and `sink_get` (lib/secure_gateway.h and .c).
-- - Policy, Policy.Rules: `policy_register` and the functions of lib/security_policies.c.
-- - Pipeline: `pipeline_init`, `route_table_route`, `pipeline_inspect`, `pipeline_push`,
--   `pipeline_get_sink` and `add_transformer`, with the table of lib/route_table.c. Pipeline.Verdict
--   says what the default policies reject, Pipeline.Routes where the others go, and Pipeline.Limits
--   which indices `add_transformer` takes.
-- - Perf: the counters `perf_*` of lib/secure_gateway.c, and Perf.Show `perf_show`. Perf.Counts is
--   about what they count, Perf.Report about the divisions of `perf_show`, and Perf.Updates about
--   updates inside the tables.
-- - Console: the handlers and `console_spin` of lib/plugins/console.c, and Console.Input its `read_char`.
-- - Spin: `pipeline_spin`, `pipeline_connect` and `pipeline_disconnect`, which put the parts together:
--   the bytes of each source go to the parser, a whole message to the counters, the transformer and
--   `pipeline_push`, and then come the console and `perf_show`. Spin.Ready says what a round relies on,
--   Spin.Delivery, Spin.Bytes, Spin.Sources and Spin.Total follow its calls, Spin.Start is about
--   `pipeline_init`, Spin.Connect about `pipeline_connect`, and Spin.Loop has the loop of main.c.
-- - Transformer: lib/transformer_xor.c and lib/transformer_none.c.
-- - Ring: lib/ring_buffer.h. Ring.Queue is the queue that it promises, and Ring.Refine,
--   Ring.Transfer and Ring.Copies compare the two.
-- - Hooks: the `hook_*` functions of lib/source_*.c, which put a connection to a device into a source and
--   a sink. Hooks.Ready and Hooks.Connected are about what they leave, Hooks.Setup and Hooks.Fits about
--   what `main` of main.c sets up with them, and Hooks.Main has the whole of `main`.
-- - Handover: the buffer that the receiving threads of lib/source_tcp.c, lib/source_tcpout.c and
--   lib/source_udp.c hand to the gateway under a lock and a condition, as steps of the two.
--   Handover.Stream is about every order of the steps, Handover.Progress about wake-ups, Handover.Bounds
--   about the indices, and Handover.Reads about what the gateway's calls find. A run ends before a
--   clean-up destroys the lock and the condition.
-- - Tcp, TcpOut, Udp: the three sockets, each with its thread as a receiver of Handover. Tcp.Single has
--   the functions of a build without threads, and Udp.Calls.Clients is about whom the UDP socket
--   answers.
-- - Cleanup: what the clean-ups of these three and of the UART release, with Cleanup.Order about the order.
-- - Ringleader: lib/source_ringleader.c. Ringleader.ReadyBytes has the bytes that wait, compared with a
--   queue in Ringleader.Contents; Ringleader.Bounds is about their indices, and Ringleader.Total and
--   Ringleader.Once about sequences of calls of `ringleader_tcp_tick`.
-- - Polled: the sources that ask their device for bytes, with Polled.Partee (lib/source_partee.c),
--   Polled.Thinros (lib/source_thinros_certikos.c) and Polled.CertikosUart
--   (lib/source_certikos_uart.c). Each is a `Polled` source, over which Polled.Drain follows the loop on
--   `has_more`; Polled.Every takes the three together.
-- - Results: the result codes of the sources and sinks.
-- - Uart: lib/source_uart.c, the thread `uart_server` and the functions that the gateway calls, with the
--   ring that they share under a lock. Uart.Stream has their steps, and Uart.Overlap the memory that
--   input and output share. Uart.Hook is `hook_uart`, and Uart.Device the settings of the terminal.
-- - Stdio: lib/source_stdio.c, the sink that prints messages. Stdio.Offsets is about which bytes it prints.
-- - Log: lib/log_ringleader.c. Log.Writer is about the writer that the lines go to.
-- - Adapter, Tunnel, Bridge: tools/tcp_bridge.cc, a program of its own that joins two TCP connections by
--   two tunnels, one for each direction, each with a thread that receives and one that sends. Adapter has
--   `class Adapter` and `class TCPAdapter`, with Adapter.Counters and Adapter.Descriptors about what `recv`
--   counts and leaves open. Tunnel has the steps of the two threads, with Tunnel.Relay and Tunnel.Steps
--   about every order of them, Tunnel.Sent about the packets that reach the socket, Tunnel.Progress about
--   the sender alone, Tunnel.Stuck about the destructor, and Tunnel.Pace about the bandwidth. Bridge has `main`, Bridge.Relayed and Bridge.Stuck the bridge as
--   a whole, and Bridge.Monitor what it prints.
-- - Prelude, Outcome: arrays, bits and the results of a call. Example: a small platform for tests.
--
-- How C is modelled. A function with effects takes the state it works on and returns an `Outcome`: the
-- new state, or how the call went wrong (an `ASSERT` that fails, an access outside an array, a call
-- through a null pointer, a division by zero). A struct is a record, a table a list, a function
-- pointer an `Option` of a function, and an unsigned integer a natural number with its wrap-around
-- written out. The build is one with PROFILING; DEBUG and USE_CONSOLE are arguments.
--
-- What is not under this repository is a parameter, `Platform`: the generated MAVLink headers, the
-- clock, the terminal, and the devices, which all lie in its `World`. What a theorem needs of them is
-- a hypothesis, and Example shows that it can hold.
--
-- Bounds and fuel. The loops over tables and arrays are structural. Only `read_loop`, which ends when
-- the device has no more bytes, takes fuel, one unit for each byte and one for the last question; where
-- it runs out the outcome is `no_fuel`. Spin.Total is about how much is enough. `recv_loop` takes one
-- unit for each byte of the packet and one to end, which Ringleader.Bounds is about, and `drain` of
-- Polled.Drain as `read_loop` does.
--
-- Not modelled: what the destructors of the bridge close and free, where the ring leader's arenas lie,
-- the text of the log lines that the pipeline prints, that `pipeline_connect` and `pipeline_disconnect`
-- pass the port where its connection is expected, and the programs in test/.
pub mod Prelude
pub mod Outcome
pub mod Results
pub mod Bitmap
pub mod Ring
pub mod Platform
pub mod Message
pub mod Ports
pub mod Policy
pub mod Perf
pub mod Pipeline
pub mod Console
pub mod Transformer
pub mod Spin
pub mod Hooks
pub mod Uart
pub mod Handover
pub mod Tcp
pub mod TcpOut
pub mod Udp
pub mod Ringleader
pub mod Polled
pub mod Adapter
pub mod Tunnel
pub mod Cleanup
pub mod Bridge
pub mod Log
pub mod Stdio
pub mod Example
