-- ===== src/Adapter.antt =====
-- `class Adapter` and `class TCPAdapter` of tools/tcp_bridge.cc: one end of the bridge, a connection
-- that the bridge itself opens. What a system call returns is an argument, and -1 is `none`.
pub mod Counters
pub mod Descriptors
use secure_mavlink_gateway.Prelude.{
  ℕ, ◌+◌, ◌-◌, ◌%◌, ◌^◌, Bool, true, false, not, ◌&&◌, Option, none, some, List, [], ◌∷◌, ◌++◌,
  length, take, replicate, if◌then◌else◌,
}

-- `struct adapter_metrics_t`, of `uint64_t`.
pub record AdapterMetrics : Type 0 where
  pub bytes_sent : ℕ
  pub bytes_received : ℕ
  pub packets_sent : ℕ
  pub packets_received : ℕ

abbrev pub add64 : ℕ → ℕ → ℕ
add64 a b = (a + b) % 2 ^ 64

-- `left_open` has the descriptors that were opened, were not closed, and are kept nowhere.
pub record Adapter : Type 0 where
  pub terminate : Bool
  pub metrics : AdapterMetrics
  pub ip : List ℕ
  pub port : ℕ
  pub fd : Option ℕ
  pub left_open : List ℕ

-- `strncpy` into `char ip[16]`
unfoldable pub copy_ip : List ℕ → List ℕ
copy_ip ip = take 16 (ip ++ replicate 16 0)

unfoldable pub tcp_adapter : List ℕ → ℕ → Adapter
unfolding copy_ip
tcp_adapter ip port = record {
  terminate = false;
  metrics = record { bytes_sent = 0; bytes_received = 0; packets_sent = 0; packets_received = 0 };
  ip = copy_ip ip;
  port = port;
  fd = none;
  left_open = [];
}

-- `is_connected`
unfoldable pub is_connected : Adapter → Bool
is_connected a = elim a.fd [ none ↦ false | some fd ↦ true ]

-- What `socket` returned, and whether `setsockopt`, `inet_pton` and `::connect` succeed.
pub record Dial : Type 0 where
  pub socket : Option ℕ
  pub reused : Bool
  pub parsed : Bool
  pub accepted : Bool

abbrev pub succeeds : Dial → Bool
succeeds d = d.reused && (d.parsed && d.accepted)

-- `connect` up to the call of `socket`, whose result the other threads see from then on.
unfoldable pub open_socket : Dial → Adapter → Adapter
open_socket d a = record a { fd = d.socket }

-- The rest of `connect`, and whether it returns 0. A failure forgets the descriptor.
unfoldable pub set_up_socket : Dial → Adapter → Bool × Adapter
set_up_socket d a = elim a.fd [
  | none ↦ (false, a)
  | some fd ↦
      if succeeds d
      then (true, a)
      else (false, record a { fd = none; left_open = fd ∷ a.left_open })
]

unfoldable pub connect : Dial → Adapter → Bool × Adapter
unfolding open_socket set_up_socket
connect d a = set_up_socket d (open_socket d a)

-- `TCPAdapter::disconnect`
unfoldable pub disconnect : Adapter → Adapter
disconnect a = record a { terminate = true; fd = none }

-- `do_recv`: `recv` returned -1, or so many bytes; none of them is the end of the connection, which is
-- closed.
unfoldable pub do_recv : Option (List ℕ) → Adapter → Option (List ℕ) × Adapter
do_recv none a = (none, a)
do_recv (some []) a = (some [], record a { fd = none })
do_recv (some (byte ∷ bytes)) a = (some (byte ∷ bytes), a)

-- An `int` result as it is added to a `uint64_t`.
unfoldable pub as_u64 : Option (List ℕ) → ℕ
as_u64 none = 2 ^ 64 - 1
as_u64 (some bytes) = length bytes

-- The rest of `Adapter::recv`, once it is connected.
unfoldable pub receive_once : Option (List ℕ) → Adapter → Option (List ℕ) × Adapter
unfolding do_recv as_u64
receive_once answer a =
    let (rv, a') = do_recv answer a in
    (
      rv,
      record a' {
        metrics = record (a'.metrics) {
          packets_received = add64 a'.metrics.packets_received 1;
          bytes_received = add64 a'.metrics.bytes_received (as_u64 rv);
        };
      },
    )

-- The loop of `Adapter::recv` while there is no connection, for so many attempts.
unfoldable pub redial : List Dial → Adapter → Adapter
unfolding is_connected connect
redial [] a = a
redial (d ∷ ds) a = let next = redial ds (connect d a).1 in if is_connected a then a else next

-- `Adapter::recv`; `none` while it is still without a connection after these attempts.
unfoldable pub recv : List Dial → Option (List ℕ) → Adapter → Option (Option (List ℕ) × Adapter)
unfolding redial receive_once is_connected
recv dials answer a =
    let a' = redial dials a in if is_connected a' then some (receive_once answer a') else none

-- What `Adapter::send` counts, whatever `do_send` returned.
unfoldable pub count_sent : ℕ → Adapter → Adapter
count_sent size a = record a {
  metrics = record (a.metrics) {
    packets_sent = add64 a.metrics.packets_sent 1;
    bytes_sent = add64 a.metrics.bytes_sent size;
  };
}

-- `Adapter::send`, and its result; `took` is what `::send` returned. Without a connection the bytes are
-- dropped, and it returns their number.
unfoldable pub send : Option ℕ → List ℕ → Adapter → Option ℕ × Adapter
unfolding is_connected count_sent
send took bytes a =
    if not (is_connected a) then (some (length bytes), a) else (took, count_sent (length bytes) a)
