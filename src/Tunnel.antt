-- ===== src/Tunnel.antt =====
-- `class Tunnel` of tools/tcp_bridge.cc: a thread that receives packets from one adapter and a thread
-- that sends them to another, with a queue between them under a lock. What a thread does while it
-- holds the lock is one step, since the queue is used only under the lock.
pub mod Relay
pub mod Steps
pub mod Sent
pub mod Progress
pub mod Stuck
pub mod Pace
use secure_mavlink_gateway.Prelude.{
  ℕ, ◌+◌, ◌≤◌, ◌≡◌, Bool, true, false, ◌&&◌, Option, none, some, List, [], ◌∷◌, ◌++◌, length, ltb,
  if◌then◌else◌,
}
use secure_mavlink_gateway.Adapter.{
  Adapter, Dial, open_socket, set_up_socket, is_connected, receive_once, count_sent,
}

-- `sizeof(packet->data)`
abbrev pub data_bytes : ℕ
data_bytes = 1024

-- Where `receiver_thread` stands: not created, at the head of its loop, in `recv`, in `connect` with a
-- socket, before `mtx_lock` with a packet, or at its end.
pub data Receiver : Type 0 where
  unborn heading receiving left : Receiver
  dialing : Dial → Receiver
  storing : List ℕ → Receiver

-- Where `sender_thread` stands: not created, at the head of its loop, before the test of the inner loop,
-- in `cnd_wait`, in `send` before and after its test of the connection, before the second `mtx_lock`
-- after a packet of some size, before its sleep, or at its end.
pub data Sender : Type 0 where
  unstarted looping popping waiting ended : Sender
  sending writing : List ℕ → Sender
  trimming pacing : ℕ → Sender

-- `bandwidth` and `max_queue_size` are 0 also where the source has a negative number, which means the
-- same. A packet is its bytes.
pub record Tunnel : Type 0 where
  pub queue : List (List ℕ)
  pub terminate : Bool
  pub bandwidth : ℕ
  pub max_queue_size : ℕ
  pub receiver : Receiver
  pub sender : Sender

-- The constructor.
unfoldable pub tunnel : ℕ → Tunnel
tunnel bandwidth = record {
  queue = [];
  terminate = false;
  bandwidth = bandwidth;
  max_queue_size = 0;
  receiver = unborn;
  sender = unstarted;
}

unfoldable pub set_max_queue_size : ℕ → Tunnel → Tunnel
set_max_queue_size size t = record t { max_queue_size = size }

-- `start`, and whether it returns 0; the arguments are whether `thrd_create` succeeds.
unfoldable pub start : Bool → Bool → Tunnel → Bool × Tunnel
start false created t = (false, t)
start true false t = (false, record t { receiver = heading })
start true true t = (true, record t { receiver = heading; sender = looping })

-- `cnd_signal`
unfoldable pub signal_sender : Sender → Sender
signal_sender waiting = popping
signal_sender sender = sender

-- What `receiver_thread` does under the lock.
unfoldable pub push : List ℕ → Tunnel → Tunnel
unfolding signal_sender
push packet t = record t {
  queue = t.queue ++ packet ∷ [];
  receiver = heading;
  sender = signal_sender t.sender;
}

-- The inner loop of `sender_thread` and `pop_front`, with what is in the queue.
unfoldable pub pop_from : List (List ℕ) → Tunnel → Tunnel
pop_from [] t = record t { sender = waiting }
pop_from (packet ∷ queue) t = record t { sender = sending packet; queue = queue }

unfoldable pub pop : Tunnel → Tunnel
unfolding pop_from
pop t = pop_from t.queue t

-- `max_queue_size > 0 && queue.size() > max_queue_size`
unfoldable pub overflows : Tunnel → Bool
overflows t = ltb 0 t.max_queue_size && ltb t.max_queue_size (length t.queue)

-- What `sender_thread` does under the lock after a packet of this size.
unfoldable pub trim : ℕ → Tunnel → Tunnel
unfolding overflows
trim size t = record t { sender = pacing size; queue = if overflows t then [] else t.queue }

-- Where the receiver goes on with the result of `recv`.
unfoldable pub after_recv : Option (List ℕ) → Receiver
after_recv none = heading
after_recv (some []) = heading
after_recv (some (byte ∷ bytes)) = storing (byte ∷ bytes)

-- What the destructor does before it joins the threads.
unfoldable pub shut_down : Tunnel → Tunnel
unfolding signal_sender
shut_down t = record t { terminate = true; sender = signal_sender t.sender }

-- A tunnel, and, for the theorems, the packets that were stored in the queue, those given to
-- `Adapter::send`, those of them that it handed to the socket, and how many were removed from the queue.
pub record Flow : Type 0 where
  pub tunnel : Tunnel
  pub stored : List (List ℕ)
  pub given : List (List ℕ)
  pub sent : List (List ℕ)
  pub dropped : ℕ

abbrev pub at_receiver : Receiver → Flow → Flow
at_receiver place f = record f { tunnel = record (f.tunnel) { receiver = place } }

abbrev pub at_sender : Sender → Flow → Flow
at_sender place f = record f { tunnel = record (f.tunnel) { sender = place } }

-- `Adapter::send` is done with the packet.
abbrev pub past : List ℕ → Flow → Flow
past packet f = record (at_sender (trimming (length packet)) f) { given = f.given ++ packet ∷ [] }

-- The steps of the two threads, and of the destructor up to its first join.
pub data Step (f : Flow) (source sink : Adapter) : Flow → Adapter → Adapter → Type 0 where
  enter :
      f.tunnel.receiver ≡ heading
      → f.tunnel.terminate ≡ false
      → Step f source sink (at_receiver receiving f) source sink
  leave :
      f.tunnel.receiver ≡ heading
      → f.tunnel.terminate ≡ true
      → Step f source sink (at_receiver left f) source sink
  dial :
      (d : Dial)
      → f.tunnel.receiver ≡ receiving
      → is_connected source ≡ false
      → Step f source sink (at_receiver (dialing d) f) (open_socket d source) sink
  dialed :
      (d : Dial)
      → f.tunnel.receiver ≡ dialing d
      → Step f source sink (at_receiver receiving f) (set_up_socket d source).1 sink
  hear :
      {rv : Option (List ℕ)} {source' : Adapter} (answer : Option (List ℕ))
      → f.tunnel.receiver ≡ receiving
      → is_connected source ≡ true
      → receive_once answer source ≡ (rv, source')
      → Step f source sink (at_receiver (after_recv rv) f) source' sink
  store :
      (packet : List ℕ)
      → f.tunnel.receiver ≡ storing packet
      → Step f source sink
          (record f { tunnel = push packet f.tunnel; stored = f.stored ++ packet ∷ [] })
          source
          sink
  begin :
      f.tunnel.sender ≡ looping
      → f.tunnel.terminate ≡ false
      → Step f source sink (at_sender popping f) source sink
  finish :
      f.tunnel.sender ≡ looping
      → f.tunnel.terminate ≡ true
      → Step f source sink (at_sender ended f) source sink
  fetch :
      f.tunnel.sender ≡ popping
      → Step f source sink (record f { tunnel = pop f.tunnel }) source sink
  -- `cnd_wait` may return without a signal.
  wake : f.tunnel.sender ≡ waiting → Step f source sink (at_sender popping f) source sink
  skip :
      (packet : List ℕ)
      → f.tunnel.sender ≡ sending packet
      → is_connected sink ≡ false
      → Step f source sink (past packet f) source sink
  check :
      (packet : List ℕ)
      → f.tunnel.sender ≡ sending packet
      → is_connected sink ≡ true
      → Step f source sink (at_sender (writing packet) f) source sink
  write :
      (packet : List ℕ)
      → f.tunnel.sender ≡ writing packet
      → Step f source sink
          (record (past packet f) { sent = f.sent ++ packet ∷ [] })
          source
          (count_sent (length packet) sink)
  cut :
      (size : ℕ)
      → f.tunnel.sender ≡ trimming size
      → Step f source sink
          (record f {
            tunnel = trim size f.tunnel;
            dropped = if overflows f.tunnel then f.dropped + length f.tunnel.queue else f.dropped;
          })
          source
          sink
  rest :
      (size : ℕ)
      → f.tunnel.sender ≡ pacing size
      → Step f source sink (at_sender looping f) source sink
  shut : Step f source sink (record f { tunnel = shut_down f.tunnel }) source sink
