-- ===== src/Handover.antt =====
-- The buffer that a receiving thread hands to the gateway, in `struct tcp_socket_t` (lib/source_tcp.c),
-- `struct tcpout_socket_t` (lib/source_tcpout.c) and `struct udp_socket_t` (lib/source_udp.c), which
-- share this protocol. The thread stores the sizes under the lock, and fills the buffer and looks at
-- its connection without it.
pub mod Places
pub mod Stream
pub mod Progress
pub mod Bounds
pub mod Reads
use secure_mavlink_gateway.Prelude.{
  ℕ, ◌≤◌, ◌+◌, ◌≡◌, ◌<◌, Bool, true, false, ◌&&◌, Option, none, some, List, [], ◌∷◌, ◌++◌, length,
  drop, get_or, ltb, leb, if◌then◌else◌,
}

-- `sizeof(buffer)`
abbrev pub buffer_bytes : ℕ
buffer_bytes = 4096

pub record Buffer : Type 0 where
  pub bytes : List ℕ
  pub cur_read : ℕ
  pub buffer_size : ℕ

-- A socket: `link` is the part that only the thread and the sink look at.
pub record Socket (L : Type 0) : Type 0 where
  pub initialized : Bool
  pub terminate : Bool
  pub link : L
  pub buffer : Buffer

-- `cur_read < buffer_size`
abbrev pub unread : Buffer → Bool
unread b = ltb b.cur_read b.buffer_size

-- The test of `has_more` without the lock.
unfoldable pub has_pending : Buffer → Bool
has_pending b = ltb 0 b.buffer_size && unread b

-- What `recv` stores at the front of the buffer.
unfoldable pub receive : Buffer → List ℕ → Buffer
receive b bytes = record b { bytes = bytes ++ drop (length bytes) b.bytes }

-- `cur_read = 0` and `buffer_size = read`, one after the other.
unfoldable pub rewind : Buffer → Buffer
rewind b = record b { cur_read = 0 }

unfoldable pub resize : Buffer → ℕ → Buffer
resize b n = record b { buffer_size = n }

-- The body of `read_byte` under the lock: the byte, the buffer, and whether `buffer_empty` is
-- signalled.
unfoldable pub read_locked : Buffer → ℕ × Buffer × Bool
read_locked b =
    if leb b.buffer_size b.cur_read
    then (0, b, true)
    else (get_or b.bytes b.cur_read 0, record b { cur_read = b.cur_read + 1 }, false)

-- Where the thread stands: at the head of its loop, before `mtx_lock` with so many bytes received,
-- between the two stores, before the test of the inner loop, in `cnd_wait`, woken there, or at its
-- end.
pub data Place : Type 0 where
  top testing asleep woken ended : Place
  locking resizing : ℕ → Place

-- Between `mtx_lock` and `cnd_wait` or `mtx_unlock`.
abbrev pub holds_lock : Place → Bool
holds_lock (resizing n) = true
holds_lock testing = true
holds_lock _ = false

-- The test of the inner loop.
unfoldable pub wait_test : Buffer → Place
wait_test b = if unread b then asleep else top

-- `cnd_signal`
unfoldable pub signal : Place → Place
signal asleep = woken
signal place = place

-- One round of a thread up to `mtx_lock`: what the system calls returned, the connection, and the bytes
-- to hand over; `none` goes round again.
pub record Receiver (L Env : Type 0) : Type 0 where
  pub turn : Env → L → L × Option (List ℕ)
  pub nonempty :
      (e : Env) (l : L) {l' : L} {bytes : List ℕ} → turn e l ≡ (l', some bytes) → 0 < length bytes

-- The gateway: about to call `has_more`, about to signal, or about to call `read_byte`.
pub data Client : Type 0 where
  idle signalling reading : Client

-- All of it, and, for the theorems, the bytes that were received and those that were read.
pub record System (L : Type 0) : Type 0 where
  pub socket : Socket L
  pub place : Place
  pub client : Client
  pub arrived : List ℕ
  pub taken : List ℕ

-- Before the first step of the thread.
abbrev pub start : {L : Type 0} → Socket L → System L
start socket = record { socket = socket; place = top; client = idle; arrived = []; taken = [] }

module _ {L Env : Type 0} (receiver : Receiver L Env) where
  open receiver use {turn}

  -- The steps of the thread and of the gateway. A step that takes the lock waits until it is free, and
  -- `recv` stores no more than it is given room for.
  pub data Step (s : System L) : System L → Type 0 where
    fail :
        (e : Env) {l : L}
        → s.place ≡ top
        → s.socket.terminate ≡ false
        → turn e s.socket.link ≡ (l, none)
        → Step s (record s { socket = record (s.socket) { link = l } })
    recv :
        (e : Env) {l : L} (bytes : List ℕ)
        → length bytes ≤ buffer_bytes
        → s.place ≡ top
        → s.socket.terminate ≡ false
        → turn e s.socket.link ≡ (l, some bytes)
        → Step s (record s {
          socket = record (s.socket) { link = l; buffer = receive s.socket.buffer bytes };
          place = locking (length bytes);
          arrived = s.arrived ++ bytes;
        })
    lock :
        (n : ℕ)
        → s.place ≡ locking n
        → Step s (record s {
          socket = record (s.socket) { buffer = rewind s.socket.buffer };
          place = resizing n;
        })
    store :
        (n : ℕ)
        → s.place ≡ resizing n
        → Step s (record s {
          socket = record (s.socket) { buffer = resize s.socket.buffer n };
          place = testing;
        })
    test : s.place ≡ testing → Step s (record s { place = wait_test s.socket.buffer })
    retest : s.place ≡ woken → Step s (record s { place = wait_test s.socket.buffer })
    -- `cnd_wait` may return without a signal.
    wake : s.place ≡ asleep → Step s (record s { place = woken })
    finish : s.place ≡ top → s.socket.terminate ≡ true → Step s (record s { place = ended })
    more :
        s.client ≡ idle
        → has_pending s.socket.buffer ≡ true
        → Step s (record s { client = reading })
    none_more :
        s.client ≡ idle
        → has_pending s.socket.buffer ≡ false
        → Step s (record s { client = signalling })
    notify :
        s.client ≡ signalling
        → holds_lock s.place ≡ false
        → Step s (record s { client = idle; place = signal s.place })
    read :
        {byte : ℕ} {b : Buffer} {empty : Bool}
        → s.client ≡ reading
        → holds_lock s.place ≡ false
        → read_locked s.socket.buffer ≡ (byte, b, empty)
        → Step s (record s {
          socket = record (s.socket) { buffer = b };
          client = idle;
          place = if empty then signal s.place else s.place;
          taken = s.taken ++ byte ∷ [];
        })
    -- The flags that a clean-up sets. It destroys the lock and the condition next, and C gives no meaning
    -- to what the thread does with them from there on: the runs are those up to that moment.
    cleanup :
        Step s (record s { socket = record (s.socket) { initialized = false; terminate = true } })

  pub data Runs (s : System L) : System L → Type 0 where
    here : Runs s s
    later : {t u : System L} → Runs s t → Step t u → Runs s u
