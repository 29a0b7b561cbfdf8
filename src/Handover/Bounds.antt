-- ===== src/Handover/Bounds.antt =====
-- The indices that a receiving thread and the gateway use in the buffer.
use secure_mavlink_gateway.Prelude.{
  ℕ, ap, inl, inr, Bool-cases, ◌≤◌, ◌≡◌, subst, Bool, true, false, List, length, drop,
  length-append, length-drop, leb, if◌then◌else◌, arith,
}
use secure_mavlink_gateway.Handover.{
  Buffer, buffer_bytes, Place, top, testing, asleep, woken, ended, locking, resizing, receive,
  rewind, resize, read_locked, signal, wait_test, unread, Receiver, System, Step, fail, recv, lock,
  store, test, retest, wake, finish, more, none_more, notify, read, cleanup, Runs, here, later,
}

-- The buffer keeps its size, and neither index passes its end.
abbrev pub InBuffer : Buffer → Type 0
InBuffer b =
    (length b.bytes ≡ buffer_bytes) × (b.cur_read ≤ buffer_bytes) × (b.buffer_size ≤ buffer_bytes)

-- The size that the thread is about to store.
abbrev pub Stores : Place → Type 0
Stores (locking n) = n ≤ buffer_bytes
Stores (resizing n) = n ≤ buffer_bytes
Stores place = Unit

signal-Stores : (p : Place) → Stores p → Stores (signal p)
unfolding signal
signal-Stores top v = v
signal-Stores ended v = v
signal-Stores (locking n) v = v
signal-Stores (resizing n) v = v
signal-Stores testing v = v
signal-Stores asleep v = v
signal-Stores woken v = v

read_Stores : (empty : Bool) (p : Place) → Stores p → Stores (if empty then signal p else p)
read_Stores true p v = signal-Stores p v
read_Stores false p v = v

wait_test-Stores : (b : Buffer) → Stores (wait_test b)
unfolding wait_test
wait_test-Stores b = elim (Bool-cases (unread b)) [ inl left ↦ rw left tt | inr all ↦ rw all tt ]

receive-InBuffer :
    (b : Buffer) (bytes : List ℕ)
    → length bytes ≤ buffer_bytes
    → InBuffer b
    → InBuffer (receive b bytes)
unfolding receive
receive-InBuffer b bytes room (size, read_index, end_index) =
    let old = drop (length bytes) b.bytes in
    (
      omega (arith, length-append bytes old, length-drop (length bytes) b.bytes),
      read_index,
      end_index,
    )

read_locked-InBuffer : (b : Buffer) → InBuffer b → InBuffer (read_locked b).1
unfolding read_locked
read_locked-InBuffer b (size, read_index, end_index) =
    elim (Bool-cases (leb b.buffer_size b.cur_read)) [
      | inl all ↦ rw all (size, read_index, end_index)
      | inr left ↦ rw left (size, ground arith, end_index)
    ]

module _ {L Env : Type 0} (receiver : Receiver L Env) where
  abbrev pub InBounds : System L → Type 0
  InBounds s = InBuffer s.socket.buffer × Stores s.place

  Step-InBounds : {s t : System L} → Step receiver s t → InBounds s → InBounds t
  unfolding rewind resize
  Step-InBounds (fail e at running failed) v = v
  Step-InBounds {s} (recv e bytes room at running got) v =
      (receive-InBuffer s.socket.buffer bytes room v.0, room)
  Step-InBounds (lock n at) ((size, read_index, end_index), stores) =
      ((size, omega arith, end_index), subst Stores at stores)
  Step-InBounds (store n at) ((size, read_index, end_index), stores) =
      ((size, read_index, subst Stores at stores), tt)
  Step-InBounds {s} (test at) v = (v.0, wait_test-Stores s.socket.buffer)
  Step-InBounds {s} (retest at) v = (v.0, wait_test-Stores s.socket.buffer)
  Step-InBounds (wake at) v = (v.0, tt)
  Step-InBounds (finish at ends) v = (v.0, tt)
  Step-InBounds (more at yes_more) v = v
  Step-InBounds (none_more at no_more) v = v
  Step-InBounds {s} (notify at free) v = (v.0, signal-Stores s.place v.1)
  Step-InBounds {s} (read {byte} {b} {empty} at free got) v = (
    subst InBuffer (ap (λ p. p.1) got) (read_locked-InBuffer s.socket.buffer v.0),
    read_Stores empty s.place v.1,
  )
  Step-InBounds cleanup v = v

  -- Every run keeps this, whatever the order of its steps: the buffer stays 4096 bytes long, `cur_read`
  -- and `buffer_size` stay at most that, and so does every size the thread is about to store.
  pub Runs-InBounds : {s t : System L} → Runs receiver s t → InBounds s → InBounds t
  Runs-InBounds here v = v
  Runs-InBounds (later run step) v = Step-InBounds step (Runs-InBounds run v)
