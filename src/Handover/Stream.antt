-- ===== src/Handover/Stream.antt =====
-- What the gateway reads from a receiving thread, whatever the order of their steps.
use mathlib.Core.List.{append_assoc, append-nil}
use secure_mavlink_gateway.Prelude.{
  ℕ, ◌<◌, ◌≤◌, ◌≡◌, refl, sym, ap, ◌∙◌, subst, [], ◌∷◌, ◌++◌, length, take, drop, length-append,
  if◌then◌else◌, arith,
}
use secure_mavlink_gateway.Handover.Places.{
  Fits, rest_of, pending, Readable, wait_test-Fits, signal-Fits, has_pending-Readable,
  read_locked-Fits, take-length_append,
}
use secure_mavlink_gateway.Handover.{
  Place, receive, rewind, resize, wait_test, signal, Receiver, reading, System, Step, fail, recv,
  lock, store, test, retest, wake, finish, more, none_more, notify, read, cleanup, Runs, here,
  later,
}

module _ {L Env : Type 0} (receiver : Receiver L Env) where
  -- What arrived was read or is still to be read, in order, and a read that follows `has_more` finds a
  -- byte.
  pub record IsOrdered (s : System L) : Type 0 where
    pub fits : Fits s.place s.socket.buffer
    pub order : s.taken ++ pending s.place s.socket.buffer ≡ s.arrived
    pub readable : s.client ≡ reading → Readable s.place s.socket.buffer

  -- The same at a place that the thread is known to be at.
  at-IsOrdered :
      {s : System L} {p : Place}
      → s.place ≡ p
      → IsOrdered s
      → Fits p s.socket.buffer
        × (s.taken ++ pending p s.socket.buffer ≡ s.arrived)
        × (s.client ≡ reading → Readable p s.socket.buffer)
  at-IsOrdered {s} at v =
      let b = s.socket.buffer in
      (
        subst (λ q. Fits q b) at v.fits,
        ap (λ q. s.taken ++ pending q b) (sym at) ∙ v.order,
        λ r. subst (λ q. Readable q b) at (v.readable r),
      )

  -- The inner loop of the thread tests.
  tested-IsOrdered :
      (s : System L)
      → s.socket.buffer.buffer_size ≤ length s.socket.buffer.bytes
      → s.taken ++ rest_of s.socket.buffer ≡ s.arrived
      → (s.client ≡ reading → s.socket.buffer.cur_read < s.socket.buffer.buffer_size)
      → IsOrdered (record s { place = wait_test s.socket.buffer })
  tested-IsOrdered s fits order readable =
      let (fits', same, found) = wait_test-Fits s.socket.buffer fits in
      record {
        fits = fits';
        order = ap (λ q. s.taken ++ q) same ∙ order;
        readable = λ r. found (readable r);
      }

  pub Step-IsOrdered : {s t : System L} → Step receiver s t → IsOrdered s → IsOrdered t
  unfolding receive rewind resize
  Step-IsOrdered (fail e at running failed) v = record {
    fits = v.fits;
    order = v.order;
    readable = v.readable;
  }
  Step-IsOrdered {s} (recv e bytes room at running got) v =
      let old = drop (length bytes) s.socket.buffer.bytes in
      let (size, all, none_reads) = at-IsOrdered at v in
      record {
        fits =
            (receiver.nonempty e s.socket.link got, omega (arith, length-append bytes old), size);
        order =
            ap (λ q. s.taken ++ q) (take-length_append bytes old)
            ∙ ap (λ q. q ++ bytes) (sym (append-nil s.taken) ∙ all);
        readable = λ r. absurd (none_reads r);
      }
  Step-IsOrdered (lock n at) v =
      let ((some, inside, size), order, none_reads) = at-IsOrdered at v in
      record { fits = (some, inside, refl); order = order; readable = λ r. tt }
  Step-IsOrdered {s} (store n at) v =
      let ((some, inside, begin), order, reads) = at-IsOrdered at v in
      record {
        fits = inside;
        order = ap (λ (c : ℕ). s.taken ++ drop c (take n s.socket.buffer.bytes)) begin ∙ order;
        readable = λ r. omega (arith, some, begin);
      }
  Step-IsOrdered {s} (test at) v =
      let (fits, order, reads) = at-IsOrdered at v in tested-IsOrdered s fits order reads
  Step-IsOrdered {s} (retest at) v =
      let (fits, order, reads) = at-IsOrdered at v in tested-IsOrdered s fits order reads
  Step-IsOrdered (wake at) v =
      let (fits, order, reads) = at-IsOrdered at v in
      record { fits = fits; order = order; readable = reads }
  Step-IsOrdered (finish at ends) v =
      let (fits, order, reads) = at-IsOrdered at v in
      record { fits = fits; order = order; readable = reads }
  Step-IsOrdered {s} (more at yes_more) v = record {
    fits = v.fits;
    order = v.order;
    readable = λ r. has_pending-Readable s.place s.socket.buffer v.fits yes_more;
  }
  Step-IsOrdered (none_more at no_more) v = record {
    fits = v.fits;
    order = v.order;
    readable = λ r. cc;
  }
  Step-IsOrdered {s} (notify at free) v =
      let (fits, same) = signal-Fits s.place s.socket.buffer v.fits in
      record { fits = fits; order = ap (λ q. s.taken ++ q) same ∙ v.order; readable = λ r. cc }
  Step-IsOrdered {s} (read {byte} {b} {empty} at free got) v =
      let (there, fits, next) =
        read_locked-Fits s.place s.socket.buffer b byte empty v.fits (v.readable at) free got in
      let stays : (if empty then signal s.place else s.place) ≡ s.place = rw there refl in
      record {
        fits = subst (λ p. Fits p b) (sym stays) fits;
        order =
            ap (λ p. (s.taken ++ byte ∷ []) ++ pending p b) stays
            ∙ append_assoc s.taken (byte ∷ []) (pending s.place b)
            ∙ ap (λ q. s.taken ++ q) (sym next)
            ∙ v.order;
        readable = λ r. cc;
      }
  Step-IsOrdered cleanup v = record { fits = v.fits; order = v.order; readable = v.readable }

  -- Every run of a receiving thread and the gateway, whatever the order of their steps, keeps this: the
  -- bytes that were read, followed by those still in the buffer, are the bytes that arrived, in order,
  -- and whenever `has_more` said so there is a byte to read, unless the thread holds the lock.
  pub Runs-IsOrdered : {s t : System L} → Runs receiver s t → IsOrdered s → IsOrdered t
  Runs-IsOrdered here v = v
  Runs-IsOrdered (later run step) v = Step-IsOrdered step (Runs-IsOrdered run v)
