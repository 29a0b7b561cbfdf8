-- ===== src/Handover/Reads.antt =====
-- What the gateway's calls find in the buffer of a receiving thread.
use secure_mavlink_gateway.Prelude.{
  ℕ, ◌≤◌, ◌≡◌, refl, sym, ap, ◌∙◌, Bool, true, false, List, ◌∷◌, ◌++◌,
}
use secure_mavlink_gateway.Handover.{
  Buffer, Socket, holds_lock, has_pending, read_locked, start, Receiver, System, Runs,
}
use secure_mavlink_gateway.Handover.Places.{pending, has_pending-Readable, read_locked-Fits}
use secure_mavlink_gateway.Handover.Stream.{IsOrdered, Runs-IsOrdered}

module _ {L Env : Type 0} (receiver : Receiver L Env) where
  -- A socket with nothing to read is one from which nothing was read.
  start-IsOrdered :
      (socket : Socket L)
      → socket.buffer.buffer_size ≤ socket.buffer.cur_read
      → IsOrdered receiver (start socket)
  start-IsOrdered socket empty = record { fits = empty; order = refl; readable = λ r. cc }

  -- A run from such a socket: what `has_more` sees is the next byte that arrived.
  pub start-read_locked :
      {socket : Socket L} {t : System L}
      → socket.buffer.buffer_size ≤ socket.buffer.cur_read
      → Runs receiver (start socket) t
      → holds_lock t.place ≡ false
      → has_pending t.socket.buffer ≡ true
      → (byte : ℕ) × (rest : List ℕ) × (b : Buffer) × (read_locked t.socket.buffer
          ≡ (byte, b, false))
        × (t.taken ++ byte ∷ rest ≡ t.arrived)
  start-read_locked {socket} {t} empty run free there =
      let v = Runs-IsOrdered receiver run (start-IsOrdered socket empty) in
      let old = t.socket.buffer in
      let (byte, b, signals) = read_locked old in
      let (none_signalled, fits, next) =
        read_locked-Fits t.place old b byte signals v.fits
          (has_pending-Readable t.place old v.fits there) free refl in
      (
        byte,
        pending t.place b,
        b,
        ap (λ (e : Bool). (byte, b, e)) none_signalled,
        ap (λ p. t.taken ++ p) (sym next) ∙ v.order,
      )
