-- ===== src/Handover/Progress.antt =====
-- No wake-up of a receiving thread is lost.
use mathlib.Core.List.{append-nil}
use secure_mavlink_gateway.Prelude.{
  ℕ, zero, suc, ◌+◌, ◌≤◌, ◌≡◌, refl, sym, ap, ◌∙◌, Bool, true, false, [], ◌∷◌, ◌++◌, if◌then◌else◌,
  arith, Bool-cases, inl, inr,
}
use secure_mavlink_gateway.Handover.{
  Step, Buffer, top, asleep, woken, holds_lock, unread, has_pending, read_locked, wait_test, signal,
  Receiver, idle, signalling, System, retest, more, none_more, notify, read,
}
use secure_mavlink_gateway.Handover.Places.{pending}
use secure_mavlink_gateway.Handover.Stream.{Step-IsOrdered, IsOrdered}

-- A read moves on by one byte.
read_locked-moves :
    (b : Buffer)
    → unread b ≡ true
    → ((read_locked b).2 ≡ false)
      × ((read_locked b).1.buffer_size ≡ b.buffer_size)
      × ((read_locked b).1.cur_read ≡ suc b.cur_read)
unfolding read_locked
read_locked-moves b left = ground arith

no_more : (b : Buffer) → unread b ≡ false → (has_pending b ≡ false) × (wait_test b ≡ top)
unfolding has_pending wait_test
no_more b all = (ground arith, rw all refl)

one_more : (b : Buffer) → unread b ≡ true → has_pending b ≡ true
unfolding has_pending
one_more b left = ground arith

module _ {L Env : Type 0} (receiver : Receiver L Env) where
  -- The steps of the gateway's calls, and the thread's test when it was woken. The thread is not woken
  -- without a signal, and receives nothing.
  abbrev pub IsCall : {s t : System L} → Step receiver s t → Type 0
  IsCall (more free yes_more) = Unit
  IsCall (none_more free no_more) = Unit
  IsCall (notify at free) = Unit
  IsCall (read at free got) = Unit
  IsCall (retest at) = Unit
  IsCall _ = ⊥

  pub data Served (s : System L) : System L → Type 0 where
    none_yet : Served s s
    then_call :
        {t u : System L} → Served s t → (step : Step receiver t u) → IsCall step → Served s u

  Served-trans : {s t u : System L} → Served s t → Served t u → Served s u
  Served-trans run none_yet = run
  Served-trans run (then_call next step call) = then_call (Served-trans run next) step call

  Served-IsOrdered : {s t : System L} → Served s t → IsOrdered receiver s → IsOrdered receiver t
  Served-IsOrdered none_yet v = v
  Served-IsOrdered (then_call run step call) v =
      Step-IsOrdered receiver step (Served-IsOrdered run v)

  -- The thread has handed over all that arrived in `s` and is back at the head of its loop.
  abbrev pub HandsOver : System L → Type 0
  HandsOver s =
      (t : System L) × Served s t
      × (t.place ≡ top)
      × (t.taken ≡ s.arrived)
      × (t.arrived ≡ s.arrived)

  -- Nothing is left: `has_more` says so, signals, and the thread goes on.
  last_call :
      (s : System L)
      → unread s.socket.buffer ≡ false
      → s.place ≡ asleep
      → s.client ≡ idle
      → IsOrdered receiver s
      → HandsOver s
  unfolding signal
  last_call s all at free v =
      let (none_left, goes) = no_more s.socket.buffer all in
      let s₁ = record s { client = signalling } in
      let s₂ = record s { client = idle; place = signal s.place } in
      let s₃ = record s { client = idle; place = wait_test s.socket.buffer } in
      let woke : signal s.place ≡ woken = ap signal at in
      let run : Served s s₃ =
        then_call
          (then_call (then_call none_yet (none_more free none_left) tt)
            (notify refl (ap holds_lock at)) tt)
          (retest woke) tt in
      let v₃ = Served-IsOrdered run v in
      (
        s₃,
        run,
        goes,
        sym (append-nil s.taken)
            ∙ ap (λ p. s.taken ++ pending p s.socket.buffer) (sym goes)
            ∙ v₃.order,
        refl,
      )

  hand_over :
      (n : ℕ) (s : System L)
      → s.socket.buffer.buffer_size ≤ s.socket.buffer.cur_read + n
      → s.place ≡ asleep
      → s.client ≡ idle
      → IsOrdered receiver s
      → HandsOver s
  hand_over zero s few at free v = last_call s (ground arith) at free v
  hand_over (suc n) s few at free v = elim (Bool-cases (unread s.socket.buffer)) [
    | inr all ↦ last_call s all at free v
    | inl left ↦
        let b = s.socket.buffer in
        let (full, size, moved) = read_locked-moves b left in
        let s₁ = record s {
          socket = record (s.socket) { buffer = (read_locked b).1 };
          client = idle;
          place = if (read_locked b).2 then signal s.place else s.place;
          taken = s.taken ++ (read_locked b).0 ∷ [];
        } in
        let run : Served s s₁ =
          then_call (then_call none_yet (more free (one_more b left)) tt)
            (read refl (ap holds_lock at) refl) tt in
        let (t, rest, goes, same, same') =
          hand_over n s₁ (omega (arith, size, moved))
            (ap (λ (e : Bool). if e then signal s.place else s.place) full ∙ at) refl
            (Served-IsOrdered run v) in
        (t, Served-trans run rest, goes, same, same')
  ]

  -- While the thread sleeps with bytes to hand over and the gateway is free, the gateway's own calls of
  -- `has_more` and `read_byte` alone, with the lock free at each, bring it to read every byte that
  -- arrived, and the thread, woken by a signal, back to the head of its loop: no wake-up is lost.
  pub IsOrdered-HandsOver :
      (s : System L) → s.place ≡ asleep → s.client ≡ idle → IsOrdered receiver s → HandsOver s
  IsOrdered-HandsOver s at free v = hand_over s.socket.buffer.buffer_size s (omega arith) at free v
