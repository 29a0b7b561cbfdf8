-- ===== src/Uart/Stream.antt =====
-- The thread of `uart_server` beside the gateway, as steps on the shared connection, while nothing is
-- written to the device.
use mathlib.Core.List.{append_assoc}
use secure_mavlink_gateway.Prelude.{
  ℕ, zero, suc, ◌+◌, ◌-◌, ◌<◌, ◌≡◌, refl, sym, ap, ◌∙◌, false, Option, List, [], ◌∷◌, ◌++◌, length,
  drop, length-append, length-drop, lt→ltb, subst, ◌==◌, arith,
}
use secure_mavlink_gateway.Outcome.{done, >>=-eq-done}
use secure_mavlink_gateway.Ring.{
  Ring, ring_buffer_push, ring_buffer_is_empty, ring_buffer_copy_from, ring_buffer_pop,
  copy_from_loop,
}
use secure_mavlink_gateway.Ring.Queue
use secure_mavlink_gateway.Ring.Valid.{IsValid, ring_buffer_pop-IsValid}
use secure_mavlink_gateway.Ring.Refine.{contents}
use secure_mavlink_gateway.Ring.Transfer.{
  ring_buffer_copy_from_lem, ring_buffer_pop_refines, observers_lem,
}
use secure_mavlink_gateway.Uart.{
  Uart, Server, reading, waiting, received, output_size, server_read, server_test, server_copy,
  uart_cleanup, uart_read_byte,
}

-- The connection, where the thread stands, and, for the theorem, the bytes that the thread copied,
-- those that the gateway read, and how many the ring forgot.
pub record System : Type 0 where
  pub uart : Uart
  pub server : Server
  pub arrived : List ℕ
  pub taken : List ℕ
  pub lost : ℕ

abbrev pub ring_of : System → Ring
ring_of s = s.uart.input_buffer

-- The gateway reads a byte only after `uart_has_more`, so the ring is not empty then. `cleanup` is
-- what `uart_cleanup` does while the thread runs.
pub data Step (s : System) : System → Type 0 where
  read :
      (result : Option (List ℕ))
      → s.server ≡ reading
      → Step s (record s { server = server_read s.uart result })
  copy :
      (bytes : List ℕ) {uart' : Uart} {server' : Server}
      → s.server ≡ received bytes
      → server_copy s.uart bytes ≡ done (uart', server')
      → Step s (record s {
        uart = uart';
        server = server';
        arrived = s.arrived ++ bytes;
        lost = s.lost + (length (contents (ring_of s)) + length bytes - output_size);
      })
  wake : s.server ≡ waiting → Step s (record s { server = server_test s.uart })
  take :
      ring_buffer_is_empty (ring_of s) ≡ false
      → Step s (record s {
        uart = (uart_read_byte s.uart).1;
        taken = s.taken ++ (uart_read_byte s.uart).0 ∷ [];
      })
  cleanup : Step s (record s { uart = uart_cleanup s.uart })

pub data Runs (s : System) : System → Type 0 where
  here : Runs s s
  later : {t u : System} → Runs s t → Step t u → Runs s u

-- The ring holds the last bytes that arrived, and every byte that arrived was read, lost or is there;
-- if none was lost, they were read in order.
pub record IsStream (s : System) : Type 0 where
  pub valid : IsValid (ring_of s)
  pub size : (ring_of s).max ≡ output_size
  pub account : length s.taken + s.lost + length (contents (ring_of s)) ≡ length s.arrived
  pub suffix : contents (ring_of s) ≡ drop (length s.taken + s.lost) s.arrived
  pub whole : s.lost ≡ 0 → s.taken ++ contents (ring_of s) ≡ s.arrived

max-copy_from_loop : (bytes : List ℕ) (rb : Ring) → (copy_from_loop rb bytes).max ≡ rb.max
unfolding copy_from_loop ring_buffer_push
max-copy_from_loop [] rb = refl
max-copy_from_loop (x ∷ bytes) rb = max-copy_from_loop bytes (ring_buffer_push rb x)

-- A copy that comes to a result had bytes, and its loop is that result.
copied-done :
    (rb rb' : Ring) (bytes : List ℕ)
    → ring_buffer_copy_from rb bytes ≡ done rb'
    → (0 < length bytes) × (copy_from_loop rb bytes ≡ rb')
unfolding ring_buffer_copy_from
copied-done rb rb' [] h = cc
copied-done rb rb' (x ∷ bytes) h =
    let loops : ring_buffer_copy_from rb (x ∷ bytes) ≡ done (copy_from_loop rb (x ∷ bytes)) =
      rw (lt→ltb 0 (suc (length bytes)) (omega arith)) refl in
    let both : done (copy_from_loop rb (x ∷ bytes)) ≡ done rb' = sym loops ∙ h in (omega arith, cc)

max-copy_from :
    (rb rb' : Ring) (bytes : List ℕ) → ring_buffer_copy_from rb bytes ≡ done rb' → rb'.max ≡ rb.max
max-copy_from rb rb' bytes h =
    ap (λ (r : Ring). r.max) (sym (copied-done rb rb' bytes h).1) ∙ max-copy_from_loop bytes rb

copied-ring :
    (u u' : Uart) (bytes : List ℕ) (server : Server)
    → server_copy u bytes ≡ done (u', server)
    → ring_buffer_copy_from u.input_buffer bytes ≡ done u'.input_buffer
unfolding server_copy
copied-ring u u' bytes server h =
    let (ring, same, rest) = >>=-eq-done (ring_buffer_copy_from u.input_buffer bytes) _ h in
    let both : record u { input_buffer = ring } ≡ u' = cc in
    same ∙ ap (λ (v : Uart). done v.input_buffer) both

-- What a copy leaves.
copied-contents :
    (rb rb' : Ring) (bytes : List ℕ)
    → IsValid rb
    → ring_buffer_copy_from rb bytes ≡ done rb'
    → IsValid rb'
      × (contents rb' ≡ drop (length (contents rb) + length bytes - rb.max) (contents rb ++ bytes))
copied-contents rb rb' bytes v h =
    let (ring, same, held, valid, never) =
      ring_buffer_copy_from_lem bytes v (copied-done rb rb' bytes h).0 in
    let both : done ring ≡ done rb' = sym same ∙ h in
    let one : ring ≡ rb' = cc in (subst IsValid one valid, ap contents (sym one) ∙ held)

drop_one : (j x : ℕ) (xs rest : List ℕ) → drop j xs ≡ x ∷ rest → drop (suc j) xs ≡ rest
drop_one zero x [] rest h = cc
drop_one zero x (y ∷ ys) rest h = cc
drop_one (suc j) x [] rest h = cc
drop_one (suc j) x (y ∷ ys) rest h = drop_one j x ys rest h

queue_pop :
    (q : List ℕ) (byte : ℕ) (rest : List ℕ)
    → (byte, rest) ≡ Queue.pop q
    → 0 < length q
    → q ≡ byte ∷ rest
unfolding Queue.pop
queue_pop [] byte rest h some = absurd (omega arith)
queue_pop (x ∷ xs) byte rest h some = cc

pop-eq :
    (rb : Ring)
    → IsValid rb
    → ring_buffer_is_empty rb ≡ false
    → contents rb ≡ (ring_buffer_pop rb).0 ∷ contents (ring_buffer_pop rb).1
pop-eq rb v some =
    let there : (length (contents rb) == 0) ≡ false = sym (observers_lem v).0 ∙ some in
    queue_pop (contents rb) (ring_buffer_pop rb).0 (contents (ring_buffer_pop rb).1)
      (ring_buffer_pop_refines v) (ground arith)

max-pop : (rb : Ring) → (ring_buffer_pop rb).1.max ≡ rb.max
unfolding ring_buffer_pop
max-pop rb = ground arith

Step-IsStream : {s t : System} → Step s t → IsStream s → IsStream t
unfolding uart_read_byte uart_cleanup
Step-IsStream {s} (read result at_read) v = record {
  valid = v.valid;
  size = v.size;
  account = v.account;
  suffix = v.suffix;
  whole = v.whole;
}
Step-IsStream {s} (wake at_wait) v = record {
  valid = v.valid;
  size = v.size;
  account = v.account;
  suffix = v.suffix;
  whole = v.whole;
}
Step-IsStream {s} cleanup v = record {
  valid = v.valid;
  size = v.size;
  account = v.account;
  suffix = v.suffix;
  whole = v.whole;
}
Step-IsStream {s} (copy bytes {uart'} {server'} at_copy came) v =
    let rb = ring_of s in
    let h = copied-ring s.uart uart' bytes server' came in
    let (valid, held) = copied-contents rb uart'.input_buffer bytes v.valid h in
    let over = length (contents rb) + length bytes - output_size in
    let held' : contents uart'.input_buffer ≡ drop over (contents rb ++ bytes) =
      held
      ∙ ap (λ (m : ℕ). drop (length (contents rb) + length bytes - m) (contents rb ++ bytes))
          v.size in
    record {
      valid = valid;
      size = max-copy_from rb uart'.input_buffer bytes h ∙ v.size;
      account = omega (
        arith,
        v.account,
        ap length held',
        length-drop over (contents rb ++ bytes),
        length-append (contents rb) bytes,
        length-append s.arrived bytes,
      );
      suffix =
          held'
          ∙ ap (λ (q : List ℕ). drop over (q ++ bytes)) v.suffix
          ∙ Queue.drop-drop_append (length s.taken + s.lost) over s.arrived bytes
              (omega (arith, v.account))
          ∙ ap (λ (n : ℕ). drop n (s.arrived ++ bytes)) (omega arith);
      whole = λ none_lost.
          let fits : over ≡ 0 = omega arith in
          ap (λ (q : List ℕ). s.taken ++ q)
            (held' ∙ ap (λ (n : ℕ). drop n (contents rb ++ bytes)) fits)
          ∙ sym (append_assoc s.taken (contents rb) bytes)
          ∙ ap (λ (q : List ℕ). q ++ bytes) (v.whole (omega arith));
    }
Step-IsStream {s} (take some) v =
    let rb = ring_of s in
    let byte = (ring_buffer_pop rb).0 in
    let rest = (ring_buffer_pop rb).1 in
    let e = pop-eq rb v.valid some in
    record {
      valid = ring_buffer_pop-IsValid v.valid;
      size = max-pop rb ∙ v.size;
      account = omega (arith, v.account, length-append s.taken (byte ∷ []), ap length e);
      suffix =
          sym (drop_one (length s.taken + s.lost) byte s.arrived (contents rest) (sym v.suffix ∙ e))
          ∙ ap (λ (n : ℕ). drop n s.arrived) {x = suc (length s.taken + s.lost)}
              (omega (arith, length-append s.taken (byte ∷ [])));
      whole = λ none_lost.
          append_assoc s.taken (byte ∷ []) (contents rest)
          ∙ ap (λ (q : List ℕ). s.taken ++ q) (sym e)
          ∙ v.whole none_lost;
    }

-- Let the ring be valid and hold the last bytes that arrived, let every byte that arrived be read,
-- forgotten or there, and, if none was forgotten, let the bytes have been read in the order in
-- which they arrived. Then the same holds after any run, whatever the order of the steps of the
-- thread and the gateway.
pub Runs-IsStream : {s t : System} → Runs s t → IsStream s → IsStream t
Runs-IsStream here v = v
Runs-IsStream (later run step) v = Step-IsStream step (Runs-IsStream run v)
