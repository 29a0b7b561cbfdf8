-- ===== src/Polled/Partee.antt =====
-- lib/source_partee.c. The publish and subscribe library is a parameter: what `partee_topic_read` stored,
-- and whether `partee_msg_alloc` gave a message.
use secure_mavlink_gateway.Prelude.{
  ℕ, ◌<◌, ◌++◌, ◌+◌, ◌≤◌, ◌≡◌, refl, Bool, true, false, not, Option, none, some, List, [], length,
  ltb, if◌then◌else◌, arith,
}
use secure_mavlink_gateway.Outcome.{Ensures, Outcome, done, out_of_bounds, assert, ◌>>◌}
use secure_mavlink_gateway.Results.{Result, succ, io_fault, invalid_param}
use secure_mavlink_gateway.Polled.{Inbox, left, fill, take_left, some_bytes, max_packet_len, Polled}
use secure_mavlink_gateway.Polled.Drain.{
  left-fill, fill-inside, unread_of, joined, drain, AllAccepted, drain_lem,
}

pub record ParteeSocket : Type 0 where
  pub initialized : Bool
  pub inbox : Inbox

-- What is published, where the call succeeds.
unfoldable pub partee_socket_route_to :
    Bool → List ℕ → ParteeSocket → Outcome (Result × Option (List ℕ))
partee_socket_route_to allocated bytes ros = do
  assert ros.initialized
  done (
      if not allocated
      then (io_fault, none)
      else if ltb max_packet_len (length bytes)
      then (invalid_param, none)
      else (succ, some bytes))

-- `partee_topic_read` stores what was received into `data`, which has 280 bytes.
unfoldable pub partee_socket_has_more : List ℕ → ParteeSocket → Outcome (Bool × ParteeSocket)
unfolding fill
partee_socket_has_more received ros = do
  assert ros.initialized
  let filled = fill received ros.inbox
  let asked =
      (if ltb max_packet_len (length received)
        then out_of_bounds
        else done (left filled, record ros { inbox = filled }))
  if left ros.inbox then done (true, ros) else asked

unfoldable pub partee_socket_read_byte : ParteeSocket → Outcome (ℕ × ParteeSocket)
unfolding take_left
partee_socket_read_byte ros = do
  assert ros.initialized
  let (byte, inbox) = take_left ros.inbox
  done (byte, record ros { inbox = inbox })

pub partee_has_more-fill :
    (bytes : List ℕ) (ros : ParteeSocket)
    → ros.initialized ≡ true
    → length bytes ≤ max_packet_len
    → some_bytes bytes ≡ true
    → left ros.inbox ≡ false
    → partee_socket_has_more bytes ros ≡ done (true, record ros { inbox = fill bytes ros.inbox })
unfolding partee_socket_has_more
partee_has_more-fill bytes ros on fits there nothing =
    let small : ltb max_packet_len (length bytes) ≡ false = ground arith in
    rw (on, nothing, small, left-fill bytes ros.inbox, there) refl

-- The socket as a source with an inbox.
unfoldable pub partee_polled : Polled ParteeSocket
unfolding partee_socket_has_more partee_socket_read_byte take_left
partee_polled = record {
  inbox = λ ros. ros.inbox;
  IsReady = λ ros. (ros.initialized ≡ true) × (ros.inbox.len ≤ length ros.inbox.bytes);
  Accepts = λ bytes. length bytes ≤ max_packet_len;
  has_more = partee_socket_has_more;
  read_byte = partee_socket_read_byte;
  inside = λ ros ready. ready.1;
  has_more-left =
      λ bytes ros ready there. ((true, ros), rw (ready.0, there) refl, (refl, ready, refl));
  has_more-fill = λ bytes ros ready fits there nothing. (
    (true, record ros { inbox = fill bytes ros.inbox }),
    partee_has_more-fill bytes ros ready.0 fits there nothing,
    (refl, (ready.0, fill-inside bytes ros.inbox), refl),
  );
  has_more-none = λ ros ready nothing. (
    (false, record ros { inbox = fill [] ros.inbox }),
    rw (ready.0, nothing, left-fill [] ros.inbox) refl,
    (refl, (ready.0, fill-inside [] ros.inbox), left-fill [] ros.inbox),
  );
  read_byte-take_left = λ ros ready there. (
    ((take_left ros.inbox).0, record ros { inbox = (take_left ros.inbox).1 }),
    rw ready.0 refl,
    ((ready.0, rw there ready.1), refl),
  );
}

-- An initialised socket whose device has packets, none of them empty, and of at most 280 bytes each: the
-- loop on `has_more` and `read_byte` ends, after one round for each byte and one more, having handed
-- over what was left of the last packet and then every packet, in order, and nothing is left.
pub drain-partee_polled :
    (fuel : ℕ) (packets : List (List ℕ)) (ros : ParteeSocket)
    → ros.initialized ≡ true
    → ros.inbox.len ≤ length ros.inbox.bytes
    → length (unread_of ros.inbox) + length (joined packets) < fuel
    → AllAccepted partee_polled packets
    → Ensures (drain partee_polled fuel packets ros) (λ (bytes, ros').
      (bytes ≡ unread_of ros.inbox ++ joined packets)
      × (ros'.initialized ≡ true)
      × (left ros'.inbox ≡ false))
unfolding partee_polled
drain-partee_polled fuel packets ros on inside enough all =
    let (result, ends, (order, ready, nothing)) =
      drain_lem partee_polled fuel packets ros enough (on, inside) all in
    (result, ends, (order, ready.0, nothing))
