-- ===== src/Polled/Thinros.antt =====
-- lib/source_thinros_certikos.c. The publish and subscribe library is a parameter: whether
-- `ros_advertise` gave a handler, and the message that `ros_spin_one_message` delivers, if any.
use secure_mavlink_gateway.Prelude.{
  ℕ, ◌<◌, ◌++◌, ◌+◌, ◌≤◌, ◌≡◌, refl, Bool, true, false, not, Option, none, some, List, [], ◌∷◌,
  length, leb, ltb, if◌then◌else◌, arith,
}
use secure_mavlink_gateway.Outcome.{Ensures, Outcome, done, assert, out_of_bounds, ◌>>=◌, ◌>>◌}
use secure_mavlink_gateway.Results.{Result, succ, io_fault}
use secure_mavlink_gateway.Polled.{Inbox, left, fill, take_left, some_bytes, max_packet_len, Polled}
use secure_mavlink_gateway.Polled.Drain.{
  left-fill, fill-inside, unread_of, joined, drain, AllAccepted, drain_lem,
}

pub record ThinrosSocket : Type 0 where
  pub initialized : Bool
  pub publisher : Bool
  pub inbox : Inbox

-- `memcpy` of as many bytes as the message says into `data`, which has 280.
unfoldable pub on_thinros_mavlink_recv : List ℕ → ThinrosSocket → Outcome ThinrosSocket
unfolding fill
on_thinros_mavlink_recv bytes ros =
    if ltb max_packet_len (length bytes)
    then out_of_bounds
    else done (record ros { inbox = fill bytes ros.inbox })

unfoldable pub thinros_socket_init : Bool → ThinrosSocket → Result × ThinrosSocket
thinros_socket_init advertised ros =
    if ros.initialized
    then (succ, ros)
    else if not advertised
    then (io_fault, record ros { publisher = false })
    else (
      succ,
      record ros {
        initialized = true;
        publisher = true;
        inbox = record (ros.inbox) { len = 0; current_read = 0 };
      },
    )

-- What is handed to `ros_publish`, with the handler being valid or not.
unfoldable pub thinros_socket_route_to :
    Bool → List ℕ → ThinrosSocket → Outcome ((Bool × List ℕ) × ThinrosSocket)
unfolding thinros_socket_init
thinros_socket_route_to advertised bytes ros = do
  let ros' = (thinros_socket_init advertised ros).1
  assert (leb (length bytes) max_packet_len)
  done ((ros'.publisher, bytes), ros')

-- `ros_spin_one_message`, which calls back with the message.
unfoldable pub ros_spin : Option (List ℕ) → ThinrosSocket → Outcome ThinrosSocket
unfolding on_thinros_mavlink_recv
ros_spin none ros = done ros
ros_spin (some bytes) ros = on_thinros_mavlink_recv bytes ros

unfoldable pub thinros_socket_has_more :
    Bool → Option (List ℕ) → ThinrosSocket → Outcome (Bool × ThinrosSocket)
unfolding thinros_socket_init ros_spin
thinros_socket_has_more advertised message ros =
    let ros' = (thinros_socket_init advertised ros).1 in
    let asked = ros_spin message ros' >>= λ ros''. done (left ros''.inbox, ros'') in
    if left ros'.inbox then done (true, ros') else asked

unfoldable pub thinros_socket_read_byte : Bool → ThinrosSocket → ℕ × ThinrosSocket
unfolding thinros_socket_init take_left
thinros_socket_read_byte advertised ros =
    let ros' = (thinros_socket_init advertised ros).1 in
    let (byte, inbox) = take_left ros'.inbox in (byte, record ros' { inbox = inbox })

-- A message, if there are bytes.
abbrev pub message_of : List ℕ → Option (List ℕ)
message_of [] = none
message_of (byte ∷ bytes) = some (byte ∷ bytes)

pub thinros_has_more-fill :
    (advertised : Bool) (bytes : List ℕ) (ros : ThinrosSocket)
    → ros.initialized ≡ true
    → length bytes ≤ max_packet_len
    → some_bytes bytes ≡ true
    → left ros.inbox ≡ false
    → thinros_socket_has_more advertised (message_of bytes) ros
      ≡ done (true, record ros { inbox = fill bytes ros.inbox })
unfolding thinros_socket_has_more thinros_socket_init ros_spin on_thinros_mavlink_recv fill
thinros_has_more-fill advertised [] ros on fits there nothing = cc
thinros_has_more-fill advertised (byte ∷ bytes) ros on fits there nothing =
    let small : ltb max_packet_len (length (byte ∷ bytes)) ≡ false = ground arith in
    rw (on, nothing, small, left-fill (byte ∷ bytes) ros.inbox) refl

-- The socket as a source with an inbox.
unfoldable pub thinros_polled : Bool → Polled ThinrosSocket
unfolding thinros_socket_has_more thinros_socket_read_byte thinros_socket_init ros_spin take_left
thinros_polled advertised = record {
  inbox = λ ros. ros.inbox;
  IsReady = λ ros. (ros.initialized ≡ true) × (ros.inbox.len ≤ length ros.inbox.bytes);
  Accepts = λ bytes. length bytes ≤ max_packet_len;
  has_more = λ bytes ros. thinros_socket_has_more advertised (message_of bytes) ros;
  read_byte = λ ros. done (thinros_socket_read_byte advertised ros);
  inside = λ ros ready. ready.1;
  has_more-left =
      λ bytes ros ready there. ((true, ros), rw (ready.0, there) refl, (refl, ready, refl));
  has_more-fill = λ bytes ros ready fits there nothing. (
    (true, record ros { inbox = fill bytes ros.inbox }),
    thinros_has_more-fill advertised bytes ros ready.0 fits there nothing,
    (refl, (ready.0, fill-inside bytes ros.inbox), refl),
  );
  has_more-none =
      λ ros ready nothing. ((false, ros), rw (ready.0, nothing) refl, (refl, ready, nothing));
  read_byte-take_left = λ ros ready there. (
    ((take_left ros.inbox).0, record ros { inbox = (take_left ros.inbox).1 }),
    rw ready.0 refl,
    ((ready.0, rw there ready.1), refl),
  );
}

-- An initialised socket whose device has packets, none of them empty, and of at most 280 bytes each: the
-- loop on `has_more` and `read_byte` ends, after one round for each byte and one more, having handed
-- over what was left of the last packet and then every packet, in order, and nothing is left.
pub drain-thinros_polled :
    (advertised : Bool) (fuel : ℕ) (packets : List (List ℕ)) (ros : ThinrosSocket)
    → ros.initialized ≡ true
    → ros.inbox.len ≤ length ros.inbox.bytes
    → length (unread_of ros.inbox) + length (joined packets) < fuel
    → AllAccepted (thinros_polled advertised) packets
    → Ensures (drain (thinros_polled advertised) fuel packets ros) (λ (bytes, ros').
      (bytes ≡ unread_of ros.inbox ++ joined packets)
      × (ros'.initialized ≡ true)
      × (left ros'.inbox ≡ false))
unfolding thinros_polled
drain-thinros_polled advertised fuel packets ros on inside enough all =
    let (result, ends, (order, ready, nothing)) =
      drain_lem (thinros_polled advertised) fuel packets ros enough (on, inside) all in
    (result, ends, (order, ready.0, nothing))
