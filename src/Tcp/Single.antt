-- ===== src/Tcp/Single.antt =====
-- The functions of lib/source_tcp.c in a build without threads, which call `accept` and `recv`
-- themselves. `received` is what `recv` would return; `none` is -1.
use secure_mavlink_gateway.Prelude.{
  ℕ, zero, suc, ◌+◌, ◌≡◌, refl, Bool, true, false, ◌&&◌, Option, none, some, List, [], ◌∷◌, ◌++◌,
  length, take, drop, replicate, get_or, ltb, leb, if◌then◌else◌,
}
use secure_mavlink_gateway.Outcome.{Outcome, done, assert, ◌>>=◌, ◌>>◌}
use secure_mavlink_gateway.Results.{Result, succ, io_fault}
use secure_mavlink_gateway.Tcp.{TcpLink, Listening, tcp_listen_to, tcp_accept_client}

-- `buffer_size` is what `recv` returned.
pub record SingleTcp : Type 0 where
  pub initialized : Bool
  pub link : TcpLink
  pub bytes : List ℕ
  pub cur_read : ℕ
  pub buffer_size : Option ℕ

unfoldable pub tcp_init : Listening → Option ℕ → SingleTcp → Result × SingleTcp
unfolding tcp_listen_to tcp_accept_client
tcp_init calls accepted tcp =
    if tcp.initialized
    then (succ, tcp)
    else (let tcp' : SingleTcp = record tcp {
      cur_read = 0;
      buffer_size = some 0;
      link = record (tcp.link) { connection = none };
    } in
        let (rv, link) = tcp_listen_to calls tcp'.link in
        elim rv [
          | succ ↦
              let (rv', link') = tcp_accept_client accepted link in
              elim rv' [
                | succ ↦ (succ, record tcp' { link = link'; initialized = true })
                | other ↦ (other, record tcp' { link = link' })
              ]
          | other ↦ (other, record tcp' { link = link })
        ])

-- `tcp->buffer_size > 0 && tcp->cur_read < tcp->buffer_size`
abbrev pub buffered : SingleTcp → Bool
buffered tcp = elim tcp.buffer_size [ none ↦ false | some n ↦ ltb 0 n && ltb tcp.cur_read n ]

unfoldable pub refill : Option (List ℕ) → SingleTcp → Bool × SingleTcp
refill none tcp = (false, record tcp { buffer_size = none })
refill (some bytes) tcp = (
  true,
  record tcp {
    bytes = bytes ++ drop (length bytes) tcp.bytes;
    buffer_size = some (length bytes);
    cur_read = 0;
  },
)

unfoldable pub tcp_has_more : Listening → Option ℕ → Option (List ℕ) → SingleTcp → Bool × SingleTcp
unfolding tcp_init refill
tcp_has_more calls accepted received tcp =
    let (rv, tcp') = tcp_init calls accepted tcp in
    elim rv [
      | succ ↦ if buffered tcp' then (true, tcp') else refill received tcp'
      | _ ↦ (false, tcp')
    ]

-- `tcp->cur_read >= tcp->buffer_size`
abbrev pub exhausted : SingleTcp → Bool
exhausted tcp = elim tcp.buffer_size [ none ↦ true | some n ↦ leb n tcp.cur_read ]

unfoldable pub tcp_read_byte : SingleTcp → Outcome (ℕ × SingleTcp)
tcp_read_byte tcp = do
  assert tcp.initialized
  done (
      if exhausted tcp
      then (0, record tcp { cur_read = 0; buffer_size = some 0 })
      else (get_or tcp.bytes tcp.cur_read 0, record tcp { cur_read = tcp.cur_read + 1 }))

-- `memory` is the message structure, `len` what `mavlink_msg_length` returns, `payload` is
-- `msg->msg.len`, and `sent` what `send` returned. The result has what was handed to `send`.
unfoldable pub tcp_route_to :
    Listening
    → Option ℕ
    → SingleTcp
    → (memory : List ℕ) → (len payload : ℕ) → (sent : Option ℕ)
    → Result × Option (List ℕ) × SingleTcp
unfolding tcp_init
tcp_route_to calls accepted tcp memory len payload sent =
    let (rv, tcp') = tcp_init calls accepted tcp in
    elim rv [
      | succ ↦ (
        elim sent [ none ↦ io_fault | some n ↦ if ltb n payload then io_fault else succ ],
        some (take len memory),
        tcp',
      )
      | _ ↦ (io_fault, none, tcp')
    ]

-- So many rounds of `while (src->has_more(src)) src->read_byte(src)` while `recv` returns 0: the bytes,
-- and whether every call of `has_more` returned 1.
unfoldable pub closed_reads :
    ℕ → Listening → Option ℕ → SingleTcp → Outcome (List ℕ × Bool × SingleTcp)
unfolding tcp_has_more tcp_read_byte
closed_reads zero calls accepted tcp = done ([], true, tcp)
closed_reads (suc n) calls accepted tcp =
    let (more, tcp') = tcp_has_more calls accepted (some []) tcp in
    tcp_read_byte tcp' >>= λ (byte, tcp'').
    closed_reads n calls accepted tcp'' >>= λ (bytes, always, last).
    done (byte ∷ bytes, more && always, last)

-- The socket when the peer has closed and everything was read.
abbrev pub drained : SingleTcp → SingleTcp
drained tcp = record tcp { cur_read = 0; buffer_size = some 0 }

closed_round :
    (calls : Listening) (accepted : Option ℕ) (tcp : SingleTcp)
    → tcp.initialized ≡ true
    → buffered tcp ≡ false
    → (tcp_has_more calls accepted (some []) tcp ≡ (true, drained tcp))
      × (tcp_read_byte (drained tcp) ≡ done (0, drained tcp))
unfolding tcp_has_more tcp_init refill tcp_read_byte
closed_round calls accepted tcp on empty = (rw (on, empty) refl, rw on refl)

-- Without threads, once the peer has closed the connection and the bytes before are read, the
-- loop on `has_more` goes on for as long as it is followed: `tcp_has_more` returns 1 and
-- `tcp_read_byte` a zero byte that nobody sent, every time.
pub closed_reads_lem :
    (n : ℕ) (calls : Listening) (accepted : Option ℕ) (tcp : SingleTcp)
    → tcp.initialized ≡ true
    → buffered tcp ≡ false
    → (last : SingleTcp) × (closed_reads n calls accepted tcp ≡ done (replicate n 0, true, last))
unfolding closed_reads
closed_reads_lem zero calls accepted tcp on empty = (tcp, refl)
closed_reads_lem (suc n) calls accepted tcp on empty =
    let (more, byte) = closed_round calls accepted tcp on empty in
    let (last, rest) = closed_reads_lem n calls accepted (drained tcp) on refl in
    (last, rw (more, byte, rest) refl)
