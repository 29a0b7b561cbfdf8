-- ===== src/Polled.antt =====
-- The sources that ask their device for bytes when they have handed over the last: lib/source_partee.c,
-- lib/source_thinros_certikos.c and lib/source_certikos_uart.c. This is what the three share.
pub mod Drain
pub mod Partee
pub mod Thinros
pub mod CertikosUart
pub mod Every
mod Tests
use secure_mavlink_gateway.Prelude.{
  ℕ, zero, suc, ◌+◌, ◌<◌, ◌≤◌, ◌≡◌, Bool, true, false, ◌&&◌, List, [], ◌∷◌, ◌++◌, length, drop,
  get_or, ltb, if◌then◌else◌,
}
use secure_mavlink_gateway.Outcome.{Outcome, Ensures}

-- `MAVLINK_MAX_PACKET_LEN`
abbrev pub max_packet_len : ℕ
max_packet_len = 280

-- `data` and `len` of `mavlink_msg_t`, and `current_read`
pub record Inbox : Type 0 where
  pub bytes : List ℕ
  pub len : ℕ
  pub current_read : ℕ

-- `len > 0 && current_read < len`
abbrev pub left : Inbox → Bool
left b = ltb 0 b.len && ltb b.current_read b.len

-- The bytes stored at the front of `data`, and the two indices set. The callers come here only with bytes
-- that fit into the array.
unfoldable pub fill : List ℕ → Inbox → Inbox
fill bytes b = record {
  bytes = bytes ++ drop (length bytes) b.bytes;
  len = length bytes;
  current_read = 0;
}

unfoldable pub take_left : Inbox → ℕ × Inbox
take_left b =
    if left b
    then (get_or b.bytes b.current_read 0, record b { current_read = b.current_read + 1 })
    else (0, b)

-- Whether there are bytes.
abbrev pub some_bytes : List ℕ → Bool
some_bytes [] = false
some_bytes (byte ∷ bytes) = true

-- A source with an inbox: its calls, of which `has_more` gets the bytes that the device would return,
-- none if it has nothing, and what they do to the inbox.
pub record Polled (S : Type 0) : Type 1 where
  pub inbox : S → Inbox
  pub IsReady : S → Type 0
  pub Accepts : List ℕ → Type 0
  pub has_more : List ℕ → S → Outcome (Bool × S)
  pub read_byte : S → Outcome (ℕ × S)
  pub inside : (s : S) → IsReady s → (inbox s).len ≤ length (inbox s).bytes
  pub has_more-left :
      (bytes : List ℕ) (s : S)
      → IsReady s
      → left (inbox s) ≡ true
      → Ensures (has_more bytes s) (λ (more, s'). (more ≡ true) × IsReady s' × (inbox s' ≡ inbox s))
  pub has_more-fill :
      (bytes : List ℕ) (s : S)
      → IsReady s
      → Accepts bytes
      → some_bytes bytes ≡ true
      → left (inbox s) ≡ false
      → Ensures
          (has_more bytes s)
          (λ (more, s'). (more ≡ true) × IsReady s' × (inbox s' ≡ fill bytes (inbox s)))
  pub has_more-none :
      (s : S)
      → IsReady s
      → left (inbox s) ≡ false
      → Ensures
          (has_more [] s)
          (λ (more, s'). (more ≡ false) × IsReady s' × (left (inbox s') ≡ false))
  pub read_byte-take_left :
      (s : S)
      → IsReady s
      → left (inbox s) ≡ true
      → Ensures (read_byte s) (λ (byte, s'). IsReady s' × ((byte, inbox s') ≡ take_left (inbox s)))
