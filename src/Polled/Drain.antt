-- ===== src/Polled/Drain.antt =====
-- The loop on `has_more` over a source with an inbox.
use secure_mavlink_gateway.Prelude.{
  ℕ, zero, suc, ◌+◌, ◌<◌, ◌≤◌, ◌≡◌, refl, sym, ap, ◌∙◌, Bool, true, false, List, [], ◌∷◌, ◌++◌,
  length, take, drop, get_or, if◌then◌else◌, length-append, Bool-cases, inl, inr, arith,
}
use secure_mavlink_gateway.Outcome.{Outcome, done, no_fuel, Ensures, ◌>>=◌}
use secure_mavlink_gateway.Handover.Places.{drop-take_all, drop-take_next, take-length_append}
use secure_mavlink_gateway.Polled.{Inbox, left, fill, take_left, some_bytes, Polled}

-- The bytes that were not handed over yet.
abbrev pub unread_of : Inbox → List ℕ
unread_of b = drop b.current_read (take b.len b.bytes)

-- All bytes, in order.
abbrev pub joined : List (List ℕ) → List ℕ
joined [] = []
joined (bytes ∷ rest) = bytes ++ joined rest

unread_of-left :
    (b : Inbox)
    → b.len ≤ length b.bytes
    → left b ≡ true
    → unread_of b ≡ (take_left b).0 ∷ unread_of (take_left b).1
unfolding take_left
unread_of-left b inside some =
    let lt : b.current_read < b.len = ground arith in
    rw some (
      drop-take_next b.len b.current_read b.bytes lt inside
      ∙ ap (λ (n : ℕ). get_or b.bytes b.current_read 0 ∷ drop n (take b.len b.bytes))
          {x = suc b.current_read} {y = b.current_read + 1} (omega arith))

pub unread_of-none : (b : Inbox) → left b ≡ false → unread_of b ≡ []
unread_of-none b nothing = drop-take_all b.len b.current_read b.bytes (ground arith)

pub unread_of-fill : (bytes : List ℕ) (b : Inbox) → unread_of (fill bytes b) ≡ bytes
unfolding fill
unread_of-fill bytes b = take-length_append bytes (drop (length bytes) b.bytes)

pub left-fill : (bytes : List ℕ) (b : Inbox) → left (fill bytes b) ≡ some_bytes bytes
unfolding fill
left-fill [] b = refl
left-fill (byte ∷ bytes) b = ground arith

pub fill-inside : (bytes : List ℕ) (b : Inbox) → (fill bytes b).len ≤ length (fill bytes b).bytes
unfolding fill
fill-inside bytes b = omega (arith, length-append bytes (drop (length bytes) b.bytes))

module _ {S : Type 0} (source : Polled S) where
  open source use {inbox, IsReady, Accepts, has_more, read_byte}

  -- What the device returns if it is asked, and what it will return after that: its packets one after
  -- the other, and nothing when they have run out.
  abbrev pub offer : Bool → List (List ℕ) → List ℕ × List (List ℕ)
  offer true packets = ([], packets)
  offer false [] = ([], [])
  offer false (packet ∷ packets) = (packet, packets)

  -- `while (src->has_more(src)) src->read_byte(src)`
  unfoldable pub drain : ℕ → List (List ℕ) → S → Outcome (List ℕ × S)
  drain zero packets s = no_fuel
  drain (suc fuel) packets s =
      let (packet, packets') = offer (left (inbox s)) packets in
      has_more packet s >>= λ (more, s').
      let next = read_byte s' >>= λ (byte, s'').
      drain fuel packets' s'' >>= λ (bytes, last). done (byte ∷ bytes, last) in
      if more then next else done ([], s')

  abbrev pub AllAccepted : List (List ℕ) → Type 0
  AllAccepted [] = Unit
  AllAccepted (packet ∷ packets) = Accepts packet × (some_bytes packet ≡ true) × AllAccepted packets

  -- The loop ends with these bytes.
  abbrev pub Drains : ℕ → List (List ℕ) → S → Type 0
  Drains fuel packets s = Ensures (drain fuel packets s) (λ (bytes, s').
      (bytes ≡ unread_of (inbox s) ++ joined packets) × IsReady s' × (left (inbox s') ≡ false))

  pub read_byte-unread_of :
      (s : S)
      → IsReady s
      → left (inbox s) ≡ true
      → Ensures
          (read_byte s)
          (λ (byte, s'). IsReady s' × (unread_of (inbox s) ≡ byte ∷ unread_of (inbox s')))
  read_byte-unread_of s ready some =
      let ((byte, s'), got, (ready', taken)) = source.read_byte-take_left s ready some in
      (
        (byte, s'),
        got,
        (
          ready',
          unread_of-left (inbox s) (source.inside s ready) some
              ∙ ap (λ t. t.0 ∷ unread_of t.1) (sym taken),
        ),
      )

  -- A round in which `has_more` returns 1.
  drain-round :
      (fuel : ℕ) (packets packets' : List (List ℕ)) (packet : List ℕ) (s s₁ : S)
      → offer (left (inbox s)) packets ≡ (packet, packets')
      → has_more packet s ≡ done (true, s₁)
      → IsReady s₁
      → left (inbox s₁) ≡ true
      → unread_of (inbox s₁) ++ joined packets' ≡ unread_of (inbox s) ++ joined packets
      → length (unread_of (inbox s)) + length (joined packets) < suc fuel
      → ((t : S)
          → length (unread_of (inbox t)) + length (joined packets') < fuel
          → IsReady t
          → Drains fuel packets' t)
      → Drains (suc fuel) packets s
  unfolding drain
  drain-round fuel packets packets' packet s s₁ offered asked ready₁ some same enough rest =
      let ((byte, s₂), got, (ready₂, next)) = read_byte-unread_of s₁ ready₁ some in
      let all : byte ∷ (unread_of (inbox s₂) ++ joined packets')
          ≡ unread_of (inbox s) ++ joined packets =
        ap (λ u. u ++ joined packets') (sym next) ∙ same in
      let size = ap (λ (xs : List ℕ). length xs) all in
      let ((bytes, last), drained, (order, ready₃, nothing)) =
        rest s₂
          (omega (
            arith,
            size,
            length-append (unread_of (inbox s₂)) (joined packets'),
            length-append (unread_of (inbox s)) (joined packets),
          ))
          ready₂ in
      (
        (byte ∷ bytes, last),
        rw (offered, asked, got, drained) refl,
        (ap (λ b. byte ∷ b) order ∙ all, ready₃, nothing),
      )

  -- A round in which the device is asked.
  drain_nothing :
      (fuel : ℕ) (packets : List (List ℕ)) (s : S)
      → length (unread_of (inbox s)) + length (joined packets) < suc fuel
      → IsReady s
      → AllAccepted packets
      → left (inbox s) ≡ false
      → ((packets' : List (List ℕ)) (t : S)
          → length (unread_of (inbox t)) + length (joined packets') < fuel
          → IsReady t
          → AllAccepted packets'
          → Drains fuel packets' t)
      → Drains (suc fuel) packets s
  unfolding drain
  drain_nothing fuel [] s enough ready all nothing rest =
      let ((more, s₁), asked, (no_more, ready₁, still)) = source.has_more-none s ready nothing in
      (
        ([], s₁),
        rw (nothing, asked, no_more) refl,
        (sym (ap (λ u. u ++ []) (unread_of-none (inbox s) nothing)), ready₁, still),
      )
  drain_nothing fuel (packet ∷ packets) s enough ready (fits, some, all) nothing rest =
      let ((more, s₁), asked, (yes_more, ready₁, same)) =
        source.has_more-fill packet s ready fits some nothing in
      drain-round fuel (packet ∷ packets) packets packet s s₁ (rw nothing refl)
        (asked ∙ ap (λ (b : Bool). done (b, s₁)) yes_more) ready₁
        (ap left same ∙ left-fill packet (inbox s) ∙ some)
        (ap (λ b. unread_of b ++ joined packets) same
          ∙ ap (λ u. u ++ joined packets) (unread_of-fill packet (inbox s))
          ∙ sym (ap (λ u. u ++ joined (packet ∷ packets)) (unread_of-none (inbox s) nothing)))
        enough (λ t less ready'. rest packets t less ready' all)

  -- A ready source whose device has packets, none of them empty: the loop ends, after one round for each
  -- byte and one more, having handed over what was in the inbox and then every packet, in
  -- order, and leaves the source ready and its inbox read.
  pub drain_lem :
      (fuel : ℕ) (packets : List (List ℕ)) (s : S)
      → length (unread_of (inbox s)) + length (joined packets) < fuel
      → IsReady s
      → AllAccepted packets
      → Drains fuel packets s
  unfolding drain
  drain_lem zero packets s enough ready all = absurd (omega arith)
  drain_lem (suc fuel) packets s enough ready all = elim (Bool-cases (left (inbox s))) [
    | inl some ↦
        let ((more, s₁), asked, (yes_more, ready₁, same)) = source.has_more-left [] s ready some in
        drain-round fuel packets packets [] s s₁ (rw some refl)
          (asked ∙ ap (λ (b : Bool). done (b, s₁)) yes_more) ready₁ (ap left same ∙ some)
          (ap (λ b. unread_of b ++ joined packets) same) enough
          (λ t less ready'. drain_lem fuel packets t less ready' all)
    | inr nothing ↦
        drain_nothing fuel packets s enough ready all nothing
          (λ packets' t less ready' all'. drain_lem fuel packets' t less ready' all')
  ]
