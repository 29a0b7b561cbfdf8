-- ===== src/Udp/Calls/Clients.antt =====
-- The client that the UDP socket answers.
use secure_mavlink_gateway.Prelude.{
  ℕ, ◌≡◌, ◌⊎◌, inl, inr, refl, ap, ◌∙◌, true, false, none, some, List, [], ◌∷◌, ◌++◌,
}
use secure_mavlink_gateway.Results.{succ, io_fault, no_client}
use secure_mavlink_gateway.Udp.{
  Udp, UdpLink, Datagram, Opening, note_client, udp_server, udp_init, udp_route_to,
}

-- Rounds of the thread.
unfoldable pub udp_rounds : List Datagram → UdpLink → UdpLink
udp_rounds [] link = link
udp_rounds (datagram ∷ rest) link = udp_rounds rest (udp_server datagram link).0

-- `recvfrom` returned -1 or 0.
abbrev pub Fails : Datagram → Type 0
Fails d = (d.received ≡ none) ⊎ (d.received ≡ some [])

abbrev pub Brings : Datagram → Type 0
Brings d = (byte : ℕ) × (bytes : List ℕ) × (d.received ≡ some (byte ∷ bytes))

abbrev pub AllBring : List Datagram → Type 0
AllBring [] = Unit
AllBring (d ∷ ds) = Brings d × AllBring ds

udp_rounds-append :
    (ds es : List Datagram) (link : UdpLink)
    → udp_rounds (ds ++ es) link ≡ udp_rounds es (udp_rounds ds link)
unfolding udp_rounds
udp_rounds-append [] es link = refl
udp_rounds-append (d ∷ ds) es link = udp_rounds-append ds es (udp_server d link).0

-- A failure forgets the client.
udp_server-Fails :
    (d : Datagram) (link : UdpLink) → Fails d → (udp_server d link).0.has_client ≡ false
unfolding udp_server
udp_server-Fails d link (inl h) = rw h refl
udp_server-Fails d link (inr h) = rw h refl

-- A client that is known stays.
udp_rounds-AllBring :
    (ds : List Datagram) (link : UdpLink)
    → link.has_client ≡ true
    → AllBring ds
    → udp_rounds ds link ≡ link
unfolding udp_rounds udp_server note_client
udp_rounds-AllBring [] link known all = refl
udp_rounds-AllBring (d ∷ ds) link known ((byte, bytes, h), all) =
    let stays : (udp_server d link).0 ≡ link = rw (h, known) refl in
    rw stays (udp_rounds-AllBring ds link known all)

udp_server-Brings :
    (d : Datagram) (link : UdpLink)
    → link.has_client ≡ false
    → Brings d
    → (udp_server d link).0 ≡ record link { has_client = true; clt_addr = d.sender }
unfolding udp_server note_client
udp_server-Brings d link unknown (byte, bytes, h) = rw (h, unknown) refl

-- The socket after the thread has gone these rounds.
abbrev pub after_rounds : List Datagram → Udp → Udp
after_rounds ds udp = record udp { link = udp_rounds ds udp.link }

udp_rounds-client :
    (before after : List Datagram) (failed first : Datagram) (link : UdpLink)
    → Fails failed
    → Brings first
    → AllBring after
    → let known = udp_rounds (before ++ failed ∷ first ∷ after) link in
      (known.has_client ≡ true) × (known.clt_addr ≡ first.sender)
unfolding udp_rounds udp_server
udp_rounds-client before after failed first link fails brings all =
    let lost = (udp_server failed (udp_rounds before link)).0 in
    let met = record lost { has_client = true; clt_addr = first.sender } in
    let found : udp_rounds (before ++ failed ∷ first ∷ after) link ≡ met =
      udp_rounds-append before (failed ∷ first ∷ after) link
      ∙ ap (udp_rounds after) (
          udp_server-Brings first lost (udp_server-Fails failed (udp_rounds before link) fails)
            brings)
      ∙ udp_rounds-AllBring after met refl all in
    rw found (refl, refl)

-- Whatever came before: after a failed call of `recvfrom` and then datagrams that all bring bytes, at
-- least one, `udp_route_to` on an initialised socket hands the message to `sendto` with the
-- address of the first of them, and its result says whether `sendto` failed; straight after the
-- failure it returns NO_CLIENT and sends nothing.
pub udp_rounds-udp_route_to :
    (before after : List Datagram) (failed first : Datagram) (calls : Opening) (udp : Udp)
    → (bytes : List ℕ) (n : ℕ) → udp.initialized ≡ true
    → Fails failed
    → Brings first
    → AllBring after
    → let known = after_rounds (before ++ failed ∷ first ∷ after) udp in
      let lost = after_rounds (before ++ failed ∷ []) udp in
      (udp_route_to calls known bytes (some n) ≡ (succ, some (bytes, first.sender), known))
      × (udp_route_to calls known bytes none ≡ (io_fault, some (bytes, first.sender), known))
      × (udp_route_to calls lost bytes (some n) ≡ (no_client, none, lost))
unfolding udp_route_to udp_init udp_rounds udp_server
udp_rounds-udp_route_to before after failed first calls udp bytes n on fails brings all =
    let (has, address) = udp_rounds-client before after failed first udp.link fails brings all in
    let unknown : (udp_rounds (before ++ failed ∷ []) udp.link).has_client ≡ false =
      ap (λ (l : UdpLink). l.has_client) (udp_rounds-append before (failed ∷ []) udp.link)
      ∙ udp_server-Fails failed (udp_rounds before udp.link) fails in
    (rw (on, has, address) refl, rw (on, has, address) refl, rw (on, unknown) refl)
