-- ===== src/Adapter/Descriptors.antt =====
-- What failed attempts to connect cost (`TCPAdapter::connect` of tools/tcp_bridge.cc).
use secure_mavlink_gateway.Prelude.{
  ℕ, ◌+◌, ◌≡◌, refl, false, Option, none, some, List, [], ◌∷◌, length, arith,
}
use secure_mavlink_gateway.Adapter.{Adapter, Dial, succeeds, connect, is_connected, redial, recv}

-- `socket` gives a descriptor, and a later call fails.
abbrev pub FailsLate : Dial → Type 0
FailsLate d = ((fd : ℕ) × (d.socket ≡ some fd)) × (succeeds d ≡ false)

abbrev pub AllFailLate : List Dial → Type 0
AllFailLate [] = Unit {0}
AllFailLate (d ∷ ds) = FailsLate d × AllFailLate ds

connect_fails :
    (d : Dial) (a : Adapter)
    → FailsLate d
    → (is_connected (connect d a).1 ≡ false)
      × (length (connect d a).1.left_open ≡ length a.left_open + 1)
unfolding connect is_connected
connect_fails d a ((fd, opened), bad) = rw (opened, bad) (refl, omega arith)

redial_fails :
    (dials : List Dial) (a : Adapter)
    → is_connected a ≡ false
    → AllFailLate dials
    → (is_connected (redial dials a) ≡ false)
      × (length (redial dials a).left_open ≡ length a.left_open + length dials)
unfolding redial
redial_fails [] a down fails = (down, omega arith)
redial_fails (d ∷ ds) a down (bad, fails) =
    let (down', one) = connect_fails d a bad in
    let (down'', others) = redial_fails ds (connect d a).1 down' fails in
    rw down (down'', omega (arith, one, others))

-- While there is no connection and each attempt fails after `socket`, `recv` does not return, and each
-- attempt leaves one descriptor more open that nobody keeps.
recv_leaks :
    (dials : List Dial) (answer : Option (List ℕ)) (a : Adapter)
    → is_connected a ≡ false
    → AllFailLate dials
    → (recv dials answer a ≡ none)
      × (length (redial dials a).left_open ≡ length a.left_open + length dials)
unfolding recv
recv_leaks dials answer a down fails =
    let (down', count) = redial_fails dials a down fails in (rw down' refl, count)
