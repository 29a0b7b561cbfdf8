-- ===== src/Bridge/Stuck.antt =====
-- The destructor of the uplink's tunnel joins its threads.
use secure_mavlink_gateway.Prelude.{◌≡◌, ◌≢◌, ◌⊎◌, []}
use secure_mavlink_gateway.Tunnel.{heading, popping, waiting, ended, shut_down}
use secure_mavlink_gateway.Tunnel.Stuck.{IsStuck, Step-IsStuck, shut_down-IsStuck, IsStuck-ne-ended}
use secure_mavlink_gateway.Bridge.{Bridge, BridgeStep, on_uplink, on_downlink, Runs, here, later}

BridgeStep-IsStuck :
    {b c : Bridge} → BridgeStep b c → IsStuck b.uplink.tunnel → IsStuck c.uplink.tunnel
BridgeStep-IsStuck (on_uplink step) v = Step-IsStuck step v
BridgeStep-IsStuck (on_downlink step) v = v

Runs-IsStuck : {b c : Bridge} → Runs b c → IsStuck b.uplink.tunnel → IsStuck c.uplink.tunnel
Runs-IsStuck here v = v
Runs-IsStuck (later run step) v = BridgeStep-IsStuck step (Runs-IsStuck run v)

-- If the destructor of the uplink's tunnel finds the queue empty, the sender waiting, and the receiver
-- at the head of its loop, then, whatever the four threads do from there on, the sender stays in its
-- inner loop: it never ends, and so the destructor, which joins it, does not either.
pub shut_down-blocks :
    (b : Bridge) {c : Bridge}
    → b.uplink.tunnel.queue ≡ []
    → b.uplink.tunnel.sender ≡ waiting
    → b.uplink.tunnel.receiver ≡ heading
    → Runs (record b { uplink = record (b.uplink) { tunnel = shut_down b.uplink.tunnel } }) c
    → ((c.uplink.tunnel.sender ≡ popping) ⊎ (c.uplink.tunnel.sender ≡ waiting))
      × (c.uplink.tunnel.sender ≢ ended)
shut_down-blocks b {c} empty waits heads run =
    let v = Runs-IsStuck run (shut_down-IsStuck b.uplink.tunnel empty waits heads) in
    (v.sender, IsStuck-ne-ended c.uplink.tunnel v)
