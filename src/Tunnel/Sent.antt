-- ===== src/Tunnel/Sent.antt =====
-- Which of the packets given to `Adapter::send` reach the socket.
use mathlib.Core.List.Sublist
use mathlib.Core.List.{Sublist, sublist-append_left}
use secure_mavlink_gateway.Prelude.{
  ℕ, ◌+◌, ◌≤◌, [], ◌∷◌, length, length-append, if◌then◌else◌, arith,
}
use secure_mavlink_gateway.Adapter.{Adapter, is_connected}
use secure_mavlink_gateway.Tunnel.{
  Flow, Step, enter, leave, dial, dialed, hear, store, begin, finish, fetch, wake, skip, check,
  write, cut, rest, shut,
}

-- 1 if there is no connection.
abbrev pub off : Adapter → ℕ
off a = if is_connected a then 0 else 1

-- What a step does to the two lists: they grow together, but for a packet that is dropped for want of a
-- connection.
pub record Hands (f f' : Flow) (sink : Adapter) : Type 0 where
  pub order : Sublist f.sent f.given → Sublist f'.sent f'.given
  pub most : length f'.given + length f.sent ≤ length f.given + length f'.sent + off sink

pub Step-Hands :
    {f f' : Flow} {source sink source' sink' : Adapter}
    → Step f source sink f' source' sink'
    → Hands f f' sink
Step-Hands (enter at on) = record { order = λ v. v; most = omega arith }
Step-Hands (leave at ends) = record { order = λ v. v; most = omega arith }
Step-Hands (dial d at down) = record { order = λ v. v; most = omega arith }
Step-Hands (dialed d at) = record { order = λ v. v; most = omega arith }
Step-Hands (hear answer at on got) = record { order = λ v. v; most = omega arith }
Step-Hands (store packet at) = record { order = λ v. v; most = omega arith }
Step-Hands (begin at on) = record { order = λ v. v; most = omega arith }
Step-Hands (finish at ends) = record { order = λ v. v; most = omega arith }
Step-Hands (fetch at) = record { order = λ v. v; most = omega arith }
Step-Hands (wake at) = record { order = λ v. v; most = omega arith }
Step-Hands {f} (skip packet at down) = record {
  order = λ v. Sublist.trans v (sublist-append_left f.given (packet ∷ []));
  most = rw down (omega (arith, length-append f.given (packet ∷ [])));
}
Step-Hands (check packet at up) = record { order = λ v. v; most = omega arith }
Step-Hands {f} (write packet at) = record {
  order = λ v. Sublist.append v (Sublist.refl (packet ∷ []));
  most = omega (arith, length-append f.given (packet ∷ []), length-append f.sent (packet ∷ []));
}
Step-Hands (cut size at) = record { order = λ v. v; most = omega arith }
Step-Hands (rest size at) = record { order = λ v. v; most = omega arith }
Step-Hands shut = record { order = λ v. v; most = omega arith }
