-- ===== src/Tunnel/Stuck.antt =====
-- A tunnel whose destructor finds the sender waiting for a packet.
use secure_mavlink_gateway.Prelude.{
  ◌≡◌, ◌≢◌, ◌⊎◌, refl, sym, ap, ◌∙◌, subst, true, false, [], inl, inr,
}
use secure_mavlink_gateway.Adapter.{Adapter}
use secure_mavlink_gateway.Tunnel.{
  Receiver, Sender, heading, left, popping, waiting, ended, Tunnel, signal_sender, shut_down, Flow,
  Step, enter, leave, dial, dialed, hear, store, begin, finish, fetch, wake, skip, check, write,
  cut, rest, shut,
}
use secure_mavlink_gateway.Tunnel.Relay.{pop-nil}

-- The tunnel is to end, no packet will come, and the sender waits for one.
pub record IsStuck (t : Tunnel) : Type 0 where
  pub ends : t.terminate ≡ true
  pub empty : t.queue ≡ []
  pub receiver : (t.receiver ≡ heading) ⊎ (t.receiver ≡ left)
  pub sender : (t.sender ≡ popping) ⊎ (t.sender ≡ waiting)

-- Another place of the sender is ruled out.
not_elsewhere :
    (t : Tunnel) (place : Sender)
    → IsStuck t
    → t.sender ≡ place
    → popping ≢ place
    → waiting ≢ place
    → ⊥
not_elsewhere t place v at not_popping not_waiting = elim v.sender [
  | inl pops ↦ not_popping (sym pops ∙ at)
  | inr waits ↦ not_waiting (sym waits ∙ at)
]

not_there :
    (t : Tunnel) (place : Receiver)
    → IsStuck t
    → t.receiver ≡ place
    → heading ≢ place
    → left ≢ place
    → ⊥
not_there t place v at not_heading not_left = elim v.receiver [
  | inl heads ↦ not_heading (sym heads ∙ at)
  | inr has_left ↦ not_left (sym has_left ∙ at)
]

signal_sender-stays :
    (s : Sender)
    → (s ≡ popping) ⊎ (s ≡ waiting)
    → (signal_sender s ≡ popping) ⊎ (signal_sender s ≡ waiting)
unfolding signal_sender
signal_sender-stays s (inl pops) = inl (ap signal_sender pops)
signal_sender-stays s (inr waits) = inl (ap signal_sender waits)

pub Step-IsStuck :
    {f f' : Flow} {source sink source' sink' : Adapter}
    → Step f source sink f' source' sink'
    → IsStuck f.tunnel
    → IsStuck f'.tunnel
unfolding shut_down
Step-IsStuck (enter at on) v = let no : true ≡ false = sym v.ends ∙ on in cc
Step-IsStuck (leave at off) v = record {
  ends = v.ends;
  empty = v.empty;
  receiver = inr refl;
  sender = v.sender;
}
Step-IsStuck {f} (dial d at off) v = absurd (not_there f.tunnel _ v at (λ e. cc) (λ e. cc))
Step-IsStuck {f} (dialed d at) v = absurd (not_there f.tunnel _ v at (λ e. cc) (λ e. cc))
Step-IsStuck {f} (hear answer at on got) v = absurd (not_there f.tunnel _ v at (λ e. cc) (λ e. cc))
Step-IsStuck {f} (store packet at) v = absurd (not_there f.tunnel _ v at (λ e. cc) (λ e. cc))
Step-IsStuck {f} (begin at on) v = absurd (not_elsewhere f.tunnel _ v at (λ e. cc) (λ e. cc))
Step-IsStuck {f} (finish at off) v = absurd (not_elsewhere f.tunnel _ v at (λ e. cc) (λ e. cc))
Step-IsStuck {f} (fetch at) v =
    subst IsStuck (sym (pop-nil f.tunnel v.empty))
      (record { ends = v.ends; empty = v.empty; receiver = v.receiver; sender = inr refl })
Step-IsStuck (wake at) v = record {
  ends = v.ends;
  empty = v.empty;
  receiver = v.receiver;
  sender = inl refl;
}
Step-IsStuck {f} (skip packet at off) v = absurd (not_elsewhere f.tunnel _ v at (λ e. cc) (λ e. cc))
Step-IsStuck {f} (check packet at on) v = absurd (not_elsewhere f.tunnel _ v at (λ e. cc) (λ e. cc))
Step-IsStuck {f} (write packet at) v = absurd (not_elsewhere f.tunnel _ v at (λ e. cc) (λ e. cc))
Step-IsStuck {f} (cut size at) v = absurd (not_elsewhere f.tunnel _ v at (λ e. cc) (λ e. cc))
Step-IsStuck {f} (rest size at) v = absurd (not_elsewhere f.tunnel _ v at (λ e. cc) (λ e. cc))
Step-IsStuck {f} shut v = record {
  ends = refl;
  empty = v.empty;
  receiver = v.receiver;
  sender = signal_sender-stays f.tunnel.sender v.sender;
}

pub shut_down-IsStuck :
    (t : Tunnel) → t.queue ≡ [] → t.sender ≡ waiting → t.receiver ≡ heading → IsStuck (shut_down t)
unfolding shut_down
shut_down-IsStuck t empty waits heads = record {
  ends = refl;
  empty = empty;
  receiver = inl heads;
  sender = signal_sender-stays t.sender (inr waits);
}

pub IsStuck-ne-ended : (t : Tunnel) → IsStuck t → t.sender ≢ ended
IsStuck-ne-ended t v at = not_elsewhere t ended v at (λ e. cc) (λ e. cc)
