-- ===== src/Tunnel/Steps.antt =====
-- Every step of a tunnel keeps what it passes on (Relay).
use mathlib.Core.List.Sublist
use mathlib.Core.List.{append-nil, Sublist, sublist-append_left}
use secure_mavlink_gateway.Prelude.{
  ℕ, ◌+◌, ◌≡◌, refl, sym, ap, subst, true, List, ◌++◌, length, length-append, if◌then◌else◌,
  Bool-cases, inl, inr, ◌<◌, arith,
}
use secure_mavlink_gateway.Adapter.{Adapter}
use secure_mavlink_gateway.Tunnel.{
  Receiver, after_recv, Sender, popping, writing, trimming, Tunnel, signal_sender, trim, overflows,
  shut_down, Flow, Step, enter, leave, dial, dialed, hear, store, begin, finish, fetch, wake, skip,
  check, write, cut, rest, shut,
}
use secure_mavlink_gateway.Tunnel.Relay.{
  IsRelayed, present_of, in_hand, moved-IsRelayed, idle-IsRelayed, stored-IsRelayed,
  popped-IsRelayed, past-IsRelayed, in_hand-signal_sender, signal_sender-ne-waiting,
}
use mathlib.Core.List.{append-nil, sublist-append_left}
use secure_mavlink_gateway.Prelude.{Bool-cases, if◌then◌else◌, inl, inr, ◌<◌}

overflows_lem :
    (t : Tunnel) → overflows t ≡ true → (0 < t.max_queue_size) × (t.max_queue_size < length t.queue)
unfolding overflows
overflows_lem t h = ground arith

-- The whole queue is removed, or nothing.
cut-IsRelayed :
    (f : Flow) (size : ℕ)
    → f.tunnel.sender ≡ trimming size
    → IsRelayed f
    → IsRelayed (record f {
      tunnel = trim size f.tunnel;
      dropped = if overflows f.tunnel then f.dropped + length f.tunnel.queue else f.dropped;
    })
unfolding trim
cut-IsRelayed f size at v = elim (Bool-cases (overflows f.tunnel)) [
  | inr fits ↦ rw fits (idle-IsRelayed f (Sender.pacing size) at refl refl (λ waits. cc) v)
  | inl over ↦
      let (limited, many) = overflows_lem f.tunnel over in
      let all : f.given ++ f.tunnel.queue ≡ present_of f =
        ap (λ (h : List (List ℕ)). f.given ++ (h ++ f.tunnel.queue)) (sym (ap in_hand at)) in
      rw over (record {
        order =
            Sublist.trans
              (subst (λ xs. Sublist xs (f.given ++ f.tunnel.queue)) (sym (append-nil f.given))
                (sublist-append_left f.given f.tunnel.queue))
              (subst (λ xs. Sublist xs f.stored) (sym all) v.order);
        exact = λ none. absurd (omega arith);
        counted = omega (
          arith,
          ap (λ (xs : List (List ℕ)). length xs) all,
          ap (λ (xs : List (List ℕ)). length xs) (append-nil f.given),
          length-append f.given f.tunnel.queue,
          v.counted,
        );
        many = λ some. omega (
          arith,
          ap (λ (xs : List (List ℕ)). length xs) all,
          length-append f.given f.tunnel.queue,
          v.counted,
        );
        unlimited = λ off. absurd (omega arith);
        awake = λ waits. cc;
      })
]

pub Step-IsRelayed :
    {f f' : Flow} {source sink source' sink' : Adapter}
    → Step f source sink f' source' sink'
    → IsRelayed f
    → IsRelayed f'
unfolding shut_down
Step-IsRelayed {f} (enter at on) v =
    moved-IsRelayed f (record (f.tunnel) { receiver = Receiver.receiving }) f.given refl refl
      v.awake v
Step-IsRelayed {f} (leave at off) v =
    moved-IsRelayed f (record (f.tunnel) { receiver = Receiver.left }) f.given refl refl v.awake v
Step-IsRelayed {f} (dial d at off) v =
    moved-IsRelayed f (record (f.tunnel) { receiver = Receiver.dialing d }) f.given refl refl
      v.awake v
Step-IsRelayed {f} (dialed d at) v =
    moved-IsRelayed f (record (f.tunnel) { receiver = Receiver.receiving }) f.given refl refl
      v.awake v
Step-IsRelayed {f} (hear {rv} answer at on got) v =
    moved-IsRelayed f (record (f.tunnel) { receiver = after_recv rv }) f.given refl refl v.awake v
Step-IsRelayed {f} (store packet at) v = stored-IsRelayed f packet v
Step-IsRelayed {f} (begin at on) v = idle-IsRelayed f popping at refl refl (λ waits. cc) v
Step-IsRelayed {f} (finish at off) v = idle-IsRelayed f Sender.ended at refl refl (λ waits. cc) v
Step-IsRelayed {f} (fetch at) v = popped-IsRelayed f f.tunnel.queue refl at v
Step-IsRelayed {f} (wake at) v = idle-IsRelayed f popping at refl refl (λ waits. cc) v
Step-IsRelayed {f} (skip packet at off) v = past-IsRelayed f packet (ap in_hand at) v
Step-IsRelayed {f} (check packet at on) v =
    moved-IsRelayed f (record (f.tunnel) { sender = writing packet }) f.given refl
      (ap (λ (h : List (List ℕ)). f.given ++ (h ++ f.tunnel.queue)) (sym (ap in_hand at)))
      (λ waits. cc) v
Step-IsRelayed {f} (write packet at) v =
    let kept = past-IsRelayed f packet (ap in_hand at) v in
    record {
      order = kept.order;
      exact = kept.exact;
      counted = kept.counted;
      many = kept.many;
      unlimited = kept.unlimited;
      awake = kept.awake;
    }
Step-IsRelayed {f} (cut size at) v = cut-IsRelayed f size at v
Step-IsRelayed {f} (rest size at) v = idle-IsRelayed f Sender.looping at refl refl (λ waits. cc) v
Step-IsRelayed {f} shut v =
    moved-IsRelayed f
      (record (f.tunnel) { terminate = true; sender = signal_sender f.tunnel.sender }) f.given refl
      (ap (λ (h : List (List ℕ)). f.given ++ (h ++ f.tunnel.queue))
        (in_hand-signal_sender f.tunnel.sender))
      (λ waits. absurd (signal_sender-ne-waiting f.tunnel.sender waits)) v
