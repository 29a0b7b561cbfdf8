-- ===== src/Tunnel/Relay.antt =====
-- What a tunnel passes on, whatever the order of its threads' steps.
use mathlib.Core.List.Sublist
use mathlib.Core.List.{append_assoc, Sublist}
use secure_mavlink_gateway.Prelude.{
  ℕ, ◌+◌, ◌≡◌, ◌≢◌, refl, sym, ap, ap₂, ◌∙◌, subst, List, [], ◌∷◌, ◌++◌, length, length-append, ◌<◌,
  arith,
}
use secure_mavlink_gateway.Tunnel.{
  past, Sender, waiting, popping, sending, writing, trimming, Tunnel, signal_sender, push, pop,
  pop_from, Flow,
}

-- The packet that the sending thread has in hand.
abbrev pub in_hand : Sender → List (List ℕ)
in_hand (sending packet) = packet ∷ []
in_hand (writing packet) = packet ∷ []
in_hand _ = []

-- The packets that were given to `send` or will be, as things stand.
abbrev pub present : List (List ℕ) → Sender → List (List ℕ) → List (List ℕ)
present given sender queue = given ++ (in_hand sender ++ queue)

abbrev pub present_of : Flow → List (List ℕ)
present_of f = present f.given f.tunnel.sender f.tunnel.queue

-- The packets that were given to `send`, that the sender has in hand and that wait are, in this order, some of
-- those that were stored, and all of them if none was removed; the removed ones make up the
-- difference, none is removed without a limit or before more than it were stored, and the sender does not wait while a packet does.
pub record IsRelayed (f : Flow) : Type 0 where
  pub order : Sublist (present_of f) f.stored
  pub exact : f.dropped ≡ 0 → present_of f ≡ f.stored
  pub counted : length (present_of f) + f.dropped ≡ length f.stored
  pub many : 0 < f.dropped → f.tunnel.max_queue_size < length f.stored
  pub unlimited : f.tunnel.max_queue_size ≡ 0 → f.dropped ≡ 0
  pub awake : f.tunnel.sender ≡ waiting → f.tunnel.queue ≡ []

-- A step that leaves alone what is stored and what is present.
pub moved-IsRelayed :
    (f : Flow) (t : Tunnel) (given : List (List ℕ))
    → t.max_queue_size ≡ f.tunnel.max_queue_size
    → present given t.sender t.queue ≡ present_of f
    → (t.sender ≡ waiting → t.queue ≡ [])
    → IsRelayed f
    → IsRelayed (record f { tunnel = t; given = given })
moved-IsRelayed f t given limit same awake v = record {
  order = subst (λ xs. Sublist xs f.stored) (sym same) v.order;
  exact = λ none. same ∙ v.exact none;
  counted = ap (λ (xs : List (List ℕ)). length xs + f.dropped) same ∙ v.counted;
  many = λ some. omega (arith, v.many some, limit);
  unlimited = λ off. v.unlimited (sym limit ∙ off);
  awake = awake;
}

-- The sender moves on with nothing in hand before and after.
pub idle-IsRelayed :
    (f : Flow) (s : Sender) {p : Sender}
    → f.tunnel.sender ≡ p
    → in_hand p ≡ []
    → in_hand s ≡ []
    → (s ≡ waiting → f.tunnel.queue ≡ [])
    → IsRelayed f
    → IsRelayed (record f { tunnel = record (f.tunnel) { sender = s } })
idle-IsRelayed f s at before after awake v =
    moved-IsRelayed f (record (f.tunnel) { sender = s }) f.given refl
      (ap (λ (hand : List (List ℕ)). f.given ++ (hand ++ f.tunnel.queue))
        (after ∙ sym (ap in_hand at ∙ before)))
      awake v

pub in_hand-signal_sender : (s : Sender) → in_hand (signal_sender s) ≡ in_hand s
unfolding signal_sender
in_hand-signal_sender waiting = refl
in_hand-signal_sender Sender.unstarted = refl
in_hand-signal_sender Sender.looping = refl
in_hand-signal_sender popping = refl
in_hand-signal_sender Sender.ended = refl
in_hand-signal_sender (sending packet) = refl
in_hand-signal_sender (writing packet) = refl
in_hand-signal_sender (trimming size) = refl
in_hand-signal_sender (Sender.pacing size) = refl

pub signal_sender-ne-waiting : (s : Sender) → signal_sender s ≢ waiting
unfolding signal_sender
signal_sender-ne-waiting waiting e = cc
signal_sender-ne-waiting Sender.unstarted e = cc
signal_sender-ne-waiting Sender.looping e = cc
signal_sender-ne-waiting popping e = cc
signal_sender-ne-waiting Sender.ended e = cc
signal_sender-ne-waiting (sending packet) e = cc
signal_sender-ne-waiting (writing packet) e = cc
signal_sender-ne-waiting (trimming size) e = cc
signal_sender-ne-waiting (Sender.pacing size) e = cc

-- A packet is stored.
pub stored-IsRelayed :
    (f : Flow) (packet : List ℕ)
    → IsRelayed f
    → IsRelayed (record f { tunnel = push packet f.tunnel; stored = f.stored ++ packet ∷ [] })
unfolding push
stored-IsRelayed f packet v =
    let hand = in_hand f.tunnel.sender in
    let grown : present f.given (signal_sender f.tunnel.sender) (f.tunnel.queue ++ packet ∷ [])
        ≡ present_of f ++ packet ∷ [] =
      ap (λ (h : List (List ℕ)). f.given ++ (h ++ (f.tunnel.queue ++ packet ∷ [])))
        (in_hand-signal_sender f.tunnel.sender)
      ∙ simp append_assoc in
    record {
      order =
          subst (λ xs. Sublist xs (f.stored ++ packet ∷ [])) (sym grown)
            (Sublist.append v.order (Sublist.refl (packet ∷ [])));
      exact = λ none. grown ∙ ap (λ xs. xs ++ packet ∷ []) (v.exact none);
      counted = omega (
        arith,
        ap (λ (xs : List (List ℕ)). length xs) grown,
        length-append (present_of f) (packet ∷ []),
        length-append f.stored (packet ∷ []),
        v.counted,
      );
      many = λ some. omega (arith, v.many some, length-append f.stored (packet ∷ []));
      unlimited = v.unlimited;
      awake = λ waits. absurd (signal_sender-ne-waiting f.tunnel.sender waits);
    }

pub pop-nil : (t : Tunnel) → t.queue ≡ [] → pop t ≡ record t { sender = waiting }
unfolding pop
pop-nil t none = ap (λ (q : List (List ℕ)). pop_from q t) none

pub pop-cons :
    (t : Tunnel) (packet : List ℕ) (queue : List (List ℕ))
    → t.queue ≡ packet ∷ queue
    → pop t ≡ record t { sender = sending packet; queue = queue }
unfolding pop
pop-cons t packet queue some = ap (λ (q : List (List ℕ)). pop_from q t) some

-- The sender takes the first packet, or waits for one.
pub popped-IsRelayed :
    (f : Flow) (queue : List (List ℕ))
    → f.tunnel.queue ≡ queue
    → f.tunnel.sender ≡ popping
    → IsRelayed f
    → IsRelayed (record f { tunnel = pop f.tunnel })
popped-IsRelayed f [] same at v =
    subst (λ t. IsRelayed (record f { tunnel = t })) (sym (pop-nil f.tunnel same))
      (idle-IsRelayed f waiting at refl refl (λ waits. same) v)
popped-IsRelayed f (packet ∷ queue) same at v =
    subst (λ t. IsRelayed (record f { tunnel = t })) (sym (pop-cons f.tunnel packet queue same))
      (moved-IsRelayed f (record (f.tunnel) { sender = sending packet; queue = queue }) f.given refl
        (ap₂ (λ (hand q : List (List ℕ)). f.given ++ (hand ++ q)) (sym (ap in_hand at)) (sym same))
        (λ waits. cc) v)

-- The packet in hand has been given to `send`.
pub past-IsRelayed :
    (f : Flow) (packet : List ℕ)
    → in_hand f.tunnel.sender ≡ packet ∷ []
    → IsRelayed f
    → IsRelayed (past packet f)
past-IsRelayed f packet hand v =
    moved-IsRelayed f (record (f.tunnel) { sender = trimming (length packet) })
      (f.given ++ packet ∷ []) refl
      (append_assoc f.given (packet ∷ []) f.tunnel.queue
        ∙ ap (λ (h : List (List ℕ)). f.given ++ (h ++ f.tunnel.queue)) (sym hand))
      (λ waits. cc) v
