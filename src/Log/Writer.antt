-- ===== src/Log/Writer.antt =====
-- Which writer the log lines go to (lib/log_ringleader.c).
use secure_mavlink_gateway.Prelude.{
  ℕ, ◌≡◌, refl, sym, ap, ◌∙◌, subst, Bool, true, false, ◌||◌, ◌⊎◌, Option, none, some, List, [],
  ◌∷◌, ◌++◌, length, take, if◌then◌else◌, inl, inr, arith,
}
use secure_mavlink_gateway.Outcome.{done, Ensures, >>=-Ensures, ◌>>=◌}
use secure_mavlink_gateway.Log.{
  Statics, no_statics, Leader, make, get_rl, Call, Write, writer, pipeline_log_printf, log_all,
}

abbrev pub AllPrinted : List Call → Type 0
AllPrinted [] = Unit {0}
AllPrinted (c ∷ cs) = (c.printed ≡ true) × AllPrinted cs

-- `ringleader_factory` returns this ring leader.
abbrev pub AllGive : ℕ → List Call → Type 0
AllGive rl [] = Unit {0}
AllGive rl (c ∷ cs) = (c.leader.factory ≡ some rl) × AllGive rl cs

-- `ringleader_writer_factory` returns NULL each time.
abbrev pub NoneMakes : List Call → Type 0
NoneMakes [] = Unit {0}
NoneMakes (c ∷ cs) = (c.makes ≡ false) × NoneMakes cs

-- Whether the ring leader had finished by one of these calls.
abbrev pub any_finished : List Call → Bool
any_finished [] = false
any_finished (c ∷ cs) = c.leader.finished || any_finished cs

-- The lines, each with its end, all through one writer, or NULL.
abbrev pub AllThrough : Option (Option ℕ) → List Call → List Write → Type 0
AllThrough wr [] [] = Unit {0}
AllThrough wr (c ∷ cs) (w ∷ ws) =
    (w.rw ≡ wr) × (w.buffer ≡ take (length c.line) c.line ++ 0 ∷ []) × AllThrough wr cs ws
AllThrough wr _ _ = ⊥

abbrev leader_if : ℕ → Bool → Option ℕ
leader_if rl fin = if fin then some rl else none

-- The statics after calls by one of which the ring leader had finished, or not.
record IsSeen (rl : ℕ) (fin : Bool) (s : Statics) : Type 0 where
  pub made : (s.made ≡ none) ⊎ (s.made ≡ some rl)
  pub ready : s.ready ≡ leader_if rl fin

get_rl-rw : (l : Leader) (s : Statics) → (get_rl l s).1.rw ≡ s.rw
unfolding get_rl
get_rl-rw l s = ground arith

get_rl-IsSeen :
    (rl : ℕ) (fin : Bool) (l : Leader) (s : Statics)
    → l.factory ≡ some rl
    → IsSeen rl fin s
    → ((get_rl l s).0 ≡ leader_if rl (fin || l.finished))
      × IsSeen rl (fin || l.finished) (get_rl l s).1
unfolding get_rl make
get_rl-IsSeen rl true l s gives v = rw v.ready (refl, record { made = v.made; ready = refl })
get_rl-IsSeen rl false l s gives v = elim v.made [
  | inl new ↦ rw (v.ready, new, gives) (refl, record { made = inr refl; ready = refl })
  | inr old ↦ rw (v.ready, old) (refl, record { made = inr refl; ready = refl })
]

writer_old :
    (makes : Bool) (rl wr : Option ℕ) (s : Statics)
    → s.rw ≡ some wr
    → (writer makes rl s).rw ≡ some wr
unfolding writer
writer_old makes rl wr s old = rw old refl

writer_new :
    (makes : Bool) (rl : Option ℕ) (s : Statics)
    → s.rw ≡ none
    → ((writer makes rl s).rw ≡ (if makes then some rl else none))
      × ((writer makes rl s).made ≡ s.made)
      × ((writer makes rl s).ready ≡ s.ready)
unfolding writer
writer_new makes rl s new = rw new (refl, refl, refl)

-- A line while there is no writer.
printf_new :
    (rl : ℕ) (fin : Bool) (c : Call) (s : Statics)
    → c.printed ≡ true
    → c.leader.factory ≡ some rl
    → s.rw ≡ none
    → IsSeen rl fin s
    → let wr = if c.makes then some (leader_if rl (fin || c.leader.finished)) else none in
      Ensures (pipeline_log_printf c s) (λ (w, s').
        (w.rw ≡ wr)
        × (w.buffer ≡ take (length c.line) c.line ++ 0 ∷ [])
        × (s'.rw ≡ wr)
        × IsSeen rl (fin || c.leader.finished) s')
unfolding pipeline_log_printf
printf_new rl fin c s printed gives new v =
    let (found, seen) = get_rl-IsSeen rl fin c.leader s gives v in
    let s₁ = (get_rl c.leader s).1 in
    let (made, same, same') =
      writer_new c.makes (get_rl c.leader s).0 s₁ (get_rl-rw c.leader s ∙ new) in
    let it = made ∙ ap (λ (r : Option ℕ). if c.makes then some r else none) found in
    rw printed (
      _,
      refl,
      (
        it,
        refl,
        it,
        record {
          made = subst (λ (o : Option ℕ). (o ≡ none) ⊎ (o ≡ some rl)) (sym same) seen.made;
          ready = same' ∙ seen.ready;
        },
      ),
    )

-- A line with a writer.
printf_old :
    (c : Call) (s : Statics) (wr : Option ℕ)
    → c.printed ≡ true
    → s.rw ≡ some wr
    → Ensures (pipeline_log_printf c s) (λ (w, s').
      (w.rw ≡ some wr) × (w.buffer ≡ take (length c.line) c.line ++ 0 ∷ []) × (s'.rw ≡ some wr))
unfolding pipeline_log_printf
printf_old c s wr printed old =
    let it = writer_old c.makes (get_rl c.leader s).0 wr _ (get_rl-rw c.leader s ∙ old) in
    rw printed (_, refl, (it, refl, it))

log_all-through :
    (cs : List Call) (s : Statics) (wr : Option ℕ)
    → AllPrinted cs
    → s.rw ≡ some wr
    → Ensures (log_all cs s) (λ (ws, s'). AllThrough (some wr) cs ws)
unfolding log_all
log_all-through [] s wr printed old = (([], s), refl, tt)
log_all-through (c ∷ cs) s wr (one, printed) old =
    >>=-Ensures (pipeline_log_printf c s) _ (printf_old c s wr one old)
      (λ (w, s') (same, text, kept).
        >>=-Ensures (log_all cs s') _ (log_all-through cs s' wr printed kept)
          (λ (ws, last) through. ((w ∷ ws, last), refl, (same, text, through))))

-- The lines before there is a writer.
log_all-null :
    (cs : List Call) (rl : ℕ) (fin : Bool) (s : Statics)
    → AllPrinted cs
    → AllGive rl cs
    → NoneMakes cs
    → s.rw ≡ none
    → IsSeen rl fin s
    → Ensures
        (log_all cs s)
        (λ (ws, s'). AllThrough none cs ws × (s'.rw ≡ none) × IsSeen rl (fin || any_finished cs) s')
unfolding log_all
log_all-null [] rl fin s printed gives fails new v =
    (([], s), refl, (tt, new, subst (λ b. IsSeen rl b s) (sym (or_false fin)) v))
  where
    or_false : (b : Bool) → (b || false) ≡ b
    or_false true = refl
    or_false false = refl
log_all-null (c ∷ cs) rl fin s (one, printed) (gives, others) (fails, fail) new v =
    >>=-Ensures (pipeline_log_printf c s) _ (printf_new rl fin c s one gives new v)
      (λ (w, s') (through, text, made, seen).
        let none_yet =
          ap (λ (b : Bool). if b then some (leader_if rl (fin || c.leader.finished)) else none)
            fails in
        >>=-Ensures (log_all cs s') _
          (log_all-null cs rl (fin || c.leader.finished) s' printed others fail (made ∙ none_yet)
            seen)
          (λ (ws, last) (all, still, seen'). (
            (w ∷ ws, last),
            refl,
            (
              (through ∙ none_yet, text, all),
              still,
              subst (λ b. IsSeen rl b last) (or_assoc fin c.leader.finished (any_finished cs))
                  seen',
            ),
          )))
  where
    or_assoc : (a b d : Bool) → ((a || b) || d) ≡ (a || (b || d))
    or_assoc true b d = refl
    or_assoc false b d = refl

-- Given that `ringleader_factory` gives a ring leader, `vfprintf` prints every line, and
-- `ringleader_writer_factory` returns NULL in the calls before `c` and a writer in `c`: the lines before go to
-- NULL, and that of `c` and all after it to the writer made in `c`. It was made with the ring leader if that
-- had finished by `c`, and otherwise with NULL, although the ring leader may have finished since.
pub log_all_lem :
    (rl : ℕ) (before : List Call) (c : Call) (after : List Call)
    → AllPrinted before
    → AllPrinted (c ∷ after)
    → AllGive rl before
    → c.leader.factory ≡ some rl
    → NoneMakes before
    → c.makes ≡ true
    → let wr = if any_finished before || c.leader.finished then some rl else none in
      Ensures
        (log_all before no_statics >>= λ (ws, s).
          log_all (c ∷ after) s >>= λ (ws', s'). done (ws, ws'))
        (λ (ws, ws'). AllThrough none before ws × AllThrough (some wr) (c ∷ after) ws')
unfolding log_all
log_all_lem rl before c after printed (one, others) gives given fails makes =
    >>=-Ensures (log_all before no_statics) _
      (log_all-null before rl false no_statics printed gives fails refl
        (record { made = inl refl; ready = refl }))
      (λ (ws, s) (null, new, seen).
        >>=-Ensures (log_all (c ∷ after) s) _
          (>>=-Ensures (pipeline_log_printf c s) _
            (printf_new rl (any_finished before) c s one given new seen)
            (λ (w, s₁) (through, text, made, seen₁).
              let wr = leader_if rl (any_finished before || c.leader.finished) in
              let it = ap (λ (b : Bool). if b then some wr else none) makes in
              >>=-Ensures {Q = λ (ws', last). AllThrough (some wr) (c ∷ after) ws'}
                (log_all after s₁) _ (log_all-through after s₁ wr others (made ∙ it))
                (λ (ws', last) all. ((w ∷ ws', last), refl, (through ∙ it, text, all)))))
          (λ (ws', s') all. ((ws, ws'), refl, (null, all))))
