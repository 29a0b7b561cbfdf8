-- ===== src/Log.antt =====
-- lib/log_ringleader.c: the log lines of a CertiKOS build, which go to the ring leader. The ring leader
-- itself, its writers and the C library are not under this repository.
pub mod Writer
mod Tests
use secure_mavlink_gateway.Prelude.{
  ℕ, ◌+◌, Bool, true, false, Option, none, some, List, [], ◌∷◌, ◌++◌, length, take, if◌then◌else◌,
}
use secure_mavlink_gateway.Outcome.{Outcome, done, out_of_bounds, ◌>>=◌}

-- The static variables of `get_rl` (`_rl` and `rl`) and of `ringleader_log_vprintf`; a ring leader is its
-- number, and a writer is known by the ring leader that it was made with, which may be null. `none` is NULL.
pub record Statics : Type 0 where
  pub made : Option ℕ
  pub ready : Option ℕ
  pub rw : Option (Option ℕ)

abbrev pub no_statics : Statics
no_statics = record { made = none; ready = none; rw = none }

-- What `ringleader_factory` would return, and whether `ringleader_init_finished` says that it has.
pub record Leader : Type 0 where
  pub factory : Option ℕ
  pub finished : Bool

unfoldable pub make : Leader → Statics → Statics
make l s = elim s.made [ none ↦ record s { made = l.factory } | some rl ↦ s ]

-- `get_rl`
unfoldable pub get_rl : Leader → Statics → Option ℕ × Statics
unfolding make
get_rl l s = elim s.ready [
  | some rl ↦ (some rl, s)
  | none ↦
      let s' = make l s in
      let found = if l.finished then s'.made else none in (found, record s' { ready = found })
]

-- A call of `pipeline_log_printf`: the ring leader at that time, whether `ringleader_writer_factory` makes
-- a writer if it is called, or returns NULL, the line that the format makes, and whether `vfprintf`
-- wrote it, or returned -1.
pub record Call : Type 0 where
  pub leader : Leader
  pub makes : Bool
  pub line : List ℕ
  pub printed : Bool

-- A call of `ringleader_writer_write`: the ring leader, the writer, `none` if it is NULL and otherwise known
-- by the ring leader that it was made with, and the buffer.
pub record Write : Type 0 where
  pub rl : Option ℕ
  pub rw : Option (Option ℕ)
  pub buffer : List ℕ

-- `if (rw == NULL) rw = ringleader_writer_factory(rl, …)`
unfoldable pub writer : Bool → Option ℕ → Statics → Statics
writer makes rl s = elim s.rw [
  | some rw ↦ s
  | none ↦ record s { rw = if makes then some rl else none }
]

-- `ringleader_log_vprintf` with the `len` that `vfprintf` returned: -1 is an index before the buffer.
unfoldable pub ringleader_log_vprintf :
    Leader → Bool → Option ℕ → List ℕ → Statics → Outcome (Write × Statics)
unfolding get_rl writer
ringleader_log_vprintf l makes len line s =
    let (rl, s₁) = get_rl l s in
    let s₂ = writer makes rl s₁ in
    elim len [
      | none ↦ out_of_bounds
      | some n ↦ done (record { rl = rl; rw = s₂.rw; buffer = take n line ++ 0 ∷ [] }, s₂)
    ]

-- `pipeline_log_printf` on CertiKOS
unfoldable pub pipeline_log_printf : Call → Statics → Outcome (Write × Statics)
unfolding ringleader_log_vprintf
pipeline_log_printf c s =
    ringleader_log_vprintf c.leader c.makes (if c.printed then some (length c.line) else none)
      c.line s

-- One call after the other.
unfoldable pub log_all : List Call → Statics → Outcome (List Write × Statics)
unfolding pipeline_log_printf
log_all [] s = done ([], s)
log_all (c ∷ cs) s =
    pipeline_log_printf c s >>= λ (w, s'). log_all cs s' >>= λ (ws, last). done (w ∷ ws, last)
