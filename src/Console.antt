-- ===== src/Console.antt =====
-- `console_spin` of lib/plugins/console.c: ten times a second at most, a key is read and its handler
-- called. The handlers set flags of `secure_gateway_pipeline`, the one pipeline there is.
pub mod Keys
pub mod Input
mod Tests
use secure_mavlink_gateway.Prelude.{
  ℕ, true, false, not, Option, none, some, ltb, if◌then◌else◌, ◌==◌,
}
use secure_mavlink_gateway.Outcome.{Outcome, done, out_of_bounds, assert, ◌>>=◌, ◌>>◌}
use secure_mavlink_gateway.Platform.{Platform}
use secure_mavlink_gateway.Perf.{sub64}
use secure_mavlink_gateway.Pipeline.{Pipeline}

module _ ⦃platform : Platform⦄ where
  open platform use {World, time_us, read_char, char_is_signed}

  unfoldable pub to_enable_security_policy : Pipeline → Pipeline
  to_enable_security_policy p = record p { policy_enabled = true }

  unfoldable pub to_disable_security_policy : Pipeline → Pipeline
  to_disable_security_policy p = record p { policy_enabled = false }

  unfoldable pub to_enable_transformer : Pipeline → Pipeline
  to_enable_transformer p = record p { transform_enabled = true }

  unfoldable pub to_disable_transformer : Pipeline → Pipeline
  to_disable_transformer p = record p { transform_enabled = false }

  -- `console_handlers[c]`: an array of 128 handlers, null where none is named.
  unfoldable pub console_handlers : ℕ → Outcome (Option (Pipeline → Pipeline))
  unfolding to_enable_security_policy to_disable_security_policy to_enable_transformer
      to_disable_transformer
  console_handlers c =
      if not (ltb c 128)
      then out_of_bounds
      else if c == b'e'
      then done (some to_enable_security_policy)
      else if c == b'd'
      then done (some to_disable_security_policy)
      else if c == b't'
      then done (some to_enable_transformer)
      else if c == b'f'
      then done (some to_disable_transformer)
      else done none

  -- What the console works on: the pipeline, the static variable `last_time`, and the world.
  pub record Console : Type 0 where
    pub pipeline : Pipeline
    pub last_time : ℕ
    pub world : World

  -- A `char` of 128 or more is negative where `char` is signed.
  unfoldable pub press : Pipeline → ℕ → Outcome Pipeline
  unfolding console_handlers
  press p c = do
    assert (if char_is_signed then ltb c 128 else true)
    handler ← console_handlers c
    elim handler [ none ↦ done p | some f ↦ done (f p) ]

  unfoldable pub console_spin : Console → Outcome Console
  unfolding press
  console_spin s =
      let (cur_time, w) = time_us s.world in
      if ltb (sub64 cur_time s.last_time) 100000
      then done (record s { world = w })
      else (let (c, w') = read_char w in
          if c == 0
          then done (record s { last_time = cur_time; world = w' })
          else (press s.pipeline c >>= λ p.
              done (record { pipeline = p; last_time = cur_time; world = w' })))
