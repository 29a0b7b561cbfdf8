-- ===== src/Console/Keys.antt =====
-- Which key does what, as one table.
use secure_mavlink_gateway.Prelude.{ℕ, ◌≡◌, true, false, Bool, ◌==◌, ltb, if◌then◌else◌, arith}
use secure_mavlink_gateway.Outcome.{done, assert_failed, out_of_bounds}
use secure_mavlink_gateway.Platform.{Platform}
use secure_mavlink_gateway.Pipeline.{Pipeline}
use secure_mavlink_gateway.Console.{
  press, console_handlers, to_enable_security_policy, to_disable_security_policy,
  to_enable_transformer, to_disable_transformer,
}

-- A flag that one key sets and another clears.
abbrev pub switched : ℕ → ℕ → ℕ → Bool → Bool
switched on off c flag = if c == on then true else if c == off then false else flag

module _ ⦃platform : Platform⦄ where
  open platform use {char_is_signed}

  abbrev pub pressed : Pipeline → ℕ → Pipeline
  pressed p c = record p {
    policy_enabled = switched b'e' b'd' c p.policy_enabled;
    transform_enabled = switched b't' b'f' c p.transform_enabled;
  }

  -- The keys `e` and `d` set and clear the flag of the policies, `t` and `f` that of the transformers,
  -- and no other ASCII key changes the pipeline. A byte from 128 on fails the assertion where `char`
  -- is signed, and reads past the handlers where it is not.
  pub press_lem :
      (p : Pipeline) (c : ℕ)
      → press p c ≡ (
          if ltb c 128
          then done (pressed p c)
          else if char_is_signed
          then assert_failed
          else out_of_bounds)
  unfolding press console_handlers to_enable_security_policy to_disable_security_policy
      to_enable_transformer to_disable_transformer
  press_lem p c = ground arith
