-- ===== src/Policy/Rules.antt =====
-- The match and check functions of lib/security_policies.c.
use secure_mavlink_gateway.Prelude.{
  ℕ, zero, suc, Bool, true, false, not, ◌&&◌, ◌||◌, List, [], ◌∷◌, ◌==◌, leb, if◌then◌else◌,
}
use secure_mavlink_gateway.Platform.{Platform}
use secure_mavlink_gateway.Message.{Message}
use secure_mavlink_gateway.Ports.{source_type_vmc, source_type_legacy, source_type_enclave}

-- `strncmp(a, b, n) == 0`. Past the end of a list there is a NUL.
abbrev pub first_char : List ℕ → ℕ
first_char [] = 0
first_char (c ∷ cs) = c

abbrev pub later_chars : List ℕ → List ℕ
later_chars [] = []
later_chars (c ∷ cs) = cs

unfoldable pub same_prefix : ℕ → List ℕ → List ℕ → Bool
same_prefix zero a b = true
same_prefix (suc n) a b =
    let rest = same_prefix n (later_chars a) (later_chars b) in
    if first_char a == first_char b then (if first_char a == 0 then true else rest) else false

-- "FENCE_ENABLE"
abbrev pub fence_enable : List ℕ
fence_enable =
    b'F' ∷ b'E' ∷ b'N' ∷ b'C' ∷ b'E' ∷ b'_' ∷ b'E' ∷ b'N' ∷ b'A' ∷ b'B' ∷ b'L' ∷ b'E' ∷ []

-- `enum policy_id_t`
abbrev pub policy_id_accept_vmc : ℕ
policy_id_accept_vmc = 0

abbrev pub policy_id_reject_disable_geofence : ℕ
policy_id_reject_disable_geofence = 2

abbrev pub policy_id_reject_meminfo : ℕ
policy_id_reject_meminfo = 3

module _ ⦃platform : Platform⦄ where
  open platform use {
    msgid, float_is_zero, command_long_decode, param_set_decode, msg_id_meminfo,
    msg_id_command_long, msg_id_param_set, cmd_nav_waypoint, cmd_do_fence_enable,
  }

  pub security_policy_match_all : ℕ → Message → Bool
  security_policy_match_all policy m = true

  unfoldable pub security_policy_match_vmc : ℕ → Message → Bool
  security_policy_match_vmc policy m = m.source == source_type_vmc

  unfoldable pub security_policy_match_mmc : ℕ → Message → Bool
  security_policy_match_mmc policy m =
      (m.source == source_type_legacy) || leb source_type_enclave m.source

  pub security_policy_check_reject : ℕ → Message → ℕ → Bool × ℕ
  security_policy_check_reject policy m attribute = (false, attribute)

  unfoldable pub security_policy_check_accept : ℕ → Message → ℕ → Bool × ℕ
  security_policy_check_accept policy m attribute = (true, attribute)

  unfoldable pub security_policy_reject_mavlink_cmd_meminfo : ℕ → Message → ℕ → Bool × ℕ
  security_policy_reject_mavlink_cmd_meminfo policy m attribute =
      if msgid m.msg == msg_id_meminfo then (false, attribute) else (true, attribute)

  pub security_policy_reject_mavlink_cmd_waypoint : ℕ → Message → ℕ → Bool × ℕ
  security_policy_reject_mavlink_cmd_waypoint policy m attribute =
      if not (msgid m.msg == msg_id_command_long)
      then (true, attribute)
      else if not ((command_long_decode m.msg).command == cmd_nav_waypoint)
      then (true, attribute)
      else (false, attribute)

  unfoldable pub security_policy_reject_mavlink_cmd_disable_geofence : ℕ → Message → ℕ → Bool × ℕ
  security_policy_reject_mavlink_cmd_disable_geofence policy m attribute =
      if msgid m.msg == msg_id_command_long
      then (let cmd = command_long_decode m.msg in
          if (cmd.command == cmd_do_fence_enable) && float_is_zero cmd.param1
          then (false, attribute)
          else (true, attribute))
      else if msgid m.msg == msg_id_param_set
      then (let param = param_set_decode m.msg in
          if same_prefix 12 param.param_id fence_enable && float_is_zero param.param_value
          then (false, attribute)
          else (true, attribute))
      else (true, attribute)
