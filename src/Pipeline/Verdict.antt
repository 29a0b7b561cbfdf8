-- ===== src/Pipeline/Verdict.antt =====
-- What the default policies of lib/security_policies.c decide, written down on its own.
use secure_mavlink_gateway.Prelude.{
  ℕ, zero, suc, ◌+◌, ◌/◌, ◌%◌, ◌<◌, ◌≤◌, ◌≡◌, refl, ◌∙◌, Bool, true, false, not, ◌&&◌, ◌||◌, some,
  List, get_elem?, set, length, get_elem?-set_self, get_elem?-inside, lt→ltb, ◌^◌, get_elem?-set_ne,
  length-set, bit_or, if◌then◌else◌, ◌==◌, arith, leb, Bool-cases, inl, inr,
}
use secure_mavlink_gateway.Prelude.Bits.{bit_or_step}
use secure_mavlink_gateway.Outcome.{done}
use secure_mavlink_gateway.Platform.{Platform}
use secure_mavlink_gateway.Bitmap.{bitmap_set}
use secure_mavlink_gateway.Message.{Message}
use secure_mavlink_gateway.Ports.{sink_type_discard, source_type_legacy, source_type_enclave}
use secure_mavlink_gateway.Policy.{Policy, PolicyMgmt, policy_register, max_policies}
use secure_mavlink_gateway.Policy.Rules.{
  same_prefix, fence_enable, policy_id_accept_vmc, policy_id_reject_disable_geofence,
  policy_id_reject_meminfo, security_policy_match_vmc, security_policy_match_mmc,
  security_policy_check_accept, security_policy_reject_mavlink_cmd_disable_geofence,
  security_policy_reject_mavlink_cmd_meminfo,
}
use secure_mavlink_gateway.Pipeline.{
  Pipeline, security_policy_init, inspect_policy, inspect_loop, pipeline_inspect,
}

bit_or_self-fuel : (n a : ℕ) → a ≤ n → bit_or a a ≡ a
bit_or_self-fuel n zero h = refl
bit_or_self-fuel zero (suc a) h = absurd (omega arith)
bit_or_self-fuel (suc n) (suc a) h =
    omega (arith, bit_or_step (suc a) (suc a), bit_or_self-fuel n (suc a / 2) (omega arith))

bit_or_self : (a : ℕ) → bit_or a a ≡ a
bit_or_self a = bit_or_self-fuel a a (omega arith)

module _ ⦃platform : Platform⦄ where
  open platform use {
    Msg, msgid, float_is_zero, command_long_decode, param_set_decode, msg_id_meminfo,
    msg_id_command_long, msg_id_param_set, cmd_do_fence_enable,
  }

  -- A command or a parameter that turns the geofence off.
  abbrev pub disables_geofence : Msg → Bool
  disables_geofence m =
      ((msgid m == msg_id_command_long)
        && (((command_long_decode m).command == cmd_do_fence_enable)
            && float_is_zero (command_long_decode m).param1))
      || (not (msgid m == msg_id_command_long)
          && ((msgid m == msg_id_param_set)
              && (same_prefix 12 (param_set_decode m).param_id fence_enable
                  && float_is_zero (param_set_decode m).param_value)))

  -- A message that only the vehicle itself may send.
  abbrev pub forbidden : Msg → Bool
  forbidden m = disables_geofence m || (msgid m == msg_id_meminfo)

  -- The ground side: the legacy operating system and the enclaves.
  abbrev pub from_ground : ℕ → Bool
  from_ground source = (source == source_type_legacy) || leb source_type_enclave source

  abbrev pub blocked : Pipeline → Message → Bool
  blocked p m = p.policy_enabled && (from_ground m.source && forbidden m.msg)

  abbrev accept_vmc : Policy
  accept_vmc = record {
    policy_id = policy_id_accept_vmc;
    match = some security_policy_match_vmc;
    check = some security_policy_check_accept;
  }

  abbrev reject_disable_geofence : Policy
  reject_disable_geofence = record {
    policy_id = policy_id_reject_disable_geofence;
    match = some security_policy_match_mmc;
    check = some security_policy_reject_mavlink_cmd_disable_geofence;
  }

  abbrev reject_meminfo : Policy
  reject_meminfo = record {
    policy_id = policy_id_reject_meminfo;
    match = some security_policy_match_mmc;
    check = some security_policy_reject_mavlink_cmd_meminfo;
  }

  -- The table that `security_policy_init` leaves.
  pub record IsDefault (mgmt : PolicyMgmt) : Type 0 where
    pub three : mgmt.count ≡ 3
    pub first : get_elem? mgmt.policies 0 ≡ some accept_vmc
    pub second : get_elem? mgmt.policies 1 ≡ some reject_disable_geofence
    pub third : get_elem? mgmt.policies 2 ≡ some reject_meminfo

  -- A message marked for the sink of discarded messages.
  abbrev pub discarded : Message → Message
  discarded m = record m { sinks = bitmap_set m.sinks sink_type_discard }

  -- One round of each default policy.
  inspect-accept_vmc : (m : Message) → inspect_policy accept_vmc m ≡ done (m, false)
  unfolding inspect_policy security_policy_match_vmc security_policy_check_accept
  inspect-accept_vmc m = ground (arith, bit_or_self m.attribute)

  inspect-geofence :
      (m : Message)
      → inspect_policy reject_disable_geofence m
        ≡ done (
            if from_ground m.source && disables_geofence m.msg
            then (discarded m, true)
            else (m, false))
  unfolding inspect_policy security_policy_match_mmc
      security_policy_reject_mavlink_cmd_disable_geofence
  inspect-geofence m = ground (arith, bit_or_self m.attribute)

  inspect-meminfo :
      (m : Message)
      → inspect_policy reject_meminfo m
        ≡ done (
            if from_ground m.source && (msgid m.msg == msg_id_meminfo)
            then (discarded m, true)
            else (m, false))
  unfolding inspect_policy security_policy_match_mmc security_policy_reject_mavlink_cmd_meminfo
  inspect-meminfo m = ground (arith, bit_or_self m.attribute)

  inspect_loop_lem :
      (policies : List Policy) (m : Message)
      → get_elem? policies 0 ≡ some accept_vmc
      → get_elem? policies 1 ≡ some reject_disable_geofence
      → get_elem? policies 2 ≡ some reject_meminfo
      → inspect_loop 3 0 policies m
        ≡ done (if from_ground m.source && forbidden m.msg then discarded m else m)
  unfolding inspect_loop
  inspect_loop_lem policies m e₀ e₁ e₂ =
      elim (Bool-cases (from_ground m.source && disables_geofence m.msg)) [
        | inl y ↦ rw (e₀, inspect-accept_vmc m, e₁, inspect-geofence m, y) (ground arith)
        | inr n ↦
            rw (e₀, inspect-accept_vmc m, e₁, inspect-geofence m, n)
              (rw (e₂, inspect-meminfo m) (ground arith))
      ]

  -- With the default policies, inspection lets a message pass unchanged or marks it as discarded. It
  -- marks it exactly if the policies are enabled, it comes from the ground side, and it turns the
  -- geofence off or is a memory report.
  pub pipeline_inspect_lem :
      (p : Pipeline) (m : Message)
      → IsDefault p.policies
      → pipeline_inspect p m ≡ done (if blocked p m then discarded m else m)
  unfolding pipeline_inspect
  pipeline_inspect_lem p m d =
      ground (arith, inspect_loop_lem p.policies.policies m d.first d.second d.third)

  register_lem :
      (slots : List Policy) (n : ℕ) (policy : Policy)
      → n < max_policies
      → length slots ≡ max_policies
      → policy_register
          (record { policies = slots; count = n })
          policy.policy_id
          policy.match
          policy.check
        ≡ done (record { policies = set slots n policy; count = (n + 1) % 2 ^ 64 })
  unfolding policy_register
  register_lem slots n policy room len =
      let (old, e) = get_elem?-inside slots n (omega arith) in rw (lt→ltb n max_policies room, e)

  -- `security_policy_init` on an empty table of 16 slots succeeds and leaves the default policies,
  -- and 16 slots.
  pub security_policy_init_lem :
      (slots : List Policy)
      → length slots ≡ max_policies
      → (mgmt : PolicyMgmt) × (security_policy_init (record { policies = slots; count = 0 })
          ≡ done mgmt)
        × IsDefault mgmt
        × (length mgmt.policies ≡ max_policies)
  unfolding security_policy_init
  security_policy_init_lem slots len = (
    record { policies = three; count = 3 },
    rw (
      register_lem slots 0 accept_vmc (omega arith) len,
      register_lem one 1 reject_disable_geofence (omega arith) one_len,
      register_lem two 2 reject_meminfo (omega arith) two_len,
    ),
    record {
      three = refl;
      first =
          get_elem?-set_ne two 2 0 reject_meminfo (omega arith)
          ∙ get_elem?-set_ne one 1 0 reject_disable_geofence (omega arith)
          ∙ get_elem?-set_self slots 0 accept_vmc (omega arith);
      second =
          get_elem?-set_ne two 2 1 reject_meminfo (omega arith)
          ∙ get_elem?-set_self one 1 reject_disable_geofence (omega (arith, one_len));
      third = get_elem?-set_self two 2 reject_meminfo (omega (arith, two_len));
    },
    length-set two 2 reject_meminfo ∙ two_len,
  )
    where
      one : List Policy
      one = set slots 0 accept_vmc

      one_len : length one ≡ max_policies
      one_len = length-set slots 0 accept_vmc ∙ len

      two : List Policy
      two = set one 1 reject_disable_geofence

      two_len : length two ≡ max_policies
      two_len = length-set one 1 reject_disable_geofence ∙ one_len

      three : List Policy
      three = set two 2 reject_meminfo
