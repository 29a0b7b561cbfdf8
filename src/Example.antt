-- ===== src/Example.antt =====
-- A small platform for tests: a message is what one byte of input stands for, a device is a queue of
-- bytes, and the world remembers what was sent to which sink.
use secure_mavlink_gateway.Pipeline.Routes.{KeepsSinks}
use secure_mavlink_gateway.Prelude.{
  replicate, refl, zero, suc, arith, ℕ, ◌+◌, true, false, none, some, List, [], ◌∷◌, ◌==◌,
  if◌then◌else◌,
}
use secure_mavlink_gateway.Platform.{Platform}
use secure_mavlink_gateway.Message.{Message}
use secure_mavlink_gateway.Bitmap.{bitmap_const}
use secure_mavlink_gateway.Ports.{Source, Sink}
use secure_mavlink_gateway.Policy.{Policy, PolicyMgmt, max_policies}
use secure_mavlink_gateway.Policy.Rules.{
  policy_id_accept_vmc, policy_id_reject_disable_geofence, policy_id_reject_meminfo, fence_enable,
  security_policy_match_vmc, security_policy_match_mmc, security_policy_check_accept,
  security_policy_reject_mavlink_cmd_disable_geofence, security_policy_reject_mavlink_cmd_meminfo,
}
use secure_mavlink_gateway.Perf.{perf_init}
use secure_mavlink_gateway.Pipeline.{Pipeline, Push, default_route_table, zero_source, zero_sink}
use secure_mavlink_gateway.Pipeline.Verdict.{IsDefault}

pub record Packet : Type 0 where
  pub id : ℕ
  pub seq : ℕ
  pub command : ℕ
  pub param : ℕ
  pub bytes : List ℕ
  pub size : ℕ

pub record Devices : Type 0 where
  pub input : List ℕ
  pub sent : List (ℕ × ℕ)
  pub clock : ℕ

abbrev pub packet : ℕ → Packet
packet id = record { id = id; seq = 0; command = 0; param = 1; bytes = 1 ∷ 2 ∷ []; size = 2 }

-- The command that turns the geofence off.
abbrev pub fence_off : Packet
fence_off = record { id = 76; seq = 0; command = 207; param = 0; bytes = []; size = 0 }

-- A byte is a whole message with that id, but 0 is the first byte of a longer one.
abbrev parse : ℕ → ℕ → Packet → ℕ → Devices → ℕ × Packet × ℕ × Devices
parse channel byte m status w =
    if byte == 0
    then (0, m, status, w)
    else (1, (if byte == 76 then fence_off else packet byte), status, w)

abbrev tick : Devices → ℕ × Devices
tick w = (w.clock, record w { clock = w.clock + 1 })

instance abbrev pub toy : Platform
toy = record {
  Msg = Packet;
  Status = ℕ;
  Float = ℕ;
  World = Devices;
  zero_msg = packet 0;
  zero_status = 0;
  magic = λ m. 253;
  len = λ m. m.size;
  incompat_flags = λ m. 0;
  seq = λ m. m.seq;
  compid = λ m. 1;
  msgid = λ m. m.id;
  payload = λ m. m.bytes;
  set_payload = λ m b. record m { bytes = b };
  float_is_zero = λ f. f == 0;
  trim_payload = λ m n. n;
  finalize_message = λ m s n. (record m { size = n }, s);
  command_long_decode = λ m. record { command = m.command; param1 = m.param };
  param_set_decode = λ m. record { param_id = fence_enable; param_value = m.param };
  parse_char = parse;
  time_us = tick;
  read_char = λ w. (0, w);
  char_is_signed = true;
  stx_mavlink1 = 254;
  core_header_len = 9;
  core_header_mavlink1_len = 5;
  num_non_payload_bytes = 12;
  iflag_signed = 1;
  signature_block_len = 13;
  framing_incomplete = 0;
  framing_ok = 1;
  msg_id_meminfo = 152;
  msg_id_command_long = 76;
  msg_id_param_set = 23;
  cmd_nav_waypoint = 16;
  cmd_do_fence_enable = 207;
}

abbrev pub has_input : Devices → ℕ × Devices
has_input w = elim w.input [ [] ↦ (0, w) | x ∷ xs ↦ (1, w) ]

abbrev pub next_input : Devices → ℕ × Devices
next_input w = elim w.input [ [] ↦ (0, w) | x ∷ xs ↦ (x, record w { input = xs }) ]

-- The legacy source reads the queue.
abbrev pub reader : Source
reader = record {
  is_connected = true;
  source_id = 2;
  cur = record { msg = packet 0; status = 0; sinks = bitmap_const 0; source = 0; attribute = 0 };
  has_more = some has_input;
  read_byte = some next_input;
  transform = none;
  init = none;
  cleanup = none;
}

abbrev pub write : ℕ → Message → Devices → ℕ × Devices
write i m w = (0, record w { sent = (i, m.msg.id) ∷ w.sent })

abbrev pub writer : ℕ → Sink
writer i = record {
  is_connected = true;
  route = some (write i);
  transform = none;
  init = none;
  cleanup = none;
}

abbrev pub default_policies : PolicyMgmt
default_policies = record {
  policies =
      record {
        policy_id = policy_id_accept_vmc;
        match = some security_policy_match_vmc;
        check = some security_policy_check_accept;
      }
      ∷ record {
        policy_id = policy_id_reject_disable_geofence;
        match = some security_policy_match_mmc;
        check = some security_policy_reject_mavlink_cmd_disable_geofence;
      }
      ∷ record {
        policy_id = policy_id_reject_meminfo;
        match = some security_policy_match_mmc;
        check = some security_policy_reject_mavlink_cmd_meminfo;
      }
      ∷ [];
  count = 3;
}

abbrev pub pipeline : Pipeline
pipeline = record {
  terminated = false;
  policy_enabled = true;
  transform_enabled = false;
  sources = zero_source ∷ zero_source ∷ reader ∷ zero_source ∷ [];
  sinks = zero_sink ∷ writer 1 ∷ writer 2 ∷ writer 3 ∷ [];
  route_table = default_route_table;
  policies = default_policies;
}

pub pipeline-IsDefault : IsDefault pipeline.policies
pipeline-IsDefault = record { three = refl; first = refl; second = refl; third = refl }

-- No sink of the example has a transformer.
pub pipeline-KeepsSinks : KeepsSinks pipeline
pipeline-KeepsSinks zero sink found f there m = ground arith
pipeline-KeepsSinks (suc zero) sink found f there m = ground arith
pipeline-KeepsSinks (suc (suc zero)) sink found f there m = ground arith
pipeline-KeepsSinks (suc (suc (suc zero))) sink found f there m = ground arith
pipeline-KeepsSinks (suc (suc (suc (suc i)))) sink found f there m = cc

abbrev pub quiet : Devices
quiet = record { input = []; sent = []; clock = 0 }

-- The message `m` from source `source`.
abbrev pub push_of : ℕ → Packet → Push
push_of source m = record {
  message = record { msg = m; status = 0; sinks = bitmap_const 0; source = source; attribute = 0 };
  perf = perf_init;
  world = quiet;
}

-- An empty table of policies.
abbrev pub slots : List Policy
slots = replicate max_policies (record { policy_id = 0; match = none; check = none })
