-- ===== src/Platform.antt =====
-- What the gateway uses and does not implement: the generated MAVLink headers (mavlink.h and
-- ardupilotmega.h) and the devices. Every component takes it as an instance argument.
use secure_mavlink_gateway.Prelude.{ℕ, Bool, List}

-- The fields of `mavlink_command_long_t` and `mavlink_param_set_t` that the policies read.
pub record CommandLong (F : Type 0) : Type 0 where
  pub command : ℕ
  pub param1 : F

pub record ParamSet (F : Type 0) : Type 0 where
  pub param_id : List ℕ
  pub param_value : F

pub record Platform : Type 1 where
  -- `mavlink_message_t`, `mavlink_status_t`, `float`, and all that lies outside the gateway: the
  -- devices behind the sources and sinks, the clock, and the parser's buffers in the library.
  pub Msg : Type 0
  pub Status : Type 0
  pub Float : Type 0
  pub World : Type 0
  -- structs filled with zeros by `memset`
  pub zero_msg : Msg
  pub zero_status : Status
  -- fields of `mavlink_message_t`
  pub magic : Msg → ℕ
  pub len : Msg → ℕ
  pub incompat_flags : Msg → ℕ
  pub seq : Msg → ℕ
  pub compid : Msg → ℕ
  pub msgid : Msg → ℕ
  -- the bytes of `payload64`
  pub payload : Msg → List ℕ
  pub set_payload : Msg → List ℕ → Msg
  -- `f == 0`
  pub float_is_zero : Float → Bool
  -- `_mav_trim_payload(_MAV_PAYLOAD(msg), length)`
  pub trim_payload : Msg → ℕ → ℕ
  -- `mavlink_finalize_message_buffer` with the message's own `sysid` and `compid`, the channel status,
  -- `len` twice and `mavlink_get_crc_extra`
  pub finalize_message : Msg → Status → ℕ → Msg × Status
  pub command_long_decode : Msg → CommandLong Float
  pub param_set_decode : Msg → ParamSet Float
  -- `mavlink_parse_char(channel, byte, &msg, &status)`: its result, then what it changed
  pub parse_char : ℕ → ℕ → Msg → Status → World → ℕ × Msg × Status × World
  -- `time_us()`
  pub time_us : World → ℕ × World
  -- `read_char()` of the console, as a byte, and whether `char` is signed
  pub read_char : World → ℕ × World
  pub char_is_signed : Bool
  -- the values of the headers' macros and enumerations
  pub stx_mavlink1 : ℕ
  pub core_header_len : ℕ
  pub core_header_mavlink1_len : ℕ
  pub num_non_payload_bytes : ℕ
  pub iflag_signed : ℕ
  pub signature_block_len : ℕ
  pub framing_incomplete : ℕ
  pub framing_ok : ℕ
  pub msg_id_meminfo : ℕ
  pub msg_id_command_long : ℕ
  pub msg_id_param_set : ℕ
  pub cmd_nav_waypoint : ℕ
  pub cmd_do_fence_enable : ℕ
