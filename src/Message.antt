-- ===== src/Message.antt =====
-- `struct message_t` and the length of a message on the wire (lib/secure_gateway.h).
use secure_mavlink_gateway.Prelude.{ℕ, ◌+◌, bit_and, if◌then◌else◌, truthy, ◌==◌}
use secure_mavlink_gateway.Platform.{Platform}
use secure_mavlink_gateway.Bitmap.{Bitmap}

module _ ⦃platform : Platform⦄ where
  open platform use {
    Msg, Status, magic, len, incompat_flags, trim_payload, stx_mavlink1, core_header_len,
    core_header_mavlink1_len, iflag_signed, signature_block_len,
  }

  pub record Message : Type 0 where
    pub msg : Msg
    pub status : Status
    pub sinks : Bitmap
    pub source : ℕ
    pub attribute : ℕ

  pub mavlink_msg_length : Msg → ℕ
  mavlink_msg_length m =
      if magic m == stx_mavlink1
      then core_header_mavlink1_len + len m + 3
      else core_header_len
        + trim_payload m (len m)
        + (if truthy (bit_and (incompat_flags m) iflag_signed) then signature_block_len else 0)
        + 3
