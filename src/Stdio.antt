-- ===== src/Stdio.antt =====
-- The sink of lib/source_stdio.c, which prints a message, with `source_name` and `sink_name` of
-- lib/secure_gateway.h. What is printed is a record of what the conversions print, in their order; the
-- build has VERBOSE, and the machine is little-endian.
pub mod Offsets
mod Tests
pub use Prim.Native.String.{String}
use secure_mavlink_gateway.Prelude.{
  ℕ, zero, suc, ◌+◌, ◌*◌, ◌^◌, bit_and, Option, none, some, List, [], ◌∷◌, drop, truthy, ◌==◌,
  if◌then◌else◌,
}
use secure_mavlink_gateway.Prelude.Bits.{all_but}
use secure_mavlink_gateway.Outcome.{Outcome, done, out_of_bounds, ◌>>=◌}
use secure_mavlink_gateway.Platform.{Platform}
use secure_mavlink_gateway.Bitmap.{Bitmap, bitmap_test}
use secure_mavlink_gateway.Message.{Message}
use secure_mavlink_gateway.Ports.{
  source_type_null, source_type_vmc, source_type_legacy, sink_type_discard, sink_type_vmc,
  sink_type_enclave, sink_type_legacy, max_sinks,
}
use secure_mavlink_gateway.Results.{Result, succ}

unfoldable pub source_name : ℕ → String
source_name src =
    if src == source_type_null
    then "null"
    else if src == source_type_vmc
    then "vmc"
    else if src == source_type_legacy
    then "legacy"
    else "enclave"

unfoldable pub sink_name : ℕ → String
sink_name sink_id =
    if sink_id == sink_type_discard
    then "discard"
    else if sink_id == sink_type_vmc
    then "vmc"
    else if sink_id == sink_type_enclave
    then "enclave"
    else if sink_id == sink_type_legacy
    then "legacy"
    else "invalid"

-- The flags of the standard input; the arguments are the number of the bit O_NONBLOCK and the flags.
unfoldable pub stdio_init : ℕ → ℕ → ℕ
stdio_init nonblock flags = 2 ^ nonblock

unfoldable pub stdio_cleanup : ℕ → ℕ → ℕ
stdio_cleanup nonblock flags = bit_and flags (all_but 32 nonblock)

-- `mavlink_message_type_t`, and `mavlink_field_info_t` and `mavlink_message_info_t` as far as they are
-- read here; the tables of them are generated.
pub data FieldType : Type 0 where
  char uint8 int8 uint16 int16 uint32 int32 uint64 int64 float double : FieldType
  other : ℕ → FieldType

pub record Field : Type 0 where
  pub name : String
  pub type : FieldType
  pub structure_offset : ℕ

pub record MessageInfo : Type 0 where
  pub name : String
  pub msgid : ℕ
  pub fields : List Field

-- A value as it is printed: so many hexadecimal digits at least, a `float` or `double` in its bytes, or the
-- number of an unknown type.
pub data Value : Type 0 where
  hexadecimal : (digits value : ℕ) → Value
  decimal : List ℕ → Value
  unknown : ℕ → Value

pub record Described : Type 0 where
  pub name : String
  pub msgid : ℕ
  pub compid : ℕ
  pub seq : ℕ
  pub fields : List (String × Value)

pub record Printed : Type 0 where
  pub source : String × ℕ
  pub sinks : List (String × ℕ)
  pub attribute : ℕ
  pub info : Option Described
  pub bytes : List ℕ

-- So many bytes from here on.
abbrev pub read_front : ℕ → List ℕ → Outcome (List ℕ)
read_front zero memory = done []
read_front (suc n) [] = out_of_bounds
read_front (suc n) (b ∷ memory) = read_front n memory >>= λ bs. done (b ∷ bs)

abbrev pub of_bytes : List ℕ → ℕ
of_bytes [] = 0
of_bytes (b ∷ bs) = b + 256 * of_bytes bs

-- `*((T *)payload + offset)` where T has `width` bytes: the offset counts elements.
unfoldable pub element : (width offset : ℕ) → List ℕ → Outcome Value
element width offset payload = read_front width (drop (offset * width) payload) >>= λ bs.
    done (hexadecimal (2 * width) (of_bytes bs))

-- `memcpy(&val, payload + offset, width)`: the offset counts bytes.
unfoldable pub copied : (width offset : ℕ) → List ℕ → Outcome Value
copied width offset payload = read_front width (drop offset payload) >>= λ bs. done (decimal bs)

unfoldable pub print_value : FieldType → ℕ → List ℕ → Outcome Value
unfolding element copied
print_value char offset payload = element 1 offset payload
print_value uint8 offset payload = element 1 offset payload
print_value int8 offset payload = element 1 offset payload
print_value uint16 offset payload = element 2 offset payload
print_value int16 offset payload = element 2 offset payload
print_value uint32 offset payload = element 4 offset payload
print_value int32 offset payload = element 4 offset payload
print_value uint64 offset payload = element 8 offset payload
print_value int64 offset payload = element 8 offset payload
print_value float offset payload = copied 4 offset payload
print_value double offset payload = copied 8 offset payload
print_value (other type) offset payload = done (unknown type)

unfoldable pub print_fields : List Field → List ℕ → Outcome (List (String × Value))
unfolding print_value
print_fields [] payload = done []
print_fields (f ∷ fields) payload = print_value f.type f.structure_offset payload >>= λ value.
    print_fields fields payload >>= λ values. done ((f.name, value) ∷ values)

-- The loop over the sinks: how many are left, and the next.
unfoldable pub print_sinks : ℕ → ℕ → Bitmap → List (String × ℕ)
unfolding sink_name
print_sinks zero i sinks = []
print_sinks (suc n) i sinks =
    let rest = print_sinks n (i + 1) sinks in
    if truthy (bitmap_test sinks i) then (sink_name i, i) ∷ rest else rest

module _ ⦃platform : Platform⦄ where
  open platform use {Msg, compid, seq, len, payload}

  unfoldable pub print_info : Option MessageInfo → Msg → Outcome (Option Described)
  unfolding print_fields
  print_info none m = done none
  print_info (some info) m = print_fields info.fields (payload m) >>= λ values. done (
      some (record {
        name = info.name;
        msgid = info.msgid;
        compid = compid m;
        seq = seq m;
        fields = values;
      }))

  -- The first argument is `mavlink_get_message_info`.
  unfoldable pub stdio_route : (Msg → Option MessageInfo) → Message → Outcome (Result × Printed)
  unfolding print_info print_sinks source_name
  stdio_route mavlink_get_message_info m =
      print_info (mavlink_get_message_info m.msg) m.msg >>= λ described.
      read_front (len m.msg) (payload m.msg) >>= λ bytes. done (
        succ,
        record {
          source = (source_name m.source, m.source);
          sinks = print_sinks max_sinks 0 m.sinks;
          attribute = m.attribute;
          info = described;
          bytes = bytes;
        },
      )
