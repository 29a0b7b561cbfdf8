-- ===== src/Ports.antt =====
-- Sources and sinks and their tables (lib/secure_gateway.h and .c). A port's `opaque` pointer names
-- its device, which lies in `World`: a function pointer of the port is a function on `World`, and
-- `none` is NULL.
use secure_mavlink_gateway.Prelude.{ℕ, Bool, true, Option, none, List, get_elem?, set, ltb}
use secure_mavlink_gateway.Outcome.{Outcome, done, assert, or_out_of_bounds, ◌>>=◌, ◌>>◌}
use secure_mavlink_gateway.Platform.{Platform}
use secure_mavlink_gateway.Message.{Message}

-- `enum source_type_t`
abbrev pub source_type_null : ℕ
source_type_null = 0

abbrev pub source_type_vmc : ℕ
source_type_vmc = 1

abbrev pub source_type_legacy : ℕ
source_type_legacy = 2

abbrev pub source_type_enclave : ℕ
source_type_enclave = 3

abbrev pub max_sources : ℕ
max_sources = 4

-- `enum sink_type_t`
abbrev pub sink_type_discard : ℕ
sink_type_discard = 0

abbrev pub sink_type_vmc : ℕ
sink_type_vmc = 1

abbrev pub sink_type_enclave : ℕ
sink_type_enclave = 2

abbrev pub sink_type_legacy : ℕ
sink_type_legacy = 3

abbrev pub max_sinks : ℕ
max_sinks = 4

-- `enum port_type_t`
pub data PortType : Type 0 where
  port_type_source port_type_sink : PortType

module _ ⦃platform : Platform⦄ where
  open platform use {World}

  pub record Source : Type 0 where
    pub is_connected : Bool
    pub source_id : ℕ
    pub cur : Message
    pub has_more : Option (World → ℕ × World)
    pub read_byte : Option (World → ℕ × World)
    pub transform : Option (Message → Message)
    pub init : Option (World → World)
    pub cleanup : Option (World → World)

  pub record Sink : Type 0 where
    pub is_connected : Bool
    pub route : Option (Message → World → ℕ × World)
    pub transform : Option (Message → Message)
    pub init : Option (World → World)
    pub cleanup : Option (World → World)

  -- The table with the slot made ready for a hook, which then fills in its functions.
  unfoldable pub source_allocate : List Source → ℕ → Outcome (List Source)
  source_allocate sources source_id = do
    assert (ltb source_id max_sources)
    src ← or_out_of_bounds (get_elem? sources source_id)
    done (
        set sources source_id (record src {
          source_id = source_id;
          has_more = none;
          read_byte = none;
          transform = none;
          is_connected = true;
        }))

  unfoldable pub sink_allocate : List Sink → ℕ → Outcome (List Sink)
  sink_allocate sinks type = do
    sink ← or_out_of_bounds (get_elem? sinks type)
    done (set sinks type (record sink { route = none; transform = none; is_connected = true }))

  unfoldable pub source_get : List Source → ℕ → Outcome Source
  source_get sources source_id = do
    assert (ltb source_id max_sources)
    or_out_of_bounds (get_elem? sources source_id)

  unfoldable pub sink_get : List Sink → ℕ → Outcome Sink
  sink_get sinks type = do assert (ltb type max_sinks); or_out_of_bounds (get_elem? sinks type)
