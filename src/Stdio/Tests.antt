-- ===== src/Stdio/Tests.antt =====
-- A message with an integer of two bytes behind the first field, and one of eight.
use secure_mavlink_gateway.Prelude.{◌≡◌, refl, Option, some, [], ◌∷◌}
use secure_mavlink_gateway.Outcome.{done, out_of_bounds}
use secure_mavlink_gateway.Bitmap.{bitmap_const, bitmap_test}
use secure_mavlink_gateway.Message.{Message}
use secure_mavlink_gateway.Results.{succ}
use secure_mavlink_gateway.Stdio.{
  source_name, print_sinks, sink_name, print_info, print_fields, print_value, element, uint8,
  uint16, uint64, MessageInfo, hexadecimal, stdio_route,
}
use secure_mavlink_gateway.Stdio.Offsets.{stdio_route_lem}
use secure_mavlink_gateway.Example.{Packet, packet, toy}

abbrev infos : Packet → Option MessageInfo
infos m = some (record {
  name = "SENSOR";
  msgid = m.id;
  fields =
      record { name = "first"; type = uint16; structure_offset = 0 }
      ∷ record { name = "second"; type = uint16; structure_offset = 2 }
      ∷ record { name = "state"; type = uint8; structure_offset = 4 }
      ∷ [];
})

-- The second field is in the bytes 3 and 0; the code prints 5 and 6.
abbrev sensor : Message
sensor = record {
  msg = record (packet 27) { bytes = 1 ∷ 2 ∷ 3 ∷ 0 ∷ 5 ∷ 6 ∷ []; size = 5 };
  status = 0;
  sinks = bitmap_const 10;
  source = 1;
  attribute = 0;
}

stdio_route_example :
    stdio_route infos sensor
    ≡ done (
      succ,
      record {
        source = ("vmc", 1);
        sinks = ("vmc", 1) ∷ ("legacy", 3) ∷ [];
        attribute = 0;
        info = some (record {
          name = "SENSOR";
          msgid = 27;
          compid = 1;
          seq = 0;
          fields =
              ("first", hexadecimal 4 513)
              ∷ ("second", hexadecimal 4 1541)
              ∷ ("state", hexadecimal 2 5)
              ∷ [];
        });
        bytes = 1 ∷ 2 ∷ 3 ∷ 0 ∷ 5 ∷ [];
      },
    )
unfolding source_name print_sinks sink_name bitmap_test
stdio_route_example = stdio_route_lem infos sensor

abbrev clocks : Packet → Option MessageInfo
clocks m = some (record {
  name = "CLOCK";
  msgid = m.id;
  fields = record { name = "time"; type = uint64; structure_offset = 8 } ∷ [];
})

-- The field is inside, and the bytes that are read are not.
misread :
    stdio_route clocks (record sensor {
      msg = record (packet 2) {
        bytes = 1 ∷ 1 ∷ 1 ∷ 1 ∷ 1 ∷ 1 ∷ 1 ∷ 1 ∷ 2 ∷ 2 ∷ 2 ∷ 2 ∷ 2 ∷ 2 ∷ 2 ∷ 2 ∷ [];
        size = 16;
      };
    })
    ≡ out_of_bounds
unfolding stdio_route print_info print_fields print_value element
misread = refl
