-- ===== src/Console/Tests.antt =====
-- A key of the console, and the end of its input.
use secure_mavlink_gateway.Prelude.{◌≡◌, refl, true, false, none, []}
use secure_mavlink_gateway.Outcome.{assert_failed}
use secure_mavlink_gateway.Platform.{Platform}
use secure_mavlink_gateway.Pipeline.{default_route_table}
use secure_mavlink_gateway.Console.{Console, console_spin}
use secure_mavlink_gateway.Console.Input.{Terminal, read_char_libc, console_spin-with_input}
use secure_mavlink_gateway.Example.{toy, quiet}

abbrev new_terminal : Terminal
new_terminal = record { initialized = false; c_lflag = 35387 }

-- The platform of the other tests, with an input that has ended.
abbrev ended : Platform
ended = record toy { read_char = λ w. ((read_char_libc 1 true none new_terminal).0, w) }

abbrev idle : Console ⦃platform = ended⦄
idle = record {
  pipeline = record {
    terminated = false;
    policy_enabled = true;
    transform_enabled = false;
    sources = [];
    sinks = [];
    route_table = default_route_table;
    policies = record { policies = []; count = 0 };
  };
  last_time = 0;
  world = record quiet { clock = 200000 };
}

console_spin-with_input_example : console_spin ⦃platform = ended⦄ idle ≡ assert_failed
console_spin-with_input_example =
    console_spin-with_input ⦃platform = ended⦄ 1 true none new_terminal idle
      (record quiet { clock = 200001 }) refl refl
