-- ===== src/Uart/Device.antt =====
-- `uart_device_init` of lib/source_uart.c: the device is opened and its terminal settings are made raw.
pub mod Raw
mod Tests
use secure_mavlink_gateway.Prelude.{
  ℕ, zero, suc, ◌+◌, ◌-◌, ◌*◌, ◌/◌, ◌%◌, ◌^◌, ◌≤◌, ◌<◌, ◌≡◌, refl, ap, ◌∙◌, Bool, true, false,
  Option, none, some, List, [], ◌∷◌, length, bit_and, bit_or, min, max, if◌then◌else◌, ◌==◌, arith,
}
use secure_mavlink_gateway.Prelude.Bits.{bit, bit-suc, bit-lt, bit-bit_and, bit-bit_or}
use secure_mavlink_gateway.Results.{Result, succ, io_fault}

-- The values of the macros of <termios.h>.
pub record Termios : Type 0 where
  pub csize : ℕ
  pub cs8 : ℕ
  pub parenb : ℕ
  pub cstopb : ℕ
  pub crtscts : ℕ
  pub icanon : ℕ
  pub echo : ℕ
  pub echoe : ℕ
  pub isig : ℕ
  pub opost : ℕ
  pub ixon : ℕ
  pub ixoff : ℕ
  pub ixany : ℕ
  pub ignbrk : ℕ
  pub brkint : ℕ
  pub parmrk : ℕ
  pub istrip : ℕ
  pub inlcr : ℕ
  pub igncr : ℕ
  pub icrnl : ℕ
  pub b115200 : ℕ

-- `struct termios`: four words of 32 bits, two control characters, and the speeds.
pub record Options : Type 0 where
  pub c_cflag : ℕ
  pub c_lflag : ℕ
  pub c_oflag : ℕ
  pub c_iflag : ℕ
  pub vmin : ℕ
  pub vtime : ℕ
  pub ispeed : ℕ
  pub ospeed : ℕ

-- `x & ~flags` on words of 32 bits
abbrev pub without : ℕ → ℕ → ℕ
without flags x = bit_and x (2 ^ 32 - 1 - flags)

-- `a | b | …`
abbrev pub any_of : List ℕ → ℕ
any_of [] = 0
any_of (flag ∷ flags) = bit_or flag (any_of flags)

unfoldable pub make_raw : Termios → Options → Options
make_raw t o = record {
  c_cflag =
      without t.crtscts
        (without t.cstopb (without t.parenb (bit_or (without t.csize o.c_cflag) t.cs8)));
  c_lflag = without (any_of (t.icanon ∷ t.echo ∷ t.echoe ∷ t.isig ∷ [])) o.c_lflag;
  c_oflag = without t.opost o.c_oflag;
  c_iflag =
      without
        (any_of (t.ignbrk ∷ t.brkint ∷ t.parmrk ∷ t.istrip ∷ t.inlcr ∷ t.igncr ∷ t.icrnl ∷ []))
        (without (any_of (t.ixon ∷ t.ixoff ∷ t.ixany ∷ [])) o.c_iflag);
  vmin = 1;
  vtime = 0;
  ispeed = t.b115200;
  ospeed = t.b115200;
}

-- `fd` and `options` of the connection. `left_open` has the descriptors that were overwritten.
pub record Device : Type 0 where
  pub fd : Option ℕ
  pub options : Option Options
  pub left_open : List ℕ

-- What `open` and `tcgetattr` give, and whether `tcsetattr` succeeds.
pub record Attempt : Type 0 where
  pub opened : Option ℕ
  pub got : Option Options
  pub accepted : Bool

-- `uart->fd = open(…)`
unfoldable pub replace_fd : Option ℕ → Device → Device
replace_fd fd d = record d {
  fd = fd;
  left_open = elim d.fd [ none ↦ d.left_open | some old ↦ old ∷ d.left_open ];
}

unfoldable pub uart_device_init : Termios → Attempt → Device → Result × Device
unfolding replace_fd make_raw
uart_device_init t a d =
    let d' = replace_fd a.opened d in
    elim a.opened [
      | none ↦ (io_fault, d')
      | some fd ↦ elim a.got [
        | none ↦ (io_fault, d')
        | some o ↦
            let set = record d' { options = some (make_raw t o) } in
            if a.accepted then (succ, set) else (io_fault, set)
      ]
    ]
