-- ===== src/Uart/Device/Tests.antt =====
-- A terminal with the flags of Linux, and a device that was open before.
use secure_mavlink_gateway.Prelude.{true, none, some, [], arith}
use secure_mavlink_gateway.Uart.Device.{Termios, Options, Device, Attempt, uart_device_init}
use secure_mavlink_gateway.Uart.Device.Raw.{AreWords, IsSetUp, uart_device_init_lem}

abbrev linux : Termios
linux = record {
  csize = 48;
  cs8 = 48;
  parenb = 256;
  cstopb = 64;
  crtscts = 2147483648;
  icanon = 2;
  echo = 8;
  echoe = 16;
  isig = 1;
  opost = 1;
  ixon = 1024;
  ixoff = 4096;
  ixany = 2048;
  ignbrk = 1;
  brkint = 2;
  parmrk = 8;
  istrip = 32;
  inlcr = 64;
  igncr = 128;
  icrnl = 256;
  b115200 = 4098;
}

linux-AreWords : AreWords linux
linux-AreWords = record {
  control = (omega arith, (omega arith, (omega arith, (omega arith, (omega arith, tt)))));
  output = omega arith;
  locals = (omega arith, (omega arith, (omega arith, (omega arith, tt))));
  breaks = (
    omega arith,
    (omega arith, (omega arith, (omega arith, (omega arith, (omega arith, (omega arith, tt)))))),
  );
  flows = (omega arith, (omega arith, (omega arith, tt)));
}

abbrev cooked : Options
cooked = record {
  c_cflag = 1215;
  c_lflag = 35387;
  c_oflag = 5;
  c_iflag = 1280;
  vmin = 0;
  vtime = 0;
  ispeed = 13;
  ospeed = 13;
}

abbrev opened_again : Device
opened_again = record { fd = some 3; options = none; left_open = [] }

abbrev second : Attempt
second = record { opened = some 4; got = some cooked; accepted = true }

uart_device_init_example :
    IsSetUp linux second opened_again (uart_device_init linux second opened_again)
uart_device_init_example = uart_device_init_lem linux second opened_again linux-AreWords
