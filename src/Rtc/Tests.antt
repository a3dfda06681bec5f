-- ===== src/Rtc/Tests.antt =====
-- A run of the real-time clock.
use xremu.Base.{◌+◌, ◌-◌, ◌%◌, ◌^◌, ◌≡◌, arith, false}
use xremu.Rtc.{Rtc, rtc_write_cmd, rtc_write_port_a, rtc_read_port_a, update_real_time}
use xremu.Rtc.Epoch.{rtc_write_cmd-epoch}

abbrev clock : Rtc
clock = record {
  tv_sec = 1000000;
  tv_usec = 5;
  interval_ms = 0;
  port_a = 0;
  nvram = λ i. i;
  nvram_dirty = false;
}

-- Set to 300, and read 7 seconds later.
rtc_write_cmd-epoch_example :
    (rtc_read_port_a
      (rtc_write_cmd
        (update_real_time (rtc_write_cmd (rtc_write_port_a clock 300).1 4).1 1000007 9)
        2).1).1
    ≡ (300 + (1000007 - 1000000)) % 2 ^ 32
rtc_write_cmd-epoch_example = rtc_write_cmd-epoch clock 300 1000007 9 (omega arith) (omega arith)
