-- ===== src/Rtc.antt =====
-- src/rtc.c: the real-time clock. The offset between its time and the host's is in the NVRAM of the
-- platform board (src/pboard.h).
mod Epoch
mod Tests
use xremu.Base.{
  ℕ, ◌+◌, ◌-◌, ◌*◌, ◌/◌, ◌%◌, ◌^◌, Bool, true, if◌then◌else◌, ◌==◌, update, bit_and, ◌>>◌, ◌<<◌,
  sub32,
}
use xremu.Bus.{BusStatus, success, bus_error}

-- `RTCCurrentTime` in seconds and microseconds, `RTCIntervalMS`, `RTCPortA`, `NVRAM` and `NVRAMDirty`
pub record Rtc : Type 0 where
  pub tv_sec : ℕ
  pub tv_usec : ℕ
  pub interval_ms : ℕ
  pub port_a : ℕ
  pub nvram : ℕ → ℕ
  pub nvram_dirty : Bool

abbrev pub nvram_rtc_offset : ℕ
nvram_rtc_offset = 124

-- NVRAM_GET_RTCOFFSET and NVRAM_SET_RTCOFFSET. The C code shifts the last byte as an `int` by 24,
-- which C leaves open for a byte of 128 or more; it is taken as the word that compilers give.
unfoldable pub get_rtc_offset : (ℕ → ℕ) → ℕ
get_rtc_offset nvram =
    nvram nvram_rtc_offset
    + nvram (nvram_rtc_offset + 1) * 2 ^ 8
    + nvram (nvram_rtc_offset + 2) * 2 ^ 16
    + nvram (nvram_rtc_offset + 3) * 2 ^ 24

unfoldable pub set_rtc_offset : (ℕ → ℕ) → ℕ → ℕ → ℕ
set_rtc_offset nvram off =
    update
      (update
        (update (update nvram nvram_rtc_offset (bit_and off 0xFF)) (nvram_rtc_offset + 1)
          (bit_and (off >> 8) 0xFF))
        (nvram_rtc_offset + 2) (bit_and (off >> 16) 0xFF))
      (nvram_rtc_offset + 3) (bit_and (off >> 24) 0xFF)

-- `gettimeofday` gives the seconds and the microseconds.
abbrev pub update_real_time : Rtc → ℕ → ℕ → Rtc
update_real_time r seconds microseconds = record r { tv_sec = seconds; tv_usec = microseconds }

-- `RTCWriteCMD`
unfoldable pub rtc_write_cmd : Rtc → ℕ → BusStatus × Rtc
rtc_write_cmd r value =
    if value == 1
    then (success, record r { interval_ms = r.port_a })
    else if value == 2
    then (success, record r { port_a = (r.tv_sec + get_rtc_offset r.nvram) % 2 ^ 32 })
    else if value == 3
    then (success, record r { port_a = r.tv_usec / 1000 % 2 ^ 32 })
    else if value == 4
    then (
      success,
      record r {
        nvram = set_rtc_offset r.nvram (sub32 r.port_a (r.tv_sec % 2 ^ 32));
        nvram_dirty = true;
      },
    )
    else if value == 5
    then (success, r)
    else (bus_error, r)

abbrev pub rtc_write_port_a : Rtc → ℕ → BusStatus × Rtc
rtc_write_port_a r value = (success, record r { port_a = value })

abbrev pub rtc_read_cmd : Rtc → BusStatus × ℕ
rtc_read_cmd r = (success, 0)

abbrev pub rtc_read_port_a : Rtc → BusStatus × ℕ
rtc_read_port_a r = (success, r.port_a)

-- `RTCReset`
abbrev pub rtc_reset : Rtc → Rtc
rtc_reset r = record r { interval_ms = 0; port_a = 0 }
