-- ===== src/Rtc/Epoch.antt =====
-- The time that is set and the time that is read.
use xremu.Base.{ℕ, ◌+◌, ◌-◌, ◌/◌, ◌%◌, ◌^◌, ◌≡◌, ◌<◌, ◌≤◌, ◌∙◌, ap, arith, sub32}
use xremu.Bits.{bit_and-ones}
use xremu.Rtc.{
  Rtc, rtc_write_cmd, rtc_write_port_a, rtc_read_port_a, update_real_time, get_rtc_offset,
  set_rtc_offset,
}

get_rtc_offset-set_rtc_offset :
    (nvram : ℕ → ℕ) (off : ℕ) → off < 2 ^ 32 → get_rtc_offset (set_rtc_offset nvram off) ≡ off
unfolding get_rtc_offset set_rtc_offset
get_rtc_offset-set_rtc_offset nvram off small = omega (
  arith,
  bit_and-ones 8 off,
  bit_and-ones 8 (off / 2 ^ 8),
  bit_and-ones 8 (off / 2 ^ 16),
  bit_and-ones 8 (off / 2 ^ 24),
)

-- After the epoch time has been set to a 32-bit value through port A, reading the epoch time after
-- some seconds of the host's clock, which has not gone back, gives the value plus these seconds,
-- modulo 2^32, whatever the NVRAM held.
pub rtc_write_cmd-epoch :
    (r : Rtc) (value seconds microseconds : ℕ)
    → value < 2 ^ 32
    → r.tv_sec ≤ seconds
    → (rtc_read_port_a
        (rtc_write_cmd
          (update_real_time (rtc_write_cmd (rtc_write_port_a r value).1 4).1 seconds microseconds)
          2).1).1
      ≡ (value + (seconds - r.tv_sec)) % 2 ^ 32
unfolding rtc_write_cmd
rtc_write_cmd-epoch r value seconds microseconds small later =
    ap (λ (t : ℕ). (seconds + t) % 2 ^ 32)
      (get_rtc_offset-set_rtc_offset r.nvram (sub32 value (r.tv_sec % 2 ^ 32)) (omega arith))
    ∙ omega (arith, small, later)
