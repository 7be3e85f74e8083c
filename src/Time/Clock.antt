-- ===== src/Time/Clock.antt =====
-- Start-up from the CMOS clock, and the count of ticks.
use mango_os.Base.{
  ℕ, zero, suc, ◌+◌, ◌-◌, ◌*◌, ◌/◌, ◌%◌, ◌^◌, ◌<◌, ◌≤◌, ◌≡◌, refl, ap, true, ◌==◌, if◌then◌else◌,
  every_below, every_below-at, arith, ==→eq, ◌∙◌,
}
use mango_os.Time.{
  Date, Ticks, from_bcd, get_rtc_time, time_init, update_timestamp, tick, kernel_mktime,
}
use mango_os.Time.Calendar.{IsDate, seconds, kernel_mktime-seconds}

-- Two decimal digits in one byte.
abbrev pub to_bcd : ℕ → ℕ
to_bcd d = d / 10 * 16 + d % 10

bcd_table : every_below 100 (λ d. from_bcd (to_bcd d) == d) ≡ true
unfolding every_below from_bcd
bcd_table = refl

-- `from_bcd` reads what the clock writes.
pub from_bcd-to_bcd : (d : ℕ) → d < 100 → from_bcd (to_bcd d) ≡ d
from_bcd-to_bcd d h =
    ==→eq (from_bcd (to_bcd d)) d (every_below-at 100 (λ d. from_bcd (to_bcd d) == d) d bcd_table h)

-- The registers of a clock that shows a date: decimal digits, months from 1, two digits of the year.
abbrev pub shows : Date → ℕ → ℕ
shows tm r =
    if r == 0x00
    then to_bcd tm.tm_sec
    else (if r == 0x02
        then to_bcd tm.tm_min
        else (if r == 0x04
            then to_bcd tm.tm_hour
            else (if r == 0x07
                then to_bcd tm.tm_day
                else (if r == 0x08
                    then to_bcd (tm.tm_mon + 1)
                    else (if r == 0x09 then to_bcd (tm.tm_year - 2000) else 0)))))

get_rtc_time-shows : (tm : Date) → IsDate tm → 2000 ≤ tm.tm_year → get_rtc_time (shows tm) ≡ tm
unfolding get_rtc_time
get_rtc_time-shows tm d h = ground (
  arith,
  from_bcd-to_bcd tm.tm_sec,
  from_bcd-to_bcd tm.tm_min,
  from_bcd-to_bcd tm.tm_hour,
  from_bcd-to_bcd tm.tm_day,
  from_bcd-to_bcd (tm.tm_mon + 1),
  from_bcd-to_bcd (tm.tm_year - 2000),
)

-- At start-up the timestamp is the number of seconds from 1970 to what the clock shows.
pub time_init-seconds :
    (tm : Date) → IsDate tm → 2000 ≤ tm.tm_year → (time_init (shows tm)).timestamp ≡ seconds tm
unfolding time_init
time_init-seconds tm d h = ap kernel_mktime (get_rtc_time-shows tm d h) ∙ kernel_mktime-seconds tm d

unfoldable pub ticks : ℕ → Ticks → Ticks
ticks zero t = t
ticks (suc n) t = tick (ticks n t)

-- After `n` ticks of ten milliseconds the timestamp has moved on by one for every hundred of them.
pub ticks_lem :
    (n : ℕ) (t : Ticks)
    → t.loop ≡ 0
    → t.timestamp < 2 ^ 32
    → t.sys_tick < 2 ^ 32
    → ((ticks n t).timestamp ≡ (t.timestamp + n / 100) % 2 ^ 32)
      × ((ticks n t).loop ≡ n % 100)
      × ((ticks n t).sys_tick ≡ (t.sys_tick + n) % 2 ^ 32)
unfolding ticks tick update_timestamp
ticks_lem zero t h a b = omega arith
ticks_lem (suc n) t h a b = ground (arith, ticks_lem n t h a b)
