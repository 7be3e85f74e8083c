-- ===== src/Time.antt =====
-- source/kernel/time.c and source/include/time.h: the time of day from the CMOS clock, and the
-- tick that keeps it. A `uint` is a native number below 2 ^ 32; every step of its arithmetic wraps.
pub mod Calendar
pub mod Clock
use Prim.Native.Nat.{bit_and}
use mango_os.Base.{
  ℕ, zero, suc, ◌+◌, ◌-◌, ◌*◌, ◌/◌, ◌%◌, ◌^◌, Bool, true, false, not, ◌&&◌, ◌==◌, ltb,
  if◌then◌else◌, add32, sub32, mul32, inc32, List, [], ◌∷◌, get_or,
}

-- `time_t`. Months count from 0, years are whole.
pub record Date : Type 0 where
  pub tm_sec : ℕ
  pub tm_min : ℕ
  pub tm_hour : ℕ
  pub tm_day : ℕ
  pub tm_mon : ℕ
  pub tm_year : ℕ

abbrev pub minute : ℕ
minute = 60

abbrev pub hour : ℕ
hour = 60 * minute

abbrev pub day : ℕ
day = 24 * hour

abbrev pub year : ℕ
year = 365 * day

-- The table `month`: the seconds before each month of a leap year.
abbrev pub month : List ℕ
month =
    0
    ∷ (day * 31)
    ∷ (day * (31 + 29))
    ∷ (day * (31 + 29 + 31))
    ∷ (day * (31 + 29 + 31 + 30))
    ∷ (day * (31 + 29 + 31 + 30 + 31))
    ∷ (day * (31 + 29 + 31 + 30 + 31 + 30))
    ∷ (day * (31 + 29 + 31 + 30 + 31 + 30 + 31))
    ∷ (day * (31 + 29 + 31 + 30 + 31 + 30 + 31 + 31))
    ∷ (day * (31 + 29 + 31 + 30 + 31 + 30 + 31 + 31 + 30))
    ∷ (day * (31 + 29 + 31 + 30 + 31 + 30 + 31 + 31 + 30 + 31))
    ∷ (day * (31 + 29 + 31 + 30 + 31 + 30 + 31 + 31 + 30 + 31 + 30))
    ∷ []

-- The first part of `kernel_mktime`: the seconds before the month, for the years since 1970. A month
-- beyond the table reads as 0.
unfoldable pub month_start : ℕ → ℕ → ℕ
month_start years mon =
    let res = add32 (mul32 year years) (mul32 day ((years + 1) / 4)) in
    let res' = add32 res (get_or month mon 0) in
    if ltb 1 mon && not ((years + 2) % 4 == 0) then sub32 res' day else res'

unfoldable pub kernel_mktime : Date → ℕ
kernel_mktime tm =
    let r0 = month_start (sub32 tm.tm_year 1970) tm.tm_mon in
    let r1 = add32 r0 (mul32 day (sub32 tm.tm_day 1)) in
    let r2 = add32 r1 (mul32 hour tm.tm_hour) in
    let r3 = add32 r2 (mul32 minute tm.tm_min) in add32 r3 tm.tm_sec

-- `(v & 0x0F) + ((v >> 4) * 10)`
unfoldable pub from_bcd : ℕ → ℕ
from_bcd v = bit_and v 0x0F + v / 2 ^ 4 * 10

-- `get_rtc_time`, over the registers of the CMOS clock (`get_rtc_reg`).
unfoldable pub get_rtc_time : (ℕ → ℕ) → Date
unfolding from_bcd
get_rtc_time reg = record {
  tm_sec = from_bcd (reg 0x00);
  tm_min = from_bcd (reg 0x02);
  tm_hour = from_bcd (reg 0x04);
  tm_day = from_bcd (reg 0x07);
  tm_mon = sub32 (from_bcd (reg 0x08)) 1;
  tm_year = from_bcd (reg 0x09) + 2000;
}

-- The variables `sys_tick` and `timestamp`, and the static `loop` of `update_timestamp`.
pub record Ticks : Type 0 where
  pub sys_tick : ℕ
  pub timestamp : ℕ
  pub loop : ℕ

unfoldable pub time_init : (ℕ → ℕ) → Ticks
unfolding kernel_mktime get_rtc_time
time_init reg = record { sys_tick = 0; timestamp = kernel_mktime (get_rtc_time reg); loop = 0 }

unfoldable pub update_timestamp : Ticks → Ticks
update_timestamp t =
    let loop' = (t.loop + 1) % 2 ^ 8 in
    if loop' == 100
    then record t { timestamp = inc32 t.timestamp; loop = 0 }
    else record t { loop = loop' }

-- The part of `do_handler_time` that keeps the time.
unfoldable pub tick : Ticks → Ticks
unfolding update_timestamp
tick t = update_timestamp (record t { sys_tick = inc32 t.sys_tick })
