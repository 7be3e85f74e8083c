-- ===== src/Tests/Clocks.antt =====
-- Dates and ticks.
use mango_os.Base.{◌≡◌, refl, arith}
use mango_os.Time.{Date, month_start, kernel_mktime}
use mango_os.Time.Calendar.{IsDate, seconds, kernel_mktime-seconds}

-- 29 February 2024, 12:34:56.
abbrev leap_day : Date
leap_day = record {
  tm_sec = 56;
  tm_min = 34;
  tm_hour = 12;
  tm_day = 29;
  tm_mon = 1;
  tm_year = 2024;
}

leap_day-IsDate : IsDate leap_day
leap_day-IsDate = record {
  sec = omega arith;
  min = omega arith;
  hours = omega arith;
  days = (omega arith, omega arith);
  mon = omega arith;
  years = (omega arith, omega arith);
}

kernel_mktime-seconds_example : kernel_mktime leap_day ≡ seconds leap_day
kernel_mktime-seconds_example = kernel_mktime-seconds leap_day leap_day-IsDate

kernel_mktime-leap_day : kernel_mktime leap_day ≡ 1709210096
unfolding kernel_mktime month_start
kernel_mktime-leap_day = refl
