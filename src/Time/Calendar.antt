-- ===== src/Time/Calendar.antt =====
-- `kernel_mktime` against the Gregorian calendar, counted year by year and month by month.
use mango_os.Base.{
  ℕ, zero, suc, ◌+◌, ◌-◌, ◌*◌, ◌%◌, ◌<◌, ◌≤◌, ◌≡◌, refl, ap, Bool, true, not, ◌&&◌, ◌||◌, ◌==◌, ltb,
  if◌then◌else◌, sub32, every_below, every_below-at, arith,
}
use mango_os.Time.{Date, day, month_start, kernel_mktime}

-- The Gregorian rule.
unfoldable pub is_leap : ℕ → Bool
is_leap y = (y % 4 == 0) && (not (y % 100 == 0) || (y % 400 == 0))

unfoldable pub month_days : Bool → ℕ → ℕ
month_days leap m =
    if m == 1
    then (if leap then 29 else 28)
    else (if (m == 3) || ((m == 5) || ((m == 8) || (m == 10))) then 30 else 31)

-- The days of the first `n` years from 1970 on.
unfoldable pub days_before_year : ℕ → ℕ
unfolding is_leap
days_before_year zero = 0
days_before_year (suc n) = days_before_year n + (if is_leap (1970 + n) then 366 else 365)

-- The days of the first `m` months of a year.
unfoldable pub days_before_month : Bool → ℕ → ℕ
unfolding month_days
days_before_month leap zero = 0
days_before_month leap (suc m) = days_before_month leap m + month_days leap m

-- The seconds since the start of 1970.
unfoldable pub seconds : Date → ℕ
unfolding days_before_year days_before_month is_leap
seconds tm =
    ((days_before_year (tm.tm_year - 1970)
            + days_before_month (is_leap tm.tm_year) tm.tm_mon
            + (tm.tm_day - 1))
          * 24
        + tm.tm_hour)
      * 3600
    + tm.tm_min * 60
    + tm.tm_sec

-- A date and a time of day that a clock can show. Every month may have 31 days.
pub record IsDate (tm : Date) : Type 0 where
  pub sec : tm.tm_sec < 60
  pub min : tm.tm_min < 60
  pub hours : tm.tm_hour < 24
  pub days : (1 ≤ tm.tm_day) × (tm.tm_day ≤ 31)
  pub mon : tm.tm_mon < 12
  pub years : (1970 ≤ tm.tm_year) × (tm.tm_year < 2100)

agree : ℕ → ℕ → Bool
unfolding days_before_year days_before_month is_leap month_start
agree n m =
    (month_start n m == (days_before_year n + days_before_month (is_leap (1970 + n)) m) * day)
    && ltb (days_before_year n + days_before_month (is_leap (1970 + n)) m) 47500

agree_table : every_below 130 (λ n. every_below 12 (λ m. agree n m)) ≡ true
unfolding every_below agree
agree_table = refl

agree_lem :
    (n m : ℕ)
    → n < 130
    → m < 12
    → (month_start n m ≡ (days_before_year n + days_before_month (is_leap (1970 + n)) m) * day)
      × (days_before_year n + days_before_month (is_leap (1970 + n)) m < 47500)
unfolding agree
agree_lem n m hn hm =
    let found : agree n m ≡ true =
      every_below-at 12 (λ m. agree n m) m
        (every_below-at 130 (λ n. every_below 12 (λ m. agree n m)) n agree_table hn) hm in
    ground arith

-- Until the end of 2099 `kernel_mktime` is the number of seconds since the start of 1970.
pub kernel_mktime-seconds : (tm : Date) → IsDate tm → kernel_mktime tm ≡ seconds tm
unfolding kernel_mktime seconds
kernel_mktime-seconds tm d =
    let years : sub32 tm.tm_year 1970 ≡ tm.tm_year - 1970 = omega arith in
    let back : 1970 + (tm.tm_year - 1970) ≡ tm.tm_year = omega arith in
    let a = agree_lem (tm.tm_year - 1970) tm.tm_mon (omega arith) d.mon in
    let leap : is_leap (1970 + (tm.tm_year - 1970)) ≡ is_leap tm.tm_year = ap is_leap back in
    let b : month_start (tm.tm_year - 1970) tm.tm_mon
        ≡ (days_before_year (tm.tm_year - 1970) + days_before_month (is_leap tm.tm_year) tm.tm_mon)
          * day =
      rw leap at a.0 in
    let c : days_before_year (tm.tm_year - 1970) + days_before_month (is_leap tm.tm_year) tm.tm_mon
        < 47500 =
      rw leap at a.1 in
    rw (years, b) (omega arith)
