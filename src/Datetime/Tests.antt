-- ===== src/Datetime/Tests.antt =====
-- Examples of the clock of src/datetime.c.
use aj.Common.{◌-◌, ◌%◌, ◌≡◌, ◌==◌, if◌then◌else◌, arith}
use aj.Datetime.{Datetime, get_datetime}
use aj.Datetime.Clock.{IsTime, shows, half_day, get_datetime-half_day}

abbrev noon : Datetime
noon = record { sec = 59; min = 30; hour = 12; day = 31; month = 12; year = 2025 }

noon-IsTime : IsTime noon
noon-IsTime = record {
  sec_lt = omega arith;
  min_lt = omega arith;
  hour_lt = omega arith;
  day_le = omega arith;
  month_le = omega arith;
  year_ge = omega arith;
  year_lt = omega arith;
}

get_datetime-half_day_example :
    get_datetime (shows noon (half_day 12) 0)
    ≡ record noon { hour = if 12 % 12 == 0 then 12 - 12 else 12 }
get_datetime-half_day_example = get_datetime-half_day noon noon-IsTime
