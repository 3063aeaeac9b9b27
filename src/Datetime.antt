-- ===== src/Datetime.antt =====
-- The clock, src/datetime.c and include/datetime.h. The registers of the CMOS clock, read when it is not being
-- updated, are an argument; the wait for that is left out.
use aj.Common.{
  ℕ, ◌+◌, ◌-◌, ◌*◌, ◌/◌, ◌%◌, ◌^◌, bit_or, Bool, not, ◌&&◌, ◌==◌, leb, if◌then◌else◌, u8, u16,
}
pub mod Clock
pub mod Stamp
mod Tests

-- `struct datetime`
pub record Datetime : Type 0 where
  pub sec : ℕ
  pub min : ℕ
  pub hour : ℕ
  pub day : ℕ
  pub month : ℕ
  pub year : ℕ

-- The registers, `cmos_read` of each.
abbrev pub cmos_read : (ℕ → ℕ) → Datetime
cmos_read cmos = record {
  sec = cmos 0;
  min = cmos 2;
  hour = cmos 4;
  day = cmos 7;
  month = cmos 8;
  year = cmos 9;
}

abbrev pub from_bcd : ℕ → ℕ
from_bcd v = u8 (v % 16 + v / 16 * 10)

-- The hour keeps its bit for the afternoon.
abbrev pub hour_from_bcd : ℕ → ℕ
hour_from_bcd v = u8 (bit_or (v % 16 + v / 16 % 8 * 10) (v / 128 % 2 * 2 ^ 7))

unfoldable pub decimal : Datetime → Datetime
decimal t = record {
  sec = from_bcd t.sec;
  min = from_bcd t.min;
  hour = hour_from_bcd t.hour;
  day = from_bcd t.day;
  month = from_bcd t.month;
  year = u16 (t.year % 16 + t.year / 16 * 10);
}

-- The hour of a clock with an afternoon bit.
unfoldable pub full_day : ℕ → Datetime → Datetime
full_day status t =
    if not (status / 2 % 2 == 1) && t.hour / 128 % 2 == 1
    then record t { hour = u8 ((t.hour % 128 + 12) % 24) }
    else t

-- The values in binary, and the year with its century.
unfoldable pub in_binary : ℕ → Datetime → Datetime
unfolding decimal
in_binary status t = if not (status / 4 % 2 == 1) then decimal t else t

unfoldable pub in_century : Datetime → Datetime
in_century t = record t { year = u16 (t.year + 2000) }

unfoldable pub get_datetime : (ℕ → ℕ) → Datetime
unfolding in_binary full_day in_century
get_datetime cmos = in_century (full_day (cmos 11) (in_binary (cmos 11) (cmos_read cmos)))

-- The stamps of a FAT directory entry.
unfoldable pub datetime_to_fat_time : Datetime → ℕ
datetime_to_fat_time t =
    u16 (bit_or (bit_or (t.hour % 32 * 2 ^ 11) (t.min % 64 * 2 ^ 5)) (t.sec / 2 % 32))

unfoldable pub datetime_to_fat_date : Datetime → ℕ
datetime_to_fat_date t =
    let y = if leb 1980 t.year then u16 (t.year - 1980) else 0 in
    u16 (bit_or (bit_or (y * 2 ^ 9) (t.month % 16 * 2 ^ 5)) (t.day % 32))
