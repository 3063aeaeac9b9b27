-- ===== src/Datetime/Clock.antt =====
-- The time that src/datetime.c reads from a clock.
use aj.Common.{
  ℕ, ◌+◌, ◌-◌, ◌*◌, ◌/◌, ◌%◌, ◌≤◌, ◌<◌, ◌≡◌, refl, ap, ◌∙◌, inl, inr, Bool-cases, ◌==◌,
  if◌then◌else◌, u8, u16, bit_or_high, arith,
}
use aj.Datetime.{
  Datetime, cmos_read, from_bcd, hour_from_bcd, decimal, full_day, in_binary, in_century,
  get_datetime,
}

-- Two decimal digits in a byte.
abbrev pub bcd : ℕ → ℕ
bcd n = n / 10 * 16 + n % 10

-- A time of the years 2000 to 2099.
pub record IsTime (t : Datetime) : Type 0 where
  pub sec_lt : t.sec < 60
  pub min_lt : t.min < 60
  pub hour_lt : t.hour < 24
  pub day_le : t.day ≤ 31
  pub month_le : t.month ≤ 12
  pub year_ge : 2000 ≤ t.year
  pub year_lt : t.year < 2100

-- The registers of a clock that shows a time in decimal digits with its hours as `hour`, and a status.
abbrev pub shows : Datetime → ℕ → ℕ → ℕ → ℕ
shows t hour status reg =
    if reg == 0
    then bcd t.sec
    else if reg == 2
    then bcd t.min
    else if reg == 4
    then hour
    else if reg == 7
    then bcd t.day
    else if reg == 8
    then bcd t.month
    else if reg == 9
    then bcd (t.year - 2000)
    else if reg == 11
    then status
    else 0

from_bcd-bcd : (n : ℕ) → n < 100 → from_bcd (bcd n) ≡ n
from_bcd-bcd n h = omega arith

hour_from_bcd-bcd : (n b : ℕ) → n < 80 → b < 2 → hour_from_bcd (bcd n + b * 128) ≡ n + b * 128
hour_from_bcd-bcd n b h l =
    let low : (bcd n + b * 128) % 16 + (bcd n + b * 128) / 16 % 8 * 10 ≡ n = omega arith in
    let high : (bcd n + b * 128) / 128 % 2 ≡ b = omega arith in
    rw (low, high) (omega (arith, bit_or_high 7 b n (omega arith)))

-- The hour of a clock of twelve hours: 12 at midnight and at noon, and the high bit in the afternoon.
abbrev pub twelve : ℕ → ℕ
twelve h = if h % 12 == 0 then 12 else h % 12

abbrev pub half_day : ℕ → ℕ
half_day h = bcd (twelve h) + h / 12 * 128

-- The digits of a clock, with its hour still to be made one of the full day.
decimal-shows :
    (t : Datetime) (n b status : ℕ)
    → IsTime t
    → n < 80
    → b < 2
    → decimal (cmos_read (shows t (bcd n + b * 128) status))
      ≡ record t { hour = n + b * 128; year = t.year - 2000 }
unfolding decimal
decimal-shows t n b status h l k =
    let year : u16 (bcd (t.year - 2000) % 16 + bcd (t.year - 2000) / 16 * 10) ≡ t.year - 2000 =
      omega (arith, h.year_ge, h.year_lt) in
    rw
      (
        from_bcd-bcd t.sec (omega (arith, h.sec_lt)),
        from_bcd-bcd t.min (omega (arith, h.min_lt)),
        hour_from_bcd-bcd n b l k,
        from_bcd-bcd t.day (omega (arith, h.day_le)),
        from_bcd-bcd t.month (omega (arith, h.month_le)),
        year,
      )
      refl

with_year : (t : Datetime) → IsTime t → u16 (t.year - 2000 + 2000) ≡ t.year
with_year t h = omega (arith, h.year_ge, h.year_lt)

-- A clock of 24 hours in decimal digits that shows a time of the years 2000 to 2099 is read as that time.
pub get_datetime-shows : (t : Datetime) → IsTime t → get_datetime (shows t (bcd t.hour) 2) ≡ t
unfolding get_datetime full_day in_binary in_century
get_datetime-shows t h =
    let whole : bcd t.hour ≡ bcd t.hour + 0 * 128 = omega arith in
    let hour : t.hour + 0 * 128 ≡ t.hour = omega arith in
    let d = decimal-shows t t.hour 0 2 h (omega (arith, h.hour_lt)) (omega arith) in
    ap (λ (v : ℕ). get_datetime (shows t v 2)) whole
    ∙ ap (λ (x : Datetime). in_century (full_day 2 x)) d
    ∙ rw (hour, with_year t h) refl

-- A clock of twelve hours in decimal digits that shows a time of the years 2000 to 2099 is read as that time,
-- except that midnight is read as noon, and noon as midnight.
pub get_datetime-half_day :
    (t : Datetime)
    → IsTime t
    → get_datetime (shows t (half_day t.hour) 0)
      ≡ record t { hour = if t.hour % 12 == 0 then 12 - t.hour else t.hour }
unfolding get_datetime full_day in_binary in_century
get_datetime-half_day t h =
    let n = twelve t.hour + t.hour / 12 * 128 in
    let d =
      decimal-shows t (twelve t.hour) (t.hour / 12) 0 h (ground arith) (omega (arith, h.hour_lt)) in
    ap (λ (x : Datetime). in_century (full_day 0 x)) d ∙ elim (Bool-cases (n / 128 % 2 == 1)) [
      | inl e ↦
          let hour : u8 ((n % 128 + 12) % 24) ≡ (if t.hour % 12 == 0 then 12 - t.hour else t.hour) =
            ground (arith, e, h.hour_lt) in
          rw (e, hour, with_year t h) refl
      | inr e ↦
          let hour : n ≡ (if t.hour % 12 == 0 then 12 - t.hour else t.hour) =
            ground (arith, e, h.hour_lt) in
          rw (e, hour, with_year t h) refl
    ]
