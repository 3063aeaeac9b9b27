-- ===== src/Datetime/Stamp.antt =====
-- The stamps that src/datetime.c makes.
use aj.Common.{
  ℕ, ◌+◌, ◌-◌, ◌*◌, ◌/◌, ◌%◌, ◌^◌, ◌≤◌, ◌<◌, ◌≡◌, bit_or, ap, ◌∙◌, true, leb, u16, bit_or_low,
  arith,
}
use aj.Datetime.{Datetime, datetime_to_fat_time, datetime_to_fat_date}

-- Three fields in a word: hours or years, minutes or months, and seconds or days.
time_fields :
    (h m s : ℕ)
    → m < 64
    → s < 32
    → bit_or (bit_or (h * 2 ^ 11) (m * 2 ^ 5)) s ≡ h * 2 ^ 11 + m * 2 ^ 5 + s
time_fields h m s lm ls =
    let shifted : h * 2 ^ 11 + m * 2 ^ 5 ≡ (h * 2 ^ 6 + m) * 2 ^ 5 = omega arith in
    ap (λ (v : ℕ). bit_or v s) (bit_or_low 11 h (m * 2 ^ 5) (omega arith) ∙ shifted)
    ∙ bit_or_low 5 (h * 2 ^ 6 + m) s ls
    ∙ omega arith

date_fields :
    (y m d : ℕ)
    → m < 16
    → d < 32
    → bit_or (bit_or (y * 2 ^ 9) (m * 2 ^ 5)) d ≡ y * 2 ^ 9 + m * 2 ^ 5 + d
date_fields y m d lm ld =
    let shifted : y * 2 ^ 9 + m * 2 ^ 5 ≡ (y * 2 ^ 4 + m) * 2 ^ 5 = omega arith in
    ap (λ (v : ℕ). bit_or v d) (bit_or_low 9 y (m * 2 ^ 5) (omega arith) ∙ shifted)
    ∙ bit_or_low 5 (y * 2 ^ 4 + m) d ld
    ∙ omega arith

-- The stamp of a time of day has the hour, the minute and half of the second, and the stamp of a date from 1980 to
-- 2107 the years since 1980, the month and the day, each in its bits.
pub datetime_to_fat_fields :
    (t : Datetime)
    → t.hour < 24
    → t.min < 60
    → t.sec < 60
    → 1980 ≤ t.year
    → t.year ≤ 2107
    → t.month ≤ 12
    → t.day ≤ 31
    → let time = datetime_to_fat_time t in
      let date = datetime_to_fat_date t in
      (time / 2 ^ 11 ≡ t.hour)
      × (time / 2 ^ 5 % 2 ^ 6 ≡ t.min)
      × (time % 2 ^ 5 * 2 ≡ t.sec - t.sec % 2)
      × (date / 2 ^ 9 + 1980 ≡ t.year)
      × (date / 2 ^ 5 % 2 ^ 4 ≡ t.month)
      × (date % 2 ^ 5 ≡ t.day)
unfolding datetime_to_fat_time datetime_to_fat_date
datetime_to_fat_fields t a b c d e f g =
    let after : leb 1980 t.year ≡ true = ground arith in
    let time : datetime_to_fat_time t ≡ t.hour * 2 ^ 11 + t.min * 2 ^ 5 + t.sec / 2 = omega (
      arith,
      time_fields (t.hour % 32) (t.min % 64) (t.sec / 2 % 32) (omega arith) (omega arith),
    ) in
    let date : datetime_to_fat_date t ≡ (t.year - 1980) * 2 ^ 9 + t.month * 2 ^ 5 + t.day =
      rw after (
        omega (
          arith,
          date_fields (u16 (t.year - 1980)) (t.month % 16) (t.day % 32) (omega arith) (omega arith),
        )) in
    rw (time, date) (omega arith, omega arith, omega arith, omega arith, omega arith, omega arith)
