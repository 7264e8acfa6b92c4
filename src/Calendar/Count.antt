-- ===== src/Calendar/Count.antt =====
-- timegm of src/civetweb.c counts the seconds of a calendar.
use civetweb.Base.{ap, arith, get_or, if◌then◌else◌, leb}
use civetweb.Base.{le→leb, ltb, lt→ltb, not, pos, refl}
use civetweb.Base.{suc, true, zero, ℕ, ℤ, ◌&&◌, ◌*◌, ◌+◌, ◌<◌, ◌==◌}
use civetweb.Base.{◌||◌, ◌≡◌, ◌≤◌}
use civetweb.Calendar.{
  Tm, is_leap, count_leap, ydays, one_if, is_bad_date, is_bad_time, day_number, timegm,
}

-- The length of a month, counted from 0.
abbrev pub month_length : ℕ → ℕ → ℕ
month_length year mon =
    if mon == 1
    then 28 + one_if (is_leap year)
    else if mon == 3 || (mon == 5 || (mon == 8 || mon == 10))
    then 30
    else 31

abbrev pub year_length : ℕ → ℕ
year_length year = 365 + one_if (is_leap year)

-- The days of the years from 1970 on.
pub days_of_years : ℕ → ℕ
days_of_years zero = 0
days_of_years (suc k) = days_of_years k + year_length (1970 + k)

-- The days of the first months of a year.
pub days_of_months : ℕ → ℕ → ℕ
days_of_months year zero = 0
days_of_months year (suc mon) = days_of_months year mon + month_length year mon

count_leap-suc :
    (k : ℕ) → count_leap (1970 + suc k) ≡ count_leap (1970 + k) + one_if (is_leap (1970 + k))
unfolding count_leap is_leap
count_leap-suc k = ground arith

days_of_years-count_leap : (k : ℕ) → days_of_years k ≡ k * 365 + count_leap (1970 + k)
unfolding days_of_years
days_of_years-count_leap zero = unfold count_leap in refl
days_of_years-count_leap (suc k) = omega (arith, days_of_years-count_leap k, count_leap-suc k)

each_month :
    (P : ℕ → Type 0)
    → P 0
    → P 1
    → P 2
    → P 3
    → P 4
    → P 5
    → P 6
    → P 7
    → P 8
    → P 9
    → P 10
    → P 11
    → (m : ℕ) → m < 12
    → P m
each_month P a b c d e f g h i j k l zero q = a
each_month P a b c d e f g h i j k l (suc zero) q = b
each_month P a b c d e f g h i j k l (suc (suc zero)) q = c
each_month P a b c d e f g h i j k l (suc (suc (suc zero))) q = d
each_month P a b c d e f g h i j k l (suc (suc (suc (suc zero)))) q = e
each_month P a b c d e f g h i j k l (suc (suc (suc (suc (suc zero))))) q = f
each_month P a b c d e f g h i j k l (suc (suc (suc (suc (suc (suc zero)))))) q = g
each_month P a b c d e f g h i j k l (suc (suc (suc (suc (suc (suc (suc zero))))))) q = h
each_month P a b c d e f g h i j k l (suc (suc (suc (suc (suc (suc (suc (suc zero)))))))) q = i
each_month P a b c d e f g h i j k l (suc (suc (suc (suc (suc (suc (suc (suc (suc zero))))))))) q =
    j
each_month P a b c d e f g h i j k l
      (suc (suc (suc (suc (suc (suc (suc (suc (suc (suc zero)))))))))) q =
    k
each_month P a b c d e f g h i j k l
      (suc (suc (suc (suc (suc (suc (suc (suc (suc (suc (suc zero))))))))))) q =
    l
each_month P a b c d e f g h i j k l
      (suc (suc (suc (suc (suc (suc (suc (suc (suc (suc (suc (suc m)))))))))))) q =
    absurd (omega arith)

days_of_months-ydays :
    (year mon : ℕ)
    → mon < 12
    → days_of_months year mon ≡ get_or ydays mon 0 + one_if (ltb 1 mon && is_leap year)
unfolding days_of_months
days_of_months-ydays year mon h =
    each_month (λ m. days_of_months year m ≡ get_or ydays m 0 + one_if (ltb 1 m && is_leap year))
      (omega arith) (omega arith) (omega arith) (omega arith) (omega arith) (omega arith)
      (omega arith) (omega arith) (omega arith) (omega arith) (omega arith) (omega arith) mon h

-- The fields of a point in time, for the year 1970 + k and the month and the day counted from 0.
abbrev pub tm_at : (k mon day hour min sec : ℕ) → Tm
tm_at k mon day hour min sec = record {
  tm_year = pos (70 + k);
  tm_mon = pos mon;
  tm_mday = pos (suc day);
  tm_hour = pos hour;
  tm_min = pos min;
  tm_sec = pos sec;
}

abbrev pub IsTime : (k mon day hour min sec : ℕ) → Type 0
IsTime k mon day hour min sec =
    (mon < 12) × (day < month_length (1970 + k) mon) × (hour < 24) × (min < 60) × (sec ≤ 60)

good_date :
    (k mon day : ℕ)
    → mon < 12
    → is_bad_date (pos (1970 + k)) (pos mon) (pos day) ≡ not (ltb day (month_length (1970 + k) mon))
unfolding is_bad_date
good_date k mon day h =
    each_month
      (λ m.
        is_bad_date (pos (1970 + k)) (pos m) (pos day) ≡ not (ltb day (month_length (1970 + k) m)))
      (ground arith) (ground arith) (ground arith) (ground arith) (ground arith) (ground arith)
      (ground arith) (ground arith) (ground arith) (ground arith) (ground arith) (ground arith) mon
      h

-- The seconds since 1970, counted year by year and month by month.
abbrev pub seconds_at : (k mon day hour min sec : ℕ) → ℕ
seconds_at k mon day hour min sec =
    (((days_of_years k + days_of_months (1970 + k) mon + day) * 24 + hour) * 60 + min) * 60 + sec

good_time :
    (hour min sec : ℕ)
    → is_bad_time (pos hour) (pos min) (pos sec) ≡ not (ltb hour 24 && (ltb min 60 && leb sec 60))
unfolding is_bad_time
good_time hour min sec = ground arith

day_number-days :
    (k mon day : ℕ)
    → mon < 12
    → day_number (1970 + k) mon day ≡ days_of_years k + days_of_months (1970 + k) mon + day
unfolding day_number
day_number-days k mon day h =
    omega (arith, days_of_years-count_leap k, days_of_months-ydays (1970 + k) mon h)

-- For a date of the calendar from 1970 on and a time of the day, with a leap second at most,
-- `timegm` gives the number of seconds since 1970.
pub timegm-seconds_at :
    (k mon day hour min sec : ℕ)
    → IsTime k mon day hour min sec
    → timegm (tm_at k mon day hour min sec) ≡ pos (seconds_at k mon day hour min sec)
unfolding timegm
timegm-seconds_at k mon day hour min sec (a, b, c, d, e) =
    let y : 70 + k + 1900 ≡ 1970 + k = omega arith in
    let t0 : ltb day (month_length (1970 + k) mon) ≡ true = lt→ltb _ _ b in
    let t1 : ltb hour 24 ≡ true = lt→ltb _ _ c in
    let t2 : ltb min 60 ≡ true = lt→ltb _ _ d in
    let t3 : leb sec 60 ≡ true = le→leb _ _ e in
    rw (y, good_date k mon day a, t0, good_time hour min sec, t1, t2, t3)
      (ap (λ n. pos (((n * 24 + hour) * 60 + min) * 60 + sec)) (day_number-days k mon day a))

-- The fields of an accepted date.
abbrev DateOf : ℤ → ℤ → ℤ → Type 0
DateOf year mon mday =
    (k : ℕ) × (m : ℕ) × (day : ℕ) × (year ≡ pos (70 + k))
    × (mon ≡ pos m)
    × (mday ≡ pos (suc day))
    × (m < 12)
    × (day < month_length (1970 + k) m)

abbrev TimeOf : ℤ → ℤ → ℤ → Type 0
TimeOf hour min sec =
    (h : ℕ) × (m : ℕ) × (s : ℕ) × (hour ≡ pos h)
    × (min ≡ pos m)
    × (sec ≡ pos s)
    × (h < 24)
    × (m < 60)
    × (s ≤ 60)
