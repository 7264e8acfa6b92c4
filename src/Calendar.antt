-- ===== src/Calendar.antt =====
-- The calendar of src/civetweb.c: is_leap, count_leap and timegm. The sums are counted without the
-- bounds of `int` and `time_t`.
pub mod Count
use civetweb.Base.{Bool, List, [], get_or, if◌then◌else◌, is_negative, leb, ltb, ltb_ℤ, negsuc}
use civetweb.Base.{not, plus_ℤ, pos, pos_part, pred_ℤ, ℕ, ℤ, ◌%◌, ◌&&◌, ◌*◌, ◌+◌, ◌-◌, ◌/◌, ◌==◌}
use civetweb.Base.{◌||◌, ◌∷◌}

-- struct tm, as far as it is read.
pub record Tm : Type 0 where
  pub tm_year : ℤ
  pub tm_mon : ℤ
  pub tm_mday : ℤ
  pub tm_hour : ℤ
  pub tm_min : ℤ
  pub tm_sec : ℤ

unfoldable pub is_leap : ℕ → Bool
is_leap y = (y % 4 == 0 && not (y % 100 == 0)) || y % 400 == 0

-- For a year from 1970 on, where no difference is negative.
unfoldable pub count_leap : ℕ → ℕ
count_leap y = (y - 1969) / 4 - (y - 1901) / 100 + (y - 1601) / 400

abbrev pub ydays : List ℕ
ydays = 0 ∷ 31 ∷ 59 ∷ 90 ∷ 120 ∷ 151 ∷ 181 ∷ 212 ∷ 243 ∷ 273 ∷ 304 ∷ 334 ∷ 365 ∷ []

abbrev pub one_if : Bool → ℕ
one_if b = if b then 1 else 0

-- The test for which `timegm` returns -1. Behind the tests for a negative number, `pos_part` is the
-- number itself.
unfoldable pub is_bad_date : ℤ → ℤ → ℤ → Bool
unfolding is_leap
is_bad_date year mon mday =
    let m = pos_part mon in
    ltb_ℤ year 1970
    || (is_negative mon
        || (ltb 11 m
            || (is_negative mday
                || leb
                    (get_or ydays (m + 1) 0
                      - get_or ydays m 0
                      + one_if (m == 1 && is_leap (pos_part year)))
                    (pos_part mday))))

unfoldable pub is_bad_time : ℤ → ℤ → ℤ → Bool
is_bad_time hour min sec =
    is_negative hour
    || (ltb 23 (pos_part hour)
        || (is_negative min
            || (ltb 59 (pos_part min) || (is_negative sec || ltb 60 (pos_part sec)))))

-- The number of days, and then of seconds.
unfoldable pub day_number : ℕ → ℕ → ℕ → ℕ
unfolding is_leap count_leap
day_number year mon mday =
    (year - 1970) * 365
    + mday
    + (get_or ydays mon 0 + one_if (ltb 1 mon && is_leap year))
    + count_leap year

unfoldable pub timegm : Tm → ℤ
timegm tm =
    let year = plus_ℤ 1900 tm.tm_year in
    let mday = pred_ℤ tm.tm_mday in
    if is_bad_date year tm.tm_mon mday || is_bad_time tm.tm_hour tm.tm_min tm.tm_sec
    then negsuc 0
    else pos (
        ((day_number (pos_part year) (pos_part tm.tm_mon) (pos_part mday) * 24
                + pos_part tm.tm_hour)
              * 60
            + pos_part tm.tm_min)
          * 60
        + pos_part tm.tm_sec)
