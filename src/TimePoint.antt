-- ===== src/TimePoint.antt =====
-- utils::formatTimePoint (include/utils.hpp): a time of the system clock as local time in text. What
-- the system makes of a time in its time zone, `localtime_r`, is the argument `localtime`.
pub mod Read
use priority_http_server.Prelude.{ℕ, ◌+◌, ◌/◌, ◌%◌, [], ◌∷◌, ◌++◌}
use priority_http_server.Prelude.Text.{Text}
use priority_http_server.Numbers.{decimal}

-- struct tm, with the year and the month as they are written (tm_year + 1900, tm_mon + 1).
pub record Tm : Type 0 where
  pub year : ℕ
  pub month : ℕ
  pub day : ℕ
  pub hour : ℕ
  pub minute : ℕ
  pub second : ℕ

-- A field of std::put_time that is at least two digits wide.
abbrev pub two_digits : ℕ → Text → Text
two_digits n rest = (b'0' + n / 10) ∷ (b'0' + n % 10) ∷ rest

-- std::put_time with "%Y-%m-%d %H:%M:%S"
unfoldable pub put_time : Tm → Text
put_time tm =
    decimal tm.year
    ++ b'-'
      ∷ two_digits tm.month (
          b'-'
          ∷ two_digits tm.day (
              b' '
              ∷ two_digits tm.hour (b':' ∷ two_digits tm.minute (b':' ∷ two_digits tm.second []))))

-- system_clock::to_time_t: seconds, of a time in nanoseconds
unfoldable pub to_time_t : ℕ → ℕ
to_time_t tp = tp / 1000000000

unfoldable pub format_time_point : (ℕ → Tm) → ℕ → Text
unfolding put_time to_time_t
format_time_point localtime tp = put_time (localtime (to_time_t tp))
