-- ===== src/Routing/Tests.antt =====
-- Some questions on a fixed date, and the theorem at one of them. The digits are the ASCII ones.
use atlas_sql.Common.{
  ℕ, zero, suc, ◌-◌, ◌&&◌, Option, none, some, if◌then◌else◌, leb, ◌≡◌, refl, inl,
}
use Prim.Native.Char.{Char, code}
use atlas_sql.Routing.Calendar.{Date, is_date}
use atlas_sql.Routing.Intent.{TimeRange, PeriodLabel}
use atlas_sql.Routing.Parsing.{parse_time_range}
use atlas_sql.Routing.Parsed.{IsUsable, parse_time_range-IsUsable}

abbrev ascii_digit : Char → Option ℕ
ascii_digit c = if leb 48 (code c) && leb (code c) 57 then some (code c - 48) else none

abbrev today : Date
today = record { year = 2026; month = 9; day = 10 }

abbrev leap_day : Date
leap_day = record { year = 2024; month = 2; day = 29 }

abbrev last_week : TimeRange
last_week = record {
  start = record { year = 2026; month = 9; day = 4 };
  end = today;
  label = PeriodLabel.near_days 7;
  comparison = none;
}

last_week_test : parse_time_range ascii_digit "近 7 天的销售额" today ≡ some (some last_week)
unfolding parse_time_range atlas_sql.Common.contains_text
last_week_test = refl

-- date(2023, 2, 29) raises.
leap_day_test : parse_time_range ascii_digit "销售额同比" leap_day ≡ none
unfolding parse_time_range atlas_sql.Common.contains_text
leap_day_test = refl

-- The range of the last 0 days starts tomorrow.
no_days_test :
    parse_time_range ascii_digit "近0天" today
    ≡ some (
        some (record {
          start = record { year = 2026; month = 9; day = 11 };
          end = today;
          label = PeriodLabel.near_days 0;
          comparison = none;
        }))
unfolding parse_time_range atlas_sql.Common.contains_text
no_days_test = refl

no_time_test : parse_time_range ascii_digit "门店数量" today ≡ some none
unfolding parse_time_range atlas_sql.Common.contains_text
no_time_test = refl

parse_time_range-IsUsable_example : IsUsable last_week
unfolding is_date parse_time_range atlas_sql.Common.contains_text
parse_time_range-IsUsable_example =
    parse_time_range-IsUsable ascii_digit "近 7 天的销售额" today last_week refl refl
