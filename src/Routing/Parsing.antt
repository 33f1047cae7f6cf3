-- ===== src/Routing/Parsing.antt =====
-- The cases of _parse_time_range of server/domain/router.py, in their order.
use atlas_sql.Common.{
  ℕ, zero, suc, ◌+◌, ◌-◌, String, Bool, true, false, ◌&&◌, Option, none, some, [], ◌∷◌,
  if◌then◌else◌, ltb, leb,
}
use Prim.Native.Char.{Char}
use atlas_sql.Routing.Intent.{
  TimeRange, PeriodLabel, last_quarter, near_days, calendar_year, last_year, first_half, this_year,
  this_month, last_month, year_to_date, second_half, this_quarter,
}
use atlas_sql.Routing.Calendar.{days_before, Date, day_after, month_days, make_date}
use atlas_sql.Routing.Period.{
  compared, find_year, find_near_days, month_over_month, extract_year, range_of, year_over_year,
  month_start, names_any, month_end, quarter_start, previous_month, quarter_end, quarter_of,
}

abbrev pub parsed : Option TimeRange → Option (Option TimeRange)
parsed none = none
parsed (some r) = some (some r)

-- now - timedelta(days=n - 1)
unfoldable pub near_start : ℕ → Date → Option Date
unfolding days_before day_after
near_start zero now = day_after now
near_start (suc n) now = days_before n now

abbrev pub half_year : ℕ → Bool → Option TimeRange
half_year year true = range_of (make_date year 1 1) (make_date year 6 30) (first_half year) none
half_year year false = range_of (make_date year 7 1) (make_date year 12 31) (second_half year) none

abbrev pub whole_year : ℕ → PeriodLabel → Option TimeRange
whole_year year label = range_of (make_date year 1 1) (make_date year 12 31) label none

abbrev pub this_year_range : Bool → ℕ → Option TimeRange
this_year_range yoy y =
    compared yoy (year_over_year (make_date y 1 1) (make_date y 12 31)) (make_date y 1 1)
      (make_date y 12 31) this_year

abbrev pub this_month_range : Bool → ℕ → ℕ → Option TimeRange
this_month_range mom y m =
    compared mom (month_over_month (month_start (y, m))) (month_start (y, m)) (month_end (y, m))
      this_month

abbrev pub last_month_range : ℕ × ℕ → Option TimeRange
last_month_range p = range_of (month_start p) (month_end p) last_month none

abbrev pub quarter_range : ℕ → ℕ → PeriodLabel → Option TimeRange
quarter_range y q label = range_of (quarter_start y q) (quarter_end y q) label none

abbrev pub last_quarter_range : ℕ → ℕ → Option TimeRange
last_quarter_range y q =
    if ltb 1 q then quarter_range y (q - 1) last_quarter else quarter_range (y - 1) 4 last_quarter

abbrev pub near_range : ℕ → Date → Option TimeRange
near_range n now = range_of (near_start n now) (some now) (near_days n) none

abbrev pub to_date_range : Date → Option TimeRange
to_date_range now =
    compared true (year_over_year (make_date now.year 1 1) (some now)) (make_date now.year 1 1)
      (some now) year_to_date

module _ (digit : Char → Option ℕ) where
  -- 同比 without a period
  unfoldable pub parse_comparison : String → Date → Option (Option TimeRange)
  unfolding compared year_over_year
  parse_comparison question now =
      if names_any ("同比" ∷ []) question then parsed (to_date_range now) else some none

  -- YYYY年
  unfoldable pub parse_year : String → Date → Option (Option TimeRange)
  unfolding parse_comparison find_year range_of
  parse_year question now = elim (find_year digit true question) [
    | none ↦ parse_comparison question now
    | some year ↦
        if leb 2000 year && leb year (now.year + 1)
        then parsed (whole_year year (calendar_year year))
        else parse_comparison question now
  ]

  -- 近N天
  unfoldable pub parse_near_days : String → Date → Option (Option TimeRange)
  unfolding parse_year find_near_days near_start
  parse_near_days question now = elim (find_near_days digit question) [
    | none ↦ parse_year question now
    | some n ↦ parsed (near_range n now)
  ]

  -- The quarters and the months.
  unfoldable pub parse_recent : String → Date → Option (Option TimeRange)
  unfolding parse_near_days month_over_month month_days
  parse_recent question now =
      if names_any ("本月" ∷ "这个月" ∷ []) question
      then parsed (this_month_range (names_any ("环比" ∷ []) question) now.year now.month)
      else if names_any ("上月" ∷ "上个月" ∷ "上一月" ∷ []) question
      then parsed (last_month_range (previous_month now.year now.month))
      else if names_any ("本季度" ∷ "这季度" ∷ []) question
      then parsed (quarter_range now.year (quarter_of now.month) this_quarter)
      else if names_any ("上季度" ∷ "上一季度" ∷ []) question
      then parsed (last_quarter_range now.year (quarter_of now.month))
      else parse_near_days question now

  -- _parse_time_range
  unfoldable pub parse_time_range : String → Date → Option (Option TimeRange)
  unfolding parse_recent extract_year
  parse_time_range question now =
      if names_any ("上半年" ∷ []) question
      then parsed (half_year (extract_year digit question now.year) true)
      else if names_any ("下半年" ∷ []) question
      then parsed (half_year (extract_year digit question now.year) false)
      else if names_any ("今年" ∷ []) question
      then parsed (this_year_range (names_any ("同比" ∷ []) question) now.year)
      else if names_any ("去年" ∷ "上一年" ∷ "上年" ∷ []) question
      then parsed (whole_year (now.year - 1) last_year)
      else parse_recent question now
