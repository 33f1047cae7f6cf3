-- ===== src/Routing/Calendar.antt =====
-- Python's datetime.date, as far as the router uses it.
use atlas_sql.Common.{
  ℕ, zero, suc, ◌+◌, ◌-◌, ◌%◌, Bool, not, ◌&&◌, ◌||◌, Option, none, some, if◌then◌else◌, ltb, leb,
  ◌==◌, nat_eq,
}

pub record Date : Type 0 where
  pub year : ℕ
  pub month : ℕ
  pub day : ℕ

unfoldable pub is_leap : ℕ → Bool
is_leap y = (y % 4 == 0) && (not (y % 100 == 0) || y % 400 == 0)

-- calendar.monthrange(y, m)[1]
unfoldable pub month_days : ℕ → ℕ → ℕ
unfolding is_leap
month_days y m =
    if m == 2
    then (if is_leap y then 29 else 28)
    else if m == 4 || m == 6 || m == 9 || m == 11
    then 30
    else 31

-- date(y, m, d): none is the ValueError.
unfoldable pub is_date : ℕ → ℕ → ℕ → Bool
unfolding month_days
is_date y m d = leb 1 y && leb y 9999 && leb 1 m && leb m 12 && leb 1 d && leb d (month_days y m)

unfoldable pub make_date : ℕ → ℕ → ℕ → Option Date
unfolding is_date
make_date y m d = if is_date y m d then some (record { year = y; month = m; day = d }) else none

-- a <= b
abbrev pub date_leb : Date → Date → Bool
date_leb a b =
    ltb a.year b.year
    || (a.year == b.year && (ltb a.month b.month || (a.month == b.month && leb a.day b.day)))

-- One day earlier, and one later: none is the OverflowError.
unfoldable pub day_before : Date → Option Date
unfolding make_date
day_before t =
    if ltb 1 t.day
    then make_date t.year t.month (t.day - 1)
    else if ltb 1 t.month
    then make_date t.year (t.month - 1) (month_days t.year (t.month - 1))
    else make_date (t.year - 1) 12 31

unfoldable pub day_after : Date → Option Date
unfolding make_date
day_after t =
    if ltb t.day (month_days t.year t.month)
    then make_date t.year t.month (t.day + 1)
    else if ltb t.month 12
    then make_date t.year (t.month + 1) 1
    else make_date (t.year + 1) 1 1

-- t - timedelta(days=n)
unfoldable pub days_before : ℕ → Date → Option Date
unfolding day_before
days_before zero t = some t
days_before (suc n) t = elim (day_before t) [ none ↦ none | some s ↦ days_before n s ]
