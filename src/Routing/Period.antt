-- ===== src/Routing/Period.antt =====
-- _parse_time_range of server/domain/router.py. An exception is none, and some none is that the
-- question names no time. `digit` is the value of a decimal digit, as int() and \d have it.
use atlas_sql.Common.{
  ℕ, zero, suc, ◌+◌, ◌-◌, ◌*◌, ◌/◌, String, Bool, false, not, ◌&&◌, ◌||◌, Option, none, some, List,
  if◌then◌else◌, leb, ◌==◌, nat_eq, contains_text, any, lstrip,
}
use Prim.Native.Char.{Char, code}
use Prim.Native.String.{[] as no_text, ◌∷◌ as then_text}
use text.Mathlib.Text.{starts_with}
use atlas_sql.Routing.Calendar.{Date, make_date, month_days}
use atlas_sql.Routing.Intent.{PeriodLabel, TimeRange}

-- re.search of an alternative of words
abbrev pub names_any : List String → String → Bool
names_any words question = any (λ w. contains_text w question) words

-- A range between two dates, if both exist.
unfoldable pub range_of :
    Option Date → Option Date → PeriodLabel → Option (Date × Date) → Option TimeRange
range_of (some a) (some b) label comparison =
    some (record { start = a; end = b; label = label; comparison = comparison })
range_of _ _ label comparison = none

abbrev pub pair_of : Option Date → Option Date → Option (Date × Date)
pair_of (some a) (some b) = some (a, b)
pair_of _ _ = none

-- _yoy_range and _mom_range
unfoldable pub year_over_year : Option Date → Option Date → Option (Date × Date)
unfolding make_date
year_over_year (some a) (some b) =
    pair_of (make_date (a.year - 1) a.month a.day) (make_date (b.year - 1) b.month b.day)
year_over_year _ _ = none

abbrev pub previous_month : ℕ → ℕ → ℕ × ℕ
previous_month y m = if m == 1 then (y - 1, 12) else (y, m - 1)

abbrev pub month_start : ℕ × ℕ → Option Date
month_start p = make_date p.0 p.1 1

abbrev pub month_end : ℕ × ℕ → Option Date
month_end p = make_date p.0 p.1 (month_days p.0 p.1)

unfoldable pub month_over_month : Option Date → Option (Date × Date)
unfolding make_date month_days
month_over_month (some a) =
    pair_of (month_start (previous_month a.year a.month))
      (month_end (previous_month a.year a.month))
month_over_month none = none

-- A range with a comparison, if one is asked for; where the comparison raises, so does the range.
unfoldable pub compared :
    Bool → Option (Date × Date) → Option Date → Option Date → PeriodLabel → Option TimeRange
unfolding range_of
compared asked comparison a b label =
    if asked
    then elim comparison [ none ↦ none | some c ↦ range_of a b label (some c) ]
    else range_of a b label none

-- The first and the last month of a quarter.
abbrev pub quarter_start : ℕ → ℕ → Option Date
quarter_start y q = make_date y ((q - 1) * 3 + 1) 1

abbrev pub quarter_end : ℕ → ℕ → Option Date
quarter_end y q = make_date y (q * 3) (month_days y (q * 3))

abbrev pub quarter_of : ℕ → ℕ
quarter_of m = (m - 1) / 3 + 1

module _ (digit : Char → Option ℕ) where
  -- The value of the digits in front, after those of that value, and what follows.
  unfoldable pub read_number : ℕ → String → ℕ × String
  read_number value no_text = (value, no_text)
  read_number value (then_text c s) = elim (digit c) [
    | none ↦ (value, then_text c s)
    | some d ↦ read_number (value * 10 + d) s
  ]

  -- \d{4}, and what follows
  unfoldable pub read_digits : ℕ → ℕ → String → Option (ℕ × String)
  read_digits zero value s = some (value, s)
  read_digits (suc n) value no_text = none
  read_digits (suc n) value (then_text c s) = elim (digit c) [
    | none ↦ none
    | some d ↦ read_digits n (value * 10 + d) s
  ]

  abbrev pub is_half_year : String → Bool
  is_half_year s = starts_with (lstrip s) "上半年" || starts_with (lstrip s) "下半年"

  -- (\d{4})\s*年 at this place; `strict` adds (?!\s*[上下]半年).
  unfoldable pub year_here : Bool → String → Option ℕ
  unfolding read_digits lstrip
  year_here strict s = elim (read_digits 4 0 s) [
    | none ↦ none
    | some found ↦ year_mark strict found.0 (lstrip found.1)
  ]
    where
      year_mark : Bool → ℕ → String → Option ℕ
      year_mark strict year no_text = none
      year_mark strict year (then_text c s) =
          if code c == 24180 && not (strict && is_half_year s) then some year else none

  abbrev or_later : Option ℕ → Option ℕ → Option ℕ
  or_later none later = later
  or_later (some n) later = some n

  unfoldable pub find_year : Bool → String → Option ℕ
  unfolding year_here
  find_year strict no_text = none
  find_year strict (then_text c s) =
      or_later (year_here strict (then_text c s)) (find_year strict s)

  -- 近\s*(\d+)\s*天, after 近
  unfoldable pub days_here : String → Option ℕ
  unfolding lstrip read_number
  days_here no_text = none
  days_here (then_text c s) = elim (digit c) [
    | none ↦ none
    | some d ↦
        let found = read_number d s in
        if starts_with (lstrip found.1) "天" then some found.0 else none
  ]

  unfoldable pub find_near_days : String → Option ℕ
  unfolding days_here lstrip
  find_near_days no_text = none
  find_near_days (then_text c s) =
      let later = find_near_days s in
      if code c == 36817 then or_later (days_here (lstrip s)) later else later

  -- _extract_year
  unfoldable pub extract_year : String → ℕ → ℕ
  unfolding find_year
  extract_year question default = elim (find_year false question) [
    | none ↦ default
    | some year ↦ if leb 2000 year && leb year 2100 then year else default
  ]
