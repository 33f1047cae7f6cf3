-- ===== src/Routing/Parsed.antt =====
-- Every time range that is parsed is a proper one, but for the last 0 days.
use atlas_sql.Common.{
  zero, false, ◌≤◌, ltb→lt, ℕ, suc, ◌+◌, ◌-◌, ◌*◌, String, Bool, true, Option, none, some, [], ◌∷◌,
  ltb, ◌≡◌, ◌⊎◌, inl, inr, refl, ◌∙◌, ap, subst, arith, Bool-cases, Option-cases, leb, ◌&&◌,
}
use Prim.Native.Char.{Char}
use atlas_sql.Routing.Intent.{
  TimeRange, PeriodLabel, last_quarter, near_days, year_to_date, first_half, second_half,
  this_month, this_year, calendar_year, last_year, last_month, this_quarter,
}
use atlas_sql.Routing.Calendar.{month_days, Date, make_date, date_leb, days_before}
use atlas_sql.Routing.Parsing.{
  near_start, parsed, half_year, quarter_range, last_quarter_range, near_range, to_date_range,
  parse_comparison, parse_year, parse_near_days, parse_recent, parse_time_range, this_month_range,
  this_year_range, whole_year, last_month_range,
}
use atlas_sql.Routing.Period.{
  range_of, month_start, month_end, year_over_year, names_any, find_year, find_near_days,
  month_over_month, extract_year, previous_month, quarter_of,
}
use atlas_sql.Routing.Proper.{
  IsProper, IsDate, made_range, days_before_sound, dated_from, compared_range, earlier_month,
  earlier_day, today_range, make_date_sound,
}

parsed_some : (o : Option TimeRange) (r : TimeRange) → parsed o ≡ some (some r) → o ≡ some r
parsed_some none r h = absurd (ground arith)
parsed_some (some s) r h = ground arith

whole_year-IsProper :
    (y : ℕ) (label : PeriodLabel) (c : Option (Date × Date)) (r : TimeRange)
    → range_of (make_date y 1 1) (make_date y 12 31) label c ≡ some r
    → IsProper r
whole_year-IsProper y label c r h =
    made_range y 1 1 y 12 31 label c r h (earlier_month y 1 12 1 31 (omega arith))

half_year-IsProper :
    (y : ℕ) (first : Bool) (r : TimeRange) → half_year y first ≡ some r → IsProper r
half_year-IsProper y true r h =
    made_range y 1 1 y 6 30 (first_half y) none r h (earlier_month y 1 6 1 30 (omega arith))
half_year-IsProper y false r h =
    made_range y 7 1 y 12 31 (second_half y) none r h (earlier_month y 7 12 1 31 (omega arith))

month_days-positive : (y m : ℕ) → 1 ≤ month_days y m
unfolding month_days
month_days-positive y m = ground arith

month-IsProper :
    (p : ℕ × ℕ) (label : PeriodLabel) (c : Option (Date × Date)) (r : TimeRange)
    → range_of (month_start p) (month_end p) label c ≡ some r
    → IsProper r
month-IsProper p label c r h =
    made_range p.0 p.1 1 p.0 p.1 (month_days p.0 p.1) label c r h
      (earlier_day p.0 p.1 1 (month_days p.0 p.1) (month_days-positive p.0 p.1))

quarter-IsProper :
    (y q : ℕ) (label : PeriodLabel) (r : TimeRange)
    → 1 ≤ q
    → quarter_range y q label ≡ some r
    → IsProper r
quarter-IsProper y q label r h k =
    made_range y ((q - 1) * 3 + 1) 1 y (q * 3) (month_days y (q * 3)) label none r k
      (earlier_month y ((q - 1) * 3 + 1) (q * 3) 1 (month_days y (q * 3)) (omega arith))

last_quarter-IsProper : (y q : ℕ) (r : TimeRange) → last_quarter_range y q ≡ some r → IsProper r
last_quarter-IsProper y q r h = elim (Bool-cases (ltb 1 q)) [
  | inl e ↦
      let less = ltb→lt 1 q e in
      quarter-IsProper y (q - 1) last_quarter r (omega arith) (ground arith)
  | inr e ↦ quarter-IsProper (y - 1) 4 last_quarter r (omega arith) (ground arith)
]

-- A proper range, or the last 0 days.
abbrev pub IsUsable : TimeRange → Type 0
IsUsable r = IsProper r ⊎ (r.label ≡ near_days 0)

near-IsUsable :
    (n : ℕ) (now : Date) (r : TimeRange) → IsDate now → near_range n now ≡ some r → IsUsable r
unfolding near_start range_of
near-IsUsable zero now r good h = elim (Option-cases (near_start zero now)) [
  | inl e ↦ absurd (ground arith)
  | inr (a, e) ↦ inr (ground arith)
]
near-IsUsable (suc n) now r good h = elim (Option-cases (days_before n now)) [
  | inl e ↦ absurd (ground arith)
  | inr (a, e) ↦
      let (good', le) = days_before_sound n now a e good in
      inl (today_range a now (near_days (suc n)) none r (ground arith) good' good le)
]

year_start_le :
    (now : Date) → IsDate now → date_leb (record { year = now.year; month = 1; day = 1 }) now ≡ true
year_start_le now good = let (y, m, d) = dated_from now.year now.month now.day good in ground arith

started :
    (o : Option Date) (now : Date) (label : PeriodLabel) (c : Option (Date × Date)) (r : TimeRange)
    → range_of o (some now) label c ≡ some r
    → (a : Date) × (o ≡ some a)
unfolding range_of
started none now label c r h = absurd (ground arith)
started (some a) now label c r h = (a, refl)

to_date-IsProper :
    (now : Date) (r : TimeRange) → IsDate now → to_date_range now ≡ some r → IsProper r
to_date-IsProper now r good h =
    let (c, ranged) =
      compared_range true (year_over_year (make_date now.year 1 1) (some now))
        (make_date now.year 1 1) (some now) year_to_date r h in
    let (a, e) = started (make_date now.year 1 1) now year_to_date c r ranged in
    let (good', same) = make_date_sound now.year 1 1 a e in
    today_range a now year_to_date c r
      (subst (λ o. range_of o (some now) year_to_date c ≡ some r) e ranged) good' good
      (ap (λ t. date_leb t now) same ∙ year_start_le now good)

module _ (digit : Char → Option ℕ) where
  parse_comparison-IsUsable :
      (question : String) (now : Date) (r : TimeRange)
      → IsDate now
      → parse_comparison digit question now ≡ some (some r)
      → IsUsable r
  unfolding parse_comparison
  parse_comparison-IsUsable question now r good h =
      elim (Bool-cases (names_any ("同比" ∷ []) question)) [
        | inl e ↦ inl (to_date-IsProper now r good (parsed_some (to_date_range now) r (rw e at h)))
        | inr e ↦ absurd (ground arith)
      ]

  parse_year-IsUsable :
      (question : String) (now : Date) (r : TimeRange)
      → IsDate now
      → parse_year digit question now ≡ some (some r)
      → IsUsable r
  unfolding parse_year
  parse_year-IsUsable question now r good h = elim (Option-cases (find_year digit true question)) [
    | inl e ↦ parse_comparison-IsUsable question now r good (rw (parse_year, e) at h)
    | inr (year, e) ↦ elim (Bool-cases (leb 2000 year && leb year (now.year + 1))) [
      | inl q ↦ inl (
          whole_year-IsProper year (calendar_year year) none r
            (parsed_some (whole_year year (calendar_year year)) r (rw (parse_year, e, q) at h)))
      | inr q ↦ parse_comparison-IsUsable question now r good (rw (parse_year, e, q) at h)
    ]
  ]

  parse_near_days-IsUsable :
      (question : String) (now : Date) (r : TimeRange)
      → IsDate now
      → parse_near_days digit question now ≡ some (some r)
      → IsUsable r
  unfolding parse_near_days
  parse_near_days-IsUsable question now r good h =
      elim (Option-cases (find_near_days digit question)) [
        | inl e ↦ parse_year-IsUsable question now r good (rw (parse_near_days, e) at h)
        | inr (n, e) ↦
            near-IsUsable n now r good
              (parsed_some (near_range n now) r (rw (parse_near_days, e) at h))
      ]

  parse_recent-IsUsable :
      (question : String) (now : Date) (r : TimeRange)
      → IsDate now
      → parse_recent digit question now ≡ some (some r)
      → IsUsable r
  unfolding parse_recent
  parse_recent-IsUsable question now r good h =
      elim (Bool-cases (names_any ("本月" ∷ "这个月" ∷ []) question)) [
        | inl e ↦
            let asked = names_any ("环比" ∷ []) question in
            let (c, ranged) =
              compared_range asked (month_over_month (month_start (now.year, now.month)))
                (month_start (now.year, now.month)) (month_end (now.year, now.month)) this_month r
                (parsed_some (this_month_range asked now.year now.month) r (rw e at h)) in
            inl (month-IsProper (now.year, now.month) this_month c r ranged)
        | inr e ↦ elim (Bool-cases (names_any ("上月" ∷ "上个月" ∷ "上一月" ∷ []) question)) [
          | inl f ↦ inl (
              month-IsProper (previous_month now.year now.month) last_month none r (
                parsed_some (last_month_range (previous_month now.year now.month)) r
                  (rw (e, f) at h)))
          | inr f ↦ elim (Bool-cases (names_any ("本季度" ∷ "这季度" ∷ []) question)) [
            | inl g ↦ inl (
                quarter-IsProper now.year (quarter_of now.month) this_quarter r (omega arith) (
                  parsed_some (quarter_range now.year (quarter_of now.month) this_quarter) r
                    (rw (e, f, g) at h)))
            | inr g ↦ elim (Bool-cases (names_any ("上季度" ∷ "上一季度" ∷ []) question)) [
              | inl k ↦ inl (
                  last_quarter-IsProper now.year (quarter_of now.month) r (
                    parsed_some (last_quarter_range now.year (quarter_of now.month)) r
                      (rw (e, f, g, k) at h)))
              | inr k ↦ parse_near_days-IsUsable question now r good (rw (e, f, g, k) at h)
            ]
          ]
        ]
      ]

  -- Whatever the question says: a time range that is read from it, on a date of the calendar, lies
  -- between two dates of the calendar and ends no earlier than it starts, unless it is the last 0 days.
  pub parse_time_range-IsUsable :
      (question : String) (now : Date) (r : TimeRange)
      → IsDate now
      → parse_time_range digit question now ≡ some (some r)
      → IsUsable r
  unfolding parse_time_range
  parse_time_range-IsUsable question now r good h =
      let year = extract_year digit question now.year in
      elim (Bool-cases (names_any ("上半年" ∷ []) question)) [
        | inl e ↦
            inl (half_year-IsProper year true r (parsed_some (half_year year true) r (rw e at h)))
        | inr e ↦ elim (Bool-cases (names_any ("下半年" ∷ []) question)) [
          | inl f ↦ inl (
              half_year-IsProper year false r
                (parsed_some (half_year year false) r (rw (e, f) at h)))
          | inr f ↦ elim (Bool-cases (names_any ("今年" ∷ []) question)) [
            | inl g ↦
                let asked = names_any ("同比" ∷ []) question in
                let (c, ranged) =
                  compared_range asked
                    (year_over_year (make_date now.year 1 1) (make_date now.year 12 31))
                    (make_date now.year 1 1) (make_date now.year 12 31) this_year r
                    (parsed_some (this_year_range asked now.year) r (rw (e, f, g) at h)) in
                inl (whole_year-IsProper now.year this_year c r ranged)
            | inr g ↦ elim (Bool-cases (names_any ("去年" ∷ "上一年" ∷ "上年" ∷ []) question)) [
              | inl k ↦ inl (
                  whole_year-IsProper (now.year - 1) last_year none r
                    (parsed_some (whole_year (now.year - 1) last_year) r (rw (e, f, g, k) at h)))
              | inr k ↦ parse_recent-IsUsable question now r good (rw (e, f, g, k) at h)
            ]
          ]
        ]
      ]
