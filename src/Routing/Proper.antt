-- ===== src/Routing/Proper.antt =====
-- The time ranges that are found are made of dates, and end no earlier than they start.
use atlas_sql.Common.{
  zero, false, ltb→lt, ◌<◌, ◌≤◌, ℕ, true, Option, some, nat_eq, ◌≡◌, inl, inr, sym, ◌∙◌, ap, subst,
  arith, Bool-cases, Option-cases, Bool, ltb, suc, none, ◌-◌,
}
use atlas_sql.Routing.Calendar.{
  Date, make_date, is_date, date_leb, day_before, days_before, month_days,
}
use atlas_sql.Routing.Intent.{TimeRange, PeriodLabel}
use atlas_sql.Routing.Period.{range_of, compared}

-- A date of the calendar.
abbrev pub IsDate : Date → Type 0
IsDate t = is_date t.year t.month t.day ≡ true

pub make_date_sound :
    (y m d : ℕ) (t : Date)
    → make_date y m d ≡ some t
    → IsDate t × (t ≡ record { year = y; month = m; day = d })
unfolding make_date
make_date_sound y m d t h = elim (Bool-cases (is_date y m d)) [
  | inr e ↦ absurd (ground arith)
  | inl e ↦
      let same : t ≡ record { year = y; month = m; day = d } = ground arith in
      (subst IsDate (sym same) e, same)
]

-- Two dates in the calendar, the first no later than the second.
pub record IsProper (r : TimeRange) : Type 0 where
  pub start : IsDate r.start
  pub end : IsDate r.end
  pub ordered : date_leb r.start r.end ≡ true

-- A range between two dates that are written out.
pub made_range :
    (y m d y' m' d' : ℕ) (label : PeriodLabel) (c : Option (Date × Date)) (r : TimeRange)
    → range_of (make_date y m d) (make_date y' m' d') label c ≡ some r
    → date_leb
        (record { year = y; month = m; day = d })
        (record { year = y'; month = m'; day = d' })
      ≡ true
    → IsProper r
unfolding range_of
made_range y m d y' m' d' label c r h o = elim (Option-cases (make_date y m d)) [
  | inl e ↦ absurd (ground arith)
  | inr (a, e) ↦ elim (Option-cases (make_date y' m' d')) [
    | inl q ↦ absurd (ground arith)
    | inr (b, q) ↦
        let (good, same) = make_date_sound y m d a e in
        let (good', same') = make_date_sound y' m' d' b q in
        let start : r.start ≡ a = ground arith in
        let end : r.end ≡ b = ground arith in
        record {
          start = subst IsDate (sym start) good;
          end = subst IsDate (sym end) good';
          ordered =
              ap (λ t. date_leb t r.end) (start ∙ same)
              ∙ ap (λ t. date_leb (record { year = y; month = m; day = d }) t) (end ∙ same')
              ∙ o;
        }
  ]
]

date_leb_refl : (t : Date) → date_leb t t ≡ true
date_leb_refl t = ground arith

date_leb_trans : (a b c : Date) → date_leb a b ≡ true → date_leb b c ≡ true → date_leb a c ≡ true
date_leb_trans a b c h k = ground arith

-- Of two ranges with the same dates, whatever they are compared with.
pub compared_range :
    (asked : Bool) (comparison : Option (Date × Date)) (a b : Option Date) (label : PeriodLabel)
    (r : TimeRange)
    → compared asked comparison a b label ≡ some r
    → (c : Option (Date × Date)) × (range_of a b label c ≡ some r)
unfolding compared
compared_range false comparison a b label r h = (none, h)
compared_range true none a b label r h = absurd (ground arith)
compared_range true (some c) a b label r h = (some c, h)

-- A range that ends today.
pub today_range :
    (a : Date) (now : Date) (label : PeriodLabel) (c : Option (Date × Date)) (r : TimeRange)
    → range_of (some a) (some now) label c ≡ some r
    → IsDate a
    → IsDate now
    → date_leb a now ≡ true
    → IsProper r
unfolding range_of
today_range a now label c r h good good' o =
    let same : record { start = a; end = now; label = label; comparison = c } ≡ r = ground arith in
    subst IsProper same (record { start = good; end = good'; ordered = o })

pub earlier_day :
    (y m d e : ℕ)
    → d ≤ e
    → date_leb (record { year = y; month = m; day = d }) (record { year = y; month = m; day = e })
      ≡ true
earlier_day y m d e h = ground arith

pub earlier_month :
    (y m n d e : ℕ)
    → m < n
    → date_leb (record { year = y; month = m; day = d }) (record { year = y; month = n; day = e })
      ≡ true
earlier_month y m n d e h = ground arith

earlier_year :
    (y z m n d e : ℕ)
    → y < z
    → date_leb (record { year = y; month = m; day = d }) (record { year = z; month = n; day = e })
      ≡ true
earlier_year y z m n d e h = ground arith

-- A date has a year, a month and a day.
pub dated_from : (y m d : ℕ) → is_date y m d ≡ true → (1 ≤ y) × (1 ≤ m) × (1 ≤ d)
unfolding is_date
dated_from y m d h = (ground arith, ground arith, ground arith)

day_before_sound :
    (t s : Date) → day_before t ≡ some s → IsDate t → IsDate s × (date_leb s t ≡ true)
unfolding day_before
day_before_sound t s h good = elim (Bool-cases (ltb 1 t.day)) [
  | inl e ↦
      let (good', same) = make_date_sound t.year t.month (t.day - 1) s (ground arith) in
      (
        good',
        ap (λ u. date_leb u t) same ∙ earlier_day t.year t.month (t.day - 1) t.day (omega arith),
      )
  | inr e ↦ elim (Bool-cases (ltb 1 t.month)) [
    | inl q ↦
        let (good', same) =
          make_date_sound t.year (t.month - 1) (month_days t.year (t.month - 1)) s (ground arith) in
        let less = ltb→lt 1 t.month q in
        (
          good',
          ap (λ u. date_leb u t) same
              ∙ earlier_month t.year (t.month - 1) t.month (month_days t.year (t.month - 1)) t.day
                  (omega arith),
        )
    | inr q ↦
        let (good', same) = make_date_sound (t.year - 1) 12 31 s (ground arith) in
        let known = (dated_from t.year t.month t.day good).0 in
        (
          good',
          ap (λ u. date_leb u t) same
              ∙ earlier_year (t.year - 1) t.year 12 t.month 31 t.day (omega (arith, known)),
        )
  ]
]

pub days_before_sound :
    (n : ℕ) (t s : Date) → days_before n t ≡ some s → IsDate t → IsDate s × (date_leb s t ≡ true)
unfolding days_before
days_before_sound zero t s h good =
    let same : t ≡ s = ground arith in
    subst (λ u. IsDate u × (date_leb u t ≡ true)) same (good, date_leb_refl t)
days_before_sound (suc n) t s h good = elim (Option-cases (day_before t)) [
  | inl e ↦ absurd (ground arith)
  | inr (u, e) ↦
      let (good', le) = day_before_sound t u e good in
      let (good'', le') = days_before_sound n u s (ground arith) good' in
      (good'', date_leb_trans s u t le' le)
]
