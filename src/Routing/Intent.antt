-- ===== src/Routing/Intent.antt =====
-- server/domain/intent.py. The label of a time range is data: one constructor for each text.
use atlas_sql.Common.{ℕ, String, Option}
use atlas_sql.Routing.Calendar.{Date}

pub data IntentType : Type 0 where
  analytical ranking comparison detail trend unknown : IntentType

pub data PeriodLabel : Type 0 where
  this_year last_year this_month last_month this_quarter last_quarter year_to_date : PeriodLabel
  first_half second_half near_days calendar_year : ℕ → PeriodLabel

pub record TimeRange : Type 0 where
  pub start : Date
  pub end : Date
  pub label : PeriodLabel
  pub comparison : Option (Date × Date)

pub record FilterCondition : Type 0 where
  pub concept : String
  pub value : String

pub record MetricMention : Type 0 where
  pub text : String
  pub resolved_metric_id : Option String

pub record DimensionMention : Type 0 where
  pub text : String
  pub resolved_table : Option String
