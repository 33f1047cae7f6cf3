-- ===== src/Datasets/Schema.antt =====
-- datasets/schema/catalog.py: a table of the business database with its columns, and the checks of
-- a catalog. The tables themselves are in Datasets/Tables.
use atlas_sql.Common.{
  String, Bool, true, false, Option, none, some, List, [], ◌∷◌, ◌++◌, string_eq, nat_eq,
}

pub data Domain : Type 0 where
  store product customer sales inventory finance marketing : Domain

pub data TableKind : Type 0 where
  dimension fact bridge history snapshot aggregate : TableKind

pub data Sensitivity : Type 0 where
  public internal confidential restricted : Sensitivity

pub record Column : Type 0 where
  pub name : String
  pub data_type : String
  pub nullable : Bool
  pub description : String
  pub is_primary_key : Bool
  pub reference : Option String
  pub relationship_cardinality : Option String
  pub sensitivity : Sensitivity
  pub time_role : Option String

pub record Table : Type 0 where
  pub domain : Domain
  pub name : String
  pub kind : TableKind
  pub grain : String
  pub authoritative_source : String
  pub time_meaning : String
  pub history_strategy : String
  pub business_columns : List Column
  pub status_enums : List (String × List String)

-- The keyword arguments of column().
pub data Keyword : Type 0 where
  nullable is_primary_key : Keyword
  reference time_role : String → Keyword
  sensitivity : Sensitivity → Keyword

abbrev with_keyword : Keyword → Column → Column
with_keyword nullable c = record c { nullable = true }
with_keyword is_primary_key c = record c { is_primary_key = true }
with_keyword (reference r) c = record c {
  reference = some r;
  relationship_cardinality = some "many-to-one";
}
with_keyword (time_role r) c = record c { time_role = some r }
with_keyword (sensitivity s) c = record c { sensitivity = s }

abbrev pub column : String → String → String → List Keyword → Column
column name data_type description [] = record {
  name = name;
  data_type = data_type;
  nullable = false;
  description = description;
  is_primary_key = false;
  reference = none;
  relationship_cardinality = none;
  sensitivity = Sensitivity.internal;
  time_role = none;
}
column name data_type description (k ∷ ks) = with_keyword k (column name data_type description ks)

-- t()
abbrev pub declare :
    Domain
    → String
    → TableKind
    → String
    → String
    → String
    → String
    → List (String × List String)
    → List Column
    → Table
declare domain name kind grain source time_meaning strategy enums cols = record {
  domain = domain;
  name = name;
  kind = kind;
  grain = grain;
  authoritative_source = source;
  time_meaning = time_meaning;
  history_strategy = strategy;
  business_columns = cols;
  status_enums = enums;
}

-- COMMON_COLUMNS
unfoldable pub common_columns : List Column
common_columns =
    column "id" "bigint" "稳定代理主键" (is_primary_key ∷ [])
    ∷ column "tenant_id" "bigint" "租户隔离键" (sensitivity Sensitivity.confidential ∷ [])
    ∷ column "source_system" "varchar(32)" "上游系统代码" []
    ∷ column "source_record_id" "varchar(64)" "上游记录标识" (sensitivity Sensitivity.confidential ∷ [])
    ∷ column "effective_from" "date" "记录业务生效日" (time_role "valid_from" ∷ [])
    ∷ column "effective_to" "date" "记录业务失效日" (nullable ∷ time_role "valid_to" ∷ [])
    ∷ column "is_current" "boolean" "是否为当前有效版本" []
    ∷ column "created_at" "timestamptz" "数据进入业务库的时间" (time_role "ingested_at" ∷ [])
    ∷ column "updated_at" "timestamptz" "数据最近更新时间" (time_role "updated_at" ∷ [])
    ∷ []

-- Table.columns
unfoldable pub columns : Table → List Column
unfolding common_columns
columns t = common_columns ++ t.business_columns
