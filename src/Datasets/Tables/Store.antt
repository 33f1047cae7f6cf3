-- ===== src/Datasets/Tables/Store.antt =====
-- The tables of the domain store in TABLES of datasets/schema/catalog.py.
use atlas_sql.Common.{List, [], ◌∷◌}
use atlas_sql.Datasets.Schema.{
  Domain, TableKind, Sensitivity, Table, column, declare, nullable, reference, time_role,
  sensitivity,
}

unfoldable pub store_tables : List Table
store_tables =
    declare Domain.store "dim_region" TableKind.dimension "每行一个经营区域版本" "MDM" "生效区间表示区域定义有效期" "SCD2"
      (("status", "ACTIVE" ∷ "INACTIVE" ∷ []) ∷ [])
      (column "region_code" "varchar(16)" "区域代码" []
        ∷ column "region_name" "varchar(64)" "区域名称" (sensitivity Sensitivity.public ∷ [])
        ∷ column "country_code" "char(2)" "国家代码" []
        ∷ column "manager_employee_no" "varchar(32)" "区域负责人工号"
            (sensitivity Sensitivity.confidential ∷ [])
        ∷ column "status" "varchar(16)" "区域状态" []
        ∷ [])
    ∷ declare Domain.store "dim_city" TableKind.dimension "每行一个城市版本" "MDM" "生效区间表示城市归属有效期" "SCD2" []
        (column "city_code" "varchar(16)" "城市代码" []
          ∷ column "city_name" "varchar(64)" "城市名称" []
          ∷ column "province_name" "varchar(64)" "省份名称" []
          ∷ column "region_id" "bigint" "所属区域" (reference "dim_region.id" ∷ [])
          ∷ column "timezone" "varchar(48)" "城市业务时区" []
          ∷ [])
    ∷ declare Domain.store "dim_store" TableKind.dimension "每行一个门店版本" "ERP" "生效区间表示门店属性有效期" "SCD2"
        (("store_type", "FLAGSHIP" ∷ "STANDARD" ∷ "OUTLET" ∷ []) ∷ [])
        (column "store_code" "varchar(24)" "门店代码" []
          ∷ column "store_name" "varchar(128)" "门店名称" []
          ∷ column "city_id" "bigint" "所在城市" (reference "dim_city.id" ∷ [])
          ∷ column "store_type" "varchar(24)" "门店类型" []
          ∷ column "opened_on" "date" "开店日期" (time_role "opened_on" ∷ [])
          ∷ column "closed_on" "date" "闭店日期" (nullable ∷ time_role "closed_on" ∷ [])
          ∷ [])
    ∷ declare Domain.store "dim_warehouse" TableKind.dimension "每行一个仓库版本" "WMS" "生效区间表示仓库属性有效期"
        "SCD2" []
        (column "warehouse_code" "varchar(24)" "仓库代码" []
          ∷ column "warehouse_name" "varchar(128)" "仓库名称" []
          ∷ column "city_id" "bigint" "所在城市" (reference "dim_city.id" ∷ [])
          ∷ column "warehouse_type" "varchar(24)" "仓库类型" []
          ∷ column "capacity_units" "integer" "设计容量" []
          ∷ [])
    ∷ declare Domain.store "bridge_store_region_history" TableKind.bridge "每行一个门店区域归属区间" "MDM"
        "valid_from_date 是归属开始日" "bitemporal" []
        (column "store_id" "bigint" "门店" (reference "dim_store.id" ∷ [])
          ∷ column "region_id" "bigint" "区域" (reference "dim_region.id" ∷ [])
          ∷ column "valid_from_date" "date" "归属开始日" (time_role "valid_from" ∷ [])
          ∷ column "valid_to_date" "date" "归属结束日" (nullable ∷ time_role "valid_to" ∷ [])
          ∷ column "change_reason" "varchar(128)" "归属调整原因" (nullable ∷ [])
          ∷ [])
    ∷ declare Domain.store "dim_sales_channel" TableKind.dimension "每行一个销售渠道版本" "MDM"
        "生效区间表示渠道定义有效期" "SCD2" (("status", "ACTIVE" ∷ "INACTIVE" ∷ []) ∷ [])
        (column "channel_code" "varchar(16)" "渠道代码" []
          ∷ column "channel_name" "varchar(64)" "渠道名称" []
          ∷ column "channel_group" "varchar(32)" "渠道分组" []
          ∷ column "is_online" "boolean" "是否线上渠道" []
          ∷ column "status" "varchar(16)" "渠道状态" []
          ∷ [])
    ∷ declare Domain.store "store_operating_calendar" TableKind.fact "每行一个门店营业日" "ERP"
        "calendar_date 是营业日期" "append-only" []
        (column "store_id" "bigint" "门店" (reference "dim_store.id" ∷ [])
          ∷ column "calendar_date" "date" "营业日期" (time_role "business_date" ∷ [])
          ∷ column "is_open" "boolean" "是否营业" []
          ∷ column "open_time" "time" "开门时间" (nullable ∷ [])
          ∷ column "close_time" "time" "关门时间" (nullable ∷ [])
          ∷ column "holiday_name" "varchar(64)" "节假日名称" (nullable ∷ [])
          ∷ [])
    ∷ declare Domain.store "store_target" TableKind.fact "每行一个门店、指标和月份的目标" "FP&A"
        "target_month 是目标月份" "versioned" []
        (column "store_id" "bigint" "门店" (reference "dim_store.id" ∷ [])
          ∷ column "target_month" "date" "目标月份" (time_role "target_month" ∷ [])
          ∷ column "metric_code" "varchar(32)" "目标指标代码" []
          ∷ column "target_value" "numeric(18,2)" "目标值" []
          ∷ column "approved_version" "integer" "审批版本" []
          ∷ [])
    ∷ []
