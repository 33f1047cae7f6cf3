-- ===== src/Datasets/Tables/Marketing.antt =====
-- The tables of the domain marketing in TABLES of datasets/schema/catalog.py.
use atlas_sql.Common.{List, [], ◌∷◌}
use atlas_sql.Datasets.Schema.{
  Domain, TableKind, Sensitivity, Table, column, declare, nullable, reference, time_role,
  sensitivity,
}

unfoldable pub marketing_tables : List Table
marketing_tables =
    declare Domain.marketing "dim_campaign" TableKind.dimension "每行一个营销活动版本" "MKT"
      "start_at/end_at 是活动计划时间" "SCD2"
      (("campaign_status", "DRAFT" ∷ "ACTIVE" ∷ "ENDED" ∷ "CANCELLED" ∷ []) ∷ [])
      (column "campaign_code" "varchar(24)" "活动代码" []
        ∷ column "campaign_name" "varchar(128)" "活动名称" []
        ∷ column "channel_id" "bigint" "主渠道" (reference "dim_marketing_channel.id" ∷ [])
        ∷ column "campaign_status" "varchar(16)" "活动状态" []
        ∷ column "start_at" "timestamptz" "开始时间" (time_role "start_at" ∷ [])
        ∷ column "end_at" "timestamptz" "结束时间" (time_role "end_at" ∷ [])
        ∷ [])
    ∷ declare Domain.marketing "dim_marketing_channel" TableKind.dimension "每行一个营销触达渠道版本" "MKT"
        "生效区间表示渠道定义有效期" "SCD2" (("status", "ACTIVE" ∷ "INACTIVE" ∷ []) ∷ [])
        (column "channel_code" "varchar(24)" "营销渠道代码" []
          ∷ column "channel_name" "varchar(64)" "营销渠道名称" []
          ∷ column "channel_type" "varchar(24)" "渠道类型" []
          ∷ column "vendor_name" "varchar(128)" "渠道供应商"
              (nullable ∷ sensitivity Sensitivity.confidential ∷ [])
          ∷ column "status" "varchar(16)" "渠道状态" []
          ∷ [])
    ∷ declare Domain.marketing "dim_coupon" TableKind.dimension "每行一个优惠券模板版本" "MKT"
        "valid_from_at/valid_to_at 是券有效期" "SCD2"
        (("discount_type", "AMOUNT" ∷ "PERCENT" ∷ "FREE_SHIPPING" ∷ []) ∷ [])
        (column "coupon_code" "varchar(32)" "优惠券代码" []
          ∷ column "coupon_name" "varchar(128)" "优惠券名称" []
          ∷ column "discount_type" "varchar(16)" "优惠类型" []
          ∷ column "discount_value" "numeric(18,2)" "优惠值" []
          ∷ column "valid_from_at" "timestamptz" "生效时间" (time_role "valid_from" ∷ [])
          ∷ column "valid_to_at" "timestamptz" "失效时间" (time_role "valid_to" ∷ [])
          ∷ [])
    ∷ declare Domain.marketing "campaign_product_bridge" TableKind.bridge "每行一个活动与商品适用关系" "MKT"
        "生效区间表示关系有效期" "SCD2" (("inclusion_type", "INCLUDE" ∷ "EXCLUDE" ∷ []) ∷ [])
        (column "campaign_id" "bigint" "活动" (reference "dim_campaign.id" ∷ [])
          ∷ column "product_id" "bigint" "商品" (nullable ∷ reference "dim_product.id" ∷ [])
          ∷ column "category_id" "bigint" "品类" (nullable ∷ reference "dim_category.id" ∷ [])
          ∷ column "inclusion_type" "varchar(16)" "包含或排除" []
          ∷ column "priority" "integer" "匹配优先级" []
          ∷ [])
    ∷ declare Domain.marketing "campaign_customer_segment" TableKind.bridge "每行一个活动受众分群版本" "CDP"
        "generated_at 是分群计算时间" "versioned snapshot" []
        (column "campaign_id" "bigint" "活动" (reference "dim_campaign.id" ∷ [])
          ∷ column "segment_code" "varchar(32)" "分群代码" []
          ∷ column "segment_name" "varchar(128)" "分群名称" []
          ∷ column "rule_json" "jsonb" "分群规则" (sensitivity Sensitivity.confidential ∷ [])
          ∷ column "generated_at" "timestamptz" "计算时间" (time_role "generated_at" ∷ [])
          ∷ [])
    ∷ declare Domain.marketing "fact_campaign_touch" TableKind.fact "每行一次客户营销触达" "MKT"
        "touched_at 是触达时间" "append-only"
        (("touch_status", "SENT" ∷ "DELIVERED" ∷ "OPENED" ∷ "FAILED" ∷ []) ∷ [])
        (column "campaign_id" "bigint" "活动" (reference "dim_campaign.id" ∷ [])
          ∷ column "customer_id" "bigint" "客户"
              (reference "dim_customer.id" ∷ sensitivity Sensitivity.confidential ∷ [])
          ∷ column "marketing_channel_id" "bigint" "触达渠道"
              (reference "dim_marketing_channel.id" ∷ [])
          ∷ column "touch_type" "varchar(24)" "触达类型" []
          ∷ column "touch_status" "varchar(16)" "触达状态" []
          ∷ column "touched_at" "timestamptz" "触达时间" (time_role "touched_at" ∷ [])
          ∷ [])
    ∷ declare Domain.marketing "fact_coupon_redemption" TableKind.fact "每行一次优惠券核销事件" "MKT"
        "redeemed_at 是核销时间" "append-only"
        (("redemption_status", "RESERVED" ∷ "REDEEMED" ∷ "REVERSED" ∷ []) ∷ [])
        (column "coupon_id" "bigint" "优惠券" (reference "dim_coupon.id" ∷ [])
          ∷ column "customer_id" "bigint" "客户"
              (nullable ∷ reference "dim_customer.id" ∷ sensitivity Sensitivity.confidential ∷ [])
          ∷ column "order_id" "bigint" "订单" (nullable ∷ reference "fact_order.id" ∷ [])
          ∷ column "redemption_status" "varchar(16)" "核销状态" []
          ∷ column "discount_amount" "numeric(18,2)" "优惠金额" []
          ∷ column "redeemed_at" "timestamptz" "核销时间" (time_role "redeemed_at" ∷ [])
          ∷ [])
    ∷ declare Domain.marketing "fact_marketing_spend" TableKind.fact "每行一个活动、渠道和日期的投放花费" "MKT"
        "spend_date 是费用归属日" "append-only" []
        (column "campaign_id" "bigint" "活动" (reference "dim_campaign.id" ∷ [])
          ∷ column "marketing_channel_id" "bigint" "投放渠道"
              (reference "dim_marketing_channel.id" ∷ [])
          ∷ column "spend_date" "date" "费用归属日" (time_role "spend_date" ∷ [])
          ∷ column "impressions" "bigint" "曝光数" []
          ∷ column "clicks" "bigint" "点击数" []
          ∷ column "spend_amount" "numeric(18,2)" "投放金额" (sensitivity Sensitivity.restricted ∷ [])
          ∷ column "currency_code" "char(3)" "币种" []
          ∷ [])
    ∷ []
