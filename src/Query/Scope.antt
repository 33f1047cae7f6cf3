-- ===== src/Query/Scope.antt =====
-- server/domain/sales_scope.py: what a question is about, and the columns that V1 may read. A
-- frozenset is the list of its elements without repetition.
pub mod Relevance
use atlas_sql.Common.{
  String, Bool, true, false, not, ◌&&◌, ◌||◌, Option, none, some, List, [], ◌∷◌, ◌++◌, map, ◌==◌,
  string_eq, if◌then◌else◌, any, all, filter, contains, dedup, sort, text_leb, lookup,
  contains_text, is_blank,
}
use atlas_sql.Query.Types.{QueryStatus, QueryErrorCode}
use atlas_sql.Semantic.Registry.{MetricEntry, SemanticRegistry, all_metrics}

-- The columns that every table has.
abbrev base_columns : List String
base_columns =
    "id" ∷ "source_system" ∷ "effective_from" ∷ "effective_to" ∷ "is_current" ∷ "created_at"
    ∷ "updated_at" ∷ []

-- ALLOWED_COLUMNS
unfoldable pub allowed_columns : List (String × List String)
allowed_columns =
    ("dim_region", base_columns ++ "region_code" ∷ "region_name" ∷ "country_code" ∷ "status" ∷ [])
    ∷ (
      "dim_city",
      base_columns ++ "city_code" ∷ "city_name" ∷ "province_name" ∷ "region_id" ∷ "timezone" ∷ [],
    )
    ∷ (
      "dim_store",
      base_columns
          ++ "store_code" ∷ "store_name" ∷ "city_id" ∷ "store_type" ∷ "opened_on" ∷ "closed_on"
            ∷ [],
    )
    ∷ (
      "dim_sales_channel",
      base_columns
          ++ "channel_code" ∷ "channel_name" ∷ "channel_group" ∷ "is_online" ∷ "status" ∷ [],
    )
    ∷ (
      "dim_category",
      base_columns
          ++ "category_code" ∷ "category_name" ∷ "parent_category_id" ∷ "category_level"
            ∷ "path_code" ∷ [],
    )
    ∷ (
      "dim_product",
      base_columns
          ++ "product_code" ∷ "product_name" ∷ "brand_id" ∷ "primary_category_id" ∷ "product_status"
            ∷ [],
    )
    ∷ (
      "dim_sku",
      base_columns ++ "sku_code" ∷ "product_id" ∷ "color_name" ∷ "size_name" ∷ "list_price" ∷ [],
    )
    ∷ (
      "fact_order",
      base_columns
          ++ "store_id" ∷ "channel_id" ∷ "ordered_at" ∷ "paid_at" ∷ "order_status" ∷ "is_test"
            ∷ "order_amount" ∷ [],
    )
    ∷ (
      "fact_order_item",
      base_columns
          ++ "order_id" ∷ "line_no" ∷ "sku_id" ∷ "quantity" ∷ "gross_amount" ∷ "discount_amount"
            ∷ "net_amount" ∷ "tax_amount" ∷ [],
    )
    ∷ (
      "fact_payment",
      base_columns
          ++ "order_id" ∷ "payment_method" ∷ "payment_status" ∷ "paid_amount" ∷ "paid_at" ∷ [],
    )
    ∷ (
      "fact_refund",
      base_columns
          ++ "order_id" ∷ "refund_status" ∷ "requested_at" ∷ "refunded_at" ∷ "refund_amount" ∷ [],
    )
    ∷ (
      "fact_refund_item",
      base_columns
          ++ "refund_id" ∷ "order_item_id" ∷ "refund_quantity" ∷ "refund_amount" ∷ "reason_code"
            ∷ [],
    )
    ∷ (
      "order_status_history",
      base_columns
          ++ "order_id" ∷ "from_status" ∷ "to_status" ∷ "changed_at" ∷ "operator_type" ∷ [],
    )
    ∷ (
      "order_coupon_bridge",
      base_columns
          ++ "order_id" ∷ "coupon_id" ∷ "redemption_id" ∷ "allocated_discount" ∷ "applied_at" ∷ [],
    )
    ∷ (
      "sales_daily_aggregate",
      base_columns
          ++ "sales_date" ∷ "store_id" ∷ "sku_id" ∷ "paid_order_count" ∷ "sales_quantity"
            ∷ "net_sales_amount" ∷ "refund_amount" ∷ [],
    )
    ∷ []

-- _TABLE_KEYWORDS
unfoldable pub table_keywords : List (String × List String)
table_keywords =
    ("dim_region", "区域" ∷ "大区" ∷ "region" ∷ [])
    ∷ ("dim_city", "城市" ∷ "市" ∷ "province" ∷ "城区" ∷ [])
    ∷ ("dim_store", "门店" ∷ "店" ∷ "store" ∷ "旗舰店" ∷ "标准店" ∷ "奥莱" ∷ [])
    ∷ ("dim_sales_channel", "渠道" ∷ "channel" ∷ "线上" ∷ "线下" ∷ "直播" ∷ [])
    ∷ ("dim_category", "品类" ∷ "类目" ∷ "category" ∷ "品牌品类" ∷ [])
    ∷ ("dim_product", "商品" ∷ "品" ∷ "product" ∷ "SPU" ∷ "spu" ∷ [])
    ∷ ("dim_sku", "SKU" ∷ "sku" ∷ "规格" ∷ "颜色" ∷ "尺码" ∷ "单品" ∷ [])
    ∷ ("fact_order", "订单" ∷ "order" ∷ "下单" ∷ "支付" ∷ "交易" ∷ "成交" ∷ [])
    ∷ ("fact_order_item", "明细" ∷ "订单明细" ∷ "商品明细" ∷ "折扣" ∷ "优惠后" ∷ "税" ∷ [])
    ∷ ("fact_payment", "支付方式" ∷ "付款" ∷ "payment" ∷ "支付渠道" ∷ [])
    ∷ ("fact_refund", "退款" ∷ "退单" ∷ "refund" ∷ "退货" ∷ [])
    ∷ ("fact_refund_item", "退款明细" ∷ "退货原因" ∷ "退款原因" ∷ [])
    ∷ ("order_status_history", "状态变化" ∷ "状态历史" ∷ "流转" ∷ "操作记录" ∷ [])
    ∷ ("order_coupon_bridge", "优惠券" ∷ "券" ∷ "coupon" ∷ "核销" ∷ [])
    ∷ (
      "sales_daily_aggregate",
      "日销" ∷ "每日" ∷ "汇总" ∷ "聚合" ∷ "日期" ∷ "月" ∷ "周" ∷ "年" ∷ "同比" ∷ "环比" ∷ [],
    )
    ∷ []

-- _ANCHOR_TABLES
abbrev pub anchor_tables : List String
anchor_tables = "fact_order" ∷ "dim_store" ∷ []

-- any(kw in question for kw in keywords)
abbrev pub is_hit : String → List String → Bool
is_hit question keywords = any (λ kw. contains_text kw question) keywords

abbrev pub hit_tables : String → List (String × List String) → List String
hit_tables question [] = []
hit_tables question ((t, keywords) ∷ rest) =
    let later = hit_tables question rest in if is_hit question keywords then t ∷ later else later

-- The tables beyond the anchors.
unfoldable pub extra_tables : String → List String
extra_tables question =
    filter (λ t. not (contains anchor_tables t)) (hit_tables question table_keywords)

-- The whole allow list where nothing but the anchors was matched.
unfoldable pub with_fallback : List String → List String
with_fallback [] = map (λ t. t.0) allowed_columns
with_fallback (t ∷ rest) = anchor_tables ++ t ∷ rest

unfoldable pub select_relevant_tables : String → List String
unfolding extra_tables with_fallback
select_relevant_tables question = with_fallback (extra_tables question)

-- METRIC_ALIASES
unfoldable pub metric_aliases : List (String × String)
metric_aliases =
    ("净销售额", "net_sales")
    ∷ ("销售额", "net_sales")
    ∷ ("有效订单量", "paid_order_count")
    ∷ ("订单量", "paid_order_count")
    ∷ ("销量", "sales_quantity")
    ∷ ("销售数量", "sales_quantity")
    ∷ ("客单价", "average_order_value")
    ∷ ("退款金额", "refunded_amount")
    ∷ ("退款率", "refund_rate")
    ∷ ("毛利率", "gross_margin_rate")
    ∷ ("毛利额", "gross_profit")
    ∷ ("毛利", "gross_profit")
    ∷ ("新客户数", "new_customer_count")
    ∷ ("新客数", "new_customer_count")
    ∷ ("复购率", "repurchase_rate")
    ∷ ("活跃客户数", "active_customer_count")
    ∷ ("可用库存", "inventory_available_quantity")
    ∷ ("ROI", "roi")
    ∷ []

-- _AMBIGUOUS_METRIC_KEYWORDS
abbrev pub ambiguous_metric_keywords : List String
ambiguous_metric_keywords = "收入" ∷ "营收" ∷ []

pub record ScopeDecision : Type 0 where
  pub status : QueryStatus
  pub metric_ids : List String
  pub error_code : Option QueryErrorCode
  pub message : Option String

abbrev pub clarification : String
clarification = "「营收/收入」在销售域和财务域有不同口径，请明确您想查询销售额（按支付时间）还是财务入账收入。"

-- A label or a synonym that is not empty stands in the question.
abbrev pub mentions : String → String → Bool
mentions question s = not (is_blank s) && contains_text s question

abbrev pub is_mentioned : String → MetricEntry → Bool
is_mentioned question e = mentions question e.label || any (mentions question) e.synonyms

abbrev pub alias_hits : String → List (String × String) → List String
alias_hits question aliases = map (λ a. a.1) (filter (λ a. contains_text a.0 question) aliases)

-- _resolve_metric_ids: tuple(sorted(found))
unfoldable pub resolve_metric_ids : String → Option SemanticRegistry → List String
resolve_metric_ids question none = sort text_leb (dedup (alias_hits question metric_aliases))
resolve_metric_ids question (some r) =
    sort text_leb (dedup (map (λ e. e.metric_id) (filter (is_mentioned question) (all_metrics r))))

unfoldable pub assess_scope : String → Option SemanticRegistry → ScopeDecision
assess_scope question registry =
    if any (λ kw. contains_text kw question) ambiguous_metric_keywords
    then record {
      status = QueryStatus.clarification_required;
      metric_ids = [];
      error_code = some QueryErrorCode.ambiguous_metric;
      message = some clarification;
    }
    else record {
      status = QueryStatus.processing;
      metric_ids = resolve_metric_ids question registry;
      error_code = none;
      message = none;
    }

-- ALLOWED_COLUMNS.get(table_name, frozenset())
abbrev pub columns_of : String → List String
columns_of table_name = elim (lookup table_name allowed_columns) [ none ↦ [] | some cs ↦ cs ]

unfoldable pub is_allowed_column : String → String → Bool
is_allowed_column table_name column_name = contains (columns_of table_name) column_name

-- scope_as_prompt_schema: the tables and their columns, both in the order of their names.
unfoldable pub scope_as_prompt_schema : List (String × List String)
unfolding allowed_columns
scope_as_prompt_schema =
    map (λ t. (t.0, sort text_leb t.1)) (sort (λ s t. text_leb s.0 t.0) allowed_columns)
