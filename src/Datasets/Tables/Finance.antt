-- ===== src/Datasets/Tables/Finance.antt =====
-- The tables of the domain finance in TABLES of datasets/schema/catalog.py.
use atlas_sql.Common.{List, [], ◌∷◌}
use atlas_sql.Datasets.Schema.{
  Domain, TableKind, Sensitivity, Table, column, declare, nullable, reference, time_role,
  sensitivity,
}

unfoldable pub finance_tables : List Table
finance_tables =
    declare Domain.finance "fact_revenue_ledger" TableKind.fact "每行一笔收入会计分录" "FIN" "posted_at 是入账时间"
      "append-only" []
      (column "order_id" "bigint" "订单" (nullable ∷ reference "fact_order.id" ∷ [])
        ∷ column "account_id" "bigint" "会计科目" (reference "dim_account.id" ∷ [])
        ∷ column "cost_center_id" "bigint" "成本中心" (reference "dim_cost_center.id" ∷ [])
        ∷ column "currency_code" "char(3)" "币种" []
        ∷ column "amount" "numeric(18,2)" "本币前金额" (sensitivity Sensitivity.confidential ∷ [])
        ∷ column "posted_at" "timestamptz" "入账时间" (time_role "posted_at" ∷ [])
        ∷ column "fiscal_period" "varchar(7)" "财务期间" []
        ∷ [])
    ∷ declare Domain.finance "fact_cost_ledger" TableKind.fact "每行一笔销售或采购成本分录" "FIN"
        "posted_at 是入账时间" "append-only" []
        (column "order_item_id" "bigint" "订单明细" (nullable ∷ reference "fact_order_item.id" ∷ [])
          ∷ column "sku_id" "bigint" "SKU" (nullable ∷ reference "dim_sku.id" ∷ [])
          ∷ column "account_id" "bigint" "会计科目" (reference "dim_account.id" ∷ [])
          ∷ column "cost_center_id" "bigint" "成本中心" (reference "dim_cost_center.id" ∷ [])
          ∷ column "amount" "numeric(18,2)" "成本金额" (sensitivity Sensitivity.restricted ∷ [])
          ∷ column "posted_at" "timestamptz" "入账时间" (time_role "posted_at" ∷ [])
          ∷ [])
    ∷ declare Domain.finance "fact_expense_ledger" TableKind.fact "每行一笔期间费用分录" "FIN"
        "posted_at 是入账时间" "append-only" []
        (column "account_id" "bigint" "会计科目" (reference "dim_account.id" ∷ [])
          ∷ column "cost_center_id" "bigint" "成本中心" (reference "dim_cost_center.id" ∷ [])
          ∷ column "campaign_id" "bigint" "关联活动" (nullable ∷ reference "dim_campaign.id" ∷ [])
          ∷ column "expense_type" "varchar(24)" "费用类型" []
          ∷ column "amount" "numeric(18,2)" "费用金额" (sensitivity Sensitivity.restricted ∷ [])
          ∷ column "posted_at" "timestamptz" "入账时间" (time_role "posted_at" ∷ [])
          ∷ [])
    ∷ declare Domain.finance "dim_account" TableKind.dimension "每行一个会计科目版本" "FIN" "生效区间表示科目有效期"
        "SCD2" (("normal_balance", "DEBIT" ∷ "CREDIT" ∷ []) ∷ [])
        (column "account_code" "varchar(24)" "科目代码" []
          ∷ column "account_name" "varchar(128)" "科目名称" []
          ∷ column "account_type" "varchar(24)" "科目类型" []
          ∷ column "parent_account_id" "bigint" "父科目" (nullable ∷ reference "dim_account.id" ∷ [])
          ∷ column "normal_balance" "varchar(8)" "余额方向" []
          ∷ [])
    ∷ declare Domain.finance "dim_cost_center" TableKind.dimension "每行一个成本中心版本" "FIN"
        "生效区间表示成本中心有效期" "SCD2" []
        (column "cost_center_code" "varchar(24)" "成本中心代码" []
          ∷ column "cost_center_name" "varchar(128)" "成本中心名称" []
          ∷ column "region_id" "bigint" "区域" (nullable ∷ reference "dim_region.id" ∷ [])
          ∷ column "store_id" "bigint" "门店" (nullable ∷ reference "dim_store.id" ∷ [])
          ∷ column "manager_employee_no" "varchar(32)" "负责人工号"
              (sensitivity Sensitivity.confidential ∷ [])
          ∷ [])
    ∷ declare Domain.finance "currency_rate_daily" TableKind.fact "每行一个日期和币种对的汇率" "FIN"
        "rate_date 是汇率适用日" "append-only versioned" []
        (column "rate_date" "date" "汇率日期" (time_role "rate_date" ∷ [])
          ∷ column "base_currency" "char(3)" "基础币种" []
          ∷ column "quote_currency" "char(3)" "报价币种" []
          ∷ column "exchange_rate" "numeric(20,8)" "汇率" []
          ∷ column "rate_source" "varchar(32)" "汇率来源" []
          ∷ [])
    ∷ declare Domain.finance "settlement_batch" TableKind.fact "每行一个渠道结算批次" "FIN"
        "settled_at 是结算确认时间" "append-only with status updates"
        (("settlement_status", "OPEN" ∷ "MATCHED" ∷ "SETTLED" ∷ "DISPUTED" ∷ []) ∷ [])
        (column "settlement_no" "varchar(40)" "结算批次号" []
          ∷ column "channel_id" "bigint" "渠道" (reference "dim_sales_channel.id" ∷ [])
          ∷ column "settlement_status" "varchar(16)" "结算状态" []
          ∷ column "period_start" "date" "结算开始日" (time_role "period_start" ∷ [])
          ∷ column "period_end" "date" "结算结束日" (time_role "period_end" ∷ [])
          ∷ column "settled_at" "timestamptz" "确认时间" (nullable ∷ time_role "settled_at" ∷ [])
          ∷ [])
    ∷ declare Domain.finance "settlement_item" TableKind.fact "每行一个结算批次中的交易" "FIN" "继承结算批次时间"
        "append-only" []
        (column "settlement_batch_id" "bigint" "结算批次" (reference "settlement_batch.id" ∷ [])
          ∷ column "payment_id" "bigint" "支付记录" (nullable ∷ reference "fact_payment.id" ∷ [])
          ∷ column "refund_id" "bigint" "退款记录" (nullable ∷ reference "fact_refund.id" ∷ [])
          ∷ column "gross_amount" "numeric(18,2)" "交易金额" (sensitivity Sensitivity.confidential ∷ [])
          ∷ column "fee_amount" "numeric(18,2)" "渠道费用" (sensitivity Sensitivity.restricted ∷ [])
          ∷ column "net_amount" "numeric(18,2)" "结算净额" (sensitivity Sensitivity.restricted ∷ [])
          ∷ [])
    ∷ []
