-- ===== src/Datasets/Tables/Sales.antt =====
-- The tables of the domain sales in TABLES of datasets/schema/catalog.py.
use atlas_sql.Common.{List, [], ◌∷◌}
use atlas_sql.Datasets.Schema.{
  Domain, TableKind, Sensitivity, Table, column, declare, nullable, reference, time_role,
  sensitivity,
}

unfoldable pub sales_tables : List Table
sales_tables =
    declare Domain.sales "fact_order" TableKind.fact "每行一张订单" "OMS"
      "ordered_at 是下单时间，paid_at 是支付完成时间" "append-only with status updates"
      (("order_status", "CREATED" ∷ "PAID" ∷ "CANCELLED" ∷ "COMPLETED" ∷ []) ∷ [])
      (column "order_no" "varchar(32)" "订单号" (sensitivity Sensitivity.confidential ∷ [])
        ∷ column "customer_id" "bigint" "客户"
            (nullable ∷ reference "dim_customer.id" ∷ sensitivity Sensitivity.confidential ∷ [])
        ∷ column "store_id" "bigint" "履约门店" (nullable ∷ reference "dim_store.id" ∷ [])
        ∷ column "channel_id" "bigint" "销售渠道" (reference "dim_sales_channel.id" ∷ [])
        ∷ column "ordered_at" "timestamptz" "下单时间" (time_role "ordered_at" ∷ [])
        ∷ column "paid_at" "timestamptz" "支付完成时间" (nullable ∷ time_role "paid_at" ∷ [])
        ∷ column "order_status" "varchar(20)" "订单状态" []
        ∷ column "is_test" "boolean" "是否测试订单" []
        ∷ column "order_amount" "numeric(18,2)" "订单应付金额" []
        ∷ [])
    ∷ declare Domain.sales "fact_order_item" TableKind.fact "每行一张订单中的一个 SKU 明细" "OMS"
        "继承订单的下单与支付时间口径" "append-only with return updates" []
        (column "order_id" "bigint" "订单" (reference "fact_order.id" ∷ [])
          ∷ column "line_no" "integer" "订单行号" []
          ∷ column "sku_id" "bigint" "SKU" (reference "dim_sku.id" ∷ [])
          ∷ column "quantity" "numeric(18,3)" "销售数量" []
          ∷ column "gross_amount" "numeric(18,2)" "优惠前金额" []
          ∷ column "discount_amount" "numeric(18,2)" "优惠金额" []
          ∷ column "net_amount" "numeric(18,2)" "优惠后明细金额" []
          ∷ column "tax_amount" "numeric(18,2)" "税额" []
          ∷ [])
    ∷ declare Domain.sales "fact_payment" TableKind.fact "每行一次支付尝试" "PAY" "paid_at 是支付渠道确认时间"
        "append-only"
        (("payment_status", "PENDING" ∷ "SUCCEEDED" ∷ "FAILED" ∷ "REVERSED" ∷ []) ∷ [])
        (column "order_id" "bigint" "订单" (reference "fact_order.id" ∷ [])
          ∷ column "payment_no" "varchar(40)" "支付单号" (sensitivity Sensitivity.confidential ∷ [])
          ∷ column "payment_method" "varchar(24)" "支付方式" []
          ∷ column "payment_status" "varchar(16)" "支付状态" []
          ∷ column "paid_amount" "numeric(18,2)" "支付金额" []
          ∷ column "paid_at" "timestamptz" "支付时间" (nullable ∷ time_role "paid_at" ∷ [])
          ∷ [])
    ∷ declare Domain.sales "fact_refund" TableKind.fact "每行一次退款申请" "OMS" "refunded_at 是退款到账时间"
        "append-only with status updates"
        (("refund_status", "REQUESTED" ∷ "APPROVED" ∷ "REFUNDED" ∷ "REJECTED" ∷ []) ∷ [])
        (column "order_id" "bigint" "原订单" (reference "fact_order.id" ∷ [])
          ∷ column "refund_no" "varchar(40)" "退款单号" (sensitivity Sensitivity.confidential ∷ [])
          ∷ column "refund_status" "varchar(16)" "退款状态" []
          ∷ column "requested_at" "timestamptz" "申请时间" (time_role "requested_at" ∷ [])
          ∷ column "refunded_at" "timestamptz" "到账时间" (nullable ∷ time_role "refunded_at" ∷ [])
          ∷ column "refund_amount" "numeric(18,2)" "退款总金额" []
          ∷ [])
    ∷ declare Domain.sales "fact_refund_item" TableKind.fact "每行一次退款中的一个订单明细" "OMS" "继承退款单的申请与到账时间"
        "append-only" []
        (column "refund_id" "bigint" "退款单" (reference "fact_refund.id" ∷ [])
          ∷ column "order_item_id" "bigint" "原订单明细" (reference "fact_order_item.id" ∷ [])
          ∷ column "refund_quantity" "numeric(18,3)" "退款数量" []
          ∷ column "refund_amount" "numeric(18,2)" "明细退款金额" []
          ∷ column "reason_code" "varchar(24)" "退款原因代码" []
          ∷ [])
    ∷ declare Domain.sales "order_status_history" TableKind.history "每行一次订单状态变化" "OMS"
        "changed_at 是状态变化时间" "append-only" []
        (column "order_id" "bigint" "订单" (reference "fact_order.id" ∷ [])
          ∷ column "from_status" "varchar(20)" "原状态" (nullable ∷ [])
          ∷ column "to_status" "varchar(20)" "新状态" []
          ∷ column "changed_at" "timestamptz" "状态变化时间" (time_role "changed_at" ∷ [])
          ∷ column "operator_type" "varchar(16)" "变更主体" []
          ∷ [])
    ∷ declare Domain.sales "order_coupon_bridge" TableKind.bridge "每行一张订单使用的一张优惠券" "OMS"
        "applied_at 是优惠券应用时间" "append-only" []
        (column "order_id" "bigint" "订单" (reference "fact_order.id" ∷ [])
          ∷ column "coupon_id" "bigint" "优惠券" (reference "dim_coupon.id" ∷ [])
          ∷ column "redemption_id" "bigint" "核销记录"
              (nullable ∷ reference "fact_coupon_redemption.id" ∷ [])
          ∷ column "allocated_discount" "numeric(18,2)" "分摊优惠金额" []
          ∷ column "applied_at" "timestamptz" "应用时间" (time_role "applied_at" ∷ [])
          ∷ [])
    ∷ declare Domain.sales "sales_daily_aggregate" TableKind.aggregate "每行一个日期、门店和 SKU 的销售汇总" "DWH"
        "sales_date 是汇总业务日" "rebuildable" []
        (column "sales_date" "date" "销售日期" (time_role "business_date" ∷ [])
          ∷ column "store_id" "bigint" "门店" (reference "dim_store.id" ∷ [])
          ∷ column "sku_id" "bigint" "SKU" (reference "dim_sku.id" ∷ [])
          ∷ column "paid_order_count" "integer" "有效订单数" []
          ∷ column "sales_quantity" "numeric(18,3)" "销售数量" []
          ∷ column "net_sales_amount" "numeric(18,2)" "净销售额" []
          ∷ column "refund_amount" "numeric(18,2)" "退款金额" []
          ∷ [])
    ∷ []
