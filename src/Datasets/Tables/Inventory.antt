-- ===== src/Datasets/Tables/Inventory.antt =====
-- The tables of the domain inventory in TABLES of datasets/schema/catalog.py.
use atlas_sql.Common.{List, [], ◌∷◌}
use atlas_sql.Datasets.Schema.{
  Domain, TableKind, Sensitivity, Table, column, declare, nullable, reference, time_role,
  sensitivity,
}

unfoldable pub inventory_tables : List Table
inventory_tables =
    declare Domain.inventory "fact_inventory_movement" TableKind.fact "每行一次 SKU 库存变动" "WMS"
      "occurred_at 是库存业务发生时间" "append-only"
      (("movement_type", "RECEIPT" ∷ "SALE" ∷ "RETURN" ∷ "TRANSFER" ∷ "ADJUSTMENT" ∷ []) ∷ [])
      (column "warehouse_id" "bigint" "仓库" (reference "dim_warehouse.id" ∷ [])
        ∷ column "sku_id" "bigint" "SKU" (reference "dim_sku.id" ∷ [])
        ∷ column "movement_type" "varchar(24)" "变动类型" []
        ∷ column "quantity_delta" "numeric(18,3)" "库存变化量" []
        ∷ column "occurred_at" "timestamptz" "发生时间" (time_role "occurred_at" ∷ [])
        ∷ column "reference_no" "varchar(40)" "来源单号" (sensitivity Sensitivity.confidential ∷ [])
        ∷ [])
    ∷ declare Domain.inventory "fact_inventory_snapshot" TableKind.snapshot "每行一个日末仓库 SKU 快照" "WMS"
        "snapshot_date 是日末快照日期" "daily snapshot" []
        (column "snapshot_date" "date" "快照日期" (time_role "snapshot_date" ∷ [])
          ∷ column "warehouse_id" "bigint" "仓库" (reference "dim_warehouse.id" ∷ [])
          ∷ column "sku_id" "bigint" "SKU" (reference "dim_sku.id" ∷ [])
          ∷ column "on_hand_quantity" "numeric(18,3)" "在手库存" []
          ∷ column "reserved_quantity" "numeric(18,3)" "预占库存" []
          ∷ column "available_quantity" "numeric(18,3)" "可用库存" []
          ∷ [])
    ∷ declare Domain.inventory "fact_stocktake" TableKind.fact "每行一次盘点任务" "WMS" "counted_at 是盘点完成时间"
        "append-only with status updates"
        (("stocktake_status", "PLANNED" ∷ "COUNTING" ∷ "COMPLETED" ∷ "CANCELLED" ∷ []) ∷ [])
        (column "stocktake_no" "varchar(32)" "盘点单号" []
          ∷ column "warehouse_id" "bigint" "仓库" (reference "dim_warehouse.id" ∷ [])
          ∷ column "stocktake_status" "varchar(16)" "盘点状态" []
          ∷ column "started_at" "timestamptz" "开始时间" (time_role "started_at" ∷ [])
          ∷ column "counted_at" "timestamptz" "完成时间" (nullable ∷ time_role "counted_at" ∷ [])
          ∷ [])
    ∷ declare Domain.inventory "fact_stocktake_item" TableKind.fact "每行一次盘点中的一个 SKU" "WMS"
        "继承盘点任务完成时间" "append-only" []
        (column "stocktake_id" "bigint" "盘点任务" (reference "fact_stocktake.id" ∷ [])
          ∷ column "sku_id" "bigint" "SKU" (reference "dim_sku.id" ∷ [])
          ∷ column "system_quantity" "numeric(18,3)" "账面数量" []
          ∷ column "counted_quantity" "numeric(18,3)" "实盘数量" []
          ∷ column "variance_quantity" "numeric(18,3)" "盘盈亏数量" []
          ∷ [])
    ∷ declare Domain.inventory "inventory_reservation" TableKind.fact "每行一个订单明细的库存预占" "OMS"
        "reserved_at 是预占时间" "append-only with status updates"
        (("reservation_status", "HELD" ∷ "RELEASED" ∷ "CONSUMED" ∷ "EXPIRED" ∷ []) ∷ [])
        (column "order_item_id" "bigint" "订单明细" (reference "fact_order_item.id" ∷ [])
          ∷ column "warehouse_id" "bigint" "仓库" (reference "dim_warehouse.id" ∷ [])
          ∷ column "sku_id" "bigint" "SKU" (reference "dim_sku.id" ∷ [])
          ∷ column "reserved_quantity" "numeric(18,3)" "预占数量" []
          ∷ column "reservation_status" "varchar(16)" "预占状态" []
          ∷ column "reserved_at" "timestamptz" "预占时间" (time_role "reserved_at" ∷ [])
          ∷ [])
    ∷ declare Domain.inventory "inventory_transfer" TableKind.fact "每行一张仓间调拨单" "WMS"
        "shipped_at 和 received_at 是调拨节点时间" "append-only with status updates"
        (("transfer_status", "CREATED" ∷ "SHIPPED" ∷ "RECEIVED" ∷ "CANCELLED" ∷ []) ∷ [])
        (column "transfer_no" "varchar(32)" "调拨单号" []
          ∷ column "from_warehouse_id" "bigint" "调出仓库" (reference "dim_warehouse.id" ∷ [])
          ∷ column "to_warehouse_id" "bigint" "调入仓库" (reference "dim_warehouse.id" ∷ [])
          ∷ column "transfer_status" "varchar(16)" "调拨状态" []
          ∷ column "shipped_at" "timestamptz" "发出时间" (nullable ∷ time_role "shipped_at" ∷ [])
          ∷ column "received_at" "timestamptz" "收货时间" (nullable ∷ time_role "received_at" ∷ [])
          ∷ [])
    ∷ declare Domain.inventory "inventory_transfer_item" TableKind.fact "每行一张调拨单中的一个 SKU" "WMS"
        "继承调拨单节点时间" "append-only" []
        (column "transfer_id" "bigint" "调拨单" (reference "inventory_transfer.id" ∷ [])
          ∷ column "sku_id" "bigint" "SKU" (reference "dim_sku.id" ∷ [])
          ∷ column "requested_quantity" "numeric(18,3)" "申请数量" []
          ∷ column "shipped_quantity" "numeric(18,3)" "发出数量" []
          ∷ column "received_quantity" "numeric(18,3)" "收货数量" []
          ∷ [])
    ∷ declare Domain.inventory "inventory_reorder_policy" TableKind.dimension "每行一个仓库 SKU 补货策略版本"
        "WMS" "生效区间表示策略有效期" "SCD2" []
        (column "warehouse_id" "bigint" "仓库" (reference "dim_warehouse.id" ∷ [])
          ∷ column "sku_id" "bigint" "SKU" (reference "dim_sku.id" ∷ [])
          ∷ column "reorder_point" "numeric(18,3)" "补货点" []
          ∷ column "target_stock" "numeric(18,3)" "目标库存" []
          ∷ column "lead_time_days" "integer" "补货周期天数" []
          ∷ [])
    ∷ []
