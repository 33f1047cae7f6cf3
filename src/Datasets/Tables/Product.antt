-- ===== src/Datasets/Tables/Product.antt =====
-- The tables of the domain product in TABLES of datasets/schema/catalog.py.
use atlas_sql.Common.{List, [], ◌∷◌}
use atlas_sql.Datasets.Schema.{
  Domain, TableKind, Sensitivity, Table, column, declare, nullable, reference, time_role,
  sensitivity,
}

unfoldable pub product_tables : List Table
product_tables =
    declare Domain.product "dim_brand" TableKind.dimension "每行一个品牌版本" "PIM" "生效区间表示品牌信息有效期" "SCD2"
      (("status", "ACTIVE" ∷ "INACTIVE" ∷ []) ∷ [])
      (column "brand_code" "varchar(24)" "品牌代码" []
        ∷ column "brand_name" "varchar(128)" "品牌标准名" []
        ∷ column "brand_name_zh" "varchar(128)" "品牌中文名" (nullable ∷ [])
        ∷ column "country_code" "char(2)" "品牌国家" []
        ∷ column "status" "varchar(16)" "品牌状态" []
        ∷ [])
    ∷ declare Domain.product "dim_category" TableKind.dimension "每行一个品类版本" "PIM" "生效区间表示品类树有效期"
        "SCD2" []
        (column "category_code" "varchar(24)" "品类代码" []
          ∷ column "category_name" "varchar(128)" "品类名称" []
          ∷ column "parent_category_id" "bigint" "父品类" (nullable ∷ reference "dim_category.id" ∷ [])
          ∷ column "category_level" "smallint" "品类层级" []
          ∷ column "path_code" "varchar(256)" "品类路径代码" []
          ∷ [])
    ∷ declare Domain.product "dim_product" TableKind.dimension "每行一个 SPU 版本" "PIM" "生效区间表示商品主数据有效期"
        "SCD2" (("product_status", "DRAFT" ∷ "ACTIVE" ∷ "DISCONTINUED" ∷ []) ∷ [])
        (column "product_code" "varchar(32)" "SPU 代码" []
          ∷ column "product_name" "varchar(256)" "商品名称" []
          ∷ column "brand_id" "bigint" "品牌" (reference "dim_brand.id" ∷ [])
          ∷ column "primary_category_id" "bigint" "主品类" (reference "dim_category.id" ∷ [])
          ∷ column "product_status" "varchar(16)" "商品状态" []
          ∷ [])
    ∷ declare Domain.product "dim_sku" TableKind.dimension "每行一个 SKU 版本" "PIM" "生效区间表示 SKU 属性有效期"
        "SCD2" []
        (column "sku_code" "varchar(32)" "SKU 编码" []
          ∷ column "product_id" "bigint" "所属商品" (reference "dim_product.id" ∷ [])
          ∷ column "barcode" "varchar(32)" "条码"
              (nullable ∷ sensitivity Sensitivity.confidential ∷ [])
          ∷ column "color_name" "varchar(64)" "颜色" (nullable ∷ [])
          ∷ column "size_name" "varchar(64)" "规格" (nullable ∷ [])
          ∷ column "list_price" "numeric(18,2)" "建议零售价" []
          ∷ [])
    ∷ declare Domain.product "product_category_history" TableKind.history "每行一个商品品类归属区间" "PIM"
        "valid_from_date 是归属开始日" "bitemporal" []
        (column "product_id" "bigint" "商品" (reference "dim_product.id" ∷ [])
          ∷ column "category_id" "bigint" "品类" (reference "dim_category.id" ∷ [])
          ∷ column "valid_from_date" "date" "归属开始日" (time_role "valid_from" ∷ [])
          ∷ column "valid_to_date" "date" "归属结束日" (nullable ∷ time_role "valid_to" ∷ [])
          ∷ column "is_primary" "boolean" "是否主品类" []
          ∷ [])
    ∷ declare Domain.product "product_price_history" TableKind.history "每行一个 SKU、价目表和生效区间" "PIM"
        "valid_from_at 是价格生效时间" "SCD2" []
        (column "sku_id" "bigint" "SKU" (reference "dim_sku.id" ∷ [])
          ∷ column "price_list_code" "varchar(24)" "价目表代码" []
          ∷ column "currency_code" "char(3)" "币种" []
          ∷ column "unit_price" "numeric(18,2)" "单价" []
          ∷ column "valid_from_at" "timestamptz" "价格生效时间" (time_role "valid_from" ∷ [])
          ∷ column "valid_to_at" "timestamptz" "价格失效时间" (nullable ∷ time_role "valid_to" ∷ [])
          ∷ [])
    ∷ declare Domain.product "product_supplier_bridge" TableKind.bridge "每行一个 SKU 与供应商关系" "SRM"
        "生效区间表示供应关系有效期" "SCD2" []
        (column "sku_id" "bigint" "SKU" (reference "dim_sku.id" ∷ [])
          ∷ column "supplier_code" "varchar(32)" "供应商代码" (sensitivity Sensitivity.confidential ∷ [])
          ∷ column "is_primary_supplier" "boolean" "是否主供应商" []
          ∷ column "lead_time_days" "integer" "交付周期天数" []
          ∷ column "purchase_unit_cost" "numeric(18,2)" "采购单位成本"
              (sensitivity Sensitivity.restricted ∷ [])
          ∷ [])
    ∷ declare Domain.product "product_attribute_value" TableKind.bridge "每行一个商品属性值" "PIM"
        "生效区间表示属性有效期" "SCD2" []
        (column "product_id" "bigint" "商品" (reference "dim_product.id" ∷ [])
          ∷ column "attribute_code" "varchar(32)" "属性代码" []
          ∷ column "attribute_name" "varchar(64)" "属性名称" []
          ∷ column "attribute_value" "varchar(256)" "属性值" []
          ∷ column "value_unit" "varchar(24)" "属性单位" (nullable ∷ [])
          ∷ [])
    ∷ []
