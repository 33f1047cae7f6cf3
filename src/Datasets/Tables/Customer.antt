-- ===== src/Datasets/Tables/Customer.antt =====
-- The tables of the domain customer in TABLES of datasets/schema/catalog.py.
use atlas_sql.Common.{List, [], ◌∷◌}
use atlas_sql.Datasets.Schema.{
  Domain, TableKind, Sensitivity, Table, column, declare, nullable, reference, time_role,
  sensitivity,
}

unfoldable pub customer_tables : List Table
customer_tables =
    declare Domain.customer "dim_customer" TableKind.dimension "每行一个客户主档版本" "CRM" "生效区间表示客户属性有效期"
      "SCD2" (("status", "ACTIVE" ∷ "FROZEN" ∷ "DELETED" ∷ []) ∷ [])
      (column "customer_code" "varchar(32)" "客户代码" (sensitivity Sensitivity.confidential ∷ [])
        ∷ column "customer_name" "varchar(128)" "客户姓名" (sensitivity Sensitivity.restricted ∷ [])
        ∷ column "mobile_hash" "char(64)" "手机号哈希" (sensitivity Sensitivity.restricted ∷ [])
        ∷ column "email_hash" "char(64)" "邮箱哈希" (nullable ∷ sensitivity Sensitivity.restricted ∷ [])
        ∷ column "registered_at" "timestamptz" "注册时间" (time_role "registered_at" ∷ [])
        ∷ column "status" "varchar(16)" "客户状态" []
        ∷ [])
    ∷ declare Domain.customer "dim_membership_tier" TableKind.dimension "每行一个会员等级版本" "CRM"
        "生效区间表示等级规则有效期" "SCD2" []
        (column "tier_code" "varchar(16)" "等级代码" []
          ∷ column "tier_name" "varchar(64)" "等级名称" []
          ∷ column "minimum_points" "integer" "最低积分" []
          ∷ column "discount_rate" "numeric(8,4)" "默认折扣率" []
          ∷ column "rank_order" "smallint" "等级顺序" []
          ∷ [])
    ∷ declare Domain.customer "customer_membership_history" TableKind.history "每行一个客户会员等级区间" "CRM"
        "valid_from_at 是等级开始时间" "bitemporal" []
        (column "customer_id" "bigint" "客户"
            (reference "dim_customer.id" ∷ sensitivity Sensitivity.confidential ∷ [])
          ∷ column "tier_id" "bigint" "会员等级" (reference "dim_membership_tier.id" ∷ [])
          ∷ column "valid_from_at" "timestamptz" "等级生效时间" (time_role "valid_from" ∷ [])
          ∷ column "valid_to_at" "timestamptz" "等级失效时间" (nullable ∷ time_role "valid_to" ∷ [])
          ∷ column "change_reason" "varchar(64)" "等级变化原因" []
          ∷ [])
    ∷ declare Domain.customer "dim_customer_tag" TableKind.dimension "每行一个客户标签版本" "CDP"
        "生效区间表示标签定义有效期" "SCD2" (("status", "ACTIVE" ∷ "INACTIVE" ∷ []) ∷ [])
        (column "tag_code" "varchar(24)" "标签代码" []
          ∷ column "tag_name" "varchar(64)" "标签名称" []
          ∷ column "tag_group" "varchar(32)" "标签分组" []
          ∷ column "value_type" "varchar(16)" "标签值类型" []
          ∷ column "status" "varchar(16)" "标签状态" []
          ∷ [])
    ∷ declare Domain.customer "bridge_customer_tag" TableKind.bridge "每行一个客户标签命中区间" "CDP"
        "assigned_at 是标签命中时间" "SCD2" []
        (column "customer_id" "bigint" "客户"
            (reference "dim_customer.id" ∷ sensitivity Sensitivity.confidential ∷ [])
          ∷ column "tag_id" "bigint" "标签" (reference "dim_customer_tag.id" ∷ [])
          ∷ column "tag_value" "varchar(256)" "标签值" []
          ∷ column "assigned_at" "timestamptz" "命中时间" (time_role "assigned_at" ∷ [])
          ∷ column "expired_at" "timestamptz" "失效时间" (nullable ∷ time_role "expired_at" ∷ [])
          ∷ [])
    ∷ declare Domain.customer "customer_address" TableKind.dimension "每行一个客户地址版本" "CRM"
        "生效区间表示地址有效期" "SCD2" (("address_type", "HOME" ∷ "WORK" ∷ "SHIPPING" ∷ []) ∷ [])
        (column "customer_id" "bigint" "客户"
            (reference "dim_customer.id" ∷ sensitivity Sensitivity.confidential ∷ [])
          ∷ column "city_id" "bigint" "城市" (reference "dim_city.id" ∷ [])
          ∷ column "address_type" "varchar(16)" "地址类型" []
          ∷ column "address_text" "varchar(512)" "详细地址" (sensitivity Sensitivity.restricted ∷ [])
          ∷ column "postal_code" "varchar(16)" "邮编"
              (nullable ∷ sensitivity Sensitivity.confidential ∷ [])
          ∷ [])
    ∷ declare Domain.customer "customer_consent" TableKind.history "每行一个客户、用途和授权版本" "CRM"
        "consented_at 是授权决定时间" "append-only"
        (("consent_status", "GRANTED" ∷ "DENIED" ∷ "WITHDRAWN" ∷ []) ∷ [])
        (column "customer_id" "bigint" "客户"
            (reference "dim_customer.id" ∷ sensitivity Sensitivity.confidential ∷ [])
          ∷ column "purpose_code" "varchar(32)" "数据用途" []
          ∷ column "consent_status" "varchar(16)" "授权状态" []
          ∷ column "consented_at" "timestamptz" "决定时间" (time_role "consented_at" ∷ [])
          ∷ column "withdrawn_at" "timestamptz" "撤回时间" (nullable ∷ time_role "withdrawn_at" ∷ [])
          ∷ [])
    ∷ declare Domain.customer "customer_identity_map" TableKind.bridge "每行一个外部身份到客户的映射" "CDP"
        "linked_at 是身份绑定时间" "append-only" []
        (column "customer_id" "bigint" "客户"
            (reference "dim_customer.id" ∷ sensitivity Sensitivity.confidential ∷ [])
          ∷ column "identity_type" "varchar(24)" "身份类型" []
          ∷ column "identity_hash" "char(64)" "外部身份哈希" (sensitivity Sensitivity.restricted ∷ [])
          ∷ column "linked_at" "timestamptz" "绑定时间" (time_role "linked_at" ∷ [])
          ∷ column "confidence" "numeric(5,4)" "匹配置信度" []
          ∷ [])
    ∷ []
