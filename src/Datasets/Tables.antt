-- ===== src/Datasets/Tables.antt =====
-- TABLES of datasets/schema/catalog.py, domain by domain.
pub mod Store
pub mod Product
pub mod Customer
pub mod Sales
pub mod Inventory
pub mod Finance
pub mod Marketing
use atlas_sql.Common.{List, ◌++◌}
use atlas_sql.Datasets.Schema.{Table}
use Store.{store_tables}
use Product.{product_tables}
use Customer.{customer_tables}
use Sales.{sales_tables}
use Inventory.{inventory_tables}
use Finance.{finance_tables}
use Marketing.{marketing_tables}

-- TABLES
unfoldable pub tables : List Table
unfolding store_tables product_tables customer_tables sales_tables inventory_tables finance_tables
    marketing_tables
tables =
    store_tables ++ product_tables ++ customer_tables ++ sales_tables ++ inventory_tables
    ++ finance_tables ++ marketing_tables
