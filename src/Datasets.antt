-- ===== src/Datasets.antt =====
-- The data that the questions are about: datasets/schema/catalog.py and datasets/migrations.py.
pub mod Schema
pub mod Catalog
pub mod Ddl
pub mod Roles
pub mod Migrations
pub mod Tables
pub mod Exposure
mod Tests
