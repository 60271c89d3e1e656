-- ===== src/Utils.antt =====
-- backend/utils
pub mod Snowflake
