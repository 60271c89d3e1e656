-- ===== src/Admin.antt =====
-- backend/common/security, backend/database/redis.py and the parts of backend/app/admin that
-- authenticate users and decide what they may do.
pub mod Exec
pub mod Redis
pub mod Settings
pub mod Model
pub mod Tokens
pub mod Authentication
pub mod Effects
pub mod Lockout
pub mod Auth
pub mod Login
pub mod Passwords
pub mod Permissions
pub mod Rbac
pub mod DataPermission
