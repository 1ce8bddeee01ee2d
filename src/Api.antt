-- ===== src/Api.antt =====
-- internal/api: the authentication of the admin.
pub mod Auth
