-- ===== src/Auth.antt =====
-- Who may use the gateway: sessions and API keys (internal/service/auth.go), the administrator
-- (admin.go), the login throttle and the setup (internal/httpapi/auth.go).
pub mod Sessions
pub mod ApiKeys
pub mod Throttle
pub mod Handlers
