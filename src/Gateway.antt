-- ===== src/Gateway.antt =====
-- internal/httpapi/gateway.go, gateway_telemetry.go and errors.go: the attempts of one request.
pub mod Errors
pub mod Attempts
pub mod Prompts
pub mod Request
