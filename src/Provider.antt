-- ===== src/Provider.antt =====
-- internal/provider: what the gateway knows about requests and streams.
pub mod Effort
pub mod Stream
pub mod Sse
pub mod Usage
pub mod Json
pub mod Body
pub mod Client
