-- ===== src/Provider/Stream.antt =====
-- The translators of streams (internal/provider/stream_anthropic.go and stream_responses.go).
pub mod Chat
pub mod FromAnthropic
pub mod FromResponses
pub mod ToAnthropic
