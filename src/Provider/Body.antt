-- ===== src/Provider/Body.antt =====
-- The translation of request and response bodies (internal/provider/common.go, translate_anthropic.go,
-- translate_responses.go, prompts.go). json.Unmarshal into a struct yields a record, none where it fails.
pub mod Chat
pub mod Blocks
pub mod ToAnthropic
pub mod ToChat
pub mod Objects
pub mod Prompts
pub mod ToResponses
pub mod FromResponses
pub mod Images
