-- ===== src/Service.antt =====
-- internal/service: the routing state and its operations.
pub mod RoundRobin
pub mod Types
pub mod Validate
pub mod Routing
pub mod PromptRules
pub mod Groups
pub mod Models
pub mod Keys
pub mod Live
pub mod KeyNames
pub mod Import
pub mod Providers
pub mod Settings
