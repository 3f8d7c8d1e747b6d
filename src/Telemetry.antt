-- ===== src/Telemetry.antt =====
-- internal/telemetry: the rows of requests, attempts and fired prompt rules (internal/store/schema.go), and the records
-- that monitoring shows (internal/telemetry/monitoring.go). Times are nanoseconds.
pub mod Hub
pub mod Recorder
pub mod Monitoring
use pogu.Prelude.{ℕ, List, Option, Bool, Text}
use pogu.Gateway.Errors.{ErrorCategory}
use pogu.Provider.Usage.{TokenUsage}

pub data RequestStatus : Type 0 where
  in_progress success error : RequestStatus

-- telemetry_requests; error_category is NULL until the request ends.
pub record RequestRow : Type 0 where
  pub id : Text
  pub protocol : Text
  pub public_model : Text
  pub resolved_model : Option Text
  pub served_model : Option Text
  pub group_id : Option ℕ
  pub group_name : Option Text
  pub streaming : Bool
  pub client_key_id : Option ℕ
  pub client_key_name : Option Text
  pub status : RequestStatus
  pub http_status : Option ℕ
  pub error_category : Option ErrorCategory
  pub started_at : ℕ
  pub completed_at : Option ℕ
  pub duration_ms : Option ℕ
  pub ttft_ms : Option ℕ
  pub upstream_ms : Option ℕ
  pub usage : TokenUsage

-- telemetry_attempts
pub record AttemptRow : Type 0 where
  pub request_id : Text
  pub number : ℕ
  pub provider_id : Option ℕ
  pub provider_name : Text
  pub provider_prefix : Text
  pub provider_type : Text
  pub model_id : Option ℕ
  pub upstream_model : Text
  pub credential_id : Option ℕ
  pub started_at : ℕ
  pub completed_at : Option ℕ
  pub duration_ms : Option ℕ
  pub http_status : Option ℕ
  pub success : Bool
  pub error_category : Option ErrorCategory
  pub usage : TokenUsage

pub record PromptRuleRef : Type 0 where
  pub rule_id : ℕ
  pub rule_name : Text

-- telemetry_prompt_rules
pub record PromptRow : Type 0 where
  pub request_id : Text
  pub position : ℕ
  pub rule_id : Option ℕ
  pub rule_name : Text

pub record AttemptView : Type 0 where
  pub number : ℕ
  pub provider_name : Text
  pub provider_prefix : Text
  pub provider_type : Text
  pub upstream_model : Text
  pub credential_id : Option ℕ
  pub http_status : Option ℕ
  pub success : Bool
  pub error_category : ErrorCategory
  pub duration_ms : Option ℕ
  pub usage : TokenUsage

pub record MonitoringRecord : Type 0 where
  pub request_id : Text
  pub protocol : Text
  pub ts : ℕ
  pub key_id : Option ℕ
  pub key_name : Option Text
  pub model : Text
  pub resolved_model : Option Text
  pub served_model : Option Text
  pub group_id : Option ℕ
  pub group_name : Option Text
  pub provider : Text
  pub status : Option ℕ
  pub error : ErrorCategory
  pub cancelled : Bool
  pub stream : Bool
  pub usage : TokenUsage
  pub latency_ms : Option ℕ
  pub ttft_ms : Option ℕ
  pub upstream_ms : Option ℕ
  pub attempts : List AttemptView
  pub prompt_rules : List PromptRuleRef
