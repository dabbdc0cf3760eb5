-- ===== src/Http.antt =====
-- The HTTP side: replies, handlers and middleware of internal/app/http.

pub mod Webhook
pub mod Health
pub mod Middleware
pub mod Server
pub mod Whole
pub mod Analytics
pub mod Dates
use event_observability_plat.Domain.{DailyEventStat}
use event_observability_plat.Common.{ℕ, String, Option, none, some, List, [], ◌∷◌, ◌++◌}

-- The JSON bodies that the handlers write with `writeJSON`.
pub data Body : Type 0 where
  error_response : String → String → Body  -- the fields Error and Code of errorResponse
  webhook_response : String → String → Body  -- EventID and TraceID of webhookResponse
  status_map : List (String × String) → Body
  stats : List DailyEventStat → Body  -- an array of dto.DailyEventStat
  raw : String → Body  -- bytes written as they are

pub record Reply : Type 0 where
  pub status : ℕ
  pub headers : List (String × String)
  pub body : Body

abbrev pub json_type : String × String
json_type = ("Content-Type", "application/json")

-- errors.go
unfoldable pub write_json : ℕ → Body → Reply
write_json status body = record { status = status; headers = json_type ∷ []; body = body }

unfoldable pub respond_error : ℕ → String → String → Reply
unfolding write_json
respond_error status code message = write_json status (error_response message code)
