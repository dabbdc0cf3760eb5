-- ===== src/Domain.antt =====
-- The data model of internal/core/domain, internal/core/dto and internal/core/service.
-- An instant is a number of nanoseconds from the Unix epoch, and bytes are text.
use event_observability_plat.Common.{ℕ, String, Bool, true, false, Option, ℤ, ◌+ℤ◌, ltb_ℤ}

pub data EventStatus : Type 0 where
  pending processing processed failed : EventStatus

-- The text that is stored for a status.
unfoldable pub status_text : EventStatus → String
status_text pending = "pending"
status_text processing = "processing"
status_text processed = "processed"
status_text failed = "failed"

abbrev pub is_pending : EventStatus → Bool
is_pending pending = true
is_pending _ = false

abbrev pub is_processed : EventStatus → Bool
is_processed processed = true
is_processed _ = false

abbrev pub is_failed : EventStatus → Bool
is_failed failed = true
is_failed _ = false

pub record Event : Type 0 where
  pub id : String
  pub idempotency_key : String
  pub source : String
  pub event_type : String
  pub payload : String
  pub status : EventStatus
  pub retry_count : ℕ
  pub created_at : ℤ
  pub processed_at : Option ℤ

-- dto.EventMessage: the payload of the events topic.
pub record EventMessage : Type 0 where
  pub event_id : String
  pub attempt : ℤ

-- dto.Entry
pub record Entry : Type 0 where
  pub event_id : String
  pub response : String
  pub expires_at : ℤ

-- `Entry.IsExpired` at the instant that `time.Now()` reads.
unfoldable pub is_expired : Entry → ℤ → Bool
is_expired e now = ltb_ℤ e.expires_at now

-- `service.TTL` at the instant that `time.Now()` reads.
unfoldable pub ttl : ℤ → ℤ → ℤ
ttl now d = now +ℤ d

-- dto.DailyEventStat
pub record DailyEventStat : Type 0 where
  pub date : ℤ
  pub source : String
  pub event_type : String
  pub event_count : ℕ
