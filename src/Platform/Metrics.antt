-- ===== src/Platform/Metrics.antt =====
-- internal/platform/metrics/metrics.go: the collectors that `New` registers. The collectors of the Go
-- runtime and of the process are left out. What the program counts is the data type `Count` of Runtime;
-- `WithLabelValues` takes any label there, and panics in fact on one that is not valid UTF-8.
use event_observability_plat.Common.{
  ◌≡◌, refl, String, Bool, false, str_eq, List, [], ◌∷◌, join, ◌||◌,
}

pub data Kind : Type 0 where
  counter histogram gauge : Kind

-- A collector; the namespace is always "platform".
pub record Collector : Type 0 where
  pub kind : Kind
  pub subsystem : String
  pub name : String
  pub labels : List String

-- `prometheus.BuildFQName`
unfoldable pub full_name : Collector → String
full_name c = join "_" ("platform" ∷ c.subsystem ∷ c.name ∷ [])

abbrev pub http_requests_total : Collector
http_requests_total = record {
  kind = counter;
  subsystem = "http";
  name = "requests_total";
  labels = "method" ∷ "path" ∷ "status" ∷ [];
}

abbrev pub http_request_duration : Collector
http_request_duration = record {
  kind = histogram;
  subsystem = "http";
  name = "request_duration_seconds";
  labels = "method" ∷ "path" ∷ [];
}

abbrev pub events_processed_total : Collector
events_processed_total = record {
  kind = counter;
  subsystem = "events";
  name = "processed_total";
  labels = "source" ∷ "status" ∷ [];
}

abbrev pub events_failed_total : Collector
events_failed_total = record {
  kind = counter;
  subsystem = "events";
  name = "failed_total";
  labels = "source" ∷ "reason" ∷ [];
}

abbrev pub events_duplicate_total : Collector
events_duplicate_total = record {
  kind = counter;
  subsystem = "events";
  name = "duplicate_total";
  labels = [];
}

abbrev pub outbound_requests_total : Collector
outbound_requests_total = record {
  kind = counter;
  subsystem = "http";
  name = "outbound_requests_total";
  labels = "target" ∷ "method" ∷ "status" ∷ [];
}

abbrev pub queue_lag_messages : Collector
queue_lag_messages = record {
  kind = gauge;
  subsystem = "queue";
  name = "lag_messages";
  labels = "topic" ∷ [];
}

-- What `New` registers; `registered` says that no two have one name.
abbrev pub collectors : List Collector
collectors =
    http_requests_total ∷ http_request_duration ∷ events_processed_total ∷ events_failed_total
    ∷ events_duplicate_total ∷ queue_lag_messages ∷ outbound_requests_total ∷ []

unfoldable pub is_name_of : List Collector → String → Bool
unfolding full_name
is_name_of [] name = false
is_name_of (c ∷ cs) name = str_eq (full_name c) name || is_name_of cs name

-- No two collectors have one name: at such a one `MustRegister` panics.
abbrev pub HasDistinctNames : List Collector → Type 0
HasDistinctNames [] = Unit
HasDistinctNames (c ∷ cs) = (is_name_of cs (full_name c) ≡ false) × HasDistinctNames cs

registered : HasDistinctNames collectors
unfolding is_name_of full_name join
registered = (refl, (refl, (refl, (refl, (refl, (refl, (refl, tt)))))))
