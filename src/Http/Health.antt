-- ===== src/Http/Health.antt =====
-- internal/app/http/handler/health.go
use event_observability_plat.Common.{Option, none, some, [], ◌∷◌}
use event_observability_plat.Errors.{Err}
use event_observability_plat.Http.{Reply, status_map, write_json}

unfoldable pub health : Reply
unfolding write_json
health = write_json 200 (status_map (("status", "ok") ∷ []))

-- `ping` is what the database answers within three seconds.
unfoldable pub ready : Option Err → Reply
unfolding write_json
ready (some e) =
    write_json 503
      (status_map (("status", "unavailable") ∷ ("reason", "database unreachable") ∷ []))
ready none = write_json 200 (status_map (("status", "ready") ∷ []))
