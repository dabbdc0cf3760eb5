-- ===== src/Tests/Notify.antt =====
-- A notification to a server that answers.
use event_observability_plat.Common.{refl, none, some, [], pos, ltb, if◌then◌else◌, ◌≡◌}
use event_observability_plat.Breaker.{
  closed, default_breaker_config, allow, record_success, record_failure,
}
use event_observability_plat.Retry.{retryable_status, backoff}
use event_observability_plat.Client.{
  Client, Environment, whole, perform, do_once, start, conclude, loop, turn, enter, settle,
  read_answer,
}
use event_observability_plat.Notifier.{
  EventNotification, notify, notify_payload, notify_answer, delivered, IsDelivered,
  notify-IsDelivered,
}

-- The first attempt is answered 503, and the others 204.
abbrev recovering : Environment
recovering = record {
  platform = record { to_duration = λ x. pos x; draw = λ k n. 0 };
  propagated = [];
  exchange = λ k. record {
    cancelled = none;
    allow_clock = pos k;
    failure_clock = pos k;
    build_error = none;
    answer = whole (record { status_code = if ltb k 1 then 503 else 204; body = ""; headers = [] });
  };
}

abbrev client : Client
client = record {
  base_url = "http://notify";
  headers = [];
  max_retries = pos 3;
  breaker = record {
    state = closed;
    failures = 0;
    probes = 0;
    last_failure = pos 0;
    cfg = default_breaker_config;
    changes = [];
  };
  metrics = some [];
  target = "notifications-api";
}

abbrev notification : EventNotification
notification = record { event_id = "id-1"; event_type = "sale"; source = "shop" }

is_delivered : (notify recovering client "id-1" "sale" "shop").2 ≡ delivered
unfolding notify notify_payload notify_answer perform start conclude loop turn enter settle do_once
    read_answer allow record_success record_failure retryable_status backoff
is_delivered = refl

notify-IsDelivered_example :
    IsDelivered recovering client 3 refl notification
      (notify recovering client "id-1" "sale" "shop").1
notify-IsDelivered_example =
    notify-IsDelivered recovering client 3 refl "id-1" "sale" "shop" is_delivered
