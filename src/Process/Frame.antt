-- ===== src/Process/Frame.antt =====
-- What the use case leaves alone, whatever fails: the queue, the idempotency keys and the counters.
use event_observability_plat.Common.{◌≡◌, arith, String, Option, none, some, List}
use event_observability_plat.Errors.{Err, Result, ok, err}
use event_observability_plat.Domain.{EventStatus, Event, Entry, EventMessage}
use event_observability_plat.Runtime.{World, Machine, M, Message, Count, call, now}
use event_observability_plat.Runtime.Keeps.{Keeps, keeps_rules}
use event_observability_plat.Storage.Events.{
  find_by_id, find_answer, update_status, update_answer, processed_time, increment_retry,
}
use event_observability_plat.Storage.Analytics.{
  write_event, batch_answer, append_answer, send_answer,
}
use event_observability_plat.Process.{
  ProcessEvent, handle_failure, write_analytics, after_mark, after_find, execute,
}

pub record Frame (sent : List Message) (keys : List (String × Entry)) (counts : List Count)
    (w : World) : Type 0 where
  pub sent_kept : w.sent ≡ sent
  pub keys_kept : w.keys ≡ keys
  pub counts_kept : w.counts ≡ counts

module _ (sent : List Message) (keys : List (String × Entry)) (counts : List Count) where
  abbrev Framed : {A : Type 0} → M A → Type 0
  Framed a = Keeps (Frame sent keys counts) a

  module _ (m : Machine) where
    find-Frame : (id : String) → Framed (find_by_id m id)
    unfolding find_by_id find_answer call
    find-Frame id = record { at = λ w h. ground arith }

    update-Frame : (id : String) (s : EventStatus) → Framed (update_status m id s)
    unfolding update_status update_answer processed_time call now
    update-Frame id s = record { at = λ w h. ground arith }

    increment-Frame : (id : String) → Framed (increment_retry m id)
    unfolding increment_retry update_answer call
    increment-Frame id = record { at = λ w h. ground arith }

    write-Frame : (e : Event) → Framed (write_event m e)
    unfolding write_event batch_answer append_answer send_answer call now
    write-Frame e = record { at = λ w h. ground arith }

  module _ (m : Machine) (uc : ProcessEvent) (msg : EventMessage) where
    failure-Frame : (cause : Err) → Framed (handle_failure m uc msg cause)
    unfolding handle_failure
    failure-Frame cause = search (keeps_rules, increment-Frame, update-Frame)

    analytics-Frame : (e : Event) → Framed (write_analytics m uc e)
    unfolding write_analytics
    analytics-Frame e = search (keeps_rules, write-Frame)

    mark-Frame : (e : Event) (fault : Option Err) → Framed (after_mark m uc msg e fault)
    unfolding after_mark
    mark-Frame e (some cause) = failure-Frame cause
    mark-Frame e none = search (keeps_rules, analytics-Frame, update-Frame)

    find-then-Frame : (found : Result Event) → Framed (after_find m uc msg found)
    unfolding after_find
    find-then-Frame (err cause) = search (keeps_rules, failure-Frame)
    find-then-Frame (ok e) = search (keeps_rules, update-Frame, mark-Frame)

    pub execute-Frame : Framed (execute m uc msg)
    unfolding execute
    execute-Frame = search (keeps_rules, find-Frame, find-then-Frame)
