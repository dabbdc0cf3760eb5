-- ===== src/Concurrent/Growth/Calls.antt =====
-- However requests and messages interleave, nothing is taken back.
use event_observability_plat.Common.{
  ◌≡◌, false, refl, arith, String, Bool-cases, ◌==◌, inl, inr, Option, none, some, [], ℤ,
}
use event_observability_plat.Errors.{Err}
use event_observability_plat.Domain.{is_pending, EventStatus, Event, Entry}
use event_observability_plat.Runtime.{
  World, Machine, Count, count, LogRow, Message, call, now, new_uuid,
}
use event_observability_plat.Runtime.Keeps.{Keeps, keeps_rules}
use event_observability_plat.Storage.Events.{
  find_row, is_some, rows_affected, insert, find_by_id, update_status, increment_retry,
  insert_answer, update_answer, find_answer, processed_time, with_status, with_retry,
}
use event_observability_plat.Storage.Idempotency.{
  find_key, insert_key, get_answer, set_answer, get, set,
}
use event_observability_plat.Storage.Analytics.{
  write_event, batch_answer, append_answer, send_answer,
}
use event_observability_plat.Messaging.{publish, publish_answer}
use event_observability_plat.Concurrent.Steps.{State, state, Steps}
use event_observability_plat.Concurrent.Parts.{CallsKeep, Steps-kept}
use event_observability_plat.Concurrent.Growth.{
  StaysEvent, Extends, StayRows-append, StayRows-update, Grows-append, Extends-refl,
}

module _ (w₀ : World) where
  call-Keeps : (m : Machine) → Keeps (Extends w₀) (call m)
  unfolding call
  call-Keeps m = record { at = λ w h. h }

  now-Keeps : (m : Machine) → Keeps (Extends w₀) (now m)
  unfolding now
  now-Keeps m = record { at = λ w h. h }

  new_uuid-Keeps : (m : Machine) → Keeps (Extends w₀) (new_uuid m)
  unfolding new_uuid
  new_uuid-Keeps m = record { at = λ w h. h }

  insert_answer-Keeps :
      (e : Event) (fault : Option Err) → Keeps (Extends w₀) (insert_answer e fault)
  unfolding insert_answer
  insert_answer-Keeps e (some x) = record { at = λ w h. h }
  insert_answer-Keeps e none = record {
    at = λ w h. elim (Bool-cases (is_some (find_row e.id w.events))) [
      | inl taken ↦ rw taken h
      | inr free ↦ rw free (
          let (events, keys, log, sent, counts) = h in
          (StayRows-append w₀.events w.events e events, keys, log, sent, counts))
    ];
  }

  pub insert-Keeps : (m : Machine) (e : Event) → Keeps (Extends w₀) (insert m e)
  unfolding insert
  insert-Keeps m e = search (keeps_rules, call-Keeps, insert_answer-Keeps)

  find_answer-Keeps : (id : String) (fault : Option Err) → Keeps (Extends w₀) (find_answer id fault)
  unfolding find_answer
  find_answer-Keeps id (some x) = record { at = λ w h. h }
  find_answer-Keeps id none = record { at = λ w h. h }

  find-Keeps : (m : Machine) (id : String) → Keeps (Extends w₀) (find_by_id m id)
  unfolding find_by_id
  find-Keeps m id = search (keeps_rules, call-Keeps, find_answer-Keeps)

  update_answer-Keeps :
      (what id : String) (f : Event → Event)
      → ((e : Event) → StaysEvent e (f e))
      → (fault : Option Err) → Keeps (Extends w₀) (update_answer what id f fault)
  unfolding update_answer
  update_answer-Keeps what id f same (some x) = record { at = λ w h. h }
  update_answer-Keeps what id f same none = record {
    at = λ w h. elim (Bool-cases (rows_affected id w.events == 0)) [
      | inl no_row ↦ rw no_row h
      | inr row ↦ rw row (
          let (events, keys, log, sent, counts) = h in
          (StayRows-update id f w₀.events w.events same events, keys, log, sent, counts))
    ];
  }

  marks :
      (s : EventStatus)
      → is_pending s ≡ false
      → (at : Option ℤ) (e : Event) → StaysEvent e (with_status s at e)
  marks s moves at e = record {
    id = refl;
    key = refl;
    source = refl;
    event_type = refl;
    payload = refl;
    created_at = refl;
    retries = omega arith;
    begun = λ p. absurd (ground (arith, moves, p));
  }

  retries_more : (e : Event) → StaysEvent e (with_retry e)
  retries_more e = record {
    id = refl;
    key = refl;
    source = refl;
    event_type = refl;
    payload = refl;
    created_at = refl;
    retries = omega arith;
    begun = λ p. p;
  }

  time-Keeps : (m : Machine) (s : EventStatus) → Keeps (Extends w₀) (processed_time m s)
  unfolding processed_time
  time-Keeps m s = search (keeps_rules, now-Keeps)

  update-Keeps :
      (m : Machine) (id : String) (s : EventStatus)
      → is_pending s ≡ false
      → Keeps (Extends w₀) (update_status m id s)
  unfolding update_status
  update-Keeps m id s moves =
      let marked = marks s moves in
      search (keeps_rules, time-Keeps, call-Keeps, update_answer-Keeps, marked)

  increment-Keeps : (m : Machine) (id : String) → Keeps (Extends w₀) (increment_retry m id)
  unfolding increment_retry
  increment-Keeps m id = search (keeps_rules, call-Keeps, update_answer-Keeps, retries_more)

  get_answer-Keeps :
      (key : String) (t : ℤ) (fault : Option Err) → Keeps (Extends w₀) (get_answer key t fault)
  unfolding get_answer
  get_answer-Keeps key t (some x) = record { at = λ w h. h }
  get_answer-Keeps key t none = record { at = λ w h. h }

  get-Keeps : (m : Machine) (key : String) → Keeps (Extends w₀) (get m key)
  unfolding get
  get-Keeps m key = search (keeps_rules, now-Keeps, call-Keeps, get_answer-Keeps)

  set_answer-Keeps :
      (key : String) (e : Entry) (fault : Option Err) → Keeps (Extends w₀) (set_answer key e fault)
  unfolding set_answer insert_key
  set_answer-Keeps key e (some x) = record { at = λ w h. h }
  set_answer-Keeps key e none = record {
    at = λ w h. elim (Bool-cases (is_some (find_key key w.keys))) [
      | inl there ↦ rw (there, set_answer, insert_key) h
      | inr new ↦ elim (Bool-cases (is_some (find_row e.event_id w.events))) [
        | inr missing ↦ rw (new, missing, set_answer, insert_key) h
        | inl stored ↦
            rw (new, stored, set_answer, insert_key)
              (let (events, keys, log, sent, counts) = h in
                (events, Grows-append w₀.keys w.keys (key, e) keys, log, sent, counts))
      ]
    ];
  }

  set-Keeps : (m : Machine) (key : String) (e : Entry) → Keeps (Extends w₀) (set m key e)
  unfolding set
  set-Keeps m key e = search (keeps_rules, call-Keeps, set_answer-Keeps)

  publish_answer-Keeps :
      (x : Message) (fault : Option Err) → Keeps (Extends w₀) (publish_answer x fault)
  unfolding publish_answer
  publish_answer-Keeps x (some e) = record { at = λ w h. h }
  publish_answer-Keeps x none = record {
    at = λ w h.
        let (events, keys, log, sent, counts) = h in
        (events, keys, log, Grows-append w₀.sent w.sent x sent, counts);
  }

  publish-Keeps :
      (m : Machine) (topic key value : String) → Keeps (Extends w₀) (publish m topic key value)
  unfolding publish
  publish-Keeps m topic key value = search (keeps_rules, call-Keeps, publish_answer-Keeps)

  send-Keeps : (row : LogRow) (fault : Option Err) → Keeps (Extends w₀) (send_answer row fault)
  unfolding send_answer
  send-Keeps row (some x) = record { at = λ w h. h }
  send-Keeps row none = record {
    at = λ w h.
        let (events, keys, log, sent, counts) = h in
        (events, keys, Grows-append w₀.log w.log row log, sent, counts);
  }

  append-Keeps :
      (m : Machine) (row : LogRow) (fault : Option Err)
      → Keeps (Extends w₀) (append_answer m row fault)
  unfolding append_answer
  append-Keeps m row (some x) = search keeps_rules
  append-Keeps m row none = search (keeps_rules, call-Keeps, send-Keeps)

  batch-Keeps :
      (m : Machine) (row : LogRow) (fault : Option Err)
      → Keeps (Extends w₀) (batch_answer m row fault)
  unfolding batch_answer
  batch-Keeps m row (some x) = search keeps_rules
  batch-Keeps m row none = search (keeps_rules, call-Keeps, append-Keeps)

  write-Keeps : (m : Machine) (e : Event) → Keeps (Extends w₀) (write_event m e)
  unfolding write_event
  write-Keeps m e = search (keeps_rules, now-Keeps, call-Keeps, batch-Keeps)

  count-Keeps : (c : Count) → Keeps (Extends w₀) (count c)
  count-Keeps c = record {
    at = λ w h.
        let (events, keys, log, sent, counts) = h in
        (events, keys, log, sent, Grows-append w₀.counts w.counts c counts);
  }

  pub calls_keep-Extends : CallsKeep (Extends w₀)
  calls_keep-Extends = record {
    now_kept = now-Keeps;
    new_uuid_kept = new_uuid-Keeps;
    insert_kept = λ m e p n. insert-Keeps m e;
    find_kept = find-Keeps;
    update_kept = update-Keeps;
    increment_kept = increment-Keeps;
    get_kept = get-Keeps;
    set_kept = set-Keeps;
    publish_kept = publish-Keeps;
    write_kept = write-Keeps;
    count_kept = count-Keeps;
  }

  -- Nothing that was stored is taken back, whatever requests, messages and dead letters run at once, whatever
  -- fails in them, with its effect or without it, and wherever a process ends: every event keeps its place, its
  -- id, its key, its source, its type, its payload and its time of creation, its retries are no fewer, and once
  -- it is no longer `pending` it never is again; and the idempotency keys, the rows of events_log, the queue
  -- and the counters only grow at their ends.
  pub Steps-Extends : (s : State) → Steps (state w₀ []) s → Extends w₀ s.world
  Steps-Extends s steps = Steps-kept (Extends w₀) calls_keep-Extends steps (Extends-refl w₀)
