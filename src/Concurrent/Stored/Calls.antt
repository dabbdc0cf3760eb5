-- ===== src/Concurrent/Stored/Calls.antt =====
-- The calls of the program, by what they do to the rows and to the queue.
use mathlib.Core.Path.{subst}
use event_observability_plat.Common.{
  false, ◌≡◌, refl, sym, arith, ◌⊎◌, inl, inr, String, str_eq_iff, Option, Option-cases, none, some,
  List, [], ◌∷◌, ◌++◌, All,
}
use event_observability_plat.Errors.{Err}
use event_observability_plat.Domain.{is_pending, EventStatus, Event, Entry}
use event_observability_plat.Runtime.{World, Machine, Count, count, Message, call, now, new_uuid}
use event_observability_plat.Storage.Events.{
  insert, find_by_id, update_status, increment_retry, insert_answer, update_answer, find_answer,
  processed_time,
}
use event_observability_plat.Storage.Events.Rows.{find_row-append_new}
use event_observability_plat.Storage.Idempotency.{insert_key, get_answer, set_answer, get, set}
use event_observability_plat.Storage.Analytics.{
  write_event, batch_answer, append_answer, send_answer,
}
use event_observability_plat.Messaging.{publish, publish_answer}
use event_observability_plat.Ingest.Success.{message_of}
use event_observability_plat.Concurrent.{Task, finished, writing, ◌>>=◌}
use event_observability_plat.Concurrent.Growth.Calls.{calls_keep-Extends, insert-Keeps}
use event_observability_plat.Concurrent.Stored.{
  IsAbout, IsStored, StaysStored, HasEvent, HaveEvents, HasEvent-All, IsTame, tame, IsSafeFrom,
  HaveEvents-tame, finished-IsSafeFrom, once-IsSafeFrom, call-IsSafeFrom, write-IsSafeFrom,
  IsSafeFrom-if,
}

module _ (m : Machine) where
  pub now-IsTame : IsTame (now m)
  unfolding now
  now-IsTame = tame (now m) (λ w. (calls_keep-Extends w).now_kept m) (λ w. refl)

  pub new_uuid-IsTame : IsTame (new_uuid m)
  unfolding new_uuid
  new_uuid-IsTame = tame (new_uuid m) (λ w. (calls_keep-Extends w).new_uuid_kept m) (λ w. refl)

  pub find-IsTame : (id : String) → IsTame (find_by_id m id)
  unfolding find_by_id find_answer call
  find-IsTame id =
      tame (find_by_id m id) (λ w. (calls_keep-Extends w).find_kept m id) (λ w. ground arith)

  pub insert-IsTame : (e : Event) → IsTame (insert m e)
  unfolding insert insert_answer call
  insert-IsTame e = tame (insert m e) (λ w. insert-Keeps w m e) (λ w. ground arith)

  pub update-IsTame :
      (id : String) (s : EventStatus) → is_pending s ≡ false → IsTame (update_status m id s)
  unfolding update_status processed_time update_answer call now
  update-IsTame id s moves =
      tame (update_status m id s) (λ w. (calls_keep-Extends w).update_kept m id s moves)
        (λ w. ground arith)

  pub increment-IsTame : (id : String) → IsTame (increment_retry m id)
  unfolding increment_retry update_answer call
  increment-IsTame id =
      tame (increment_retry m id) (λ w. (calls_keep-Extends w).increment_kept m id)
        (λ w. ground arith)

  pub get-IsTame : (key : String) → IsTame (get m key)
  unfolding get get_answer call now
  get-IsTame key = tame (get m key) (λ w. (calls_keep-Extends w).get_kept m key) (λ w. ground arith)

  pub set-IsTame : (key : String) (e : Entry) → IsTame (set m key e)
  unfolding set set_answer insert_key call
  set-IsTame key e =
      tame (set m key e) (λ w. (calls_keep-Extends w).set_kept m key e) (λ w. ground arith)

  pub write-IsTame : (e : Event) → IsTame (write_event m e)
  unfolding write_event batch_answer append_answer send_answer call now
  write-IsTame e =
      tame (write_event m e) (λ w. (calls_keep-Extends w).write_kept m e) (λ w. ground arith)

  -- A row that was inserted is stored.
  pub IsStored-insert :
      (e : Event) (w : World) → (insert m e w).0 ≡ none → IsStored (insert m e w).1 e.id
  unfolding insert insert_answer call
  IsStored-insert e w h = ground (arith, find_row-append_new e e.id w.events, str_eq_iff e.id e.id)

  publish_events :
      (topic key value : String) (w : World) → (publish m topic key value w).1.events ≡ w.events
  unfolding publish publish_answer call
  publish_events topic key value w = ground arith

  publish_sent :
      (topic key value : String) (w : World)
      → ((publish m topic key value w).1.sent ≡ w.sent)
        ⊎ ((publish m topic key value w).1.sent ≡ w.sent ++ message_of m topic key value ∷ [])
  unfolding publish publish_answer call
  publish_sent topic key value w = ground arith

pub count-IsTame : (c : Count) → IsTame (count c)
count-IsTame c = tame (count c) (λ w. (calls_keep-Extends w).count_kept c) (λ w. refl)

All-append :
    (w : World) (xs : List Message) (x : Message)
    → All (HasEvent w) xs
    → HasEvent w x
    → All (HasEvent w) (xs ++ x ∷ [])
All-append w [] x a h = (h, tt)
All-append w (y ∷ xs) x a h = (a.0, All-append w xs x a.1 h)

module _ (m : Machine) (topic key value : String) where
  stays_published : (w : World) → StaysStored w (publish m topic key value w).1
  stays_published w id h = rw (publish_events m topic key value w) h

  HaveEvents-publish :
      (w : World)
      → IsStored w key
      → IsAbout key value
      → HaveEvents w
      → HaveEvents (publish m topic key value w).1
  HaveEvents-publish w stored about h =
      let after = (publish m topic key value w).1 in
      let kept = HasEvent-All w after w.sent (stays_published w) h in
      elim (publish_sent m topic key value w) [
        | inl same ↦ rw same kept
        | inr put ↦ rw put (
            All-append after w.sent (message_of m topic key value) kept
              (stays_published w key stored, about))
      ]

-- A publication about a stored event.
pub IsSafeFrom-publish :
    {B : Type 0} (Q : World → B → Type 0) (m m' : Machine) (topic key value : String)
    (k : Option Err → Task B) (w : World)
    → IsStored w key
    → IsAbout key value
    → ((w' : World) (lost : Option Err) → IsSafeFrom Q w' (k lost))
    → IsSafeFrom Q w
        (writing (publish m topic key value) (publish m' topic key value) finished >>= k)
unfolding IsSafeFrom ◌>>=◌
IsSafeFrom-publish Q m m' topic key value k w stored about g = λ w' r e. (
  (
    HaveEvents-publish m topic key value w' (r key stored) about e,
    stays_published m topic key value w',
    g (publish m topic key value w').1 (publish m topic key value w').0,
  ),
  λ x. (
    HaveEvents-publish m' topic key value w' (r key stored) about e,
    stays_published m' topic key value w',
    g (publish m' topic key value w').1 (some x),
  ),
)

-- An insertion, after which the task knows that the row is stored, unless it was given an error.
pub IsSafeFrom-insert :
    {B : Type 0} (Q : World → B → Type 0) (m m' : Machine) (e : Event) (k : Option Err → Task B)
    (w : World)
    → ((w' : World) (x : Err) → IsSafeFrom Q w' (k (some x)))
    → ((w' : World) → IsStored w' e.id → IsSafeFrom Q w' (k none))
    → IsSafeFrom Q w (writing (insert m e) (insert m' e) finished >>= k)
unfolding IsSafeFrom ◌>>=◌
IsSafeFrom-insert Q m m' e k w bad good = λ w' r h.
    let after = (insert m e w').1 in
    (
      (
        HaveEvents-tame (insert m e) (insert-IsTame m e) w' h,
        (insert-IsTame m e).stays w',
        elim (Option-cases (insert m e w').0) [
          | inl stored ↦
              subst (λ (x : Option Err). IsSafeFrom Q after (k x)) (sym stored)
                (good after (IsStored-insert m e w' stored))
          | inr (x, lost) ↦
              subst (λ (x : Option Err). IsSafeFrom Q after (k x)) (sym lost) (bad after x)
        ],
      ),
      λ x. (
        HaveEvents-tame (insert m' e) (insert-IsTame m' e) w' h,
        (insert-IsTame m' e).stays w',
        bad (insert m' e w').1 x,
      ),
    )

pub ruleset safe_from_rules = (
  finished-IsSafeFrom, once-IsSafeFrom, call-IsSafeFrom, write-IsSafeFrom, IsSafeFrom-if,
  IsSafeFrom-insert, IsSafeFrom-publish, now-IsTame, new_uuid-IsTame, find-IsTame, update-IsTame,
  increment-IsTame, get-IsTame, set-IsTame, write-IsTame, count-IsTame,
)
