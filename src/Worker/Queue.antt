-- ===== src/Worker/Queue.antt =====
-- The events topic as the worker reads it: it fetches the oldest message that it has not handled, and handles it,
-- which may put a message behind the others. The topic is one partition, and a fetch that fails, which
-- is tried again, is left out.
pub mod Ends
use mathlib.Core.List.{append-nil}
use event_observability_plat.Common.{
  ℕ, zero, suc, ◌+◌, ◌-◌, ◌≤◌, ◌<◌, ◌≡◌, ◌≢◌, ◌⊎◌, inl, inr, refl, ap, sym, ◌∙◌, arith, String,
  str_eq, str_eq_iff, Option, none, some, List, [], ◌∷◌, ◌++◌, if◌then◌else◌, ℤ, pos, pos_part,
  neg_part, ◌<ℤ◌, +ℤ_parts,
}
use event_observability_plat.Errors.{Err, ok, err, Result-cases}
use event_observability_plat.Domain.{EventMessage}
use event_observability_plat.Mapper.{unmarshal_event_message}
use event_observability_plat.Runtime.{World, Machine, M, Message, call}
use event_observability_plat.Messaging.{publish, publish_answer}
use event_observability_plat.Ingest.Success.{message_of}
use event_observability_plat.Process.{
  ProcessEvent, Verdict, ProcessAction, done, retry, dlq, execute,
}
use event_observability_plat.Process.Verdicts.{execute-IsDecided}
use event_observability_plat.Process.Frame.{execute-Frame}
use event_observability_plat.Worker.{
  Topics, publish_value, publish_retry, publish_to_dlq, count_done, route, process_decoded,
  process_message,
}
use event_observability_plat.Worker.Retries.{retry_of}

-- The values of the messages of a topic, oldest first.
unfoldable pub values_of : String → List Message → List String
values_of topic [] = []
values_of topic (x ∷ rest) =
    let later = values_of topic rest in if str_eq x.topic topic then x.value ∷ later else later

abbrev pub drop {ℓ} : {A : Type ℓ} → ℕ → List A → List A
drop zero xs = xs
drop (suc n) [] = []
drop (suc n) (x ∷ xs) = drop n xs

-- The worker from the offset k on, for that many messages at most: the offset at which it finds no message, or
-- `none` where it was still busy.
unfoldable pub work_off : Machine → ProcessEvent → Topics → ℕ → ℕ → M (Option ℕ)
work_off m uc topics zero k w = (none, w)
work_off m uc topics (suc rounds) k w = elim (drop k (values_of topics.events w.sent)) [
  | [] ↦ (some k, w)
  | v ∷ rest ↦ work_off m uc topics rounds (suc k) (process_message m uc topics v w).1
]

-- How often a message with that attempt can still be retried.
abbrev pub retries_left : ProcessEvent → ℤ → ℕ
retries_left uc attempt =
    pos_part uc.max_retries + neg_part attempt - (neg_part uc.max_retries + pos_part attempt)

abbrev pub value_work : Machine → ProcessEvent → String → ℕ
value_work m uc v = elim (unmarshal_event_message m.json_error v) [
  | ok msg ↦ suc (retries_left uc msg.attempt)
  | err e ↦ 1
]

-- How many messages a queue can make the worker handle.
unfoldable pub queue_work : Machine → ProcessEvent → List String → ℕ
queue_work m uc [] = 0
queue_work m uc (v ∷ rest) = value_work m uc v + queue_work m uc rest

pub queue_work-append :
    (m : Machine) (uc : ProcessEvent) (xs ys : List String)
    → queue_work m uc (xs ++ ys) ≡ queue_work m uc xs + queue_work m uc ys
unfolding queue_work
queue_work-append m uc [] ys = omega arith
queue_work-append m uc (x ∷ xs) ys = omega (arith, queue_work-append m uc xs ys)

pub values_of-append :
    (topic : String) (xs ys : List Message)
    → values_of topic (xs ++ ys) ≡ values_of topic xs ++ values_of topic ys
unfolding values_of
values_of-append topic [] ys = refl
values_of-append topic (x ∷ xs) ys = ground (arith, values_of-append topic xs ys)

pub values_of-own :
    (topic : String) (x : Message) (xs : List Message)
    → x.topic ≡ topic
    → values_of topic (xs ++ x ∷ []) ≡ values_of topic xs ++ x.value ∷ []
unfolding values_of
values_of-own topic x xs e =
    ground (arith, values_of-append topic xs (x ∷ []), str_eq_iff x.topic topic)

-- Behind the message at the offset stand the others, and what is new behind them.
pub drop-append :
    (k : ℕ) (xs ys : List String) (v : String) (rest : List String)
    → drop k xs ≡ v ∷ rest
    → drop (suc k) (xs ++ ys) ≡ rest ++ ys
drop-append zero [] ys v rest h = absurd (ground arith)
drop-append zero (x ∷ xs) ys v rest h = ground arith
drop-append (suc k) [] ys v rest h = absurd (ground arith)
drop-append (suc k) (x ∷ xs) ys v rest h = drop-append k xs ys v rest h

-- What a message adds to the topic is less work than it was itself.
abbrev Adds : Machine → ProcessEvent → Topics → String → World → World → Type 0
Adds m uc topics v w w' =
    (added : List String) × (values_of topics.events w'.sent
      ≡ values_of topics.events w.sent ++ added)
    × (queue_work m uc added < value_work m uc v)
