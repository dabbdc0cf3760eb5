-- ===== src/Concurrent.antt =====
-- The server and the worker at the same time: the calls of a request or message that is under way stand between
-- those of the others, and a process can end between any two of them. The bodies are those of Http.Webhook,
-- Ingest, Process and Worker, cut where they call PostgreSQL, ClickHouse, Kafka, the clock or a counter.
pub mod Requests
pub mod Messages
pub mod Steps
pub mod Safety
pub mod Parts
pub mod WellFormed
pub mod Growth
pub mod Race
pub mod Alone
pub mod Stored
pub mod Lost
use event_observability_plat.Common.{◌≡◌, refl, Option, none}
use event_observability_plat.Errors.{Err}
use event_observability_plat.Runtime.{World, Machine, M}

-- What is left to do of a request or message: a value, or a call and what follows its answer. A call that writes, to
-- a table or to the queue, stands with the same call where nothing fails: it can have taken place though its
-- answer is an error, as when the connection is lost after a commit.
pub data Task (A : Type 0) : Type 1 where
  finished : A → Task A
  doing : {B : Type 0} → M B → (B → Task A) → Task A
  writing : M (Option Err) → M (Option Err) → (Option Err → Task A) → Task A

infixl 5 ◌>>=◌ ◌>>◌
unfoldable pub ◌>>=◌ : {A B : Type 0} → Task A → (A → Task B) → Task B
finished a >>= f = f a
doing c k >>= f = doing c (λ b. k b >>= f)
writing c c' k >>= f = writing c c' (λ e. k e >>= f)

abbrev pub ◌>>◌ : {B : Type 0} → Task (Unit {0}) → Task B → Task B
p >> q = p >>= λ _. q

-- One call.
abbrev pub once : {A : Type 0} → M A → Task A
once c = doing c finished

-- A machine on which no call fails.
abbrev pub healed : Machine → Machine
healed m = record m { fault = λ k. none }

-- One call that writes.
abbrev pub write : Machine → (Machine → M (Option Err)) → Task (Option Err)
write m c = writing (c m) (c (healed m)) finished

-- A task that nothing interrupts.
unfoldable pub run : {A : Type 0} → Task A → M A
run (finished a) w = (a, w)
run (doing c k) w = run (k (c w).0) (c w).1
run (writing c c' k) w = run (k (c w).0) (c w).1

pub run-bind :
    {A B : Type 0} (p : Task A) (f : A → Task B) (w : World)
    → run (p >>= f) w ≡ run (f (run p w).0) (run p w).1
unfolding ◌>>=◌ run
run-bind (finished a) f w = refl
run-bind (doing c k) f w = run-bind (k (c w).0) f (c w).1
run-bind (writing c c' k) f w = run-bind (k (c w).0) f (c w).1
