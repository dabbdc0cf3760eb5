-- ===== src/Concurrent/Safety.antt =====
-- What every interleaving keeps.
use event_observability_plat.Common.{
  Bool, true, false, if◌then◌else◌, Option, some, [], ◌∷◌, All, All-split, All-join,
}
use event_observability_plat.Errors.{Err}
use event_observability_plat.Runtime.{World, M}
use event_observability_plat.Runtime.Keeps.{Keeps}
use event_observability_plat.Concurrent.{Task, finished, doing, writing, ◌>>=◌, once}
use event_observability_plat.Concurrent.Steps.{
  Job, part_of, State, Step, begins, calls, writes, unheard, stops, Steps, here, next,
}

-- Every call that a task can make keeps P.
unfoldable pub IsSafe : {A : Type 0} → (World → Type 0) → Task A → Type 0
IsSafe P (finished a) = Unit
IsSafe P (doing {B} c k) = Keeps P c × ((b : B) → IsSafe P (k b))
IsSafe P (writing c c' k) = Keeps P c × Keeps P c' × ((e : Option Err) → IsSafe P (k e))

module _ (P : World → Type 0) where
  pub finished-IsSafe : {A : Type 0} (a : A) → IsSafe P (finished a)
  unfolding IsSafe
  finished-IsSafe a = tt

  pub once-IsSafe : {A : Type 0} (c : M A) → Keeps P c → IsSafe P (once c)
  unfolding IsSafe
  once-IsSafe c k = (k, λ b. tt)

  pub writing-IsSafe :
      (c c' : M (Option Err)) → Keeps P c → Keeps P c' → IsSafe P (writing c c' finished)
  unfolding IsSafe
  writing-IsSafe c c' k k' = (k, k', λ e. tt)

  pub bind-IsSafe :
      {A B : Type 0} (p : Task A) (f : A → Task B)
      → IsSafe P p
      → ((a : A) → IsSafe P (f a))
      → IsSafe P (p >>= f)
  unfolding IsSafe ◌>>=◌
  bind-IsSafe (finished a) f h g = g a
  bind-IsSafe (doing c k) f h g = (h.0, λ b. bind-IsSafe (k b) f (h.1 b) g)
  bind-IsSafe (writing c c' k) f h g = (h.0, h.1, λ e. bind-IsSafe (k e) f (h.2 e) g)

  pub if-IsSafe :
      {A : Type 0} (b : Bool) (p q : Task A)
      → IsSafe P p
      → IsSafe P q
      → IsSafe P (if b then p else q)
  if-IsSafe true p q hp hq = hp
  if-IsSafe false p q hp hq = hq

  module _ (safe : (job : Job) → IsSafe P (part_of job)) where
    Step-All :
        {s t : State}
        → Step s t
        → P s.world × All (IsSafe P) s.parts
        → P t.world × All (IsSafe P) t.parts
    unfolding IsSafe
    Step-All (begins job w parts) (p, h) =
        (p, All-join (IsSafe P) parts (part_of job ∷ []) h (safe job, tt))
    Step-All (calls c k w before after) (p, h) =
        let (a, b, d) = All-split (IsSafe P) before (doing c k) after h in
        (b.0.at w p, All-join (IsSafe P) before (k (c w).0 ∷ after) a (b.1 (c w).0, d))
    Step-All (writes c c' k w before after) (p, h) =
        let (a, b, d) = All-split (IsSafe P) before (writing c c' k) after h in
        (b.0.at w p, All-join (IsSafe P) before (k (c w).0 ∷ after) a (b.2 (c w).0, d))
    Step-All (unheard c c' k e w before after) (p, h) =
        let (a, b, d) = All-split (IsSafe P) before (writing c c' k) after h in
        (b.1.at w p, All-join (IsSafe P) before (k (some e) ∷ after) a (b.2 (some e), d))
    Step-All (stops part w before after) (p, h) =
        let (a, b, d) = All-split (IsSafe P) before part after h in
        (p, All-join (IsSafe P) before after a d)

    pub Steps-All :
        {s t : State}
        → Steps s t
        → P s.world × All (IsSafe P) s.parts
        → P t.world × All (IsSafe P) t.parts
    Steps-All here h = h
    Steps-All (next earlier step) h = Step-All step (Steps-All earlier h)

pub ruleset safe_rules = (finished-IsSafe, once-IsSafe, writing-IsSafe, bind-IsSafe, if-IsSafe)
