-- ===== src/Concurrent/Stored.antt =====
-- Tasks that rely on rows that are stored, since no step of another task takes a row away.
pub mod Calls
pub mod Requests
pub mod Messages
pub mod Queued
use event_observability_plat.Common.{
  Option, ◌≡◌, refl, ap, ◌∙◌, arith, String, Bool, true, false, str_eq, Bool-cases, inl, inr,
  if◌then◌else◌, List, [], ◌∷◌, ◌++◌, All, some,
}
use event_observability_plat.Errors.{Err, ok}
use event_observability_plat.Domain.{Event, EventMessage}
use event_observability_plat.Mapper.{encode, decode, marshal_event_message}
use event_observability_plat.Mapper.RoundTrip.{decode-encode_id}
use event_observability_plat.Runtime.{World, M, Message}
use event_observability_plat.Runtime.Keeps.{Keeps}
use event_observability_plat.Storage.Events.{find_row, is_some}
use event_observability_plat.Concurrent.{Task, finished, doing, writing, ◌>>=◌, once}
use event_observability_plat.Concurrent.Growth.{StaysEvent, StayRows, Extends, Extends-refl}

abbrev pub IsStored : World → String → Type 0
IsStored w id = is_some (find_row id w.events) ≡ true

-- What is stored stays stored.
abbrev pub StaysStored : World → World → Type 0
StaysStored w w' = (id : String) → IsStored w id → IsStored w' id

-- A value is decoded to no event id but the key.
abbrev pub IsAbout : String → String → Type 0
IsAbout key value = (msg : EventMessage) → decode value ≡ some msg → msg.event_id ≡ key

-- The event that a message is about, which its key and its value name, is stored.
abbrev pub HasEvent : World → Message → Type 0
HasEvent w x = IsStored w x.key × IsAbout x.key x.value

pub marshal-IsAbout :
    (msg : EventMessage) (value : String)
    → marshal_event_message msg ≡ ok value
    → IsAbout msg.event_id value
unfolding marshal_event_message
marshal-IsAbout msg value e msg' back =
    let same : encode msg ≡ value = ground arith in
    decode-encode_id msg msg' (ap decode same ∙ back)

abbrev pub HaveEvents : World → Type 0
HaveEvents w = All (HasEvent w) w.sent

find_row-StayRows :
    (id : String) (es rows : List Event)
    → StayRows es rows
    → is_some (find_row id es) ≡ true
    → is_some (find_row id rows) ≡ true
unfolding find_row
find_row-StayRows id [] rows h f = absurd (ground arith)
find_row-StayRows id (e ∷ es) [] h f = absurd h
find_row-StayRows id (e ∷ es) (r ∷ rows) h f =
    ground (arith, h.0.id, find_row-StayRows id es rows h.1)

Extends-StaysStored : (w w' : World) → Extends w w' → StaysStored w w'
Extends-StaysStored w w' h id f = find_row-StayRows id w.events w'.events h.0 f

HasEvent-All :
    (w w' : World) (xs : List Message)
    → StaysStored w w'
    → All (HasEvent w) xs
    → All (HasEvent w') xs
HasEvent-All w w' [] r h = tt
HasEvent-All w w' (x ∷ xs) r h = ((r x.key h.0.0, h.0.1), HasEvent-All w w' xs r h.1)

-- A call that takes no row away and publishes nothing.
pub record IsTame {A : Type 0} (c : M A) : Type 0 where
  pub stays : (w : World) → StaysStored w (c w).1
  pub silent : (w : World) → (c w).1.sent ≡ w.sent

pub tame :
    {A : Type 0} (c : M A)
    → ((w₀ : World) → Keeps (Extends w₀) c)
    → ((w : World) → (c w).1.sent ≡ w.sent)
    → IsTame c
tame c keeps silent = record {
  stays = λ w. Extends-StaysStored w (c w).1 ((keeps w).at w (Extends-refl w));
  silent = silent;
}

pub HaveEvents-tame :
    {A : Type 0} (c : M A) → IsTame c → (w : World) → HaveEvents w → HaveEvents (c w).1
HaveEvents-tame c t w h = rw (t.silent w) (HasEvent-All w (c w).1 w.sent (t.stays w) h)

-- A task that begins in w, at any later world, keeps its promise: its messages are about stored events, and what it
-- gives satisfies Q.
unfoldable pub IsSafeFrom : {A : Type 0} → (World → A → Type 0) → World → Task A → Type 0
IsSafeFrom Q w (finished a) = Q w a
IsSafeFrom Q w (doing {B} c k) =
    (w' : World)
    → StaysStored w w'
    → HaveEvents w'
    → HaveEvents (c w').1 × StaysStored w' (c w').1 × IsSafeFrom Q (c w').1 (k (c w').0)
IsSafeFrom Q w (writing c c' k) =
    (w' : World)
    → StaysStored w w'
    → HaveEvents w'
    → (HaveEvents (c w').1 × StaysStored w' (c w').1 × IsSafeFrom Q (c w').1 (k (c w').0))
      × ((e : Err)
          → HaveEvents (c' w').1 × StaysStored w' (c' w').1 × IsSafeFrom Q (c' w').1 (k (some e)))

-- A tame call, after which the task knows what it knew.
pub IsSafeFrom-doing :
    {A B : Type 0} (Q : World → B → Type 0) (c : M A) (k : A → Task B) (w : World)
    → IsTame c
    → ((w' : World) (a : A) → StaysStored w w' → IsSafeFrom Q w' (k a))
    → IsSafeFrom Q w (doing c k)
unfolding IsSafeFrom
IsSafeFrom-doing Q c k w t g = λ w' r e.
    (HaveEvents-tame c t w' e, t.stays w', g (c w').1 (c w').0 (λ id s. t.stays w' id (r id s)))

-- A tame write, after which the task knows what it knew.
pub IsSafeFrom-writing :
    {B : Type 0} (Q : World → B → Type 0) (c c' : M (Option Err)) (k : Option Err → Task B)
    (w : World)
    → IsTame c
    → IsTame c'
    → ((w' : World) (e : Option Err) → StaysStored w w' → IsSafeFrom Q w' (k e))
    → IsSafeFrom Q w (writing c c' k)
unfolding IsSafeFrom
IsSafeFrom-writing Q c c' k w t t' g = λ w' r e. (
  (HaveEvents-tame c t w' e, t.stays w', g (c w').1 (c w').0 (λ id s. t.stays w' id (r id s))),
  λ x. (
    HaveEvents-tame c' t' w' e,
    t'.stays w',
    g (c' w').1 (some x) (λ id s. t'.stays w' id (r id s)),
  ),
)

-- A task that waits knows what it knew.
pub IsSafeFrom-later :
    {A : Type 0} (Q : World → A → Type 0) (p : Task A) (w w' : World)
    → ((a : A) → Q w a → Q w' a)
    → StaysStored w w'
    → IsSafeFrom Q w p
    → IsSafeFrom Q w' p
unfolding IsSafeFrom
IsSafeFrom-later Q (finished a) w w' q r h = q a h
IsSafeFrom-later Q (doing c k) w w' q r h = λ w'' r' e. h w'' (λ id s. r' id (r id s)) e
IsSafeFrom-later Q (writing c c' k) w w' q r h = λ w'' r' e. h w'' (λ id s. r' id (r id s)) e

pub IsSafeFrom-if :
    {A : Type 0} (Q : World → A → Type 0) (b : Bool) (p q : Task A) (w : World)
    → IsSafeFrom Q w p
    → IsSafeFrom Q w q
    → IsSafeFrom Q w (if b then p else q)
IsSafeFrom-if Q true p q w hp hq = hp
IsSafeFrom-if Q false p q w hp hq = hq

-- A task of which nothing more is asked.
abbrev pub Anything : {A : Type 0} → World → A → Type 0
Anything w a = Unit

pub finished-IsSafeFrom : {A : Type 0} (a : A) (w : World) → IsSafeFrom Anything w (finished a)
unfolding IsSafeFrom
finished-IsSafeFrom a w = tt

pub once-IsSafeFrom : {A : Type 0} (c : M A) (w : World) → IsTame c → IsSafeFrom Anything w (once c)
unfolding IsSafeFrom
once-IsSafeFrom c w t = IsSafeFrom-doing Anything c finished w t (λ w' a r. tt)

pub write-IsSafeFrom :
    {B : Type 0} (Q : World → B → Type 0) (c c' : M (Option Err)) (f : Option Err → Task B)
    (w : World)
    → IsTame c
    → IsTame c'
    → ((w' : World) (e : Option Err) → StaysStored w w' → IsSafeFrom Q w' (f e))
    → IsSafeFrom Q w (writing c c' finished >>= f)
unfolding ◌>>=◌
write-IsSafeFrom Q c c' f w t t' g = IsSafeFrom-writing Q c c' f w t t' g

pub call-IsSafeFrom :
    {A B : Type 0} (Q : World → B → Type 0) (c : M A) (f : A → Task B) (w : World)
    → IsTame c
    → ((w' : World) (a : A) → StaysStored w w' → IsSafeFrom Q w' (f a))
    → IsSafeFrom Q w (once c >>= f)
unfolding ◌>>=◌
call-IsSafeFrom Q c f w t g = IsSafeFrom-doing Q c f w t g

-- What follows a task still knows what was known before it.
pub then-IsSafeFrom :
    {A B : Type 0} (Q : World → B → Type 0) (p : Task A) (f : A → Task B) (w : World)
    → IsSafeFrom Anything w p
    → ((w' : World) (a : A) → StaysStored w w' → IsSafeFrom Q w' (f a))
    → IsSafeFrom Q w (p >>= f)
unfolding IsSafeFrom ◌>>=◌
then-IsSafeFrom Q (finished a) f w h g = g w a (λ id s. s)
then-IsSafeFrom Q (doing c k) f w h g = λ w' r e.
    let (kept, stays, rest) = h w' r e in
    (
      kept,
      stays,
      then-IsSafeFrom Q (k (c w').0) f (c w').1 rest
          (λ w'' a r'. g w'' a (λ id s. r' id (stays id (r id s)))),
    )
then-IsSafeFrom Q (writing c c' k) f w h g = λ w' r e.
    let (kept, stays, rest) = (h w' r e).0 in
    let lost = (h w' r e).1 in
    (
      (
        kept,
        stays,
        then-IsSafeFrom Q (k (c w').0) f (c w').1 rest
            (λ w'' a r'. g w'' a (λ id s. r' id (stays id (r id s)))),
      ),
      λ x. (
        (lost x).0,
        (lost x).1,
        then-IsSafeFrom Q (k (some x)) f (c' w').1 (lost x).2
            (λ w'' a r'. g w'' a (λ id s. r' id ((lost x).1 id (r id s)))),
      ),
    )
