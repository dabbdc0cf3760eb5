-- ===== src/Runtime/Keeps.antt =====
-- Properties of the state that an action keeps, with one rule for each way to build an action.
use event_observability_plat.Common.{Bool, true, false, if◌then◌else◌}
use event_observability_plat.Runtime.{World, M, ◌>>=◌, pure}

pub record Keeps {A : Type 0} (P : World → Type 0) (a : M A) : Type 0 where
  pub at : (w : World) → P w → P (a w).1

module _ (P : World → Type 0) where
  pub Keeps-pure : {A : Type 0} (x : A) → Keeps P (pure x)
  Keeps-pure x = record { at = λ w h. h }

  pub Keeps-bind :
      {A B : Type 0} (a : M A) (f : A → M B)
      → Keeps P a
      → ((x : A) → Keeps P (f x))
      → Keeps P (a >>= f)
  Keeps-bind a f ka kf = record { at = λ w h. (kf (a w).0).at (a w).1 (ka.at w h) }

  pub Keeps-if :
      {A : Type 0} (b : Bool) (x y : M A) → Keeps P x → Keeps P y → Keeps P (if b then x else y)
  Keeps-if true x y kx ky = kx
  Keeps-if false x y kx ky = ky

pub ruleset keeps_rules = (Keeps-pure, Keeps-bind, Keeps-if)
