-- ===== src/Common/Lists.antt =====
-- Lists measured by native numbers.
use Prim.Native.Nat.{ℕ, zero, suc, ◌+◌}
use mathlib.Core.Path.{◌≡◌}
use mathlib.Core.List.{List, [], ◌∷◌, ◌++◌}
use native.Mathlib.Omega.{arith}

module _ {ℓ} {A : Type ℓ} where
  abbrev pub length : List A → ℕ
  length [] = 0
  length (x ∷ xs) = suc (length xs)

  abbrev pub replicate : ℕ → A → List A
  replicate zero a = []
  replicate (suc n) a = a ∷ replicate n a

  pub length-append : (xs ys : List A) → length (xs ++ ys) ≡ length xs + length ys
  length-append [] ys = omega arith
  length-append (x ∷ xs) ys = omega (arith, length-append xs ys)

-- A predicate that holds of every element.
abbrev pub All {ℓ κ} : {A : Type ℓ} → (A → Type κ) → List A → Type κ
All P [] = Unit
All P (x ∷ xs) = P x × All P xs

pub All-split {ℓ κ} :
    {A : Type ℓ} (Q : A → Type κ) (before : List A) (x : A) (after : List A)
    → All Q (before ++ x ∷ after)
    → All Q before × Q x × All Q after
All-split Q [] x after h = (tt, h.0, h.1)
All-split Q (y ∷ before) x after h =
    let (a, b, c) = All-split Q before x after h.1 in ((h.0, a), b, c)

pub All-join {ℓ κ} :
    {A : Type ℓ} (Q : A → Type κ) (before after : List A)
    → All Q before
    → All Q after
    → All Q (before ++ after)
All-join Q [] after a b = b
All-join Q (y ∷ before) after a b = (a.0, All-join Q before after a.1 b)
