-- ===== src/Prelude/Preds.antt =====
-- Predicates on lists by recursion, which the tactics read and build, and membership.
use mathlib.Core.List.{List, [], ◌∷◌, ◌++◌}

module _ {ℓ κ} {A : Type ℓ} where
  abbrev pub All : (A → Type κ) → List A → Type κ
  All P [] = Unit
  All P (x ∷ xs) = P x × All P xs

  pub All-append : (P : A → Type κ) (xs ys : List A) → All P xs → All P ys → All P (xs ++ ys)
  All-append P [] ys front back = back
  All-append P (x ∷ xs) ys front back = (front.0, All-append P xs ys front.1 back)

module _ {ℓ} {A : Type ℓ} where
  -- The positions at which a value stands in a list.
  pub data Within (a : A) : List A → Type ℓ where
    here : {xs : List A} → Within a (a ∷ xs)
    there : {x : A} {xs : List A} → Within a xs → Within a (x ∷ xs)

module _ {ℓ κ} {A : Type ℓ} where
  pub All-Within : (P : A → Type κ) {a : A} {xs : List A} → All P xs → Within a xs → P a
  All-Within P h Within.here = h.0
  All-Within P h (Within.there w) = All-Within P h.1 w

  pub All-of_Within : (P : A → Type κ) (xs : List A) → ((a : A) → Within a xs → P a) → All P xs
  All-of_Within P [] h = tt
  All-of_Within P (x ∷ xs) h = (h x Within.here, All-of_Within P xs (λ a w. h a (Within.there w)))

  pub All-map : {P Q : A → Type κ} (xs : List A) → ((a : A) → P a → Q a) → All P xs → All Q xs
  All-map [] f h = tt
  All-map (x ∷ xs) f h = (f x h.0, All-map xs f h.1)
