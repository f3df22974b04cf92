-- ===== src/Rules/Store/Binds.antt =====
-- Inversion of a chain of fallible steps.
use shinken_sentinel.Prelude.{◌≡◌, refl, ap, Option, none, some}
use shinken_sentinel.Rules.Store.{◌>>=◌}

pub >>=-eq-some {ℓ κ} :
    {A : Type ℓ} {B : Type κ} (o : Option A) (f : A → Option B) {b : B}
    → (o >>= f) ≡ some b
    → (a : A) × (o ≡ some a) × (f a ≡ some b)
>>=-eq-some none f h = cc
>>=-eq-some (some a) f h = (a, refl, h)

abbrev or_else {ℓ} : {A : Type ℓ} → A → Option A → A
or_else a none = a
or_else a (some b) = b

pub some-cancel {ℓ} : {A : Type ℓ} {a b : A} → some a ≡ some b → a ≡ b
some-cancel {a = a} h = ap (or_else a) h
