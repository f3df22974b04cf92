-- ===== src/Rules/Order/Sorted.antt =====
-- What the sorted array is: the same rules, in verdict order.
use mathlib.Core.List.{Perm, perm_middle, append-nil}
use mathlib.Core.List.Perm
use shinken_sentinel.Prelude.{◌≡◌, List, [], ◌∷◌, ◌++◌, false, All, All-map, Bool-cases, inl, inr}
use shinken_sentinel.Rules.Types.{Rule}
use shinken_sentinel.Rules.Order.{precedes, sort_rules}
use shinken_sentinel.Rules.Order.Laws.{precedes_asymm, not-precedes_trans}
use shinken_sentinel.Rules.Order.Insertion.{rev_onto, insert_back, insert_rest, sort_loop_lem}

-- No rule of the list precedes `a`.
abbrev pub IsFirst : Rule → List Rule → Type 0
IsFirst a = All (λ b. precedes b a ≡ false)

-- The list is in verdict order: no rule precedes one that stands before it.
abbrev pub InOrder : List Rule → Type 0
InOrder [] = Unit
InOrder (a ∷ rules) = IsFirst a rules × InOrder rules

-- `a` precedes no rule of the list.
abbrev IsLast : Rule → List Rule → Type 0
IsLast a = All (λ b. precedes a b ≡ false)

abbrev InReverse : List Rule → Type 0
InReverse [] = Unit
InReverse (a ∷ r) = IsLast a r × InReverse r

IsLast-insert_back :
    (a t : Rule) (r : List Rule)
    → precedes a t ≡ false
    → IsLast a r
    → IsLast a (insert_back precedes t r)
IsLast-insert_back a t [] h k = (h, tt)
IsLast-insert_back a t (x ∷ r) h k = elim (Bool-cases (precedes t x)) [
  | inl up ↦ rw up (k.0, IsLast-insert_back a t r h k.1)
  | inr stay ↦ rw stay (h, k)
]

InReverse-insert_back :
    (t : Rule) (r : List Rule) → InReverse r → InReverse (insert_back precedes t r)
InReverse-insert_back t [] h = (tt, tt)
InReverse-insert_back t (x ∷ r) h = elim (Bool-cases (precedes t x)) [
  | inl up ↦
      rw up (IsLast-insert_back x t r (precedes_asymm t x up) h.0, InReverse-insert_back t r h.1)
  | inr stay ↦ rw stay ((stay, All-map r (λ b k. not-precedes_trans t x b stay k) h.0), h)
]

InReverse-insert_rest : (r ys : List Rule) → InReverse r → InReverse (insert_rest precedes r ys)
InReverse-insert_rest r [] h = h
InReverse-insert_rest r (y ∷ ys) h =
    InReverse-insert_rest (insert_back precedes y r) ys (InReverse-insert_back y r h)

-- Every rule of `ys` may follow every rule of `r`.
abbrev Follows : List Rule → List Rule → Type 0
Follows r = All (λ y. IsLast y r)

InOrder-rev_onto :
    (r ys : List Rule) → InReverse r → Follows r ys → InOrder ys → InOrder (rev_onto r ys)
InOrder-rev_onto [] ys h f s = s
InOrder-rev_onto (x ∷ r) ys h f s =
    InOrder-rev_onto r (x ∷ ys) h.1 (h.0, All-map ys (λ y k. k.1) f) (All-map ys (λ y k. k.0) f, s)

insert_back-perm : (t : Rule) (r : List Rule) → Perm (insert_back precedes t r) (t ∷ r)
insert_back-perm t [] = Perm.refl _
insert_back-perm t (x ∷ r) = elim (Bool-cases (precedes t x)) [
  | inl up ↦ rw up (Perm.trans (Perm.cons x (insert_back-perm t r)) (Perm.swap t x r))
  | inr stay ↦ rw stay (Perm.refl _)
]

rev_onto-perm : (r ys : List Rule) → Perm (rev_onto r ys) (r ++ ys)
rev_onto-perm [] ys = Perm.refl ys
rev_onto-perm (x ∷ r) ys = Perm.trans (rev_onto-perm r (x ∷ ys)) (perm_middle r ys)

insert_rest-perm : (r ys : List Rule) → Perm (insert_rest precedes r ys) (r ++ ys)
insert_rest-perm r [] = rw append-nil (Perm.refl r)
insert_rest-perm r (y ∷ ys) =
    Perm.trans (insert_rest-perm (insert_back precedes y r) ys)
      (Perm.trans (Perm.append_right ys (insert_back-perm y r)) (Perm.symm (perm_middle r ys)))

-- `SkSortRules` leaves the same rules, as often, and in verdict order.
pub sort_rules_lem :
    (rules : List Rule) → Perm (sort_rules rules) rules × InOrder (sort_rules rules)
unfolding sort_rules
sort_rules_lem [] = (Perm.refl [], tt)
sort_rules_lem (x ∷ xs) =
    let r = insert_rest precedes (x ∷ []) xs in
    rw (sort_loop_lem precedes x xs) (
      Perm.trans (rev_onto-perm r []) (rw append-nil (insert_rest-perm (x ∷ []) xs)),
      InOrder-rev_onto r [] (InReverse-insert_rest (x ∷ []) xs (tt, tt)) tt tt,
    )
