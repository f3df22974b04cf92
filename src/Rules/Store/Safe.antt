-- ===== src/Rules/Store/Safe.antt =====
-- The invariant of the rule store's heap: who may be read, who waits to be freed, who is counted.
use shinken_sentinel.Prelude.{
  ℕ, suc, ◌%◌, ◌^◌, ◌≤◌, ◌<◌, ◌≡◌, ◌≢◌, refl, sym, List, [], ◌∷◌, Option, none, some, true, false,
  if◌then◌else◌, ◌==◌, arith, All, All-map, length, ℕ_discrete, subst,
}
use shinken_sentinel.Status.{status_success}
use shinken_sentinel.Runtime.Rundown.{stop_bit}
use shinken_sentinel.Rules.Types.{Rule}
use shinken_sentinel.Rules.Validate.{validate}
use shinken_sentinel.Rules.Order.Sorted.{InOrder}
use shinken_sentinel.Rules.Snapshot.{Snapshot}
use shinken_sentinel.Rules.Store.{Heap, Store, put, has_id}

-- `SK_RULE_MAX`
abbrev pub rule_max : ℕ
rule_max = 4096

abbrev pub DistinctIds : List Rule → Type 0
DistinctIds [] = Unit
DistinctIds (rule ∷ rules) = (has_id rule.rule_id rules ≡ false) × DistinctIds rules

-- A rule set that may be published.
pub record Good (rules : List Rule) : Type 0 where
  pub in_order : InOrder rules
  pub valid : All (λ rule. validate rule ≡ status_success) rules
  pub distinct : DistinctIds rules
  pub bounded : length rules ≤ rule_max

-- The number of times that an address is held.
unfoldable pub occ : ℕ → List ℕ → ℕ
occ p [] = 0
occ p (q ∷ held) = if q == p then suc (occ p held) else occ p held

-- A snapshot that readers may acquire, and one that waits on the retire list.
unfoldable pub Live : Heap → ℕ → Type 0
Live cells p =
    (snap : Snapshot) × (cells p ≡ some snap) × (snap.readers.count < stop_bit) × Good snap.rules

unfoldable pub Waiting : Heap → ℕ → Type 0
Waiting cells p = (snap : Snapshot) × (cells p ≡ some snap) × (stop_bit ≤ snap.readers.count)

abbrev pub OnSlot : (ℕ → Type 0) → Option ℕ → Type 0
OnSlot P none = Unit
OnSlot P (some p) = P p

abbrev pub NotIn : ℕ → List ℕ → Type 0
NotIn p = All (λ q. q ≢ p)

abbrev pub NoTwice : List ℕ → Type 0
NoTwice [] = Unit
NoTwice (p ∷ ps) = NotIn p ps × NoTwice ps

-- The readers of a snapshot are counted exactly.
pub record Counted (snap : Snapshot) (n : ℕ) : Type 0 where
  pub exact : snap.readers.count % stop_bit ≡ n
  pub width : snap.readers.count < 2 ^ 32

pub record Safe (held : List ℕ) (s : Store) : Type 0 where
  pub counted : (p : ℕ) (snap : Snapshot) → s.cells p ≡ some snap → Counted snap (occ p held)
  pub kept : (p : ℕ) → s.cells p ≡ none → occ p held ≡ 0
  pub current_live : OnSlot (Live s.cells) s.current
  pub rollback_live : OnSlot (Live s.cells) s.rollback
  pub apart : (c r : ℕ) → s.current ≡ some c → s.rollback ≡ some r → c ≢ r
  pub waiting : All (Waiting s.cells) s.retire
  pub once : NoTwice s.retire
  pub unused : (p : ℕ) → s.fresh ≤ p → s.cells p ≡ none
  pub published : s.inited ≡ true → s.closed ≡ false → (c : ℕ) × (s.current ≡ some c)

-- One cell across a change of the heap: the content stays, and so does the stop bit.
pub record SameContent (old new : Snapshot) : Type 0 where
  pub rules : new.rules ≡ old.rules
  pub version : new.version ≡ old.version
  pub policy : new.default_policy ≡ old.default_policy

pub record SameSide (old new : Snapshot) : Type 0 where
  pub content : SameContent old new
  pub live : old.readers.count < stop_bit → new.readers.count < stop_bit
  pub stopped : stop_bit ≤ old.readers.count → stop_bit ≤ new.readers.count

unfoldable pub Kept : Heap → Heap → ℕ → Type 0
Kept cells cells' q =
    (old : Snapshot)
    → cells q ≡ some old
    → (new : Snapshot) × (cells' q ≡ some new) × SameSide old new

pub SameSide-refl : (snap : Snapshot) → SameSide snap snap
SameSide-refl snap = record {
  content = record { rules = refl; version = refl; policy = refl };
  live = λ h. h;
  stopped = λ h. h;
}

pub put_self : (p : ℕ) (v : Option Snapshot) (cells : Heap) → put p v cells p ≡ v
unfolding put
put_self p v cells = ground arith

pub put_ne : (p q : ℕ) (v : Option Snapshot) (cells : Heap) → q ≢ p → put p v cells q ≡ cells q
unfolding put
put_ne p q v cells h = ground arith

pub Kept-put_ne :
    (p q : ℕ) (v : Option Snapshot) (cells : Heap) → q ≢ p → Kept cells (put p v cells) q
unfolding Kept
Kept-put_ne p q v cells h old e = (old, rw (put_ne p q v cells h) e, SameSide-refl old)

pub Kept-put :
    (p : ℕ) (old new : Snapshot) (cells : Heap)
    → cells p ≡ some old
    → SameSide old new
    → (q : ℕ) → Kept cells (put p (some new) cells) q
unfolding Kept
Kept-put p old new cells h side q = elim (ℕ_discrete q p) [
  | yes e ↦ λ old' k.
      let same : old ≡ old' = ground arith in
      (new, rw e (put_self p (some new) cells), subst (λ o. SameSide o new) same side)
  | no other ↦ Kept-put_ne p q (some new) cells other
]

pub Kept-Live : (cells cells' : Heap) (q : ℕ) → Kept cells cells' q → Live cells q → Live cells' q
unfolding Kept Live
Kept-Live cells cells' q k (snap, e, low, good) =
    let (new, e', side) = k snap e in
    (new, e', side.live low, subst Good (sym side.content.rules) good)

pub Kept-Waiting :
    (cells cells' : Heap) (q : ℕ) → Kept cells cells' q → Waiting cells q → Waiting cells' q
unfolding Kept Waiting
Kept-Waiting cells cells' q k (snap, e, high) =
    let (new, e', side) = k snap e in (new, e', side.stopped high)

pub Kept-slot :
    (cells cells' : Heap) (o : Option ℕ)
    → ((q : ℕ) → o ≡ some q → Kept cells cells' q)
    → OnSlot (Live cells) o
    → OnSlot (Live cells') o
Kept-slot cells cells' none k h = tt
Kept-slot cells cells' (some q) k h = Kept-Live cells cells' q (k q refl) h

pub Kept-All :
    (cells cells' : Heap) (ps : List ℕ)
    → ((q : ℕ) → Waiting cells q → Kept cells cells' q)
    → All (Waiting cells) ps
    → All (Waiting cells') ps
Kept-All cells cells' ps k h = All-map ps (λ q w. Kept-Waiting cells cells' q (k q w) w) h

-- What is live is not waiting.
pub Live-Waiting : (cells : Heap) (p q : ℕ) → Live cells p → Waiting cells q → q ≢ p
unfolding Live Waiting
Live-Waiting cells p q (snap, e, low, good) (snap', e', high) h =
    let here : cells q ≡ some snap = rw h e in
    let same : snap ≡ snap' = ground arith in
    let high' : stop_bit ≤ snap.readers.count =
      subst (λ t. stop_bit ≤ t.readers.count) (sym same) high in
    absurd (omega arith)
