-- ===== src/Packet/Flow/Laws.antt =====
-- The references of the contexts, and how a change of the lists or the release of one keeps their count.
pub mod Counts
pub mod Safety
pub mod Race
use shinken_sentinel.Prelude.{
  ℕ, suc, ◌+◌, ◌-◌, ◌%◌, ◌^◌, ◌≤◌, ◌<◌, ◌≡◌, ◌≢◌, refl, sym, ap, ◌∙◌, subst, List, [], ◌∷◌, ◌++◌,
  Option, none, some, Bool, true, false, if◌then◌else◌, ltb, ◌==◌, arith, length, ℕ_discrete,
  Bool-cases, Option-cases, inl, inr,
}
use shinken_sentinel.Rules.Store.Safe.{occ}
use shinken_sentinel.Rules.Store.Sections.Readers.{
  drop_one, occ-drop_one, occ-drop_ne, occ_self, occ_ne,
}
use shinken_sentinel.Telemetry.Ring.{set_at}
use shinken_sentinel.Telemetry.Ring.Laws.{set_here, set_away}
use shinken_sentinel.Packet.Flow.{FlowCtx, Flows, flow_release, linked, refs}

-- A state that owes releases to the contexts of `debts`.
pub record Owes (debts : List ℕ) (s : Flows) : Type 0 where
  pub one : (p : ℕ) → linked p s ≤ 1
  pub exact : (p : ℕ) (c : FlowCtx) → s.cells p ≡ some c → c.ref ≡ refs p s + occ p debts
  pub alive : (p : ℕ) (c : FlowCtx) → s.cells p ≡ some c → 0 < c.ref
  pub bounded : (p : ℕ) (c : FlowCtx) → s.cells p ≡ some c → c.ref < 2 ^ 32 - 1
  pub freed : (p : ℕ) → s.cells p ≡ none → refs p s + occ p debts ≡ 0
  pub balance : (s.entries + s.slipped) % 2 ^ 32 ≡ length s.table % 2 ^ 32

pub occ_cons : (q p : ℕ) (l : List ℕ) → occ q (p ∷ l) ≡ occ q (p ∷ []) + occ q l
unfolding occ
occ_cons q p l = ground arith

pub occ-append : (q : ℕ) (l l' : List ℕ) → occ q (l ++ l') ≡ occ q l + occ q l'
unfolding occ
occ-append q [] l' = omega arith
occ-append q (p ∷ l) l' = ground (arith, occ-append q l l')

-- One occurrence is taken off a list.
pub traded : (p q : ℕ) (l : List ℕ) → 0 < occ p l → occ q (drop_one p l) + occ q (p ∷ []) ≡ occ q l
traded p q l h = elim (ℕ_discrete q p) [
  | yes e ↦ rw e (omega (arith, occ-drop_one p l, occ_self p [], nil_occ p, h))
  | no other ↦ omega (arith, occ-drop_ne p q l other, occ_ne p q [] other, nil_occ q)
]
  where
    nil_occ : (x : ℕ) → occ x [] ≡ 0
    nil_occ x = unfold occ in refl

pub length-drop_one : (p : ℕ) (l : List ℕ) → 0 < occ p l → length (drop_one p l) + 1 ≡ length l
unfolding occ drop_one
length-drop_one p [] h = absurd (omega arith)
length-drop_one p (x ∷ l) h = elim (Bool-cases (x == p)) [
  | inl same ↦ rw same (omega arith)
  | inr other ↦
      let rest : 0 < occ p l = ground arith in rw other (omega (arith, length-drop_one p l rest))
]

-- The lists change, and the debts with them.
pub Owes-move :
    (d d' : List ℕ) (s s' : Flows)
    → Owes d s
    → ((q : ℕ) → s'.cells q ≡ s.cells q)
    → ((q : ℕ) → refs q s' + occ q d' ≡ refs q s + occ q d)
    → ((q : ℕ) → linked q s' ≤ 1)
    → (s'.entries + s'.slipped) % 2 ^ 32 ≡ length s'.table % 2 ^ 32
    → Owes d' s'
Owes-move d d' s s' o same total one balance = record {
  one = one;
  exact = λ q c h. o.exact q c (sym (same q) ∙ h) ∙ sym (total q);
  alive = λ q c h. o.alive q c (sym (same q) ∙ h);
  bounded = λ q c h. o.bounded q c (sym (same q) ∙ h);
  freed = λ q h. total q ∙ o.freed q (sym (same q) ∙ h);
  balance = balance;
}

-- One cell changes, to `v`, which is right for its references and the debts that are left.
abbrev Right : Option FlowCtx → ℕ → Type 0
Right none n = n ≡ 0
Right (some c) n = (c.ref ≡ n) × (0 < c.ref) × (c.ref < 2 ^ 32 - 1)

Right-exact :
    (v : Option FlowCtx) (n : ℕ) (c : FlowCtx)
    → Right v n
    → v ≡ some c
    → (c.ref ≡ n) × (0 < c.ref) × (c.ref < 2 ^ 32 - 1)
Right-exact v n c r h = subst (λ x. Right x n) h r

Right-freed : (v : Option FlowCtx) (n : ℕ) → Right v n → v ≡ none → n ≡ 0
Right-freed v n r h = subst (λ x. Right x n) h r

pub Owes-set :
    (d d' : List ℕ) (s : Flows) (p : ℕ) (v : Option FlowCtx)
    → Owes d s
    → Right v (refs p s + occ p d')
    → ((q : ℕ) → q ≢ p → occ q d' ≡ occ q d)
    → Owes d' (record s { cells = set_at p v s.cells })
unfolding refs linked
Owes-set d d' s p v o right others = record {
  one = o.one;
  exact = λ q c h. (at q c h).0;
  alive = λ q c h. (at q c h).1;
  bounded = λ q c h. (at q c h).2;
  freed = λ q h. gone q h;
  balance = o.balance;
}
  where
    at :
        (q : ℕ) (c : FlowCtx)
        → set_at p v s.cells q ≡ some c
        → (c.ref ≡ refs q s + occ q d') × (0 < c.ref) × (c.ref < 2 ^ 32 - 1)
    at q c h = elim (ℕ_discrete q p) [
      | yes e ↦ rw e (Right-exact v _ c right (sym (set_here p v s.cells q e) ∙ h))
      | no other ↦
          let k = sym (set_away p v s.cells q other) ∙ h in
          (
            o.exact q c k ∙ ap (λ n. refs q s + n) (sym (others q other)),
            o.alive q c k,
            o.bounded q c k,
          )
    ]

    gone : (q : ℕ) → set_at p v s.cells q ≡ none → refs q s + occ q d' ≡ 0
    gone q h = elim (ℕ_discrete q p) [
      | yes e ↦ rw e (Right-freed v _ right (sym (set_here p v s.cells q e) ∙ h))
      | no other ↦
          ap (λ n. refs q s + n) (others q other)
          ∙ o.freed q (sym (set_away p v s.cells q other) ∙ h)
    ]

-- A release pays a debt, and frees the context with its last reference.
pub flow_release_lem :
    (p : ℕ) (d : List ℕ) (s : Flows)
    → Owes (p ∷ d) s
    → (s' : Flows) × (flow_release p (s.cells p) s ≡ some s') × Owes d s'
unfolding flow_release
flow_release_lem p d s o = elim (Option-cases (s.cells p)) [
  | inl gone ↦ absurd (omega (arith, o.freed p gone, occ_self p d))
  | inr (c, here) ↦
      let x = o.exact p c here in
      let y = occ_self p d in
      elim (Bool-cases (c.ref == 1)) [
        | inl last ↦ (
          record s { cells = set_at p none s.cells },
          rw (here, last) refl,
          Owes-set (p ∷ d) d s p none o (ground (arith, x, y, last)) (λ q h. sym (occ_ne p q d h)),
        )
        | inr more ↦ (
          record s {
            cells = set_at p (some (record c { ref = (c.ref + 2 ^ 32 - 1) % 2 ^ 32 })) s.cells;
          },
          rw (here, more) refl,
          Owes-set (p ∷ d) d s p (some (record c { ref = (c.ref + 2 ^ 32 - 1) % 2 ^ 32 })) o
              (lower c (o.alive p c here) (o.bounded p c here) more (x ∙ ap (λ n. refs p s + n) y))
              (λ q h. sym (occ_ne p q d h)),
        )
      ]
]
  where
    lower :
        (c : FlowCtx)
        → 0 < c.ref
        → c.ref < 2 ^ 32 - 1
        → (c.ref == 1) ≡ false
        → c.ref ≡ refs p s + suc (occ p d)
        → ((c.ref + 2 ^ 32 - 1) % 2 ^ 32 ≡ refs p s + occ p d)
          × (0 < (c.ref + 2 ^ 32 - 1) % 2 ^ 32)
          × ((c.ref + 2 ^ 32 - 1) % 2 ^ 32 < 2 ^ 32 - 1)
    lower c a b more e =
        let big : c.ref ≢ 1 = ground arith in
        let less : (c.ref + 2 ^ 32 - 1) % 2 ^ 32 ≡ c.ref - 1 = omega arith in
        (omega arith, omega arith, omega arith)
