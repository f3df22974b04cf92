-- ===== src/Packet/Flow/Laws/Counts.antt =====
-- The steps on the table and the references that they move, step by step.
use shinken_sentinel.Prelude.{
  ℕ, ◌+◌, ◌-◌, ◌%◌, ◌^◌, ◌≤◌, ◌<◌, ◌≡◌, ◌⊎◌, refl, sym, subst, List, [], ◌∷◌, ◌++◌, Option, none,
  some, Bool, true, false, ◌==◌, arith, tests, length, length-append, Bool-cases, Option-cases, inl,
  inr,
}
use shinken_sentinel.Rules.Store.Safe.{occ}
use shinken_sentinel.Rules.Store.Sections.Readers.{drop_one, occ_self}
use shinken_sentinel.Packet.Flow.{
  FlowCtx, Flows, flow_release, flow_find, attach_done, is_in, attach_unlink, attach_failed,
  caller_release, delete_notify, split_callout, remove_begin, remove_pop, remove_clear,
  remove_answer, linked, refs,
}
use shinken_sentinel.Packet.Flow.Laws.{
  Owes, Owes-move, flow_release_lem, occ_cons, occ-append, traded, length-drop_one,
}

-- The operation has a result, which owes nothing.
abbrev pub Settles : List ℕ → Option Flows → Type 0
Settles d r = (s' : Flows) × (r ≡ some s') × Owes d s'

-- A release of `p` behind a change of the lists that leaves one reference of it too many.
release_after :
    (p : ℕ) (d : List ℕ) (s moved : Flows)
    → Owes d s
    → ((q : ℕ) → moved.cells q ≡ s.cells q)
    → ((q : ℕ) → refs q moved + occ q (p ∷ []) ≡ refs q s)
    → ((q : ℕ) → linked q moved ≤ linked q s)
    → (moved.entries + moved.slipped) % 2 ^ 32 ≡ length moved.table % 2 ^ 32
    → Settles d (flow_release p (moved.cells p) moved)
release_after p d s moved o same total fewer balance = flow_release_lem p d moved (
    Owes-move d (p ∷ d) s moved o same (λ q. omega (arith, total q, occ_cons q p d))
      (λ q. omega (arith, fewer q, o.one q)) balance)

pub caller_release_lem :
    (p : ℕ) (s : Flows) → Owes [] s → 0 < occ p s.callers → Settles [] (caller_release p s)
unfolding caller_release refs linked
caller_release_lem p s o h =
    release_after p [] s (record s { callers = drop_one p s.callers }) o (λ q. refl)
      (λ q. omega (arith, traded p q s.callers h)) (λ q. omega arith) o.balance

-- An entry of the table is unlinked and its reference given back.
unlink_lem :
    (p : ℕ) (s : Flows)
    → Owes [] s
    → 0 < occ p s.table
    → Settles [] (
        flow_release p
          (s.cells p)
          (record s { table = drop_one p s.table; entries = (s.entries + 2 ^ 32 - 1) % 2 ^ 32 }))
unfolding refs linked
unlink_lem p s o h =
    release_after p [] s
      (record s { table = drop_one p s.table; entries = (s.entries + 2 ^ 32 - 1) % 2 ^ 32 }) o
      (λ q. refl) (λ q. omega (arith, traded p q s.table h))
      (λ q. omega (arith, traded p q s.table h))
      (omega (arith, length-drop_one p s.table h, o.balance))

pub delete_notify_lem : (p : ℕ) (s : Flows) → Owes [] s → Settles [] (delete_notify p s)
unfolding delete_notify
delete_notify_lem p s o = elim (Bool-cases (is_in p s.table)) [
  | inl here ↦ rw here (unlink_lem p s o (omega tests))
  | inr gone ↦ rw gone (s, refl, o)
]

unslip_lem :
    (p : ℕ) (s : Flows)
    → Owes [] s
    → 0 < occ p s.stale
    → Settles [] (
        flow_release p (s.cells p) (record s {
          stale = drop_one p s.stale;
          entries = (s.entries + 2 ^ 32 - 1) % 2 ^ 32;
          slipped = s.slipped + 1;
        }))
unfolding refs linked
unslip_lem p s o h =
    release_after p [] s
      (record s {
        stale = drop_one p s.stale;
        entries = (s.entries + 2 ^ 32 - 1) % 2 ^ 32;
        slipped = s.slipped + 1;
      })
      o (λ q. refl) (λ q. omega (arith, traded p q s.stale h))
      (λ q. omega (arith, traded p q s.stale h)) (omega (arith, o.balance))

-- The callers and the attaches are not changed by the unlinking.
flow_release_keeps :
    (p : ℕ) (v : Option FlowCtx) (s s' : Flows)
    → flow_release p v s ≡ some s'
    → s'.attaching ≡ s.attaching
unfolding flow_release
flow_release_keeps p none s s' h = cc
flow_release_keeps p (some c) s s' h = elim (Bool-cases (c.ref == 1)) [
  | inl last ↦ ground arith
  | inr more ↦ ground arith
]

attach_unlink_lem :
    (p : ℕ) (s : Flows)
    → Owes [] s
    → occ p s.popped ≡ 0
    → (s' : Flows) × (attach_unlink p s ≡ some s') × Owes [] s' × (s'.attaching ≡ s.attaching)
unfolding attach_unlink
attach_unlink_lem p s o apart = elim (Bool-cases (is_in p s.table)) [
  | inl here ↦
      let (s', e, o') = unlink_lem p s o (omega tests) in
      (s', rw here e, o', flow_release_keeps p (s.cells p) _ s' e)
  | inr gone ↦ elim (Bool-cases (is_in p s.stale)) [
    | inl there ↦
        let (s', e, o') = unslip_lem p s o (omega tests) in
        (s', rw (gone, there) e, o', flow_release_keeps p (s.cells p) _ s' e)
    | inr off ↦
        let none_popped : is_in p s.popped ≡ false = ground (arith, apart) in
        (s, rw (gone, off, none_popped) refl, o, refl)
  ]
]

pub attach_failed_lem :
    (p : ℕ) (s : Flows)
    → Owes [] s
    → 0 < occ p s.attaching
    → occ p s.popped ≡ 0
    → Settles [] (attach_failed p s)
unfolding attach_failed refs linked
attach_failed_lem p s o h apart =
    let (s', e, o', same) = attach_unlink_lem p s o apart in
    let h' : 0 < occ p s'.attaching = subst (λ l. 0 < occ p l) (sym same) h in
    rw e (
      release_after p [] s' (record s' { attaching = drop_one p s'.attaching }) o' (λ q. refl)
        (λ q. omega (arith, traded p q s'.attaching h')) (λ q. omega arith) o'.balance)

pub attach_done_lem :
    (p : ℕ) (s : Flows) → Owes [] s → 0 < occ p s.attaching → Owes [] (attach_done p s)
unfolding attach_done refs linked
attach_done_lem p s o h =
    Owes-move [] [] s _ o (λ q. refl)
      (λ q. omega (arith, traded p q s.attaching h, occ_cons q p s.callers)) o.one o.balance

pub remove_pop_lem : (p : ℕ) (s : Flows) → Owes [] s → 0 < occ p s.stale → Owes [] (remove_pop p s)
unfolding remove_pop refs linked
remove_pop_lem p s o h =
    Owes-move [] [] s _ o (λ q. refl)
      (λ q. omega (arith, traded p q s.stale h, occ_cons q p s.popped))
      (λ q. omega (arith, traded p q s.stale h, occ_cons q p s.popped, o.one q)) o.balance

pub remove_clear_lem :
    (p : ℕ) (s : Flows) → Owes [] s → 0 < occ p s.popped → Settles [] (remove_clear p s)
unfolding remove_clear refs linked
remove_clear_lem p s o h = elim (Option-cases (s.cells p)) [
  | inl gone ↦ absurd (omega (arith, o.freed p gone, h))
  | inr (c, here) ↦
      let next = record s { popped = drop_one p s.popped; in_hand = p ∷ s.in_hand } in
      (
        next,
        rw here refl,
        Owes-move [] [] s next o (λ q. refl)
            (λ q. omega (arith, traded p q s.popped h, occ_cons q p s.in_hand))
            (λ q. omega (arith, traded p q s.popped h, occ_cons q p s.in_hand, o.one q)) o.balance,
      )
]

pub remove_answer_lem :
    (ok : Bool) (p : ℕ) (s : Flows)
    → Owes [] s
    → 0 < occ p s.in_hand
    → Settles [] (remove_answer ok p s)
unfolding remove_answer refs linked
remove_answer_lem true p s o h =
    release_after p [] s (record s { in_hand = drop_one p s.in_hand }) o (λ q. refl)
      (λ q. omega (arith, traded p q s.in_hand h)) (λ q. omega (arith, traded p q s.in_hand h))
      o.balance
remove_answer_lem false p s o h =
    let grown : length (s.table ++ p ∷ []) ≡ length s.table + 1 = length-append s.table (p ∷ []) in
    let back = record s {
      in_hand = drop_one p s.in_hand;
      table = s.table ++ p ∷ [];
      entries = (s.entries + 1) % 2 ^ 32;
    } in
    (
      back,
      refl,
      Owes-move [] [] s back o (λ q. refl)
          (λ q. omega (arith, traded p q s.in_hand h, occ-append q s.table (p ∷ [])))
          (λ q. omega (arith, traded p q s.in_hand h, occ-append q s.table (p ∷ []), o.one q))
          (omega (arith, grown, o.balance)),
    )

-- Every context on a list is there to be read.
pub Readable : (ℕ → Option FlowCtx) → List ℕ → Type 0
Readable cells l = (p : ℕ) → 0 < occ p l → (c : FlowCtx) × (cells p ≡ some c)

pub table-Readable : (s : Flows) → Owes [] s → Readable s.cells s.table
unfolding Readable refs linked
table-Readable s o p h = elim (Option-cases (s.cells p)) [
  | inl gone ↦ absurd (omega (arith, o.freed p gone, h))
  | inr here ↦ here
]

rest-Readable :
    (cells : ℕ → Option FlowCtx) (p : ℕ) (l : List ℕ) → Readable cells (p ∷ l) → Readable cells l
unfolding Readable
rest-Readable cells p l r q h = r q (omega (arith, occ_cons q p l, h))

head-Readable :
    (cells : ℕ → Option FlowCtx) (p : ℕ) (l : List ℕ)
    → Readable cells (p ∷ l)
    → (c : FlowCtx) × (cells p ≡ some c)
unfolding Readable
head-Readable cells p l r = r p (omega (arith, occ_self p l))

pub flow_find_lem :
    (cells : ℕ → Option FlowCtx) (id : ℕ) (l : List ℕ)
    → Readable cells l
    → (flow_find cells id l ≡ some none)
      ⊎ ((p : ℕ) × (flow_find cells id l ≡ some (some p)) × (0 < occ p l))
unfolding flow_find
flow_find_lem cells id [] r = inl refl
flow_find_lem cells id (p ∷ l) r =
    let (c, here) = head-Readable cells p l r in
    elim (Bool-cases (c.flow_id == id)) [
      | inl same ↦ inr (p, rw (here, same) refl, omega (arith, occ_self p l))
      | inr other ↦ elim (flow_find_lem cells id l (rest-Readable cells p l r)) [
        | inl none_ ↦ inl (rw (here, other) none_)
        | inr (q, found, h) ↦ inr (q, rw (here, other) found, omega (arith, occ_cons q p l, h))
      ]
    ]

Split : List ℕ → Option (List ℕ × List ℕ) → Type 0
Split l r =
    (kept taken : List ℕ) × (r ≡ some (kept, taken))
    × ((q : ℕ) → occ q kept + occ q taken ≡ occ q l)
    × (length kept + length taken ≡ length l)

split_callout_lem :
    (cells : ℕ → Option FlowCtx) (callout : ℕ) (l : List ℕ)
    → Readable cells l
    → Split l (split_callout cells callout l)
unfolding Split split_callout
split_callout_lem cells callout [] r = ([], [], refl, (λ q. unfold occ in refl), refl)
split_callout_lem cells callout (p ∷ l) r =
    let (c, here) = head-Readable cells p l r in
    let (kept, taken, e, same, size) =
      split_callout_lem cells callout l (rest-Readable cells p l r) in
    elim (Bool-cases (c.callout_id == callout)) [
      | inl match ↦ (
        kept,
        p ∷ taken,
        rw (here, e, match) refl,
        (λ q. omega (arith, same q, occ_cons q p taken, occ_cons q p l)),
        omega (arith, size),
      )
      | inr other ↦ (
        p ∷ kept,
        taken,
        rw (here, e, other) refl,
        (λ q. omega (arith, same q, occ_cons q p kept, occ_cons q p l)),
        omega (arith, size),
      )
    ]

pub remove_begin_lem : (callout : ℕ) (s : Flows) → Owes [] s → Settles [] (remove_begin callout s)
unfolding remove_begin refs linked Split
remove_begin_lem callout s o =
    let (kept, taken, e, same, size) =
      split_callout_lem s.cells callout s.table (table-Readable s o) in
    let moved = record s {
      table = kept;
      stale = s.stale ++ taken;
      entries = (s.entries + 2 ^ 32 - length taken % 2 ^ 32) % 2 ^ 32;
    } in
    (
      moved,
      rw e refl,
      Owes-move [] [] s moved o (λ q. refl) (λ q. omega (arith, same q, occ-append q s.stale taken))
          (λ q. omega (arith, same q, occ-append q s.stale taken, o.one q))
          (omega (arith, size, o.balance)),
    )
