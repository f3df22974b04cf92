-- ===== src/Packet/Flow/Laws/Safety.antt =====
-- Attaches, and the runs of the flow table.
use shinken_sentinel.Prelude.{
  ℕ, ◌+◌, ◌-◌, ◌%◌, ◌^◌, ◌≤◌, ◌<◌, ◌≡◌, ◌≢◌, refl, sym, ◌∙◌, subst, [], ◌∷◌, ◌++◌, Option, none,
  some, arith, length, length-append, ℕ_discrete, Option-cases, inl, inr,
}
use shinken_sentinel.Rules.Store.Safe.{occ}
use shinken_sentinel.Rules.Store.Sections.Readers.{occ_self, occ_ne}
use shinken_sentinel.Telemetry.Ring.{set_at}
use shinken_sentinel.Packet.Flow.{
  FlowCtx, Flows, no_flows, add_ref, link_or_reuse, flow_attach, attach_done, remove_pop, linked,
  refs, FlowStep, FlowSteps,
}
use shinken_sentinel.Packet.Flow.Laws.{Owes, Owes-move, Owes-set, occ_cons, occ-append}
use shinken_sentinel.Packet.Flow.Laws.Counts.{
  Settles, caller_release_lem, delete_notify_lem, attach_failed_lem, attach_done_lem,
  remove_pop_lem, remove_clear_lem, remove_answer_lem, table-Readable, flow_find_lem,
  remove_begin_lem,
}

nil_occ : (q : ℕ) → occ q [] ≡ 0
unfolding occ
nil_occ q = refl

-- An entry is used again: the caller's reference is counted.
pub reuse_lem :
    (old p : ℕ) (new : FlowCtx) (s : Flows)
    → Owes [] s
    → 0 < occ old s.table
    → refs old s < 2 ^ 32 - 2
    → Settles [] (link_or_reuse (some old) p new s)
unfolding link_or_reuse add_ref refs linked
reuse_lem old p new s o h few = elim (Option-cases (s.cells old)) [
  | inl gone ↦ absurd (omega (arith, o.freed old gone, h))
  | inr (c, here) ↦
      let up = record c { ref = (c.ref + 1) % 2 ^ 32 } in
      let x = o.exact old c here in
      let y = occ_self old [] in
      let n = nil_occ old in
      let counted : Owes (old ∷ []) (record s { cells = set_at old (some up) s.cells }) =
        Owes-set [] (old ∷ []) s old (some up) o (omega arith, omega arith, omega arith)
          (λ q other. occ_ne old q [] other) in
      (
        record s { callers = old ∷ s.callers; cells = set_at old (some up) s.cells },
        rw here refl,
        Owes-move (old ∷ []) [] (record s { cells = set_at old (some up) s.cells }) _ counted
            (λ q. refl) (λ q. omega (arith, occ_cons q old s.callers, nil_occ q)) o.one o.balance,
      )
]

-- A new context is linked, with the table's reference and the caller's.
pub link_lem :
    (p : ℕ) (new : FlowCtx) (s : Flows)
    → Owes [] s
    → s.cells p ≡ none
    → new.ref ≡ 2
    → Settles [] (link_or_reuse none p new s)
unfolding link_or_reuse refs linked
link_lem p new s o free two =
    let grown : length (s.table ++ p ∷ []) ≡ length s.table + 1 = length-append s.table (p ∷ []) in
    let none_yet = o.freed p free in
    let y = occ_self p [] in
    let z = occ_self p (p ∷ []) in
    let n = nil_occ p in
    let counted : Owes (p ∷ p ∷ []) (record s { cells = set_at p (some new) s.cells }) =
      Owes-set [] (p ∷ p ∷ []) s p (some new) o (omega arith, omega arith, omega arith)
        (λ q other. occ_ne p q (p ∷ []) other ∙ occ_ne p q [] other) in
    let linked_now = record s {
      cells = set_at p (some new) s.cells;
      table = s.table ++ p ∷ [];
      entries = (s.entries + 1) % 2 ^ 32;
      attaching = p ∷ s.attaching;
    } in
    (
      linked_now,
      refl,
      Owes-move (p ∷ p ∷ []) [] (record s { cells = set_at p (some new) s.cells }) linked_now
          counted (λ q. refl)
          (λ q. omega (
            arith,
            occ-append q s.table (p ∷ []),
            occ_cons q p s.attaching,
            occ_cons q p (p ∷ []),
            nil_occ q,
          ))
          (λ q. elim (ℕ_discrete q p) [
            | yes e ↦ rw e (omega (arith, occ-append p s.table (p ∷ [])))
            | no other ↦
                omega
                  (arith, occ-append q s.table (p ∷ []), o.one q, occ_ne p q [] other, nil_occ q)
          ])
          (omega (arith, o.balance)),
    )

flow_attach_lem :
    (p id layer callout : ℕ) (s : Flows)
    → Owes [] s
    → s.cells p ≡ none
    → ((q : ℕ) → refs q s < 2 ^ 32 - 2)
    → Settles [] (flow_attach p id layer callout s)
unfolding flow_attach
flow_attach_lem p id layer callout s o free few =
    elim (flow_find_lem s.cells id s.table (table-Readable s o)) [
      | inl none_ ↦ rw none_ (link_lem p _ s o free refl)
      | inr (old, found, h) ↦ rw found (reuse_lem old p _ s o h (few old))
    ]

FlowStep-Settles : {s : Flows} {r : Option Flows} → FlowStep s r → Owes [] s → Settles [] r
FlowStep-Settles {s} (FlowStep.attach p id layer callout free few) o =
    flow_attach_lem p id layer callout s o free few
FlowStep-Settles {s} (FlowStep.associated p h) o = (attach_done p s, refl, attach_done_lem p s o h)
FlowStep-Settles {s} (FlowStep.not_associated p h apart) o = attach_failed_lem p s o h apart
FlowStep-Settles {s} (FlowStep.released p h) o = caller_release_lem p s o h
FlowStep-Settles {s} (FlowStep.notified p) o = delete_notify_lem p s o
FlowStep-Settles {s} (FlowStep.begin_removal callout) o = remove_begin_lem callout s o
FlowStep-Settles {s} (FlowStep.take p h) o = (remove_pop p s, refl, remove_pop_lem p s o h)
FlowStep-Settles {s} (FlowStep.clear p h) o = remove_clear_lem p s o h
FlowStep-Settles {s} (FlowStep.answer ok p h) o = remove_answer_lem ok p s o h

Settled : Option Flows → Type 0
Settled none = ⊥
Settled (some s) = Owes [] s

FlowSteps-Settled : {s : Flows} {r : Option Flows} → FlowSteps s r → Owes [] s → Settled r
unfolding Settled
FlowSteps-Settled FlowSteps.start o = o
FlowSteps-Settled (FlowSteps.then_ run step) o =
    let (s', e, o') = FlowStep-Settles step (unfold Settled in FlowSteps-Settled run o) in
    subst Settled (sym e) o'

pub no_flows-Owes : Owes [] no_flows
unfolding refs linked occ
no_flows-Owes = record {
  one = λ p. omega arith;
  exact = λ p c h. cc;
  alive = λ p c h. cc;
  bounded = λ p c h. cc;
  freed = λ p h. refl;
  balance = refl;
}

pub run-Owes : {s : Flows} → FlowSteps no_flows (some s) → Owes [] s
run-Owes run = unfold Settled in FlowSteps-Settled run no_flows-Owes

-- What a run of the flow table comes to.
pub Counted : Option Flows → Type 0
Counted none = ⊥
Counted (some s) =
    ((p : ℕ) → 0 < refs p s → (c : FlowCtx) × (s.cells p ≡ some c) × (c.ref ≡ refs p s))
    × ((p : ℕ) (c : FlowCtx) → s.cells p ≡ some c → 0 < refs p s)
    × ((p : ℕ) → linked p s ≤ 1)

-- `g_SkFlowEntries` in every run in which no association fails between a removal's pop of its context and the
-- clearing of the link: with the failed attaches that found their context on a removal's list
-- added, it is the length of the table, in 32 bits; so where there were such failures, and fewer than
-- 2 ^ 32, it is not that length.
pub entries_short :
    {s : Flows}
    → FlowSteps no_flows (some s)
    → ((s.entries + s.slipped) % 2 ^ 32 ≡ length s.table % 2 ^ 32)
      × (0 < s.slipped → s.slipped < 2 ^ 32 → s.entries % 2 ^ 32 ≢ length s.table % 2 ^ 32)
entries_short {s} run =
    let o : Owes [] s = unfold Settled in FlowSteps-Settled run no_flows-Owes in
    let b = o.balance in (b, (λ some_ less same. omega arith))
