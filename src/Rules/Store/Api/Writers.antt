-- ===== src/Rules/Store/Api/Writers.antt =====
-- What each call of the writer API returns, and what the store then shows.

use shinken_sentinel.Prelude.{
  ℕ, ◌≡◌, ◌⊎◌, refl, sym, ◌∙◌, ap, subst, List, Option, none, some, Bool, true, false, arith, inl,
  inr, Bool-cases,
}
use shinken_sentinel.Status.{NtStatus, nt_success, status_success, status_insufficient_resources}
use shinken_sentinel.Rules.Types.{Rule}
use shinken_sentinel.Rules.Rate.{rate_reset}
use shinken_sentinel.Rules.Snapshot.{Snapshot}
use shinken_sentinel.Rules.Store.{Store, ◌>>=◌, writable, publish}
use shinken_sentinel.Rules.Store.View.{Content, content, shown, view, published_view}
use shinken_sentinel.Rules.Store.Safe.{Good, Safe}
use shinken_sentinel.Rules.Store.Sections.Publish.{
  publish_lem, writable-current, content_of, Safe-aside,
}
use shinken_sentinel.Rules.Store.Api.{Plan, run_plan, plan_cell, plan_at, writer, reset_after}

-- A safe store that may be written and shows `old`.
pub record Ready (held : List ℕ) (s : Store) (old : Content) : Type 0 where
  pub safe : Safe held s
  pub open_ : writable s ≡ true
  pub shows : (view s).now ≡ some old

-- A call's result: refused, with nothing changed; out of memory, with nothing changed; or done, with
-- a new rule set that `Allowed` describes published over what was shown.
abbrev pub Outcome :
    List ℕ
    → Store
    → Content
    → Option NtStatus
    → Bool
    → (List Rule → ℕ → Type 0)
    → Option (NtStatus × Store)
    → Type 0
Outcome held s old refusal memory Allowed result =
    ((st : NtStatus) × (refusal ≡ some st) × (result ≡ some (st, s)))
    ⊎ (((refusal ≡ none) × (memory ≡ false) × (result ≡ some (status_insufficient_resources, s)))
        ⊎ ((refusal ≡ none)
            × (memory ≡ true)
            × ((s' : Store) × (rules : List Rule) × (policy : ℕ) × (result
                  ≡ some (status_success, s'))
                × Safe held s'
                × (view s' ≡ published_view rules policy old)
                × Allowed rules policy)))

-- The frame's computation on the content that is shown.
record Opened (held : List ℕ) (s : Store) (old : Content) : Type 0 where
  c : ℕ
  snap : Snapshot
  at : s.current ≡ some c
  here : s.cells c ≡ some snap
  good : Good old.rules
  same : content_of snap ≡ old

some_content : (a b : Content) → some a ≡ some b → a ≡ b
some_content a b h = ground arith

opened : (held : List ℕ) (s : Store) (old : Content) → Ready held s old → Opened held s old
unfolding shown
opened held s old ready =
    let (c, snap, at, e, good) = writable-current held s ready.safe ready.open_ in
    let seen : (view s).now ≡ some (content_of snap) = ap (shown s.cells) at ∙ ap content e in
    let same : content_of snap ≡ old =
      some_content (content_of snap) old (sym seen ∙ ready.shows) in
    record {
      c = c;
      snap = snap;
      at = at;
      here = e;
      good = subst (λ o. Good o.rules) same good;
      same = same;
    }

module _ (held : List ℕ) (s : Store) (old : Content) (ready : Ready held s old) (snap_ok : Bool)
    (plan : Content → Plan) where
  pub Ready-Good : Good old.rules
  Ready-Good = (opened held s old ready).good

  writer_step : writer snap_ok plan s ≡ run_plan snap_ok (plan old) s
  unfolding writer plan_at plan_cell
  writer_step =
      let o = opened held s old ready in
      rw ready.open_ (
        ap (λ x. plan_at snap_ok plan x s) o.at
        ∙ ap (λ v. plan_cell snap_ok plan v s) o.here
        ∙ ap (λ x. run_plan snap_ok (plan x) s) o.same)

  pub writer_refuses :
      (st : NtStatus) → plan old ≡ Plan.refuse st → writer snap_ok plan s ≡ some (st, s)
  unfolding run_plan
  writer_refuses st h = writer_step ∙ rw h refl

  pub writer_starves :
      (rules : List Rule) (policy : ℕ)
      → plan old ≡ Plan.commit rules policy
      → snap_ok ≡ false
      → writer snap_ok plan s ≡ some (status_insufficient_resources, s)
  unfolding run_plan publish
  writer_starves rules policy h k = writer_step ∙ rw (h, k) refl

  pub writer_commits :
      (rules : List Rule) (policy : ℕ)
      → plan old ≡ Plan.commit rules policy
      → snap_ok ≡ true
      → Good rules
      → (s' : Store) × (writer snap_ok plan s ≡ some (status_success, s'))
        × Safe held s'
        × (view s' ≡ published_view rules policy old)
  unfolding run_plan
  writer_commits rules policy h k good =
      let o = opened held s old ready in
      let (s', same, p) =
        publish_lem held s rules policy o.c o.snap ready.safe good ready.open_ o.at o.here in
      (s', writer_step ∙ rw (h, k) same, p.safe, p.shows ∙ ap (published_view rules policy) o.same)

  -- The plan alone decides the outcome.
  pub writer_lem :
      (refusal : Option NtStatus) (memory : Bool) (Allowed : List Rule → ℕ → Type 0)
      → ((st : NtStatus) × (refusal ≡ some st) × (plan old ≡ Plan.refuse st))
        ⊎ (((refusal ≡ none)
              × (memory ≡ false)
              × (plan old ≡ Plan.refuse status_insufficient_resources))
            ⊎ ((refusal ≡ none)
                × (memory ≡ snap_ok)
                × ((rules : List Rule) × (policy : ℕ) × (plan old ≡ Plan.commit rules policy)
                    × Good rules
                    × Allowed rules policy)))
      → Outcome held s old refusal memory Allowed (writer snap_ok plan s)
  writer_lem refusal memory Allowed (inl (st, r, h)) = inl (st, r, writer_refuses st h)
  writer_lem refusal memory Allowed (inr (inl (r, m, h))) =
      inr (inl (r, m, writer_refuses status_insufficient_resources h))
  writer_lem refusal memory Allowed (inr (inr (r, m, (rules, policy, h, good, allowed)))) =
      elim (Bool-cases snap_ok) [
        | inl got ↦
            let (s', done, safe, shows) = writer_commits rules policy h got good in
            inr (inr (r, m ∙ got, (s', rules, policy, done, safe, shows, allowed)))
        | inr lacks ↦ inr (inl (r, m ∙ lacks, writer_starves rules policy h lacks))
      ]

error_reset :
    (id : ℕ) (st : NtStatus) (s : Store)
    → nt_success st ≡ false
    → reset_after id (st, s) ≡ some (st, s)
unfolding reset_after
error_reset id st s h = rw h refl

-- A rate reset after the call changes no outcome.
pub Outcome-reset :
    (held : List ℕ) (s : Store) (old : Content) (refusal : Option NtStatus) (memory : Bool)
    (Allowed : List Rule → ℕ → Type 0) (result : Option (NtStatus × Store)) (id : ℕ)
    → ((st : NtStatus) → refusal ≡ some st → nt_success st ≡ false)
    → Outcome held s old refusal memory Allowed result
    → Outcome held s old refusal memory Allowed (result >>= reset_after id)
unfolding reset_after
Outcome-reset held s old refusal memory Allowed result id err (inl (st, r, h)) =
    inl (st, r, rw h (error_reset id st s (err st r)))
Outcome-reset held s old refusal memory Allowed result id err (inr (inl (r, m, h))) =
    inr (inl (r, m, rw h refl))
Outcome-reset held s old refusal memory Allowed result id err
      (inr (inr (r, m, (s', rules, policy, h, safe, shows, allowed)))) =
    inr (
      inr (
        r,
        m,
        (
          record s' { table = rate_reset id s'.table },
          rules,
          policy,
          rw h refl,
          Safe-aside held s' (rate_reset id s'.table) s'.runtime safe,
          shows,
          allowed,
        ),
      ))
