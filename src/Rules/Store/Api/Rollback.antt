-- ===== src/Rules/Store/Api/Rollback.antt =====
-- `SkRuleStoreRollback` on every branch, and as the inverse of a publication.
use shinken_sentinel.Prelude.{
  ℕ, ◌+◌, ◌≡◌, ◌⊎◌, refl, sym, ◌∙◌, ap, subst, List, Option, none, some, Bool, true, false, ◌==◌,
  arith, length, inl, inr, Bool-cases, not, ◌&&◌, ◌||◌,
}
use shinken_sentinel.Status.{
  NtStatus, status_success, status_insufficient_resources, status_not_found,
}
use shinken_sentinel.Runtime.State.{is_active}
use shinken_sentinel.Rules.Types.{Rule}
use shinken_sentinel.Rules.Rate.{u64}
use shinken_sentinel.Rules.Snapshot.{Snapshot}
use shinken_sentinel.Rules.Store.{
  Store, ◌>>=◌, writable, publish, retire_drain, retire_drain_retries, swap_back,
}
use shinken_sentinel.Rules.Store.View.{Content, content, shown, view, published_view, rolled_back}
use shinken_sentinel.Rules.Store.Safe.{Good, Live, OnSlot, Safe}
use shinken_sentinel.Rules.Store.Sections.Drain.{retire_drain_lem}
use shinken_sentinel.Rules.Store.Sections.Publish.{
  publish_lem, Live-content, writable-current, content_of,
}
use shinken_sentinel.Rules.Store.Sections.Back.{swap_back_lem}
use shinken_sentinel.Rules.Store.Api.{rollback_cell, rollback_at, rollback}
use shinken_sentinel.Rules.Store.Api.Writers.{Ready}

-- Whether there is memory for the copy of a slot.
abbrev pub copy_memory : Bool → Bool → Content → Bool
copy_memory array_ok snap_ok slot = (length slot.rules == 0 || array_ok) && snap_ok

some_content : (a b : Content) → some a ≡ some b → a ≡ b
some_content a b h = ground arith

-- The outcome of a rollback to `slot`.
abbrev pub RollbackTo :
    List ℕ → Store → Content → Content → Bool → Option (NtStatus × Store) → Type 0
RollbackTo held s old slot memory result =
    ((memory ≡ false) × (result ≡ some (status_insufficient_resources, s)))
    ⊎ ((memory ≡ true)
        × ((s' : Store) × (result ≡ some (status_success, s'))
            × Safe held s'
            × (view s' ≡ rolled_back old slot)))

module _ (held : List ℕ) (s : Store) (old : Content) (ready : Ready held s old) where
  drained_back :
      (r : ℕ) (snap : Snapshot)
      → s.rollback ≡ some r
      → s.cells r ≡ some snap
      → Good snap.rules
      → (s' : Store) × ((retire_drain retire_drain_retries s >>= swap_back r)
          ≡ some (status_success, s'))
        × Safe held s'
        × (view s' ≡ rolled_back old (content_of snap))
  unfolding writable shown
  drained_back r snap at' e' good' =
      let (cells, kept, same, safe', lives) =
        retire_drain_lem retire_drain_retries held s ready.safe in
      let (c, cur, at, e, good) = writable-current held s ready.safe ready.open_ in
      let live : Live s.cells c = subst (OnSlot (Live s.cells)) at ready.safe.current_live in
      let live' : Live s.cells r = subst (OnSlot (Live s.cells)) at' ready.safe.rollback_live in
      let drained : Store = record s { cells = cells; retire = kept } in
      let seen : (view s).now ≡ some (content_of cur) = ap (shown s.cells) at ∙ ap content e in
      let is_old : content_of cur ≡ old =
        some_content (content_of cur) old (sym seen ∙ ready.shows) in
      let (s', done, p) =
        swap_back_lem held drained c r cur snap safe' ready.open_ at at' (lives c live ∙ e)
          (lives r live' ∙ e') good' in
      (s', rw same done, p.safe, p.shows ∙ ap (λ o. rolled_back o (content_of snap)) is_old)

module _ (held : List ℕ) (s : Store) (old : Content) (ready : Ready held s old)
    (array_ok snap_ok : Bool) where
  rollback_cell_lem :
      (r : ℕ) (snap : Snapshot)
      → s.rollback ≡ some r
      → s.cells r ≡ some snap
      → Good snap.rules
      → RollbackTo held s old
          (content_of snap)
          (copy_memory array_ok snap_ok (content_of snap))
          (rollback_cell array_ok snap_ok r (some snap) s)
  unfolding rollback_cell
  rollback_cell_lem r snap at' e' good' = elim (Bool-cases (length snap.rules == 0 || array_ok)) [
    | inr lacks ↦
        let a : (length snap.rules == 0) ≡ false = ground arith in
        let b : array_ok ≡ false = ground arith in inl (rw (a, b) refl, rw (a, b) refl)
    | inl fits ↦
        let guard : (not (length snap.rules == 0) && not array_ok) ≡ false = ground arith in
        elim (Bool-cases snap_ok) [
          | inr lacks ↦ inl (rw (fits, lacks) refl, rw (guard, lacks) refl)
          | inl got ↦
              let (s', done, safe, shows) = drained_back held s old ready r snap at' e' good' in
              inr (rw (fits, got) refl, (s', rw (guard, got) done, safe, shows))
        ]
  ]

  rollback_at_lem :
      (o : Option ℕ)
      → s.rollback ≡ o
      → ((shown s.cells o ≡ none) × (rollback_at array_ok snap_ok o s ≡ some (status_not_found, s)))
        ⊎ ((slot : Content) × (shown s.cells o ≡ some slot)
            × RollbackTo held s old slot
                (copy_memory array_ok snap_ok slot)
                (rollback_at array_ok snap_ok o s))
  unfolding rollback_at shown
  rollback_at_lem none at' = inl (refl, refl)
  rollback_at_lem (some r) at' =
      let (snap, e', good') =
        Live-content s.cells r (subst (OnSlot (Live s.cells)) at' ready.safe.rollback_live) in
      inr (
        content_of snap,
        ap content e',
        subst
            (RollbackTo held s old (content_of snap)
              (copy_memory array_ok snap_ok (content_of snap)))
            (ap (λ v. rollback_cell array_ok snap_ok r v s) (sym e'))
            (rollback_cell_lem r snap at' e' good'),
      )

  rollback_step : rollback array_ok snap_ok s ≡ rollback_at array_ok snap_ok s.rollback s
  unfolding rollback
  rollback_step = rw ready.open_ refl

  -- `SkRuleStoreRollback` on a store that may be written: without a previous version the answer is
  -- STATUS_NOT_FOUND, without memory STATUS_INSUFFICIENT_RESOURCES, and nothing changes; otherwise the
  -- previous rules and policy are shown under the next version, and there is no way further back.
  pub rollback_outcome :
      (((view s).previous ≡ none) × (rollback array_ok snap_ok s ≡ some (status_not_found, s)))
      ⊎ ((slot : Content) × ((view s).previous ≡ some slot)
          × RollbackTo held s old slot
              (copy_memory array_ok snap_ok slot)
              (rollback array_ok snap_ok s))
  rollback_outcome = elim (rollback_at_lem s.rollback refl) [
    | inl (gone, same) ↦ inl (gone, rollback_step ∙ same)
    | inr (slot, seen, done) ↦ inr (
      slot,
      seen,
      subst (RollbackTo held s old slot (copy_memory array_ok snap_ok slot)) (sym rollback_step)
          done,
    )
  ]

memory_full : (slot : Content) → copy_memory true true slot ≡ true
memory_full slot = ground arith

now-old :
    (s : Store) (old : Content) (c : ℕ) (cur : Snapshot)
    → s.current ≡ some c
    → s.cells c ≡ some cur
    → (view s).now ≡ some old
    → content_of cur ≡ old
unfolding shown
now-old s old c cur at e shows =
    some_content (content_of cur) old (sym (ap (shown s.cells) at ∙ ap content e) ∙ shows)

still_open :
    (s s' : Store)
    → s'.inited ≡ s.inited
    → s'.closed ≡ s.closed
    → s'.runtime ≡ s.runtime
    → writable s ≡ true
    → writable s' ≡ true
unfolding writable
still_open s s' i c r h =
    ap (λ x. x && (not s'.closed && is_active s'.runtime.state)) i
    ∙ ap (λ x. s.inited && (not x && is_active s'.runtime.state)) c
    ∙ ap (λ x. s.inited && (not s.closed && is_active x.state)) r
    ∙ h

-- What is shown after a publication and its rollback: the old rules and policy, two versions on.
abbrev pub undone : Content → Content
undone old = record {
  rules = old.rules;
  version = u64 (u64 (old.version + 1) + 1);
  policy = old.policy;
}

-- A rollback with memory undoes the publication of any good rule set and policy before it: the old
-- rules and policy are shown again, under a version two higher.
pub rollback_undoes_publish :
    (held : List ℕ) (s : Store) (old : Content) (rules : List Rule) (policy : ℕ)
    → Ready held s old
    → Good rules
    → (s1 : Store) × (s2 : Store) × (publish true rules policy s ≡ some (status_success, s1))
      × (rollback true true s1 ≡ some (status_success, s2))
      × ((view s2).now ≡ some (undone old))
rollback_undoes_publish held s old rules policy ready good =
    let (c, cur, at, e, _) = writable-current held s ready.safe ready.open_ in
    let is_old = now-old s old c cur at e ready.shows in
    let (s1, done, p) = publish_lem held s rules policy c cur ready.safe good ready.open_ at e in
    let shows : view s1 ≡ published_view rules policy old =
      p.shows ∙ ap (published_view rules policy) is_old in
    let new : Content = record {
      rules = rules;
      version = u64 (old.version + 1);
      policy = policy;
    } in
    let ready1 : Ready held s1 new = record {
      safe = p.safe;
      open_ = still_open s s1 p.inited p.closed p.runtime ready.open_;
      shows = ap (λ v. v.now) shows;
    } in
    let previous : (view s1).previous ≡ some old = ap (λ v. v.previous) shows in
    elim (rollback_outcome held s1 new ready1 true true) [
      | inl (gone, _) ↦ absurd (ground arith)
      | inr (slot, seen, inl (lacks, _)) ↦
          let full : copy_memory true true slot ≡ true = memory_full slot in absurd (ground arith)
      | inr (slot, seen, inr (_, (s2, done2, safe2, shows2))) ↦
          let same : slot ≡ old = some_content slot old (sym seen ∙ previous) in
          (s1, s2, done, done2, ap (λ v. v.now) shows2 ∙ ap (λ o. (rolled_back new o).now) same)
    ]
