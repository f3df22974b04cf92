-- ===== src/Runtime/Objects/Laws.antt =====
-- What the retries end in, and what an object's history may be.
use shinken_sentinel.Prelude.{
  ℕ, zero, suc, ◌+◌, ◌≤◌, ◌<◌, ◌≡◌, ◌≢◌, ◌⊎◌, refl, sym, Bool, true, false, arith, inl, inr,
  Bool-cases, subst, ◌==◌, ==_iff, ℕ_discrete,
}
use shinken_sentinel.Status.{NtStatus, status_device_busy}
use shinken_sentinel.Runtime.Objects.{
  ObjectState, registered, delete_pending, deleted, leaked, WfpObject, is_leaked, is_off,
  is_deleted, callout_gone, destroyed, retry, unregister_by_id, unregister_by_key,
  injection_destroy,
}

-- How a loop ends: at the first answer other than busy, which confirms or not, or busy to the end.
abbrev pub BusyBefore : (ℕ → NtStatus) → ℕ → ℕ → Type 0
BusyBefore answers first j = (i : ℕ) → first ≤ i → i < j → answers i ≡ status_device_busy

-- What the round that ends the loop is told, and what it leaves.
abbrev pub Ending : (NtStatus → Bool) → (ℕ → NtStatus) → ℕ → ℕ → NtStatus × WfpObject → Type 0
Ending gone answers at last r =
    ((gone (answers at) ≡ true) × (r.1.state ≡ deleted) × (r.1.busy_retries ≡ at))
    ⊎ (((gone (answers at) ≡ false)
          × (answers at ≢ status_device_busy)
          × (r.1.state ≡ leaked)
          × (r.1.busy_retries ≡ at))
        ⊎ ((at ≡ last)
            × (answers at ≡ status_device_busy)
            × (r.1.state ≡ leaked)
            × (r.1.busy_retries ≡ at + 1)))

pub record RetryEnd (gone : NtStatus → Bool) (answers : ℕ → NtStatus) (first last : ℕ)
    (r : NtStatus × WfpObject) : Type 0 where
  pub at : ℕ
  pub from : first ≤ at
  pub to : at ≤ last
  pub busy : BusyBefore answers first at
  pub told : r.0 ≡ answers at
  pub recorded : r.1.last_status ≡ answers at
  pub outcome : Ending gone answers at last r

none_before : (answers : ℕ → NtStatus) (first : ℕ) → BusyBefore answers first first
none_before answers first i lo hi = absurd (omega arith)

BusyBefore-suc :
    (answers : ℕ → NtStatus) (first j : ℕ)
    → answers first ≡ status_device_busy
    → BusyBefore answers (first + 1) j
    → BusyBefore answers first j
BusyBefore-suc answers first j now later i lo hi = elim (ℕ_discrete i first) [
  | yes e ↦ rw e now
  | no other ↦ later i (omega arith) hi
]

-- The loop ends in its first round.
ends_now :
    (gone : NtStatus → Bool) (answers : ℕ → NtStatus) (at last : ℕ) (r : NtStatus × WfpObject)
    → at ≤ last
    → r.0 ≡ answers at
    → r.1.last_status ≡ answers at
    → Ending gone answers at last r
    → RetryEnd gone answers at last r
ends_now gone answers at last r le told recorded outcome = record {
  at = at;
  from = omega arith;
  to = le;
  busy = none_before answers at;
  told = told;
  recorded = recorded;
  outcome = outcome;
}

retry_lem :
    (gone : NtStatus → Bool) (answers : ℕ → NtStatus) (left attempt : ℕ) (o : WfpObject)
    → gone status_device_busy ≡ false
    → RetryEnd gone answers attempt (attempt + left) (retry gone answers left attempt o)
unfolding retry
retry_lem gone answers zero attempt o not_busy = elim (Bool-cases (gone (answers attempt))) [
  | inl confirmed ↦ rw confirmed (
      ends_now gone answers attempt (attempt + 0) _ (omega arith) refl refl
        (inl (confirmed, refl, refl)))
  | inr open_ ↦ elim (Bool-cases (answers attempt == status_device_busy)) [
    | inl busy ↦
        rw (open_, busy)
          (ends_now gone answers attempt (attempt + 0) _ (omega arith) refl refl
            (inr (inr (omega arith, (==_iff _ _).0 busy, refl, refl))))
    | inr other ↦
        rw (open_, other)
          (ends_now gone answers attempt (attempt + 0) _ (omega arith) refl refl
            (inr (inl (open_, (λ e. ground arith), refl, refl))))
  ]
]
retry_lem gone answers (suc left) attempt o not_busy = elim (Bool-cases (gone (answers attempt))) [
  | inl confirmed ↦ rw confirmed (
      ends_now gone answers attempt (attempt + suc left) _ (omega arith) refl refl
        (inl (confirmed, refl, refl)))
  | inr open_ ↦ elim (Bool-cases (answers attempt == status_device_busy)) [
    | inl busy ↦
        let r =
          retry_lem gone answers left (attempt + 1) (record o { last_status = answers attempt })
            not_busy in
        let same : attempt + 1 + left ≡ attempt + suc left = omega arith in
        rw (open_, busy)
          (record {
            at = r.at;
            from = omega (arith, r.from);
            to = omega (arith, r.to);
            busy = BusyBefore-suc answers attempt r.at ((==_iff _ _).0 busy) r.busy;
            told = r.told;
            recorded = r.recorded;
            outcome = rw (sym same) r.outcome;
          })
    | inr other ↦
        rw (open_, other)
          (ends_now gone answers attempt (attempt + suc left) _ (omega arith) refl refl
            (inr (inl (open_, (λ e. ground arith), refl, refl))))
  ]
]

-- On the books.
abbrev pub OnBooks : ObjectState → Type 0
OnBooks state = (state ≡ registered) ⊎ (state ≡ delete_pending)

pub retry_from_start :
    (gone : NtStatus → Bool) (answers : ℕ → NtStatus) (max : ℕ) (o : WfpObject)
    → gone status_device_busy ≡ false
    → RetryEnd gone answers 0 max (retry gone answers max 0 o)
retry_from_start gone answers max o h =
    let same : 0 + max ≡ max = omega arith in
    subst (λ last. RetryEnd gone answers 0 last (retry gone answers max 0 o)) same
      (retry_lem gone answers max 0 o h)

OnBooks-tests :
    (state : ObjectState)
    → OnBooks state
    → (is_off state ≡ false) × (is_leaked state ≡ false) × (is_deleted state ≡ false)
OnBooks-tests state h = ground arith

-- For an object on the books, the two unregistrations of a callout and the destruction of an
-- injection handle end within the retries that they are given: at the first answer that is not busy the
-- object is deleted if it confirms and leaked if not, and it is leaked if every answer is busy. The
-- answer, its round and the state are recorded in the object.
pub tracked_retries :
    (answers : ℕ → NtStatus) (max : ℕ) (o : WfpObject)
    → OnBooks o.state
    → RetryEnd callout_gone answers 0 max (unregister_by_id answers max o)
      × RetryEnd callout_gone answers 0 max (unregister_by_key answers max o)
      × RetryEnd destroyed answers 0 max (injection_destroy true answers max o)
unfolding unregister_by_id unregister_by_key injection_destroy
tracked_retries answers max o on =
    let (not_off, not_leaked, not_deleted) = OnBooks-tests o.state on in
    (
      rw (not_off, not_leaked) (retry_from_start callout_gone answers max o refl),
      rw (not_off, not_leaked) (retry_from_start callout_gone answers max o refl),
      rw (not_deleted, not_leaked) (retry_from_start destroyed answers max o refl),
    )
