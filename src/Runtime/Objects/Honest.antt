-- ===== src/Runtime/Objects/Honest.antt =====
-- What a call on a tracked object may do to its state.
use shinken_sentinel.Prelude.{
  ℕ, ◌≤◌, ◌<◌, ◌≡◌, ◌≢◌, refl, Bool, true, false, not, arith, inl, inr, ap, ◌==◌, ◌||◌, ◌&&◌,
  Option, none, some,
}
use shinken_sentinel.Status.{
  NtStatus, status_success, status_device_busy, fwp_filter_not_found, fwp_provider_not_found,
  fwp_sublayer_not_found,
}
use shinken_sentinel.Runtime.Objects.{
  deleted, leaked, WfpObject, is_leaked, is_deleted, is_off, callout_gone, destroyed, retry,
  unregister_by_id, unregister_by_key, injection_destroy, delete_filter_by_id, delete_filter_by_key,
  delete_callout_by_id, delete_callout_by_key, delete_provider_by_key, delete_sublayer_by_key,
  engine_close_tracked,
}
use shinken_sentinel.Runtime.Objects.Laws.{RetryEnd, retry_from_start}

-- The calls on an object, with the engine's answers.
pub data ObjectOp : Type 0 where
  op_unregister_by_id op_unregister_by_key : (ℕ → NtStatus) → ℕ → ObjectOp
  op_injection_destroy : Bool → (ℕ → NtStatus) → ℕ → ObjectOp
  op_filter_by_id op_filter_by_key op_callout_by_id op_callout_by_key op_provider op_sublayer
        op_engine_close :
      NtStatus → ObjectOp

abbrev pub run_op : ObjectOp → WfpObject → NtStatus × WfpObject
run_op (op_unregister_by_id answers max) o = unregister_by_id answers max o
run_op (op_unregister_by_key answers max) o = unregister_by_key answers max o
run_op (op_injection_destroy present answers max) o = injection_destroy present answers max o
run_op (op_filter_by_id st) o = delete_filter_by_id st o
run_op (op_filter_by_key st) o = delete_filter_by_key st o
run_op (op_callout_by_id st) o = delete_callout_by_id st o
run_op (op_callout_by_key st) o = delete_callout_by_key st o
run_op (op_provider st) o = delete_provider_by_key st o
run_op (op_sublayer st) o = delete_sublayer_by_key st o
run_op (op_engine_close st) o = engine_close_tracked st o

-- The statuses that confirm a deletion.
abbrev pub confirms : ObjectOp → NtStatus → Bool
confirms (op_unregister_by_id answers max) st = callout_gone st
confirms (op_unregister_by_key answers max) st = callout_gone st
confirms (op_injection_destroy present answers max) st = destroyed st
confirms (op_filter_by_id st') st = st == status_success || st == fwp_filter_not_found
confirms (op_filter_by_key st') st = st == status_success || st == fwp_filter_not_found
confirms (op_callout_by_id st') st = callout_gone st
confirms (op_callout_by_key st') st = callout_gone st
confirms (op_provider st') st = st == status_success || st == fwp_provider_not_found
confirms (op_sublayer st') st = st == status_success || st == fwp_sublayer_not_found
confirms (op_engine_close st') st = destroyed st

-- Whether the call is to reach the engine: not for an object that is leaked or deleted, nor where there is
-- nothing to name it by.
abbrev pub on_books : WfpObject → Bool
on_books o = not (is_leaked o.state) && not (is_deleted o.state)

abbrev has_key : Option ℕ → Bool
has_key none = false
has_key (some k) = true

abbrev pub reaches : ObjectOp → WfpObject → Bool
reaches (op_unregister_by_id answers max) o = not (is_leaked o.state) && not (is_off o.state)
reaches (op_unregister_by_key answers max) o = not (is_leaked o.state) && not (is_off o.state)
reaches (op_injection_destroy present answers max) o = present && on_books o
reaches (op_filter_by_id st) o = on_books o && not (o.filter_id == 0)
reaches (op_filter_by_key st) o = on_books o && has_key o.key
reaches (op_callout_by_id st) o = on_books o && not (o.id == 0)
reaches (op_callout_by_key st) o = on_books o && has_key o.key
reaches (op_provider st) o = on_books o && has_key o.key
reaches (op_sublayer st) o = on_books o && has_key o.key
reaches (op_engine_close st) o = not (is_leaked o.state)

-- A destruction without a handle.
abbrev pub no_handle : ObjectOp → Bool
no_handle (op_injection_destroy present answers max) = not present
no_handle _ = false

-- The engine's answer in a round, and the last round.
abbrev pub answer : ObjectOp → ℕ → NtStatus
answer (op_unregister_by_id answers max) i = answers i
answer (op_unregister_by_key answers max) i = answers i
answer (op_injection_destroy present answers max) i = answers i
answer (op_filter_by_id st) i = st
answer (op_filter_by_key st) i = st
answer (op_callout_by_id st) i = st
answer (op_callout_by_key st) i = st
answer (op_provider st) i = st
answer (op_sublayer st) i = st
answer (op_engine_close st) i = st

abbrev pub last_round : ObjectOp → ℕ
last_round (op_unregister_by_id answers max) = max
last_round (op_unregister_by_key answers max) = max
last_round (op_injection_destroy present answers max) = max
last_round _ = 0

-- The call heeds the answer of round `j`: it is returned and recorded, and the object is deleted where it
-- confirms the deletion and leaked where it does not.
pub record Heeded (op : ObjectOp) (r : NtStatus × WfpObject) (j : ℕ) : Type 0 where
  pub to : j ≤ last_round op
  pub busy : (i : ℕ) → i < j → answer op i ≡ status_device_busy
  pub told : r.0 ≡ answer op j
  pub recorded : r.1.last_status ≡ answer op j
  pub gone : confirms op (answer op j) ≡ true → r.1.state ≡ deleted
  pub stuck : confirms op (answer op j) ≡ false → r.1.state ≡ leaked

pub record HonestStep (op : ObjectOp) (o : WfpObject) (r : NtStatus × WfpObject) : Type 0 where
  pub turned_away :
      reaches op o ≡ false
      → (r.1 ≡ o)
        × (o.state ≡ leaked → no_handle op ≡ false → r.0 ≡ status_device_busy)
        × (o.state ≢ leaked → r.0 ≡ status_success)
        × (no_handle op ≡ true → r.0 ≡ status_success)
  pub heeded : reaches op o ≡ true → (j : ℕ) × Heeded op r j

end_Heeded :
    (op : ObjectOp) (r : NtStatus × WfpObject)
    → RetryEnd (confirms op) (answer op) 0 (last_round op) r
    → confirms op status_device_busy ≡ false
    → (j : ℕ) × Heeded op r j
end_Heeded op r e not_busy = (
  e.at,
  record {
    to = e.to;
    busy = λ i h. e.busy i (omega arith) h;
    told = e.told;
    recorded = e.recorded;
    gone = λ h. elim e.outcome [
      | inl (yes_, del, _) ↦ del
      | inr (inl (no_, _, leak, _)) ↦ absurd (ground (arith, h, no_))
      | inr (inr (_, busy, leak, _)) ↦ absurd (ground (arith, h, not_busy, ap (confirms op) busy))
    ];
    stuck = λ h. elim e.outcome [
      | inl (yes_, del, _) ↦ absurd (ground (arith, h, yes_))
      | inr (inl (no_, _, leak, _)) ↦ leak
      | inr (inr (_, _, leak, _)) ↦ leak
    ];
  },
)

-- A call that asks the engine once.
once :
    (op : ObjectOp) (r : NtStatus × WfpObject)
    → r.0 ≡ answer op 0
    → r.1.last_status ≡ answer op 0
    → (confirms op (answer op 0) ≡ true → r.1.state ≡ deleted)
    → (confirms op (answer op 0) ≡ false → r.1.state ≡ leaked)
    → (j : ℕ) × Heeded op r j
once op r told recorded gone stuck = (
  0,
  record {
    to = omega arith;
    busy = λ i h. absurd (omega arith);
    told = told;
    recorded = recorded;
    gone = gone;
    stuck = stuck;
  },
)

honest-delete_filter_by_id :
    (st : NtStatus) (o : WfpObject) → HonestStep (op_filter_by_id st) o (delete_filter_by_id st o)
unfolding delete_filter_by_id
honest-delete_filter_by_id st o = record {
  turned_away =
      λ h. (ground arith, (λ k l. ground arith), (λ k. ground arith), (λ k. ground arith));
  heeded = λ h.
      once (op_filter_by_id st) (delete_filter_by_id st o) (ground arith) (ground arith)
        (λ k. ground arith) (λ k. ground arith);
}

honest-delete_filter_by_key :
    (st : NtStatus) (o : WfpObject) → HonestStep (op_filter_by_key st) o (delete_filter_by_key st o)
unfolding delete_filter_by_key
honest-delete_filter_by_key st o = record {
  turned_away =
      λ h. (ground arith, (λ k l. ground arith), (λ k. ground arith), (λ k. ground arith));
  heeded = λ h.
      once (op_filter_by_key st) (delete_filter_by_key st o) (ground arith) (ground arith)
        (λ k. ground arith) (λ k. ground arith);
}

honest-delete_callout_by_id :
    (st : NtStatus) (o : WfpObject) → HonestStep (op_callout_by_id st) o (delete_callout_by_id st o)
unfolding delete_callout_by_id
honest-delete_callout_by_id st o = record {
  turned_away =
      λ h. (ground arith, (λ k l. ground arith), (λ k. ground arith), (λ k. ground arith));
  heeded = λ h.
      once (op_callout_by_id st) (delete_callout_by_id st o) (ground arith) (ground arith)
        (λ k. ground arith) (λ k. ground arith);
}

honest-delete_callout_by_key :
    (st : NtStatus) (o : WfpObject)
    → HonestStep (op_callout_by_key st) o (delete_callout_by_key st o)
unfolding delete_callout_by_key
honest-delete_callout_by_key st o = record {
  turned_away =
      λ h. (ground arith, (λ k l. ground arith), (λ k. ground arith), (λ k. ground arith));
  heeded = λ h.
      once (op_callout_by_key st) (delete_callout_by_key st o) (ground arith) (ground arith)
        (λ k. ground arith) (λ k. ground arith);
}

honest-delete_provider_by_key :
    (st : NtStatus) (o : WfpObject) → HonestStep (op_provider st) o (delete_provider_by_key st o)
unfolding delete_provider_by_key
honest-delete_provider_by_key st o = record {
  turned_away =
      λ h. (ground arith, (λ k l. ground arith), (λ k. ground arith), (λ k. ground arith));
  heeded = λ h.
      once (op_provider st) (delete_provider_by_key st o) (ground arith) (ground arith)
        (λ k. ground arith) (λ k. ground arith);
}

honest-delete_sublayer_by_key :
    (st : NtStatus) (o : WfpObject) → HonestStep (op_sublayer st) o (delete_sublayer_by_key st o)
unfolding delete_sublayer_by_key
honest-delete_sublayer_by_key st o = record {
  turned_away =
      λ h. (ground arith, (λ k l. ground arith), (λ k. ground arith), (λ k. ground arith));
  heeded = λ h.
      once (op_sublayer st) (delete_sublayer_by_key st o) (ground arith) (ground arith)
        (λ k. ground arith) (λ k. ground arith);
}

honest-engine_close_tracked :
    (st : NtStatus) (o : WfpObject) → HonestStep (op_engine_close st) o (engine_close_tracked st o)
unfolding engine_close_tracked
honest-engine_close_tracked st o = record {
  turned_away =
      λ h. (ground arith, (λ k l. ground arith), (λ k. ground arith), (λ k. ground arith));
  heeded = λ h.
      once (op_engine_close st) (engine_close_tracked st o) (ground arith) (ground arith)
        (λ k. ground arith) (λ k. ground arith);
}

honest-unregister_by_id :
    (answers : ℕ → NtStatus) (max : ℕ) (o : WfpObject)
    → HonestStep (op_unregister_by_id answers max) o (unregister_by_id answers max o)
unfolding unregister_by_id
honest-unregister_by_id answers max o = record {
  turned_away =
      λ h. (ground arith, (λ k l. ground arith), (λ k. ground arith), (λ k. ground arith));
  heeded = λ h.
      let run : unregister_by_id answers max o ≡ retry callout_gone answers max 0 o =
        ground arith in
      rw run (
        end_Heeded (op_unregister_by_id answers max) _
          (retry_from_start callout_gone answers max o refl) refl);
}

honest-unregister_by_key :
    (answers : ℕ → NtStatus) (max : ℕ) (o : WfpObject)
    → HonestStep (op_unregister_by_key answers max) o (unregister_by_key answers max o)
unfolding unregister_by_key
honest-unregister_by_key answers max o = record {
  turned_away =
      λ h. (ground arith, (λ k l. ground arith), (λ k. ground arith), (λ k. ground arith));
  heeded = λ h.
      let run : unregister_by_key answers max o ≡ retry callout_gone answers max 0 o =
        ground arith in
      rw run (
        end_Heeded (op_unregister_by_key answers max) _
          (retry_from_start callout_gone answers max o refl) refl);
}

honest-injection_destroy :
    (present : Bool) (answers : ℕ → NtStatus) (max : ℕ) (o : WfpObject)
    → HonestStep
        (op_injection_destroy present answers max)
        o
        (injection_destroy present answers max o)
unfolding injection_destroy
honest-injection_destroy present answers max o = record {
  turned_away =
      λ h. (ground arith, (λ k l. ground arith), (λ k. ground arith), (λ k. ground arith));
  heeded = λ h.
      let run : injection_destroy present answers max o ≡ retry destroyed answers max 0 o =
        ground arith in
      rw run (
        end_Heeded (op_injection_destroy present answers max) _
          (retry_from_start destroyed answers max o refl) refl);
}

-- Every call on a tracked object, for every answer of the engine. A call that is not to reach the engine, as
-- the object is leaked or deleted or has nothing to name it by, leaves the object as it is, and answers
-- STATUS_DEVICE_BUSY for a leaked object and success for another or where there is no handle. Every other call ends in one round: the
-- only one, or for the calls that retry the first within the retries behind answers of STATUS_DEVICE_BUSY
-- only. What the engine answers in that round is returned and recorded, and the object is marked
-- deleted where that is success or the status for no such object, and leaked where it is not.
pub every_step_honest : (op : ObjectOp) (o : WfpObject) → HonestStep op o (run_op op o)
every_step_honest (op_unregister_by_id answers max) o = honest-unregister_by_id answers max o
every_step_honest (op_unregister_by_key answers max) o = honest-unregister_by_key answers max o
every_step_honest (op_injection_destroy present answers max) o =
    honest-injection_destroy present answers max o
every_step_honest (op_filter_by_id st) o = honest-delete_filter_by_id st o
every_step_honest (op_filter_by_key st) o = honest-delete_filter_by_key st o
every_step_honest (op_callout_by_id st) o = honest-delete_callout_by_id st o
every_step_honest (op_callout_by_key st) o = honest-delete_callout_by_key st o
every_step_honest (op_provider st) o = honest-delete_provider_by_key st o
every_step_honest (op_sublayer st) o = honest-delete_sublayer_by_key st o
every_step_honest (op_engine_close st) o = honest-engine_close_tracked st o
