-- ===== src/Wfp/Objects.antt =====
-- wfp/wfp_objects.c: one tracked object of the filter engine. The answers of the engine are arguments.
-- The key of a callout is one of the layer table, so the table's entry is found.
use shinken_sentinel.Prelude.{ℕ, zero, suc, ◌+◌, Bool, true, false, not, ◌||◌, if◌then◌else◌, ◌==◌}
use shinken_sentinel.Status.{
  NtStatus, nt_success, status_success, status_device_busy, fwp_callout_not_found,
  fwp_filter_not_found,
}

-- `SK_WFP_OBJECT_STATE`
pub data PartState : Type 0 where
  uninitialized prepared registered active quiescing deleted failed leaked : PartState

-- `SK_WFP_PHASE`
pub data PartPhase : Type 0 where
  no_phase engine_open provider_add sublayer_add callout_register callout_add filter_add teardown :
      PartPhase

-- `SK_WFP_OBJECT`
pub record Part : Type 0 where
  pub runtime_id : ℕ
  pub callout_id : ℕ
  pub filter_id : ℕ
  pub state : PartState
  pub phase : PartPhase
  pub last_status : NtStatus
  pub busy_retries : ℕ

-- `SkWfpObjectReset`
abbrev pub part_reset : Part
part_reset = record {
  runtime_id = 0;
  callout_id = 0;
  filter_id = 0;
  state = PartState.uninitialized;
  phase = PartPhase.no_phase;
  last_status = 0;
  busy_retries = 0;
}

abbrev pub is_leaked : PartState → Bool
is_leaked PartState.leaked = true
is_leaked _ = false

abbrev pub is_installed : PartState → Bool
is_installed PartState.registered = true
is_installed PartState.active = true
is_installed _ = false

-- `SkWfpObjectRegisterCallout`: the answer and the identifier that the kernel writes.
unfoldable pub register_callout : NtStatus → ℕ → Part → Part
register_callout st id o =
    if nt_success st
    then record o {
      phase = PartPhase.callout_register;
      runtime_id = id;
      last_status = st;
      state = PartState.registered;
    }
    else record o {
      phase = PartPhase.callout_register;
      runtime_id = 0;
      last_status = st;
      state = PartState.failed;
    }

-- `SkWfpObjectAddCallout`
unfoldable pub add_callout : NtStatus → ℕ → Part → Part
add_callout st id o =
    if nt_success st
    then record o { phase = PartPhase.callout_add; callout_id = id; last_status = st }
    else record o {
      phase = PartPhase.callout_add;
      callout_id = 0;
      last_status = st;
      state = PartState.failed;
    }

-- `SkWfpObjectAddFilter`
unfoldable pub add_filter : NtStatus → ℕ → Part → Part
add_filter st id o =
    if nt_success st
    then record o {
      phase = PartPhase.filter_add;
      filter_id = id;
      last_status = st;
      state = PartState.registered;
    }
    else record o {
      phase = PartPhase.filter_add;
      filter_id = 0;
      last_status = st;
      state = PartState.failed;
    }

abbrev pub is_gone : NtStatus → Bool
is_gone st = st == status_success || st == fwp_callout_not_found

-- The loop of `SkWfpObjectUnregister`, with the retries left and the attempts made.
unfoldable pub unregister_rounds : (ℕ → NtStatus) → ℕ → ℕ → Part → NtStatus × Part
unregister_rounds answers zero attempt o =
    let st = answers attempt in
    if is_gone st
    then (st, record o { last_status = st; state = PartState.deleted; busy_retries = attempt })
    else if not (st == status_device_busy)
    then (st, record o { last_status = st; state = PartState.leaked; busy_retries = attempt })
    else (st, record o { last_status = st; state = PartState.leaked; busy_retries = attempt + 1 })
unregister_rounds answers (suc left) attempt o =
    let st = answers attempt in
    let rest = unregister_rounds answers left (attempt + 1) o in
    if is_gone st
    then (st, record o { last_status = st; state = PartState.deleted; busy_retries = attempt })
    else if not (st == status_device_busy)
    then (st, record o { last_status = st; state = PartState.leaked; busy_retries = attempt })
    else rest

-- `SkWfpObjectUnregister`, of an object in a given state.
unfoldable pub unregister_from : PartState → (ℕ → NtStatus) → ℕ → Part → NtStatus × Part
unregister_from PartState.deleted answers retries o = (status_success, o)
unregister_from PartState.uninitialized answers retries o = (status_success, o)
unregister_from PartState.leaked answers retries o = (status_device_busy, o)
unregister_from _ answers retries o =
    unregister_rounds answers retries 0 (record o { state = PartState.quiescing })

-- What the cleanup between the rounds did shows in the answers only.
unfoldable pub part_unregister : (ℕ → NtStatus) → ℕ → Part → NtStatus × Part
part_unregister answers retries o = unregister_from o.state answers retries o

-- `SkWfpObjectDelete`: the answers for the filter and for the callout.
unfoldable pub part_delete : NtStatus → NtStatus → Part → NtStatus × Part
part_delete filter_st callout_st o =
    if is_leaked o.state
    then (status_device_busy, o)
    else if not (o.filter_id == 0)
    then (if filter_st == status_success || filter_st == fwp_filter_not_found
        then (
          filter_st,
          record o { last_status = filter_st; filter_id = 0; state = PartState.deleted },
        )
        else (filter_st, record o { last_status = filter_st; state = PartState.leaked }))
    else if not (o.callout_id == 0)
    then (if is_gone callout_st
        then (
          callout_st,
          record o { last_status = callout_st; callout_id = 0; state = PartState.deleted },
        )
        else (callout_st, record o { last_status = callout_st; state = PartState.leaked }))
    else (status_success, o)
