-- ===== src/Runtime/Objects.antt =====
-- runtime/runtime.c: the tracking of objects of the filter engine. The engine's answers are arguments:
-- `answers i` is what round `i` of a retry loop is told, whatever the cleanup between rounds did.
pub mod Laws
pub mod Honest
use shinken_sentinel.Prelude.{
  ℕ, zero, suc, ◌+◌, Option, none, some, Bool, true, false, not, ◌&&◌, ◌||◌, if◌then◌else◌, ◌==◌,
}
use shinken_sentinel.Status.{
  NtStatus, status_success, status_device_busy, fwp_callout_not_found, fwp_filter_not_found,
  fwp_provider_not_found, fwp_sublayer_not_found,
}

-- `SHINKEN_WFP_OBJECT_STATE`
pub data ObjectState : Type 0 where
  unregistered registered delete_pending deleted leaked : ObjectState

-- `SHINKEN_WFP_OBJECT`, without its diagnostic name; a key that is NULL is `none`.
pub record WfpObject : Type 0 where
  pub id : ℕ
  pub filter_id : ℕ
  pub key : Option ℕ
  pub state : ObjectState
  pub busy_retries : ℕ
  pub last_status : NtStatus

abbrev pub is_leaked : ObjectState → Bool
is_leaked leaked = true
is_leaked _ = false

abbrev pub is_deleted : ObjectState → Bool
is_deleted deleted = true
is_deleted _ = false

-- Not on the books.
abbrev pub is_off : ObjectState → Bool
is_off deleted = true
is_off unregistered = true
is_off _ = false

abbrev no_key : Option ℕ → Bool
no_key none = true
no_key (some k) = false

-- `ShWfpObjectInit`
unfoldable pub object_init : ℕ → ℕ → Option ℕ → WfpObject
object_init id filter_id key = record {
  id = id;
  filter_id = filter_id;
  key = key;
  state = unregistered;
  busy_retries = 0;
  last_status = status_success;
}

-- `ShWfpObjectMark`
unfoldable pub object_mark : ObjectState → WfpObject → WfpObject
object_mark state o = record o { state = state }

abbrev settle : ObjectState → ℕ → NtStatus → WfpObject → WfpObject
settle state retries st o = record o { state = state; busy_retries = retries; last_status = st }

abbrev pub callout_gone : NtStatus → Bool
callout_gone st = st == status_success || st == fwp_callout_not_found

abbrev pub destroyed : NtStatus → Bool
destroyed st = st == status_success

-- The loop of the three functions that retry while the engine is busy: from round `attempt`, with the
-- rounds that are left after it.
unfoldable pub retry : (NtStatus → Bool) → (ℕ → NtStatus) → ℕ → ℕ → WfpObject → NtStatus × WfpObject
retry gone answers zero attempt o =
    let st = answers attempt in
    if gone st
    then (st, settle deleted attempt st o)
    else if not (st == status_device_busy)
    then (st, settle leaked attempt st o)
    else (st, settle leaked (attempt + 1) st o)
retry gone answers (suc left) attempt o =
    let st = answers attempt in
    let rest = retry gone answers left (attempt + 1) (record o { last_status = st }) in
    if gone st
    then (st, settle deleted attempt st o)
    else if not (st == status_device_busy)
    then (st, settle leaked attempt st o)
    else rest

-- `ShWfpUnregisterCalloutById`
unfoldable pub unregister_by_id : (ℕ → NtStatus) → ℕ → WfpObject → NtStatus × WfpObject
unregister_by_id answers max_retries o =
    if is_off o.state
    then (status_success, o)
    else if is_leaked o.state
    then (status_device_busy, o)
    else retry callout_gone answers max_retries 0 o

-- `ShWfpUnregisterCalloutByKey`
unfoldable pub unregister_by_key : (ℕ → NtStatus) → ℕ → WfpObject → NtStatus × WfpObject
unregister_by_key answers max_retries o =
    if is_off o.state
    then (status_success, o)
    else if is_leaked o.state
    then (status_device_busy, o)
    else retry callout_gone answers max_retries 0 o

-- `ShInjectionDestroyTracked`; `present` is whether the handle is not NULL.
unfoldable pub injection_destroy : Bool → (ℕ → NtStatus) → ℕ → WfpObject → NtStatus × WfpObject
injection_destroy present answers max_retries o =
    if not present || is_deleted o.state
    then (status_success, o)
    else if is_leaked o.state
    then (status_device_busy, o)
    else retry destroyed answers max_retries 0 o

-- The end of a deletion, on the engine's answer `st`: `gone` is its answer for no such object.
abbrev confirm : NtStatus → NtStatus → WfpObject → WfpObject → NtStatus × WfpObject
confirm gone st cleared o =
    if st == status_success || st == gone
    then (st, record cleared { state = deleted; last_status = st })
    else (st, record o { state = leaked; last_status = st })

-- `ShWfpDeleteFilterById`
unfoldable pub delete_filter_by_id : NtStatus → WfpObject → NtStatus × WfpObject
delete_filter_by_id st o =
    if is_leaked o.state
    then (status_device_busy, o)
    else if o.filter_id == 0 || is_deleted o.state
    then (status_success, o)
    else confirm fwp_filter_not_found st (record o { filter_id = 0 }) o

-- `ShWfpDeleteFilterByKey`
unfoldable pub delete_filter_by_key : NtStatus → WfpObject → NtStatus × WfpObject
delete_filter_by_key st o =
    if is_leaked o.state
    then (status_device_busy, o)
    else if no_key o.key || is_deleted o.state
    then (status_success, o)
    else confirm fwp_filter_not_found st o o

-- `ShWfpDeleteCalloutById`
unfoldable pub delete_callout_by_id : NtStatus → WfpObject → NtStatus × WfpObject
delete_callout_by_id st o =
    if is_leaked o.state
    then (status_device_busy, o)
    else if o.id == 0 || is_deleted o.state
    then (status_success, o)
    else confirm fwp_callout_not_found st (record o { id = 0 }) o

-- `ShWfpDeleteCalloutByKey`
unfoldable pub delete_callout_by_key : NtStatus → WfpObject → NtStatus × WfpObject
delete_callout_by_key st o =
    if is_leaked o.state
    then (status_device_busy, o)
    else if no_key o.key || is_deleted o.state
    then (status_success, o)
    else confirm fwp_callout_not_found st o o

-- `ShWfpDeleteProviderByKey`
unfoldable pub delete_provider_by_key : NtStatus → WfpObject → NtStatus × WfpObject
delete_provider_by_key st o =
    if is_leaked o.state
    then (status_device_busy, o)
    else if no_key o.key || is_deleted o.state
    then (status_success, o)
    else confirm fwp_provider_not_found st o o

-- `ShWfpDeleteSubLayerByKey`
unfoldable pub delete_sublayer_by_key : NtStatus → WfpObject → NtStatus × WfpObject
delete_sublayer_by_key st o =
    if is_leaked o.state
    then (status_device_busy, o)
    else if no_key o.key || is_deleted o.state
    then (status_success, o)
    else confirm fwp_sublayer_not_found st o o

-- `ShWfpEngineClose`
unfoldable pub engine_close_tracked : NtStatus → WfpObject → NtStatus × WfpObject
engine_close_tracked st o =
    if is_leaked o.state
    then (status_device_busy, o)
    else if st == status_success
    then (status_success, record o { state = deleted; last_status = st })
    else (st, record o { state = leaked; last_status = st })
