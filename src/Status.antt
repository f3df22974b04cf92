-- ===== src/Status.antt =====
-- shim/wdk_shim.h and rules/rule_store.c: the NTSTATUS values that the driver's functions return.
-- A status is its 32-bit pattern; `NT_SUCCESS` asks whether it is non-negative as a LONG.
use shinken_sentinel.Prelude.{ℕ, ◌^◌, Bool, ltb}

abbrev pub NtStatus : Type 0
NtStatus = ℕ

abbrev pub nt_success : NtStatus → Bool
nt_success st = ltb st (2 ^ 31)

abbrev pub status_success : NtStatus
status_success = 0

-- Positive, so `NT_SUCCESS` holds of it.
abbrev pub status_timeout : NtStatus
status_timeout = 0x102

abbrev pub status_unsuccessful : NtStatus
status_unsuccessful = 0xC0000001

abbrev pub status_invalid_parameter : NtStatus
status_invalid_parameter = 0xC000000D

abbrev pub status_invalid_device_request : NtStatus
status_invalid_device_request = 0xC0000010

abbrev pub status_access_denied : NtStatus
status_access_denied = 0xC0000022

abbrev pub status_buffer_too_small : NtStatus
status_buffer_too_small = 0xC0000023

abbrev pub status_insufficient_resources : NtStatus
status_insufficient_resources = 0xC000009A

abbrev pub status_device_not_ready : NtStatus
status_device_not_ready = 0xC00000A3

abbrev pub status_invalid_device_state : NtStatus
status_invalid_device_state = 0xC0000184

abbrev pub status_device_busy : NtStatus
status_device_busy = 0x80000011

abbrev pub status_retry : NtStatus
status_retry = 0xC000022D

abbrev pub status_objectid_exists : NtStatus
status_objectid_exists = 0xC00002A8

abbrev pub status_not_found : NtStatus
status_not_found = 0xC0000225

-- runtime/runtime.h: the filter engine's answers for an object that is not there.
abbrev pub fwp_callout_not_found : NtStatus
fwp_callout_not_found = 0x80320001

abbrev pub fwp_filter_not_found : NtStatus
fwp_filter_not_found = 0x80320003

abbrev pub fwp_provider_not_found : NtStatus
fwp_provider_not_found = 0x80320005

abbrev pub fwp_sublayer_not_found : NtStatus
fwp_sublayer_not_found = 0x80320007

abbrev pub status_revision_mismatch : NtStatus
status_revision_mismatch = 0xC0000059
