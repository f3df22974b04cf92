-- ===== src/Tests/Control.antt =====
-- control/: requests in their bytes, and the theorems on them.
use shinken_sentinel.Prelude.{
  ℕ, ◌+◌, ◌*◌, ◌≤◌, ◌<◌, ◌≡◌, ◌⊎◌, refl, sym, ap, ◌∙◌, List, [], ◌∷◌, none, some, true, false,
  if◌then◌else◌, ◌==◌, arith, length,
}
use shinken_sentinel.Status.{NtStatus, nt_success, status_buffer_too_small}
use shinken_sentinel.Runtime.State.{record_block, handle_contexts_open, worker_thread_drain}
use shinken_sentinel.Rules.Types.{Rule, RuleStats}
use shinken_sentinel.Rules.Snapshot.{new_snapshot}
use shinken_sentinel.Rules.Store.{
  swap, swap_at, swap_cell, retire_slot, writable, init_empty, install, put,
}
use shinken_sentinel.Rules.Store.Steps.{blank}
use shinken_sentinel.Rules.Store.View.{Content}
use shinken_sentinel.Rules.Store.Api.{replace}
use shinken_sentinel.Telemetry.Queue.{queue_init}
use shinken_sentinel.Telemetry.Ring.{ring_init}
use shinken_sentinel.Control.Wire.{Bytes, u16_at, u32_at, u64_at}
use shinken_sentinel.Control.Commands.{
  header_of, Answer, Completion, plain, answered, rule_list, Call, Pools, lacks_room,
  cmd_enum_rules, cmd_replace_ruleset, replace_expected, echo_if_room, echo_header,
  cmd_query_capabilities,
}
use shinken_sentinel.Control.Commands.Listing.{cmd_enum_rules_lem}
use shinken_sentinel.Control.Commands.Replacing.{Replaces, cmd_replace_ruleset_lem}
use shinken_sentinel.Control.Dispatch.{
  Driver, Request, may_run, refusal, call_of, command_of, run_command, route, complete, carry_out,
  device_control, is_modify_command,
}
use shinken_sentinel.Control.Dispatch.Checks.{Admissible, device_control_checks}
use shinken_sentinel.Control.Dispatch.Routes.{Few, device_control_output}
use shinken_sentinel.Control.Dispatch.Changes.{Done, modify_request, changes_need_privilege}
use shinken_sentinel.Control.Device.{Device, control_quiesce, file_destroy, destroy_at, file_create}
use shinken_sentinel.Control.Device.Laws.{
  Lingers, NoHandle, closing, control_quiesce_lem, create, destroy, run_files, handles_balance,
}
use shinken_sentinel.Tests.Data.{one_rule_store, one_rule_content, running}
use shinken_sentinel.Tests.Store.{one_rule-Ready, one_rule-inited}

abbrev pub no_stats : RuleStats
no_stats = record {
  classify_calls = 0;
  verdict_permit = 0;
  verdict_block = 0;
  verdict_audit = 0;
  rate_limited = 0;
  rule_hits = 0;
  default_hits = 0;
  match_ns_total = 0;
  match_ns_max = 0;
  match_ns_samples = 0;
}

abbrev one_rule_driver : Driver
one_rule_driver = record {
  gate_open = true;
  store = one_rule_store;
  stats = no_stats;
  queue = queue_init;
  ring = ring_init;
}

abbrev all_memory : Pools
all_memory = record { parsed = true; array = true; snap = true }

-- A header of 24 bytes, version 1, with this command and nothing behind it.
abbrev header_bytes_of : ℕ → Bytes
header_bytes_of command p =
    if p == 0 then 24 else if p == 4 then 1 else if p == 6 then command else 0

abbrev bare_request : ℕ → Request
bare_request command = record {
  code = 4 * (2048 + command);
  packet_code = 4 * (2048 + command);
  in_status = 0;
  in_len = 24;
  m = header_bytes_of command;
  privileged = some true;
  out_asked = 64;
  out_status = 0;
  out = true;
  out_len = 64;
}

clear-Admissible : Admissible one_rule_driver (bare_request 7)
unfolding header_of u16_at u32_at u64_at is_modify_command swap swap_at swap_cell retire_slot
    writable init_empty blank install put new_snapshot
clear-Admissible = record {
  open_ = refl;
  running = refl;
  same_code = refl;
  readable = refl;
  has_header = (omega arith, omega arith);
  own_size = refl;
  own_version = refl;
  no_flags = refl;
  known = omega arith;
  numbered = refl;
  allowed = λ h. refl;
  writable_out = λ h. (refl, refl);
}

clear_modifies : is_modify_command (header_of (header_bytes_of 7)).command ≡ true
unfolding header_of u16_at is_modify_command
clear_modifies = refl

device_control_checks_example :
    (Admissible one_rule_driver (bare_request 7)
      → device_control all_memory (bare_request 7) one_rule_driver
        ≡ carry_out all_memory none (bare_request 7) one_rule_driver)
    × ((Admissible one_rule_driver (bare_request 7) → ⊥)
        → (st : NtStatus) × (nt_success st ≡ false)
          × (device_control all_memory (bare_request 7) one_rule_driver
              ≡ some (plain st 0, one_rule_driver)))
device_control_checks_example = device_control_checks all_memory one_rule_driver (bare_request 7)

modify_request_example :
    Done [] one_rule_driver one_rule_content
      (device_control all_memory (bare_request 7) one_rule_driver)
modify_request_example =
    modify_request [] all_memory one_rule_driver (bare_request 7) one_rule_content one_rule-Ready
      clear-Admissible clear_modifies

some_content : (a b : Content) → some a ≡ some b → a ≡ b
some_content a b h = ground arith

one_rule-Few : Few one_rule_store
one_rule-Few now h =
    let same : one_rule_content ≡ now = some_content _ _ (sym one_rule-Ready.shows ∙ h) in
    omega (arith, ap (λ c. length c.rules) (sym same))

abbrev capabilities_done : Completion
capabilities_done = record {
  status = 0;
  information = 40;
  header = some (record { size = 40; version = 1; command = 0; flags = 0; request_id = 0 });
  answer = Answer.capabilities 4096 1048576 15 1;
}

capabilities_run :
    device_control all_memory (bare_request 0) one_rule_driver
    ≡ some (capabilities_done, one_rule_driver)
unfolding device_control carry_out refusal may_run call_of route run_command command_of complete
    is_modify_command header_of u16_at u32_at u64_at echo_if_room echo_header cmd_query_capabilities
    lacks_room answered swap swap_at swap_cell retire_slot writable init_empty blank install put
    new_snapshot
capabilities_run = refl

device_control_output_example :
    (40 ≤ 64)
    × (((capabilities_done.header ≡ none) × (capabilities_done.information ≡ 0))
        ⊎ (capabilities_done.header
            ≡ some (record {
              size = 40;
              version = 1;
              command = (header_of (header_bytes_of 0)).command;
              flags = 0;
              request_id = (header_of (header_bytes_of 0)).request_id;
            })))
device_control_output_example =
    device_control_output all_memory one_rule_driver one_rule_driver (bare_request 0)
      capabilities_done one_rule-Few capabilities_run refl

changes_need_privilege_example :
    (one_rule_driver ≡ one_rule_driver)
    ⊎ (Admissible one_rule_driver (bare_request 0)
        × (is_modify_command (header_of (header_bytes_of 0)).command ≡ true)
        × (some true ≡ some true))
changes_need_privilege_example =
    changes_need_privilege all_memory one_rule_driver one_rule_driver (bare_request 0)
      capabilities_done capabilities_run

abbrev wide_call : Call
wide_call = record { m = header_bytes_of 5; payload_len = 0; out = true; out_len = 300 }

cmd_enum_rules_lem_example :
    (lacks_room wide_call 224 ≡ true
      → cmd_enum_rules wide_call one_rule_store one_rule_store one_rule_store
        ≡ some (plain status_buffer_too_small 224))
    × (lacks_room wide_call 224 ≡ false
        → 224 ≤ 300
        → cmd_enum_rules wide_call one_rule_store one_rule_store one_rule_store
          ≡ some (answered wide_call 224 (rule_list 1 1 one_rule_content.rules)))
    × (lacks_room wide_call 224 ≡ false
        → 300 < 224
        → cmd_enum_rules wide_call one_rule_store one_rule_store one_rule_store
          ≡ some (plain status_buffer_too_small 0))
cmd_enum_rules_lem_example =
    cmd_enum_rules_lem wide_call one_rule_store one_rule_store one_rule_store one_rule_content
      one_rule_content one_rule_content (one_rule-inited, one_rule-Ready.shows, omega arith)
      (one_rule-inited, one_rule-Ready.shows, omega arith) (one_rule-inited, one_rule-Ready.shows)

-- A replace header for no rules.
abbrev empty_replace : Call
empty_replace = record { m = λ p. 0; payload_len = 16; out = false; out_len = 0 }

cmd_replace_ruleset_lem_example :
    ((rules : List Rule)
      → Replaces empty_replace rules
      → true ≡ true
      → cmd_replace_ruleset all_memory empty_replace one_rule_store
        ≡ replace true true rules (replace_expected (λ p. 0)) one_rule_store)
    × (((st : NtStatus) × (nt_success st ≡ false)
          × (cmd_replace_ruleset all_memory empty_replace one_rule_store
              ≡ some (st, one_rule_store)))
        ⊎ ((rules : List Rule) × Replaces empty_replace rules
            × (cmd_replace_ruleset all_memory empty_replace one_rule_store
                ≡ replace true true rules (replace_expected (λ p. 0)) one_rule_store)))
cmd_replace_ruleset_lem_example = cmd_replace_ruleset_lem all_memory empty_replace one_rule_store

abbrev live_device : Device
live_device = record {
  gate_open = true;
  ready = true;
  thread = true;
  stop = false;
  stop_event = false;
  purged = false;
  present = true;
}

control_quiesce_lem_example :
    (Lingers live_device 0
      → control_quiesce true 0 (λ i. 0) live_device running
        ≡ (false, closing live_device, record_block worker_thread_drain running))
    × ((Lingers live_device 0 → ⊥)
        → NoHandle (λ i. 0)
        → control_quiesce true 0 (λ i. 0) live_device running
          ≡ (true, record (closing live_device) { thread = false; purged = true }, running))
    × ((Lingers live_device 0 → ⊥)
        → (NoHandle (λ i. 0) → ⊥)
        → control_quiesce true 0 (λ i. 0) live_device running ≡ (
          false,
          record (closing live_device) { thread = false; purged = true },
          record_block handle_contexts_open running,
        ))
control_quiesce_lem_example = control_quiesce_lem true 0 (λ i. 0) live_device running

handles_balance_example :
    (run_files
      (create true ∷ create false ∷ destroy 1 ∷ [])
      (record { contexts = []; handles_open = 0 })).handles_open
    ≡ 1
unfolding run_files file_destroy destroy_at file_create
handles_balance_example =
    handles_balance (create true ∷ create false ∷ destroy 1 ∷ []) (omega arith)
