-- ===== src/Tests/Data.antt =====
-- Concrete rules, tuples and stores for the tests of rules/*.c.
use shinken_sentinel.Prelude.{[], ◌∷◌, Option, none, some, replicate}
use shinken_sentinel.Status.{NtStatus}
use shinken_sentinel.Runtime.State.{Runtime, active, image}
use shinken_sentinel.Rules.Types.{Rule, Tuple}
use shinken_sentinel.Rules.Rate.{empty_table}
use shinken_sentinel.Rules.Store.{Store, swap, init_empty}
use shinken_sentinel.Rules.Store.View.{Content}
use shinken_sentinel.Rules.Store.Steps.{blank}

-- Blocks IPv4 to the port 443 in 10.0.0.0/8.
abbrev pub block_rule : Rule
block_rule = record {
  rule_id = 7;
  priority = 10;
  mask = 0x51;
  action = 1;
  enabled = 1;
  family = 2;
  direction = 0;
  protocol = 0;
  layer_id = 0;
  if_index = 0;
  process_id = 0;
  app_id = 0;
  not_before = 0;
  not_after = 0;
  local_port_min = 0;
  local_port_max = 0;
  remote_port_min = 443;
  remote_port_max = 443;
  local_addr = [];
  remote_addr = 10 ∷ replicate 15 0;
  local_prefix = 0;
  remote_prefix = 8;
  sid = [];
  sid_length = 0;
  rate_tokens = 0;
  rate_interval_ms = 0;
  burst = 0;
}

-- Two packets at once, and one more each second.
abbrev pub slow_rule : Rule
slow_rule = record block_rule {
  rule_id = 9;
  priority = 20;
  action = 3;
  rate_tokens = 1;
  rate_interval_ms = 1000;
  burst = 2;
}

abbrev pub web_tuple : Tuple
web_tuple = record {
  family = 2;
  direction = 1;
  protocol = 6;
  layer_id = 0;
  if_index = 0;
  process_id = 4;
  app_id = 0;
  local_port = 50000;
  remote_port = 443;
  local_addr = 192 ∷ 168 ∷ 0 ∷ 2 ∷ replicate 12 0;
  remote_addr = 10 ∷ 1 ∷ 2 ∷ 3 ∷ replicate 12 0;
  user_id = none;
  user_id_length = 0;
  now_utc_100ns = 0;
}

abbrev pub running : Runtime
running = record image { state = active }

abbrev store_of : Store → Option (NtStatus × Store) → Store
store_of s none = s
store_of s (some r) = r.1

-- After `SkRuleStoreInit`, and after one rule more has been published.
abbrev pub empty_store : Store
empty_store = init_empty (blank empty_table running)

abbrev pub one_rule_store : Store
one_rule_store = store_of empty_store (swap (block_rule ∷ []) 0 empty_store)

abbrev pub empty_content : Content
empty_content = record { rules = []; version = 0; policy = 0 }

abbrev pub one_rule_content : Content
one_rule_content = record { rules = block_rule ∷ []; version = 1; policy = 0 }
