-- ===== src/Tests/Wfp.antt =====
-- wfp/: installations and teardowns of one layer.
use shinken_sentinel.Prelude.{◌≡◌, refl, [], ◌∷◌, true, false, arith, All}
use shinken_sentinel.Status.{status_success, status_device_busy}
use shinken_sentinel.Wfp.Objects.{PartState, part_reset}
use shinken_sentinel.Wfp.Manager.{
  Layer, LayerUp, LayerDown, Manager, Down, any_leaked, manager_leaked, manager_install,
  manager_teardown,
}
use shinken_sentinel.Wfp.Manager
use shinken_sentinel.Wfp.Manager.Layers.{Up, Removed}
use shinken_sentinel.Wfp.Manager.Laws.{
  engine_answers, first_bad, Installation, manager_install_lem, manager_teardown_lem,
}
use shinken_sentinel.Wfp.Manager.Leaks.{Opens, FirstOrphan, orphaned_callout}
use shinken_sentinel.Tests.Data.{running}

abbrev clear_layer : Layer
clear_layer = record { callout = part_reset; filter = part_reset; in_kernel = false }

abbrev idle : Manager
idle = record {
  engine = false;
  engine_obj = part_reset;
  provider = part_reset;
  sublayer = part_reset;
  layers = clear_layer ∷ [];
  installed = false;
  runtime = running;
}

abbrev all_good : LayerUp
all_good = record {
  register = 0;
  runtime_id = 7;
  add = 0;
  callout_id = 8;
  filter = 0;
  filter_id = 9;
}

-- FwpmCalloutAdd0 fails with STATUS_ACCESS_DENIED.
abbrev add_fails : LayerUp
add_fails = record all_good { add = 3221225506 }

abbrev up_with : LayerUp → Manager.Up
up_with l = record { open_ = 0; begin = 0; provider = 0; sublayer = 0; layers = λ i. l; commit = 0 }

abbrev good_down : Down
good_down = record {
  layers = λ i. record { unregister = λ n. 0; delete_filter = 0; delete_callout = 0 };
  sublayer = 0;
  provider = 0;
  close = 0;
}

idle_sound : manager_leaked idle ≡ false
unfolding manager_leaked any_leaked
idle_sound = refl

add_fails-Opens : Opens (up_with add_fails)
add_fails-Opens = record {
  opens = ground arith;
  begins = ground arith;
  adds_provider = ground arith;
  adds_sublayer = ground arith;
}

manager_install_lem_example :
    (idle.installed ≡ true
      → manager_install (up_with all_good) good_down idle ≡ (status_success, idle))
    × (idle.installed ≡ false
        → manager_leaked idle ≡ true
        → manager_install (up_with all_good) good_down idle ≡ (status_device_busy, idle))
    × (idle.installed ≡ false
        → manager_leaked idle ≡ false
        → Installation
            (first_bad (engine_answers (up_with all_good) idle.layers))
            (manager_install (up_with all_good) good_down idle))
manager_install_lem_example = manager_install_lem (up_with all_good) good_down idle (refl, tt)

abbrev up_layer : Layer
up_layer = record {
  callout = record part_reset { state = PartState.active; runtime_id = 7; callout_id = 8 };
  filter = record part_reset { state = PartState.registered; filter_id = 9 };
  in_kernel = true;
}

abbrev installed : Manager
installed = record idle { engine = true; installed = true; layers = up_layer ∷ [] }

up_layer-Up : Up up_layer
up_layer-Up = record { active = refl; filtering = refl; own = refl; known = refl }

manager_teardown_lem_example :
    ((manager_teardown good_down installed).0 ≡ true
      → All Removed (manager_teardown good_down installed).1.layers
        × ((manager_teardown good_down installed).1.engine ≡ false)
        × ((manager_teardown good_down installed).1.installed ≡ false))
    × ((manager_teardown good_down installed).0 ≡ false
        → ((manager_teardown good_down installed).1.engine ≡ true)
          × ((manager_teardown good_down installed).1.installed ≡ true))
manager_teardown_lem_example = manager_teardown_lem good_down installed refl refl (up_layer-Up, tt)

orphaned_callout_example :
    ((manager_install (up_with add_fails) good_down idle).0 ≡ add_fails.add)
    × FirstOrphan (manager_install (up_with add_fails) good_down idle).1.layers
    × (good_down.close ≡ status_success
        → (down' : Down)
        → manager_teardown down' (manager_install (up_with add_fails) good_down idle).1
          ≡ (true, (manager_install (up_with add_fails) good_down idle).1))
orphaned_callout_example =
    orphaned_callout (up_with add_fails) good_down idle clear_layer [] refl idle_sound refl
      add_fails-Opens (ground arith) (ground arith)
