-- ===== src/Wfp/Manager.antt =====
-- wfp/wfp_manager.c: the installation of all objects with its rollback, and the teardown. One call holds
-- the install lock throughout. The answers of the engine are arguments, for each layer by its number.
pub mod Layers
pub mod Laws
pub mod Leaks
use shinken_sentinel.Prelude.{
  ℕ, zero, suc, ◌+◌, List, [], ◌∷◌, Option, none, some, Bool, true, false, not, ◌&&◌, ◌||◌,
  if◌then◌else◌, ltb, ◌==◌,
}
use shinken_sentinel.Status.{
  NtStatus, nt_success, status_success, status_device_busy, fwp_provider_not_found,
  fwp_sublayer_not_found,
}
use shinken_sentinel.Runtime.State.{Runtime, record_block, engine_close, sensor_callout_busy}
use shinken_sentinel.Wfp.Objects.{
  Part, PartState, PartPhase, part_reset, is_leaked, is_installed, is_gone, register_callout,
  add_callout, add_filter, part_unregister, part_delete,
}

abbrev pub wfp_busy_retries : ℕ
wfp_busy_retries = 8

-- The callout and the filter of a layer, and what the kernel itself holds: whether the layer's callout is
-- registered there.
pub record Layer : Type 0 where
  pub callout : Part
  pub filter : Part
  pub in_kernel : Bool

-- `SK_WFP_MANAGER`, with the runtime that its blocks are recorded in.
pub record Manager : Type 0 where
  pub engine : Bool
  pub engine_obj : Part
  pub provider : Part
  pub sublayer : Part
  pub layers : List Layer
  pub installed : Bool
  pub runtime : Runtime

-- The engine's answers while a layer is installed, and while it is removed.
pub record LayerUp : Type 0 where
  pub register : NtStatus
  pub runtime_id : ℕ
  pub add : NtStatus
  pub callout_id : ℕ
  pub filter : NtStatus
  pub filter_id : ℕ

pub record LayerDown : Type 0 where
  pub unregister : ℕ → NtStatus
  pub delete_filter : NtStatus
  pub delete_callout : NtStatus

pub record Up : Type 0 where
  pub open_ : NtStatus
  pub begin : NtStatus
  pub provider : NtStatus
  pub sublayer : NtStatus
  pub layers : ℕ → LayerUp
  pub commit : NtStatus

pub record Down : Type 0 where
  pub layers : ℕ → LayerDown
  pub sublayer : NtStatus
  pub provider : NtStatus
  pub close : NtStatus

-- `FwpsCalloutRegister1` and `FwpsCalloutUnregisterById0`, on what the kernel holds.
unfoldable pub layer_register : LayerUp → Layer → Layer
layer_register up l = record l {
  callout = register_callout up.register up.runtime_id l.callout;
  in_kernel = if nt_success up.register then true else l.in_kernel;
}

unfoldable pub layer_unregister : LayerDown → Layer → Layer
layer_unregister down l =
    let r = part_unregister down.unregister wfp_busy_retries l.callout in
    record l { callout = r.1; in_kernel = if is_gone r.0 then false else l.in_kernel }

-- The body of the loop of `SkWfpManagerInstall`: the status that fails it, and the layer.
unfoldable pub install_layer : LayerUp → Layer → Option NtStatus × Layer
install_layer up l =
    let l1 = layer_register up l in
    let l2 = record l1 { callout = add_callout up.add up.callout_id l1.callout } in
    let l3 = record l2 { filter = add_filter up.filter up.filter_id l2.filter } in
    if not (nt_success up.register)
    then (some up.register, l1)
    else if not (nt_success up.add)
    then (some up.add, l2)
    else if not (nt_success up.filter)
    then (some up.filter, l3)
    else (none, record l3 { callout = record (l3.callout) { state = PartState.active } })

abbrev pub is_some : Option NtStatus → Bool
is_some none = false
is_some (some st) = true

unfoldable pub install_layers : (ℕ → LayerUp) → ℕ → List Layer → Option NtStatus × List Layer
install_layers ups i [] = (none, [])
install_layers ups i (l ∷ ls) =
    let r = install_layer (ups i) l in
    let rest = install_layers ups (i + 1) ls in
    if is_some r.0 then (r.0, r.1 ∷ ls) else (rest.0, r.1 ∷ rest.1)

-- `skWfpDeleteByKey`, with the status that says the object is not there.
unfoldable pub delete_by_key : NtStatus → NtStatus → Part → Bool × Part
delete_by_key not_found st o =
    if not (is_installed o.state)
    then (true, o)
    else if st == status_success || st == not_found
    then (true, record o { last_status = st; state = PartState.deleted })
    else (false, record o { last_status = st; state = PartState.leaked })

-- The body of the loop of `skWfpRollbackLocked`.
unfoldable pub rollback_filter : LayerDown → Layer → Bool × Layer
rollback_filter down l =
    let r = part_delete down.delete_filter down.delete_callout l.filter in
    if is_installed l.filter.state
    then (not (is_leaked r.1.state), record l { filter = r.1 })
    else (true, l)

unfoldable pub rollback_callout : LayerDown → Layer → Bool × Layer
rollback_callout down l =
    let l1 = layer_unregister down l in
    let r = part_delete down.delete_filter down.delete_callout l1.callout in
    if not (is_installed l.callout.state)
    then (true, l)
    else if is_leaked l1.callout.state
    then (false, l1)
    else if not (l1.callout.callout_id == 0)
    then (not (is_leaked r.1.state), record l1 { callout = r.1 })
    else (true, l1)

unfoldable pub rollback_layer : LayerDown → Layer → Bool × Layer
rollback_layer down l =
    let f = rollback_filter down l in let c = rollback_callout down f.1 in (f.0 && c.0, c.1)

-- The loop goes from the last layer to the first.
unfoldable pub rollback_layers : (ℕ → LayerDown) → ℕ → List Layer → Bool × List Layer
rollback_layers downs i [] = (true, [])
rollback_layers downs i (l ∷ ls) =
    let rest = rollback_layers downs (i + 1) ls in
    let r = rollback_layer (downs i) l in (rest.0 && r.0, r.1 ∷ rest.1)

-- The close of the engine in the rollback and in the teardown.
unfoldable pub close_engine : NtStatus → Manager → Bool × Manager
close_engine st m =
    if not m.engine
    then (true, m)
    else if st == status_success
    then (
      true,
      record m {
        engine = false;
        engine_obj = record (m.engine_obj) { last_status = st; state = PartState.deleted };
      },
    )
    else (
      false,
      record m {
        engine_obj = record (m.engine_obj) { last_status = st; state = PartState.leaked };
      },
    )

-- `skWfpRollbackLocked`
unfoldable pub rollback : Down → Manager → Bool × Manager
rollback down m =
    let ls = rollback_layers down.layers 0 m.layers in
    let sub = delete_by_key fwp_sublayer_not_found down.sublayer m.sublayer in
    let prov = delete_by_key fwp_provider_not_found down.provider m.provider in
    let closed =
      close_engine down.close (record m { layers = ls.1; sublayer = sub.1; provider = prov.1 }) in
    (ls.0 && sub.0 && prov.0 && closed.0, closed.1)

-- The label `rollback` of `SkWfpManagerInstall`.
unfoldable pub fail_install : Down → NtStatus → Manager → NtStatus × Manager
fail_install down st m =
    let r = rollback down m in
    (st, if r.0 then r.1 else record (r.1) { runtime = record_block engine_close r.1.runtime })

unfoldable pub any_leaked : List Layer → Bool
any_leaked [] = false
any_leaked (l ∷ ls) = is_leaked l.callout.state || is_leaked l.filter.state || any_leaked ls

unfoldable pub manager_leaked : Manager → Bool
manager_leaked m =
    is_leaked m.engine_obj.state
    || is_leaked m.provider.state
    || is_leaked m.sublayer.state
    || any_leaked m.layers

unfoldable pub reset_layers : List Layer → List Layer
reset_layers [] = []
reset_layers (l ∷ ls) =
    record { callout = part_reset; filter = part_reset; in_kernel = l.in_kernel } ∷ reset_layers ls

unfoldable pub manager_reset : Manager → Manager
manager_reset m = record m {
  engine = false;
  engine_obj = part_reset;
  provider = part_reset;
  sublayer = part_reset;
  layers = reset_layers m.layers;
}

abbrev pub added : PartPhase → NtStatus → Part → Part
added phase st o = record o {
  phase = phase;
  last_status = st;
  state = if nt_success st then PartState.registered else PartState.failed;
}

-- The layers' loop and the commit.
unfoldable pub install_rest : Up → Down → Option NtStatus → Manager → NtStatus × Manager
install_rest up down (some st) m = fail_install down st m
install_rest up down none m =
    if nt_success up.commit
    then (status_success, record m { installed = true })
    else fail_install down up.commit m

-- `SkWfpManagerInstall`, behind its two guards.
unfoldable pub install_fresh : Up → Down → Manager → NtStatus × Manager
install_fresh up down m =
    let m1 = record m {
      engine = nt_success up.open_;
      engine_obj = added PartPhase.engine_open up.open_ m.engine_obj;
    } in
    let m2 = record m1 { provider = added PartPhase.provider_add up.provider m1.provider } in
    let m3 = record m2 { sublayer = added PartPhase.sublayer_add up.sublayer m2.sublayer } in
    let r = install_layers up.layers 0 m3.layers in
    if not (nt_success up.open_)
    then (up.open_, m1)
    else if not (nt_success up.begin)
    then fail_install down up.begin m1
    else if not (nt_success up.provider)
    then fail_install down up.provider m2
    else if not (nt_success up.sublayer)
    then fail_install down up.sublayer m3
    else install_rest up down r.0 (record m3 { layers = r.1 })

unfoldable pub manager_install : Up → Down → Manager → NtStatus × Manager
manager_install up down m =
    if m.installed
    then (status_success, m)
    else if manager_leaked m
    then (status_device_busy, m)
    else install_fresh up down (manager_reset m)

-- `SkWfpManagerTeardown`, first loop: the unregistrations.
unfoldable pub stop_layer : LayerDown → Layer → Runtime → Bool × Layer × Runtime
stop_layer down l rt =
    let l1 = layer_unregister down l in
    if not (is_installed l.callout.state)
    then (true, l, rt)
    else if is_leaked l1.callout.state
    then (false, l1, record_block sensor_callout_busy rt)
    else (true, l1, rt)

unfoldable pub stop_layers :
    (ℕ → LayerDown) → ℕ → List Layer → Runtime → Bool × List Layer × Runtime
stop_layers downs i [] rt = (true, [], rt)
stop_layers downs i (l ∷ ls) rt =
    let r = stop_layer (downs i) l rt in
    let rest = stop_layers downs (i + 1) ls r.2 in (r.0 && rest.0, r.1 ∷ rest.1, rest.2)

-- The second loop: the deletions.
unfoldable pub drop_filter : LayerDown → Layer → Runtime → Bool × Layer × Runtime
drop_filter down l rt =
    let r = part_delete down.delete_filter down.delete_callout l.filter in
    if l.filter.filter_id == 0
    then (true, l, rt)
    else if is_leaked r.1.state
    then (false, record l { filter = r.1 }, record_block engine_close rt)
    else (true, record l { filter = r.1 }, rt)

unfoldable pub drop_callout : LayerDown → Layer → Runtime → Bool × Layer × Runtime
drop_callout down l rt =
    let r = part_delete down.delete_filter down.delete_callout l.callout in
    if l.callout.callout_id == 0 || is_leaked l.callout.state
    then (true, l, rt)
    else if is_leaked r.1.state
    then (false, record l { callout = r.1 }, record_block engine_close rt)
    else (true, record l { callout = r.1 }, rt)

unfoldable pub drop_layers :
    (ℕ → LayerDown) → ℕ → List Layer → Runtime → Bool × List Layer × Runtime
drop_layers downs i [] rt = (true, [], rt)
drop_layers downs i (l ∷ ls) rt =
    let f = drop_filter (downs i) l rt in
    let c = drop_callout (downs i) f.1 f.2 in
    let rest = drop_layers downs (i + 1) ls c.2 in (f.0 && c.0 && rest.0, c.1 ∷ rest.1, rest.2)

abbrev pub block_unless : Bool → Runtime → Runtime
block_unless true rt = rt
block_unless false rt = record_block engine_close rt

-- The close of the engine, which is left open where something failed, and the end.
unfoldable pub finish_teardown : Down → Bool → Manager → Bool × Manager
finish_teardown down ok m =
    let r = close_engine down.close m in
    if not ok
    then (false, m)
    else if r.0
    then (true, record (r.1) { installed = false })
    else (false, record (r.1) { runtime = record_block engine_close r.1.runtime })

unfoldable pub manager_teardown : Down → Manager → Bool × Manager
manager_teardown down m =
    let s = stop_layers down.layers 0 m.layers m.runtime in
    let d = drop_layers down.layers 0 s.1 s.2 in
    let sub = delete_by_key fwp_sublayer_not_found down.sublayer m.sublayer in
    let prov = delete_by_key fwp_provider_not_found down.provider m.provider in
    if not m.installed && not m.engine
    then (true, m)
    else finish_teardown down (s.0 && d.0 && sub.0 && prov.0) (record m {
      layers = d.1;
      sublayer = sub.1;
      provider = prov.1;
      runtime = block_unless prov.0 (block_unless sub.0 d.2);
    })
