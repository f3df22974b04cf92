-- ===== src/Wfp/Manager/Leaks.antt =====
-- What a failed installation can leave behind without a later teardown noticing.
use shinken_sentinel.Prelude.{
  ℕ, ◌≡◌, refl, sym, ap, ◌∙◌, subst, List, [], ◌∷◌, Option, none, some, true, false, not, ◌&&◌,
  arith, inl, inr, Bool-cases,
}
use shinken_sentinel.Status.{NtStatus, nt_success, status_success}
use shinken_sentinel.Wfp.Objects.{is_installed, register_callout, add_callout}
use shinken_sentinel.Wfp.Manager.{
  Layer, LayerUp, LayerDown, Manager, Down, layer_register, install_layer, install_layers,
  rollback_filter, rollback_callout, rollback_layer, rollback_layers, close_engine, rollback,
  fail_install, manager_leaked, reset_layers, manager_reset, install_rest, install_fresh,
  manager_install, manager_teardown,
}
use shinken_sentinel.Wfp.Manager
use shinken_sentinel.Wfp.Manager.Layers.{Orphan, rollback_skips, rollback_filter_keeps}
use shinken_sentinel.Wfp.Manager.Laws.{fail_install_lem, pick_then, pick_third}

-- Nothing is installed and no engine is open, so a teardown has nothing to do.
Idle : Manager → Type 0
Idle m = (m.engine ≡ false) × (m.installed ≡ false)

Idle-teardown : (down : Down) (m : Manager) → Idle m → manager_teardown down m ≡ (true, m)
unfolding Idle manager_teardown
Idle-teardown down m (closed, off) =
    pick_then _ _ (not m.installed && not m.engine) (ground (arith, closed, off))

close_shut :
    (st : NtStatus) (m : Manager) → st ≡ status_success → (close_engine st m).1.engine ≡ false
unfolding close_engine
close_shut st m ok = ground arith

fail_install_engine :
    (down : Down) (st : NtStatus) (m : Manager)
    → down.close ≡ status_success
    → (fail_install down st m).1.engine ≡ false
unfolding fail_install rollback
fail_install_engine down st m ok = elim (Bool-cases (rollback down m).0) [
  | inl clean ↦ rw clean (close_shut down.close _ ok)
  | inr dirty ↦ rw dirty (close_shut down.close _ ok)
]

fail_install-Idle :
    (down : Down) (st : NtStatus) (m : Manager)
    → down.close ≡ status_success
    → m.installed ≡ false
    → Idle (fail_install down st m).1
unfolding Idle
fail_install-Idle down st m ok off =
    (fail_install_engine down st m ok, (fail_install_lem down st m).1 ∙ off)

rest-Idle :
    (up : Manager.Up) (down : Down) (o : Option NtStatus) (m : Manager)
    → down.close ≡ status_success
    → m.installed ≡ false
    → nt_success (install_rest up down o m).0 ≡ false
    → Idle (install_rest up down o m).1
unfolding install_rest
rest-Idle up down (some st) m ok off bad = fail_install-Idle down st m ok off
rest-Idle up down none m ok off bad = elim (Bool-cases (nt_success up.commit)) [
  | inl done ↦ absurd (ground (arith, done))
  | inr no_ ↦ rw no_ (fail_install-Idle down up.commit m ok off)
]

fresh-Idle :
    (up : Manager.Up) (down : Down) (m : Manager)
    → down.close ≡ status_success
    → m.installed ≡ false
    → nt_success (install_fresh up down m).0 ≡ false
    → Idle (install_fresh up down m).1
unfolding install_fresh
fresh-Idle up down m ok off = elim (Bool-cases (nt_success up.open_)) [
  | inr no_ ↦ rw no_ (λ bad. unfold Idle in (refl, off))
  | inl opened ↦ elim (Bool-cases (nt_success up.begin)) [
    | inr no_ ↦ rw (opened, no_) (λ bad. fail_install-Idle down up.begin _ ok off)
    | inl begun ↦ elim (Bool-cases (nt_success up.provider)) [
      | inr no_ ↦ rw (opened, begun, no_) (λ bad. fail_install-Idle down up.provider _ ok off)
      | inl prov ↦ elim (Bool-cases (nt_success up.sublayer)) [
        | inr no_ ↦
            rw (opened, begun, prov, no_) (λ bad. fail_install-Idle down up.sublayer _ ok off)
        | inl sub ↦
            rw (opened, begun, prov, sub)
              (rest-Idle up down (install_layers up.layers 0 m.layers).0 _ ok off)
      ]
    ]
  ]
]

-- Whatever fails an installation that went past its guards, and whatever its rollback left leaked, once the
-- rollback has closed the engine a later `SkWfpManagerTeardown` returns TRUE and changes nothing, whatever the
-- engine would answer.
pub failed_install_forgotten :
    (up : Manager.Up) (down down' : Down) (m : Manager)
    → m.installed ≡ false
    → manager_leaked m ≡ false
    → nt_success (manager_install up down m).0 ≡ false
    → down.close ≡ status_success
    → manager_teardown down' (manager_install up down m).1 ≡ (true, (manager_install up down m).1)
unfolding manager_install manager_reset
failed_install_forgotten up down down' m off sound =
    let step =
      pick_third (status_success, m) (_, m) (install_fresh up down (manager_reset m)) m.installed
        (manager_leaked m) off sound in
    subst
      (λ r.
        nt_success r.0 ≡ false
        → down.close ≡ status_success
        → manager_teardown down' r.1 ≡ (true, r.1))
      (sym step) (λ bad ok. Idle-teardown down' _ (fresh-Idle up down (manager_reset m) ok off bad))

-- The first layer of these is an orphan.
pub FirstOrphan : List Layer → Type 0
FirstOrphan [] = ⊥
FirstOrphan (l ∷ ls) = Orphan l

Orphan-kept : (down : LayerDown) (l : Layer) → Orphan l → Orphan (rollback_layer down l).1
unfolding rollback_layer
Orphan-kept down l (known, failed) =
    let l' = (rollback_filter down l).1 in
    let (kernel, callout) = rollback_filter_keeps down l in
    let off : is_installed l'.callout.state ≡ false =
      ap (λ p. is_installed p.state) callout ∙ ap is_installed failed in
    let skipped = rollback_skips down l' off in
    (
      ap (λ r. r.1.in_kernel) skipped ∙ kernel ∙ known,
      ap (λ r. r.1.callout.state) skipped ∙ ap (λ p. p.state) callout ∙ failed,
    )

orphans_kept :
    (downs : ℕ → LayerDown) (ls : List Layer)
    → FirstOrphan ls
    → FirstOrphan (rollback_layers downs 0 ls).1
unfolding FirstOrphan rollback_layers
orphans_kept downs [] h = h
orphans_kept downs (l ∷ ls) h = Orphan-kept (downs 0) l h

layer-Orphan :
    (up : LayerUp) (l : Layer)
    → nt_success up.register ≡ true
    → nt_success up.add ≡ false
    → ((install_layer up l).0 ≡ some up.add) × Orphan (install_layer up l).1
unfolding install_layer layer_register register_callout add_callout
layer-Orphan up l reg bad = rw (reg, bad) (refl, (refl, refl))

layers_orphan :
    (ups : ℕ → LayerUp) (l : Layer) (ls : List Layer)
    → nt_success (ups 0).register ≡ true
    → nt_success (ups 0).add ≡ false
    → ((install_layers ups 0 (l ∷ ls)).0 ≡ some (ups 0).add)
      × FirstOrphan (install_layers ups 0 (l ∷ ls)).1
unfolding install_layers FirstOrphan
layers_orphan ups l ls reg bad =
    let (stop, orphan) = layer-Orphan (ups 0) l reg bad in rw stop (refl, orphan)

-- The engine answers every call up to the layers.
pub record Opens (up : Manager.Up) : Type 0 where
  pub opens : nt_success up.open_ ≡ true
  pub begins : nt_success up.begin ≡ true
  pub adds_provider : nt_success up.provider ≡ true
  pub adds_sublayer : nt_success up.sublayer ≡ true

fresh_orphan :
    (up : Manager.Up) (down : Down) (m : Manager)
    → Opens up
    → nt_success (up.layers 0).register ≡ true
    → nt_success (up.layers 0).add ≡ false
    → (l : Layer) (ls : List Layer) → m.layers ≡ l ∷ ls
    → ((install_fresh up down m).0 ≡ (up.layers 0).add)
      × FirstOrphan (install_fresh up down m).1.layers
unfolding install_fresh install_rest
fresh_orphan up down m o reg bad l ls shape =
    let (stop, orphan) = layers_orphan up.layers l ls reg bad in
    let stop' : (install_layers up.layers 0 m.layers).0 ≡ some (up.layers 0).add =
      ap (λ x. (install_layers up.layers 0 x).0) shape ∙ stop in
    let orphan' : FirstOrphan (install_layers up.layers 0 m.layers).1 =
      subst (λ x. FirstOrphan (install_layers up.layers 0 x).1) (sym shape) orphan in
    rw (o.opens, o.begins, o.adds_provider, o.adds_sublayer, stop')
      (
        (fail_install_lem down (up.layers 0).add _).0,
        subst FirstOrphan (sym (fail_install_lem down (up.layers 0).add _).2)
            (orphans_kept down.layers (install_layers up.layers 0 m.layers).1 orphan'),
      )

-- `SkWfpManagerInstall` where the kernel registers the first layer's callout and FwpmCalloutAdd0 then fails:
-- the install fails with that status, and behind its rollback, whatever the engine answers there, the
-- kernel still has the callout while the object says FAILED. Once the engine is closed a teardown returns TRUE
-- and leaves it so.
pub orphaned_callout :
    (up : Manager.Up) (down : Down) (m : Manager) (l : Layer) (ls : List Layer)
    → m.installed ≡ false
    → manager_leaked m ≡ false
    → m.layers ≡ l ∷ ls
    → Opens up
    → nt_success (up.layers 0).register ≡ true
    → nt_success (up.layers 0).add ≡ false
    → ((manager_install up down m).0 ≡ (up.layers 0).add)
      × FirstOrphan (manager_install up down m).1.layers
      × (down.close ≡ status_success
          → (down' : Down)
          → manager_teardown down' (manager_install up down m).1
            ≡ (true, (manager_install up down m).1))
unfolding manager_install manager_reset reset_layers
orphaned_callout up down m l ls off sound shape o reg bad =
    let step =
      pick_third (status_success, m) (_, m) (install_fresh up down (manager_reset m)) m.installed
        (manager_leaked m) off sound in
    let (same, orphan) =
      fresh_orphan up down (manager_reset m) o reg bad _ _ (ap reset_layers shape) in
    let status = ap (λ r. r.0) step ∙ same in
    (
      status,
      subst (λ r. FirstOrphan r.1.layers) (sym step) orphan,
      (λ closed down'.
          failed_install_forgotten up down down' m off sound (ap nt_success status ∙ bad) closed),
    )
