-- ===== src/Wfp/Manager/Laws.antt =====
-- The installation on every branch, and what a teardown that succeeds has removed.
use shinken_sentinel.Prelude.{
  ℕ, ◌+◌, ◌≡◌, ◌⊎◌, refl, sym, ap, ◌∙◌, subst, List, [], ◌∷◌, ◌++◌, Option, none, some, Bool, true,
  false, not, ◌&&◌, if◌then◌else◌, arith, inl, inr, Bool-cases, All,
}
use shinken_sentinel.Status.{
  NtStatus, nt_success, status_success, status_device_busy, fwp_provider_not_found,
  fwp_sublayer_not_found,
}
use shinken_sentinel.Runtime.State.{Runtime}
use shinken_sentinel.Wfp.Objects.{Part, PartState}
use shinken_sentinel.Wfp.Manager.{
  Layer, LayerUp, Manager, Down, added, install_layer, install_layers, rollback_layers,
  close_engine, delete_by_key, rollback, fail_install, manager_leaked, reset_layers, manager_reset,
  install_rest, install_fresh, manager_install, stop_layers, drop_layers, block_unless,
  finish_teardown, manager_teardown,
}
use shinken_sentinel.Wfp.Manager
use shinken_sentinel.Wfp.Manager.Layers.{
  Up, Fresh, Begun, RolledBack, Removed, install_layers-Begun, install_layers-Up,
  install_layers-error, rollback_layers-RolledBack, teardown_layers-Removed,
}

-- The kernel has none of the callouts.
abbrev pub NoneInKernel : List Layer → Type 0
NoneInKernel ls = All (λ l. l.in_kernel ≡ false) ls

pub reset_layers-Fresh : (ls : List Layer) → NoneInKernel ls → All Fresh (reset_layers ls)
unfolding reset_layers
reset_layers-Fresh [] h = tt
reset_layers-Fresh (l ∷ ls) h =
    (record { untouched = refl; own = refl; absent = h.0 }, reset_layers-Fresh ls h.1)

Fresh-Begun : (ls : List Layer) → All Fresh ls → All Begun ls
Fresh-Begun [] f = tt
Fresh-Begun (l ∷ ls) f = (inl f.0.absent, Fresh-Begun ls f.1)

pub close_engine_keeps :
    (st : NtStatus) (m : Manager)
    → ((close_engine st m).1.layers ≡ m.layers) × ((close_engine st m).1.installed ≡ m.installed)
unfolding close_engine
close_engine_keeps st m = (ground arith, ground arith)

rollback_keeps :
    (down : Down) (m : Manager)
    → ((rollback down m).1.installed ≡ m.installed)
      × ((rollback down m).1.layers ≡ (rollback_layers down.layers 0 m.layers).1)
unfolding rollback
rollback_keeps down m =
    let sub = delete_by_key fwp_sublayer_not_found down.sublayer m.sublayer in
    let prov = delete_by_key fwp_provider_not_found down.provider m.provider in
    let k = close_engine_keeps down.close (record m {
      layers = (rollback_layers down.layers 0 m.layers).1;
      sublayer = sub.1;
      provider = prov.1;
    }) in
    (k.1, k.0)

pub fail_install_lem :
    (down : Down) (st : NtStatus) (m : Manager)
    → ((fail_install down st m).0 ≡ st)
      × ((fail_install down st m).1.installed ≡ m.installed)
      × ((fail_install down st m).1.layers ≡ (rollback_layers down.layers 0 m.layers).1)
unfolding fail_install
fail_install_lem down st m =
    let (kept, layers) = rollback_keeps down m in
    elim (Bool-cases (rollback down m).0) [
      | inl clean ↦ rw clean (refl, kept, layers)
      | inr dirty ↦ rw dirty (refl, kept, layers)
    ]

Fresh-RolledBack : (ls : List Layer) → All Fresh ls → All RolledBack ls
Fresh-RolledBack [] f = tt
Fresh-RolledBack (l ∷ ls) f = (inl f.0.absent, Fresh-RolledBack ls f.1)

-- What the engine answers an installation, in the order of the calls: for each layer the registration, the
-- callout and the filter, and the commit at the end. The first answer that is not a success.
pub layer_answers : (ℕ → LayerUp) → ℕ → List Layer → List NtStatus
layer_answers ups i [] = []
layer_answers ups i (l ∷ ls) =
    (ups i).register ∷ (ups i).add ∷ (ups i).filter ∷ layer_answers ups (i + 1) ls

pub engine_answers : Manager.Up → List Layer → List NtStatus
engine_answers up ls =
    up.open_
    ∷ up.begin
    ∷ up.provider
    ∷ up.sublayer
    ∷ (layer_answers up.layers 0 ls ++ up.commit ∷ [])

unfoldable pub first_bad : List NtStatus → Option NtStatus
first_bad [] = none
first_bad (st ∷ rest) = if nt_success st then first_bad rest else some st

first_bad_here :
    (st : NtStatus) (l : List NtStatus) → nt_success st ≡ false → first_bad (st ∷ l) ≡ some st
unfolding first_bad
first_bad_here st l bad = rw bad refl

first_bad_later :
    (st : NtStatus) (l : List NtStatus) → nt_success st ≡ true → first_bad (st ∷ l) ≡ first_bad l
unfolding first_bad
first_bad_later st l good = rw good refl

abbrev or_else : Option NtStatus → Option NtStatus → Option NtStatus
or_else none o = o
or_else (some st) o = some st

-- The loop over the layers fails with the first bad answer among theirs.
layers-first_bad :
    (ups : ℕ → LayerUp) (i : ℕ) (ls : List Layer) (rest : List NtStatus)
    → first_bad (layer_answers ups i ls ++ rest)
      ≡ or_else (install_layers ups i ls).0 (first_bad rest)
unfolding layer_answers install_layers install_layer first_bad
layers-first_bad ups i [] rest = refl
layers-first_bad ups i (l ∷ ls) rest = elim (Bool-cases (nt_success (ups i).register)) [
  | inr bad ↦ rw bad refl
  | inl reg ↦ elim (Bool-cases (nt_success (ups i).add)) [
    | inr bad ↦ rw (reg, bad) refl
    | inl add ↦ elim (Bool-cases (nt_success (ups i).filter)) [
      | inr bad ↦ rw (reg, add, bad) refl
      | inl done ↦ rw (reg, add, done) (layers-first_bad ups (i + 1) ls rest)
    ]
  ]
]

reset-layer_answers :
    (ups : ℕ → LayerUp) (i : ℕ) (ls : List Layer)
    → layer_answers ups i (reset_layers ls) ≡ layer_answers ups i ls
unfolding layer_answers reset_layers
reset-layer_answers ups i [] = refl
reset-layer_answers ups i (l ∷ ls) = rw (reset-layer_answers ups (i + 1) ls) refl

-- The two ends of an installation that goes past its guards, where `bad` is the first of the engine's answers
-- that is not a success.
abbrev pub Installation : Option NtStatus → NtStatus × Manager → Type 0
Installation bad r =
    ((bad ≡ none)
      × (r.0 ≡ status_success)
      × (r.1.installed ≡ true)
      × (r.1.engine ≡ true)
      × (r.1.provider.state ≡ PartState.registered)
      × (r.1.sublayer.state ≡ PartState.registered)
      × All Up r.1.layers)
    ⊎ ((bad ≡ some r.0)
        × (nt_success r.0 ≡ false)
        × (r.1.installed ≡ false)
        × All RolledBack r.1.layers)

Installation-first :
    (o o' : Option NtStatus) (r : NtStatus × Manager)
    → o ≡ o'
    → Installation o' r
    → Installation o r
Installation-first o o' r e h = subst (λ x. Installation x r) (sym e) h

failed_Installation :
    (down : Down) (st : NtStatus) (m : Manager) (o : Option NtStatus)
    → nt_success st ≡ false
    → o ≡ some st
    → m.installed ≡ false
    → All Begun m.layers
    → Installation o (fail_install down st m)
failed_Installation down st m o bad first off b =
    let (same, kept, layers) = fail_install_lem down st m in
    inr (
      first ∙ ap some (sym same),
      ap nt_success same ∙ bad,
      kept ∙ off,
      subst (All RolledBack) (sym layers) (rollback_layers-RolledBack down.layers 0 m.layers b),
    )

rest_Installation :
    (up : Manager.Up) (down : Down) (o : Option NtStatus) (m : Manager) (first : Option NtStatus)
    → first ≡ or_else o (first_bad (up.commit ∷ []))
    → ((st : NtStatus) → o ≡ some st → nt_success st ≡ false)
    → (o ≡ none → All Up m.layers)
    → All Begun m.layers
    → m.installed ≡ false
    → m.engine ≡ true
    → m.provider.state ≡ PartState.registered
    → m.sublayer.state ≡ PartState.registered
    → Installation first (install_rest up down o m)
unfolding install_rest
rest_Installation up down (some st) m first e bad done b off engine prov sub =
    failed_Installation down st m first (bad st refl) e off b
rest_Installation up down none m first e bad done b off engine prov sub =
    elim (Bool-cases (nt_success up.commit)) [
      | inl ok ↦ rw ok (
          inl (
            e ∙ first_bad_later up.commit [] ok ∙ unfold first_bad in refl,
            refl,
            refl,
            engine,
            prov,
            sub,
            done refl,
          ))
      | inr no_ ↦ rw no_ (
          failed_Installation down up.commit m first no_ (e ∙ first_bad_here up.commit [] no_) off
            b)
    ]

Fresh-Installation :
    (up : Manager.Up) (down : Down) (m : Manager)
    → m.installed ≡ false
    → All Fresh m.layers
    → Installation (first_bad (engine_answers up m.layers)) (install_fresh up down m)
unfolding install_fresh engine_answers
Fresh-Installation up down m off f = elim (Bool-cases (nt_success up.open_)) [
  | inr bad ↦ rw bad (inr (first_bad_here up.open_ _ bad, bad, off, Fresh-RolledBack m.layers f))
  | inl opened ↦ elim (Bool-cases (nt_success up.begin)) [
    | inr bad ↦
        rw (opened, bad)
          (failed_Installation down up.begin _ _ bad
            (first_bad_later up.open_ _ opened ∙ first_bad_here up.begin _ bad) off
            (Fresh-Begun m.layers f))
    | inl begun ↦ elim (Bool-cases (nt_success up.provider)) [
      | inr bad ↦
          rw (opened, begun, bad)
            (failed_Installation down up.provider _ _ bad
              (first_bad_later up.open_ _ opened
                ∙ first_bad_later up.begin _ begun
                ∙ first_bad_here up.provider _ bad)
              off (Fresh-Begun m.layers f))
      | inl prov ↦ elim (Bool-cases (nt_success up.sublayer)) [
        | inr bad ↦
            rw (opened, begun, prov, bad)
              (failed_Installation down up.sublayer _ _ bad
                (first_bad_later up.open_ _ opened
                  ∙ first_bad_later up.begin _ begun
                  ∙ first_bad_later up.provider _ prov
                  ∙ first_bad_here up.sublayer _ bad)
                off (Fresh-Begun m.layers f))
        | inl sub ↦
            rw (opened, begun, prov, sub)
              (rest_Installation up down (install_layers up.layers 0 m.layers).0 _ _
                (first_bad_later up.open_ _ opened
                  ∙ first_bad_later up.begin _ begun
                  ∙ first_bad_later up.provider _ prov
                  ∙ first_bad_later up.sublayer _ sub
                  ∙ layers-first_bad up.layers 0 m.layers (up.commit ∷ []))
                (install_layers-error up.layers 0 m.layers)
                (install_layers-Up up.layers 0 m.layers f)
                (install_layers-Begun up.layers 0 m.layers f) off refl refl refl)
      ]
    ]
  ]
]

pub pick_then : {A : Type 0} (x y : A) (b : Bool) → b ≡ true → (if b then x else y) ≡ x
pick_then x y b on = rw on refl

pick_else : {A : Type 0} (x y : A) (b : Bool) → b ≡ false → (if b then x else y) ≡ y
pick_else x y b off = rw off refl

module _ {A : Type 0} (x y z : A) (b c : Bool) (off : b ≡ false) where
  pick_second : c ≡ true → (if b then x else if c then y else z) ≡ y
  pick_second on = rw (off, on) refl

  pub pick_third : c ≡ false → (if b then x else if c then y else z) ≡ z
  pick_third on = rw (off, on) refl

-- `SkWfpManagerInstall` where the kernel has none of the callouts: an installed manager answers success and a
-- manager with a leaked object STATUS_DEVICE_BUSY, with nothing changed. Else it ends in one of two ways:
-- success, where the engine answered every call with a success, with the engine open and every layer's callout
-- registered in the kernel and tracked as active, and its filter tracked as registered; or the first
-- answer that is not a success, not installed, where each layer's callout is not in the kernel, or is tracked
-- as leaked, or is tracked as failed although the kernel has it.
pub manager_install_lem :
    (up : Manager.Up) (down : Down) (m : Manager)
    → NoneInKernel m.layers
    → (m.installed ≡ true → manager_install up down m ≡ (status_success, m))
      × (m.installed ≡ false
          → manager_leaked m ≡ true
          → manager_install up down m ≡ (status_device_busy, m))
      × (m.installed ≡ false
          → manager_leaked m ≡ false
          → Installation (first_bad (engine_answers up m.layers)) (manager_install up down m))
unfolding manager_install manager_reset engine_answers
manager_install_lem up down m none_ = (
  (λ on. rw on refl),
  (λ off leaks. pick_second _ _ _ m.installed (manager_leaked m) off leaks),
  (λ off sound.
      subst (Installation (first_bad (engine_answers up m.layers)))
        (sym (pick_third _ _ _ m.installed (manager_leaked m) off sound))
        (Installation-first _ _ (install_fresh up down (manager_reset m))
          (ap
            (λ l.
              first_bad (up.open_ ∷ up.begin ∷ up.provider ∷ up.sublayer ∷ (l ++ up.commit ∷ [])))
            (sym (reset-layer_answers up.layers 0 m.layers)))
          (Fresh-Installation up down (manager_reset m) off (reset_layers-Fresh m.layers none_)))),
)

-- A teardown's second half.
finish_done :
    (down : Down) (ok : Bool) (m : Manager)
    → (finish_teardown down ok m).0 ≡ true
    → (ok ≡ true)
      × ((finish_teardown down ok m).1.engine ≡ false)
      × ((finish_teardown down ok m).1.installed ≡ false)
      × ((finish_teardown down ok m).1.layers ≡ m.layers)
      × ((finish_teardown down ok m).1.runtime ≡ m.runtime)
unfolding finish_teardown close_engine
finish_done down ok m h = (ground arith, ground arith, ground arith, ground arith, ground arith)

finish_not :
    (down : Down) (ok : Bool) (m : Manager)
    → (finish_teardown down ok m).0 ≡ false
    → ((finish_teardown down ok m).1.engine ≡ m.engine)
      × ((finish_teardown down ok m).1.installed ≡ m.installed)
unfolding finish_teardown close_engine
finish_not down ok m h = (ground arith, ground arith)

and4 : (a b c d : Bool) → (a && b && c && d) ≡ true → (a ≡ true) × (b ≡ true)
and4 a b c d h = (ground arith, ground arith)

module _ (down : Down) (m : Manager) where
  stopped_part : Bool × List Layer × Runtime
  stopped_part = stop_layers down.layers 0 m.layers m.runtime

  dropped_part : Bool × List Layer × Runtime
  unfolding stopped_part
  dropped_part = drop_layers down.layers 0 stopped_part.1 stopped_part.2

  sub_part : Bool × Part
  sub_part = delete_by_key fwp_sublayer_not_found down.sublayer m.sublayer

  prov_part : Bool × Part
  prov_part = delete_by_key fwp_provider_not_found down.provider m.provider

  cleared : Manager
  unfolding dropped_part sub_part prov_part
  cleared = record m {
    layers = dropped_part.1;
    sublayer = sub_part.1;
    provider = prov_part.1;
    runtime = block_unless prov_part.0 (block_unless sub_part.0 dropped_part.2);
  }

  teardown_step :
      m.installed ≡ true
      → manager_teardown down m
        ≡ finish_teardown down
            (stopped_part.0 && dropped_part.0 && sub_part.0 && prov_part.0)
            cleared
  unfolding manager_teardown cleared
  teardown_step on = pick_else _ _ (not m.installed && not m.engine) (ground (arith, on))

  teardown_done :
      m.installed ≡ true
      → All Up m.layers
      → (manager_teardown down m).0 ≡ true
      → All Removed (manager_teardown down m).1.layers
        × ((manager_teardown down m).1.engine ≡ false)
        × ((manager_teardown down m).1.installed ≡ false)
  unfolding cleared
  teardown_done on ups h =
      let step = teardown_step on in
      let ok = stopped_part.0 && dropped_part.0 && sub_part.0 && prov_part.0 in
      let (all_ok, closed, off, layers, _) =
        finish_done down ok cleared (sym (ap (λ r. r.0) step) ∙ h) in
      let (s, d) = and4 stopped_part.0 dropped_part.0 sub_part.0 prov_part.0 all_ok in
      (
        subst (All Removed) (sym (ap (λ r. r.1.layers) step ∙ layers))
            (teardown_layers-Removed down.layers m.layers m.runtime ups s d),
        ap (λ r. r.1.engine) step ∙ closed,
        ap (λ r. r.1.installed) step ∙ off,
      )

  teardown_not :
      m.installed ≡ true
      → (manager_teardown down m).0 ≡ false
      → ((manager_teardown down m).1.engine ≡ m.engine)
        × ((manager_teardown down m).1.installed ≡ m.installed)
  unfolding cleared
  teardown_not on h =
      let step = teardown_step on in
      let ok = stopped_part.0 && dropped_part.0 && sub_part.0 && prov_part.0 in
      let (open_, kept) = finish_not down ok cleared (sym (ap (λ r. r.0) step) ∙ h) in
      (ap (λ r. r.1.engine) step ∙ open_, ap (λ r. r.1.installed) step ∙ kept)

-- `SkWfpManagerTeardown` of a manager that is installed, with every layer wholly so. Where it returns TRUE
-- the kernel has none of the callouts, no filter and no callout object is left, the engine is closed
-- and nothing is installed. Where it returns FALSE the manager stays installed and the engine open, so
-- that it is still tracked.
pub manager_teardown_lem :
    (down : Down) (m : Manager)
    → m.installed ≡ true
    → m.engine ≡ true
    → All Up m.layers
    → ((manager_teardown down m).0 ≡ true
        → All Removed (manager_teardown down m).1.layers
          × ((manager_teardown down m).1.engine ≡ false)
          × ((manager_teardown down m).1.installed ≡ false))
      × ((manager_teardown down m).0 ≡ false
          → ((manager_teardown down m).1.engine ≡ true)
            × ((manager_teardown down m).1.installed ≡ true))
manager_teardown_lem down m on open_ ups = (
  teardown_done down m on ups,
  (λ h. let (engine, kept) = teardown_not down m on h in (engine ∙ open_, kept ∙ on)),
)
