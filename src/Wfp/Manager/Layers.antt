-- ===== src/Wfp/Manager/Layers.antt =====
-- What installation, rollback and teardown make of one layer.
use shinken_sentinel.Prelude.{
  ℕ, zero, suc, ◌+◌, ◌≡◌, ◌⊎◌, refl, sym, ap, ◌∙◌, List, [], ◌∷◌, Option, none, some, Bool, true,
  false, not, ◌&&◌, ◌==◌, arith, inl, inr, Bool-cases, All, All-map,
}
use shinken_sentinel.Status.{NtStatus, nt_success, status_device_busy}
use shinken_sentinel.Runtime.State.{Runtime}
use shinken_sentinel.Wfp.Objects.{
  Part, PartState, is_leaked, is_installed, is_gone, register_callout, add_callout, add_filter,
  unregister_rounds, unregister_from, part_unregister, part_delete,
}
use shinken_sentinel.Wfp.Manager.{
  Layer, LayerUp, LayerDown, is_some, layer_register, layer_unregister, install_layer,
  install_layers, rollback_filter, rollback_callout, rollback_layer, rollback_layers, stop_layer,
  stop_layers, drop_filter, drop_callout, drop_layers,
}

-- The end of an unregistration: confirmed and deleted, or leaked. The identifiers stay.
abbrev Unregistered : Part → NtStatus × Part → Type 0
Unregistered o r =
    (((is_gone r.0 ≡ true) × (r.1.state ≡ PartState.deleted))
      ⊎ ((is_gone r.0 ≡ false) × (r.1.state ≡ PartState.leaked)))
    × (r.1.callout_id ≡ o.callout_id)
    × (r.1.filter_id ≡ o.filter_id)

rounds-Unregistered :
    (answers : ℕ → NtStatus) (left attempt : ℕ) (o : Part)
    → Unregistered o (unregister_rounds answers left attempt o)
unfolding unregister_rounds
rounds-Unregistered answers zero attempt o = elim (Bool-cases (is_gone (answers attempt))) [
  | inl gone ↦ rw gone (inl (gone, refl), refl, refl)
  | inr stays ↦ elim (Bool-cases (not (answers attempt == status_device_busy))) [
    | inl odd ↦ rw (stays, odd) (inr (stays, refl), refl, refl)
    | inr busy ↦ rw (stays, busy) (inr (stays, refl), refl, refl)
  ]
]
rounds-Unregistered answers (suc left) attempt o = elim (Bool-cases (is_gone (answers attempt))) [
  | inl gone ↦ rw gone (inl (gone, refl), refl, refl)
  | inr stays ↦ elim (Bool-cases (not (answers attempt == status_device_busy))) [
    | inl odd ↦ rw (stays, odd) (inr (stays, refl), refl, refl)
    | inr busy ↦ rw (stays, busy) (rounds-Unregistered answers left (attempt + 1) o)
  ]
]

unregister-Unregistered :
    (answers : ℕ → NtStatus) (n : ℕ) (s : PartState) (o : Part)
    → is_installed s ≡ true
    → Unregistered o (unregister_from s answers n o)
unfolding unregister_from
unregister-Unregistered answers n PartState.registered o h =
    rounds-Unregistered answers n 0 (record o { state = PartState.quiescing })
unregister-Unregistered answers n PartState.active o h =
    rounds-Unregistered answers n 0 (record o { state = PartState.quiescing })
unregister-Unregistered answers n PartState.uninitialized o h = cc
unregister-Unregistered answers n PartState.prepared o h = cc
unregister-Unregistered answers n PartState.quiescing o h = cc
unregister-Unregistered answers n PartState.deleted o h = cc
unregister-Unregistered answers n PartState.failed o h = cc
unregister-Unregistered answers n PartState.leaked o h = cc

-- A layer that is wholly installed.
pub record Up (l : Layer) : Type 0 where
  pub active : l.callout.state ≡ PartState.active
  pub filtering : l.filter.state ≡ PartState.registered
  pub own : l.callout.filter_id ≡ 0
  pub known : l.in_kernel ≡ true

-- The kernel has the layer's callout, and the tracked object says that it failed.
abbrev pub Orphan : Layer → Type 0
Orphan l = (l.in_kernel ≡ true) × (l.callout.state ≡ PartState.failed)

-- A layer before it is installed.
pub record Fresh (l : Layer) : Type 0 where
  pub untouched : l.callout.state ≡ PartState.uninitialized
  pub own : l.callout.filter_id ≡ 0
  pub absent : l.in_kernel ≡ false

-- A layer in a failed installation, before the rollback and behind it.
abbrev pub Begun : Layer → Type 0
Begun l = (l.in_kernel ≡ false) ⊎ ((is_installed l.callout.state ≡ true) ⊎ Orphan l)

abbrev pub RolledBack : Layer → Type 0
RolledBack l = (l.in_kernel ≡ false) ⊎ ((l.callout.state ≡ PartState.leaked) ⊎ Orphan l)

install_layer-Begun : (up : LayerUp) (l : Layer) → Fresh l → Begun (install_layer up l).1
unfolding install_layer layer_register register_callout add_callout
install_layer-Begun up l f = elim (Bool-cases (nt_success up.register)) [
  | inr bad ↦ rw bad (inl f.absent)
  | inl reg ↦ elim (Bool-cases (nt_success up.add)) [
    | inr bad ↦ rw (reg, bad) (inr (inr (refl, refl)))
    | inl add ↦ elim (Bool-cases (nt_success up.filter)) [
      | inr bad ↦ rw (reg, add, bad) (inr (inl refl))
      | inl done ↦ rw (reg, add, done) (inr (inl refl))
    ]
  ]
]

install_layer-Up :
    (up : LayerUp) (l : Layer) → Fresh l → (install_layer up l).0 ≡ none → Up (install_layer up l).1
unfolding install_layer layer_register register_callout add_callout add_filter
install_layer-Up up l f h = record {
  active = ground arith;
  filtering = ground arith;
  own = ground (arith, f.own);
  known = ground arith;
}

pub install_layers-Begun :
    (ups : ℕ → LayerUp) (i : ℕ) (ls : List Layer)
    → All Fresh ls
    → All Begun (install_layers ups i ls).1
unfolding install_layers
install_layers-Begun ups i [] f = tt
install_layers-Begun ups i (l ∷ ls) f = elim (Bool-cases (is_some (install_layer (ups i) l).0)) [
  | inl stop ↦ rw stop (install_layer-Begun (ups i) l f.0, All-map ls (λ x h. inl h.absent) f.1)
  | inr on ↦ rw on (install_layer-Begun (ups i) l f.0, install_layers-Begun ups (i + 1) ls f.1)
]

not_some : (o : Option NtStatus) → is_some o ≡ false → o ≡ none
not_some none h = refl
not_some (some st) h = cc

pub install_layers-Up :
    (ups : ℕ → LayerUp) (i : ℕ) (ls : List Layer)
    → All Fresh ls
    → (install_layers ups i ls).0 ≡ none
    → All Up (install_layers ups i ls).1
unfolding install_layers
install_layers-Up ups i [] f h = tt
install_layers-Up ups i (l ∷ ls) f h = elim (Bool-cases (is_some (install_layer (ups i) l).0)) [
  | inl stop ↦ absurd (stopped stop)
  | inr on ↦ rw on (
    install_layer-Up (ups i) l f.0 (not_some _ on),
    install_layers-Up ups (i + 1) ls f.1 (ground (arith, on)),
  )
]
  where
    stopped : is_some (install_layer (ups i) l).0 ≡ true → ⊥
    stopped stop = ground (arith, stop)

install_layer-error :
    (up : LayerUp) (l : Layer) (st : NtStatus)
    → (install_layer up l).0 ≡ some st
    → nt_success st ≡ false
unfolding install_layer
install_layer-error up l st h = ground arith

pub install_layers-error :
    (ups : ℕ → LayerUp) (i : ℕ) (ls : List Layer) (st : NtStatus)
    → (install_layers ups i ls).0 ≡ some st
    → nt_success st ≡ false
unfolding install_layers
install_layers-error ups i [] st h = cc
install_layers-error ups i (l ∷ ls) st h = elim (Bool-cases (is_some (install_layer (ups i) l).0)) [
  | inl stop ↦ install_layer-error (ups i) l st (ground (arith, stop))
  | inr on ↦ install_layers-error ups (i + 1) ls st (ground (arith, on))
]

-- An unregistration of a layer whose callout is installed.
unregister_layer :
    (down : LayerDown) (l : Layer)
    → is_installed l.callout.state ≡ true
    → ((layer_unregister down l).in_kernel ≡ false)
      ⊎ ((layer_unregister down l).callout.state ≡ PartState.leaked)
unfolding layer_unregister part_unregister
unregister_layer down l h =
    elim (unregister-Unregistered down.unregister 8 l.callout.state l.callout h).0 [
      | inl (gone, _) ↦ inl (rw gone refl)
      | inr (_, stuck) ↦ inr stuck
    ]

-- A kernel that does not have the callout does not get it.
unregister_absent :
    (down : LayerDown) (l : Layer)
    → l.in_kernel ≡ false
    → (layer_unregister down l).in_kernel ≡ false
unfolding layer_unregister
unregister_absent down l h = ground (arith, h)

pub rollback_skips :
    (down : LayerDown) (l : Layer)
    → is_installed l.callout.state ≡ false
    → rollback_callout down l ≡ (true, l)
unfolding rollback_callout
rollback_skips down l h = rw h refl

rollback_kernel :
    (down : LayerDown) (l : Layer)
    → is_installed l.callout.state ≡ true
    → (rollback_callout down l).1.in_kernel ≡ (layer_unregister down l).in_kernel
unfolding rollback_callout
rollback_kernel down l h = ground (arith, h)

rollback_leaks :
    (down : LayerDown) (l : Layer)
    → is_installed l.callout.state ≡ true
    → (layer_unregister down l).callout.state ≡ PartState.leaked
    → rollback_callout down l ≡ (false, layer_unregister down l)
unfolding rollback_callout
rollback_leaks down l h stuck = rw (h, ap is_leaked stuck) refl

kept_Begun : (l : Layer) → Begun l → is_installed l.callout.state ≡ false → RolledBack l
kept_Begun l (inl absent) h = inl absent
kept_Begun l (inr (inl on)) h = cc
kept_Begun l (inr (inr orphan)) h = inr (inr orphan)

rollback_callout-RolledBack :
    (down : LayerDown) (l : Layer) → Begun l → RolledBack (rollback_callout down l).1
rollback_callout-RolledBack down l b = elim (Bool-cases (is_installed l.callout.state)) [
  | inr off ↦ rw (rollback_skips down l off) (kept_Begun l b off)
  | inl on ↦ elim (unregister_layer down l on) [
    | inl absent ↦ inl (rollback_kernel down l on ∙ absent)
    | inr stuck ↦ inr (inl (ap (λ r. r.1.callout.state) (rollback_leaks down l on stuck) ∙ stuck))
  ]
]

pub rollback_filter_keeps :
    (down : LayerDown) (l : Layer)
    → ((rollback_filter down l).1.in_kernel ≡ l.in_kernel)
      × ((rollback_filter down l).1.callout ≡ l.callout)
unfolding rollback_filter
rollback_filter_keeps down l = ground arith

rollback_layer-RolledBack :
    (down : LayerDown) (l : Layer) → Begun l → RolledBack (rollback_layer down l).1
unfolding rollback_layer
rollback_layer-RolledBack down l b = rollback_callout-RolledBack down (rollback_filter down l).1 (
    same_Begun l (rollback_filter down l).1 (rollback_filter_keeps down l).0
      (rollback_filter_keeps down l).1 b)
  where
    same_Begun :
        (a c : Layer) → c.in_kernel ≡ a.in_kernel → c.callout ≡ a.callout → Begun a → Begun c
    same_Begun a c k o (inl absent) = inl (k ∙ absent)
    same_Begun a c k o (inr (inl on)) = inr (inl (ap (λ p. is_installed p.state) o ∙ on))
    same_Begun a c k o (inr (inr (known, failed))) =
        inr (inr (k ∙ known, ap (λ p. p.state) o ∙ failed))

pub rollback_layers-RolledBack :
    (downs : ℕ → LayerDown) (i : ℕ) (ls : List Layer)
    → All Begun ls
    → All RolledBack (rollback_layers downs i ls).1
unfolding rollback_layers
rollback_layers-RolledBack downs i [] b = tt
rollback_layers-RolledBack downs i (l ∷ ls) b =
    (rollback_layer-RolledBack (downs i) l b.0, rollback_layers-RolledBack downs (i + 1) ls b.1)

-- A layer that the teardown is done with.
pub record Removed (l : Layer) : Type 0 where
  pub absent : l.in_kernel ≡ false
  pub no_filter : l.filter.filter_id ≡ 0
  pub no_callout : l.callout.callout_id ≡ 0

true-ne-false : true ≡ false → ⊥
true-ne-false h = cc

-- An unregistration that ends well.
unregister_ends :
    (down : LayerDown) (l : Layer)
    → is_installed l.callout.state ≡ true
    → ((layer_unregister down l).callout.filter_id ≡ l.callout.filter_id)
      × (is_leaked (layer_unregister down l).callout.state ≡ false
          → (layer_unregister down l).in_kernel ≡ false)
unfolding layer_unregister part_unregister
unregister_ends down l h =
    let (ends, _, own) = unregister-Unregistered down.unregister 8 l.callout.state l.callout h in
    (
      own,
      λ sound. elim ends [
        | inl (gone, _) ↦ rw gone refl
        | inr (_, stuck) ↦ absurd (true-ne-false (sym (ap is_leaked stuck) ∙ sound))
      ],
    )

-- A layer that a teardown has stopped.
pub record Stopped (l : Layer) : Type 0 where
  pub absent : l.in_kernel ≡ false
  pub own : l.callout.filter_id ≡ 0
  pub sound : is_leaked l.callout.state ≡ false

stop_layer-Stopped :
    (down : LayerDown) (l : Layer) (rt : Runtime)
    → Up l
    → (stop_layer down l rt).0 ≡ true
    → Stopped (stop_layer down l rt).1
unfolding stop_layer
stop_layer-Stopped down l rt u h =
    let on : is_installed l.callout.state ≡ true = ap is_installed u.active in
    let (own, ends) = unregister_ends down l on in
    elim (Bool-cases (is_leaked (layer_unregister down l).callout.state)) [
      | inl stuck ↦ absurd (ground (arith, on, stuck))
      | inr sound ↦
          rw (on, sound) (record { absent = ends sound; own = own ∙ u.own; sound = sound })
    ]

pub and2 : (a b : Bool) → (a && b) ≡ true → (a ≡ true) × (b ≡ true)
and2 a b h = ground arith

pub and3 : (a b c : Bool) → (a && b && c) ≡ true → (a ≡ true) × (b ≡ true) × (c ≡ true)
and3 a b c h = ground arith

drop_filter-gone :
    (down : LayerDown) (l : Layer) (rt : Runtime)
    → (drop_filter down l rt).0 ≡ true
    → ((drop_filter down l rt).1.filter.filter_id ≡ 0)
      × ((drop_filter down l rt).1.callout ≡ l.callout)
      × ((drop_filter down l rt).1.in_kernel ≡ l.in_kernel)
unfolding drop_filter part_delete
drop_filter-gone down l rt h = (ground arith, ground arith, ground arith)

drop_callout-gone :
    (down : LayerDown) (l : Layer) (rt : Runtime)
    → l.callout.filter_id ≡ 0
    → is_leaked l.callout.state ≡ false
    → (drop_callout down l rt).0 ≡ true
    → ((drop_callout down l rt).1.callout.callout_id ≡ 0)
      × ((drop_callout down l rt).1.filter ≡ l.filter)
      × ((drop_callout down l rt).1.in_kernel ≡ l.in_kernel)
unfolding drop_callout part_delete
drop_callout-gone down l rt own sound h = (ground arith, ground arith, ground arith)

drop_layers-Removed :
    (downs : ℕ → LayerDown) (i : ℕ) (ls : List Layer) (rt : Runtime)
    → All Stopped ls
    → (drop_layers downs i ls rt).0 ≡ true
    → All Removed (drop_layers downs i ls rt).1
unfolding drop_layers
drop_layers-Removed downs i [] rt s h = tt
drop_layers-Removed downs i (l ∷ ls) rt s h =
    let f = drop_filter (downs i) l rt in
    let c = drop_callout (downs i) f.1 f.2 in
    let rest = drop_layers downs (i + 1) ls c.2 in
    let (f0, c0, rest0) = and3 f.0 c.0 rest.0 h in
    let (no_filter, same, known) = drop_filter-gone (downs i) l rt f0 in
    let (no_callout, same', known') =
      drop_callout-gone (downs i) f.1 f.2 (ap (λ p. p.filter_id) same ∙ s.0.own)
        (ap (λ p. is_leaked p.state) same ∙ s.0.sound) c0 in
    (
      record {
        absent = known' ∙ known ∙ s.0.absent;
        no_filter = ap (λ p. p.filter_id) same' ∙ no_filter;
        no_callout = no_callout;
      },
      drop_layers-Removed downs (i + 1) ls c.2 s.1 rest0,
    )

stop_layers-Stopped :
    (downs : ℕ → LayerDown) (i : ℕ) (ls : List Layer) (rt : Runtime)
    → All Up ls
    → (stop_layers downs i ls rt).0 ≡ true
    → All Stopped (stop_layers downs i ls rt).1
unfolding stop_layers
stop_layers-Stopped downs i [] rt u h = tt
stop_layers-Stopped downs i (l ∷ ls) rt u h =
    let r = stop_layer (downs i) l rt in
    let (r0, rest0) = and2 r.0 (stop_layers downs (i + 1) ls r.2).0 h in
    (stop_layer-Stopped (downs i) l rt u.0 r0, stop_layers-Stopped downs (i + 1) ls r.2 u.1 rest0)

-- Both loops of a teardown that succeed.
pub teardown_layers-Removed :
    (downs : ℕ → LayerDown) (ls : List Layer) (rt : Runtime)
    → All Up ls
    → (stop_layers downs 0 ls rt).0 ≡ true
    → (drop_layers downs 0 (stop_layers downs 0 ls rt).1 (stop_layers downs 0 ls rt).2).0 ≡ true
    → All Removed
        (drop_layers downs 0 (stop_layers downs 0 ls rt).1 (stop_layers downs 0 ls rt).2).1
teardown_layers-Removed downs ls rt u h k =
    drop_layers-Removed downs 0 (stop_layers downs 0 ls rt).1 (stop_layers downs 0 ls rt).2
      (stop_layers-Stopped downs 0 ls rt u h) k
