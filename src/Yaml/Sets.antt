-- ===== src/Yaml/Sets.antt =====
-- yaml.c: what holds of a set of desired states that was loaded.
use netrec.Prelude.{
  ℕ, zero, suc, ◌≤◌, ◌<◌, ◌≡◌, ◌≢◌, refl, subst, inl, inr, Bool-cases, Option-cases, Bool, true,
  false, ◌||◌, Option, none, [], ◌∷◌, arith, Bytes, codes, streq, length, All, Result-cases, ret,
  ◌>>=◌, >>=-eq-ret, Holds, Holds-ret, Holds-skip,
}
use netrec.State.{DesiredState, DesiredSet, RealState, nr_des_state_max}
use netrec.Cfg.Node.{Nodes, nil, link, Node, is_obj, obj_find}
use netrec.Cfg.File.{cfg_load}
use netrec.Verify.Scenario.{verify_scenario}
use netrec.Yaml.Fields.{is_scn, get_str}
use netrec.Yaml.Parts.{load_bridge, load_uplink, load_vlan, load_wg_vxlan, load_routes, required}
use netrec.Yaml.Load.{
  blank_state, uplink_if_any, load_scenario, load_state, state_items, not_empty,
  yaml_load_desired_set,
}
use netrec.Yaml.Keeps.{load_scenario-Holds}
use netrec.Yaml.Loaded.{IsFit, load_state-IsFit}

-- One of the scenarios.
abbrev pub is_known : Bytes → Bool
is_known s =
    is_scn s (codes "only_uplink") (codes "only_uplink_iface")
    || is_scn s (codes "uplink_bridge") (codes "uplink_in_bridge")
    || is_scn s (codes "vlan_bridge") (codes "vlan_in_bridge")
    || streq s (codes "wg_vxlan_bridge")

module _ (s : Bytes) where
  abbrev Named : DesiredState → Type 0
  Named ds = ds.scenario ≡ s

  load_bridge-Named :
      (root : Node) (ds : DesiredState) → Named ds → Holds Named (load_bridge root ds)
  unfolding load_bridge
  load_bridge-Named root ds h = search (Holds-skip) depth 20

  load_uplink-Named :
      (root : Node) (ds : DesiredState) → Named ds → Holds Named (load_uplink root ds)
  unfolding load_uplink
  load_uplink-Named root ds h = search (Holds-skip) depth 20

  load_vlan-Named : (root : Node) (ds : DesiredState) → Named ds → Holds Named (load_vlan root ds)
  unfolding load_vlan
  load_vlan-Named root ds h = search (Holds-skip) depth 20

  load_wg_vxlan-Named :
      (root : Node) (ds : DesiredState) → Named ds → Holds Named (load_wg_vxlan root ds)
  unfolding load_wg_vxlan
  load_wg_vxlan-Named root ds h = search (Holds-skip) depth 20

  uplink_if_any-Named :
      (root : Node) (ds : DesiredState) → Named ds → Holds Named (uplink_if_any root ds)
  unfolding uplink_if_any
  uplink_if_any-Named root ds h = elim (Option-cases (obj_find root (codes "uplink"))) [
    | inl e ↦ rw (e, uplink_if_any) h
    | inr (n, e) ↦ rw (e, uplink_if_any) (load_uplink-Named root ds h)
  ]

  load_routes-Named :
      (root : Node) (ds : DesiredState) → Named ds → Holds Named (load_routes root ds)
  unfolding load_routes
  load_routes-Named root ds h = ground arith

  load_scenario-Named :
      (root : Node) (ds : DesiredState) → Named ds → Holds Named (load_scenario root ds)
  load_scenario-Named root =
      load_scenario-Holds Named root (load_bridge-Named root) (load_uplink-Named root)
        (load_vlan-Named root) (uplink_if_any-Named root) (load_wg_vxlan-Named root)

-- Another scenario is not loaded.
load_scenario-known :
    (root : Node) (ds : DesiredState) {d : DesiredState}
    → load_scenario root ds ≡ ret d
    → is_known ds.scenario ≡ true
unfolding load_scenario
load_scenario-known root ds h = elim (Bool-cases (is_known ds.scenario)) [
  | inl y ↦ y
  | inr n ↦
      let a : is_scn ds.scenario (codes "only_uplink") (codes "only_uplink_iface") ≡ false =
        ground arith in
      let b : is_scn ds.scenario (codes "uplink_bridge") (codes "uplink_in_bridge") ≡ false =
        ground arith in
      let c : is_scn ds.scenario (codes "vlan_bridge") (codes "vlan_in_bridge") ≡ false =
        ground arith in
      let d : streq ds.scenario (codes "wg_vxlan_bridge") ≡ false = ground arith in
      cc (rw (a, b, c, d) at h)
]

load_state-known :
    (root : Node) (ds : DesiredState) → load_state root ≡ ret ds → is_known ds.scenario ≡ true
unfolding load_state
load_state-known root ds h =
    let (s, e, f) =
      >>=-eq-ret {B = DesiredState} (get_str root (codes "scenario") 32 true)
        (λ s. load_scenario root (blank_state s) >>= load_routes root) h in
    let (d, g, k) =
      >>=-eq-ret {B = DesiredState} (load_scenario root (blank_state s)) (load_routes root) f in
    let known = load_scenario-known root (blank_state s) g in
    let named =
      Holds-ret (Named s) (load_scenario root (blank_state s))
        (load_scenario-Named s root (blank_state s) refl) g in
    let kept = Holds-ret (Named s) (load_routes root d) (load_routes-Named s root d named) k in
    rw kept known

pub known_supported :
    (net : Bytes → Option ℕ) (ds : DesiredState) (rs : RealState)
    → is_known ds.scenario ≡ true
    → verify_scenario net ds rs ≢ none
unfolding verify_scenario
known_supported net ds rs h e = ground arith

-- What a loaded state is.
pub record IsLoaded (ds : DesiredState) : Type 0 where
  pub fit : IsFit ds
  pub known : is_known ds.scenario ≡ true

load_state-IsLoaded : (root : Node) (ds : DesiredState) → load_state root ≡ ret ds → IsLoaded ds
load_state-IsLoaded root ds h = record {
  fit = load_state-IsFit root ds h;
  known = load_state-known root ds h;
}

state_items-IsLoaded :
    (room : ℕ) (ns : Nodes) (set : DesiredSet)
    → state_items room ns ≡ ret set
    → All IsLoaded set × (length set ≤ room)
unfolding state_items
state_items-IsLoaded room nil set h =
    let same : ◌≡◌ {A = DesiredSet} [] set = cc h in
    subst (λ z. All IsLoaded z × (length z ≤ room)) same (tt, omega arith)
state_items-IsLoaded zero (link t m v c next) set h = absurd (ground arith)
state_items-IsLoaded (suc room) (link t m v c next) set h = elim (Bool-cases (is_obj t)) [
  | inr n ↦ cc (rw n at h)
  | inl y ↦
      let node : Node = record { type = t; name = m; val = v; child = c } in
      let (d, e, f) =
        >>=-eq-ret {B = DesiredSet} (load_state node)
          (λ d. state_items room next >>= λ ds. ret (d ∷ ds)) (rw y at h) in
      let (ds, g, k) = >>=-eq-ret {B = DesiredSet} (state_items room next) (λ ds. ret (d ∷ ds)) f in
      let same : d ∷ ds ≡ set = cc k in
      let (all, few) = state_items-IsLoaded room next ds g in
      subst (λ z. All IsLoaded z × (length z ≤ suc room)) same
        ((load_state-IsLoaded node d e, all), omega arith)
]

-- A set that is not empty and has room in `struct desired_set`.
pub record IsLoadedSet (set : DesiredSet) : Type 0 where
  pub states : All IsLoaded set
  pub some_state : 0 < length set
  pub room : length set ≤ nr_des_state_max

not_empty-IsLoadedSet :
    (items set : DesiredSet)
    → All IsLoaded items
    → length items ≤ nr_des_state_max
    → not_empty items ≡ ret set
    → IsLoadedSet set
not_empty-IsLoadedSet [] set all few h = cc h
not_empty-IsLoadedSet (d ∷ ds) set all few h =
    let same : d ∷ ds ≡ set = cc h in
    subst IsLoadedSet same (record { states = all; some_state = omega arith; room = few })

pub yaml_load_desired_set-IsLoadedSet :
    (file : Bytes) (set : DesiredSet) → yaml_load_desired_set file ≡ ret set → IsLoadedSet set
unfolding yaml_load_desired_set
yaml_load_desired_set-IsLoadedSet file set h = elim (Result-cases (cfg_load file)) [
  | inl (x, e) ↦ cc (rw (e, yaml_load_desired_set) at h)
  | inr (root, e) ↦ elim (Option-cases (obj_find root (codes "scenario"))) [
    | inr (n, f) ↦
        let (d, g, k) =
          >>=-eq-ret {B = DesiredSet} (load_state root) (λ d. ret (d ∷ []))
            (rw (e, f, ◌>>=◌, yaml_load_desired_set) at h) in
        let same : ◌≡◌ {A = DesiredSet} (d ∷ []) set = cc k in
        subst IsLoadedSet same (record {
          states = (load_state-IsLoaded root d g, tt);
          some_state = omega arith;
          room = omega arith;
        })
    | inl f ↦
        let (states, g, k) =
          >>=-eq-ret {B = DesiredSet} (required root (codes "state"))
            (λ states. state_items nr_des_state_max states.child >>= not_empty)
            (rw (e, f, ◌>>=◌, yaml_load_desired_set) at h) in
        let (items, l, m) =
          >>=-eq-ret {B = DesiredSet} (state_items nr_des_state_max states.child) not_empty k in
        let (all, few) = state_items-IsLoaded nr_des_state_max states.child items l in
        not_empty-IsLoadedSet items set all few m
  ]
]
