-- ===== src/Uci/EndToEnd.antt =====
-- uci.c: `uci_load_desired_set` from the loaded configurations to the desired states that it returns.
use netrec.Prelude.{
  ℕ, ◌≤◌, ◌≡◌, ◌≢◌, refl, subst, inl, inr, Bool-cases, Option-cases, false, ◌||◌, Option, none,
  some, List, [], ◌∷◌, ◌++◌, arith, Bytes, codes, streq, is_empty, length, length-append, leb, All,
  All-append, Result, Result-cases, ret, err, einval, ◌>>=◌, >>=-eq-ret,
}
use netrec.State.{DesiredState, DesiredSet, nr_des_state_max}
use netrec.Yaml.Load.{yaml_load_desired_set}
use netrec.Uci.Db.{UciItem, UciDb, db_get, some_text, find_iface_by_device}
use netrec.Uci.Build.{
  add_state, fill_uplink_bridge, build_uplink_bridge, fill_wg_vxlan_bridge, build_wg_vxlan_bridge,
  build_bridge, is_bridge, build_loop, uci_build_desired_set,
}
use netrec.Uci.Dump.{cfg_set}
use netrec.Uci.Load.{UciHost, db_load, build_from, uci_load_desired_set}
use netrec.Uci.RoundTrip.{HaveOwnIds}
use netrec.Uci.Reload.{IsBuilt, yaml_load_desired_set-cfg_set}
use netrec.Uci.Built.{HasTunnel}
use netrec.Uci.Filled.{fill_uplink_bridge-IsBuilt, fill_wg_vxlan_bridge-IsBuilt}

-- What is right of a set while it is built.
record Grown (set : DesiredSet) : Type 0 where
  built : All (λ ds. HasTunnel ds → IsBuilt ds) set
  few : length set ≤ nr_des_state_max

add_state-Grown :
    (set out : DesiredSet) (filled : Result DesiredState)
    → Grown set
    → ((d : DesiredState) → filled ≡ ret d → HasTunnel d → IsBuilt d)
    → add_state set filled ≡ ret out
    → Grown out
unfolding add_state
add_state-Grown set out filled g f h = elim (Bool-cases (leb nr_des_state_max (length set))) [
  | inl y ↦ cc (rw (y, add_state) at h)
  | inr n ↦ elim (Result-cases filled) [
    | inl (x, e) ↦ cc (rw (n, e, add_state, ◌>>=◌) at h)
    | inr (d, e) ↦
        let same : set ++ d ∷ [] ≡ out = cc (rw (n, e, add_state, ◌>>=◌) at h) in
        subst Grown same (record {
          built = All-append (λ ds. HasTunnel ds → IsBuilt ds) set (d ∷ []) g.built (f d e, tt);
          few = rw (length-append set (d ∷ [])) (ground arith);
        })
  ]
]

some_text-there : (o : Option Bytes) (v : Bytes) → some_text o ≡ some v → is_empty v ≡ false
some_text-there none v h = cc h
some_text-there (some []) v h = cc h
some_text-there (some (c ∷ cs)) v h =
    let same : c ∷ cs ≡ v = cc h in subst (λ z. is_empty z ≡ false) same refl

build_bridge-Grown :
    (inet_pton : Bytes → Option ℕ) (net wifi : UciDb) (it : UciItem) (set out : DesiredSet)
    → Grown set
    → build_bridge inet_pton net wifi it set ≡ ret out
    → Grown out
unfolding build_bridge codes build_uplink_bridge build_wg_vxlan_bridge
build_bridge-Grown inet_pton net wifi it set out g h =
    elim (Option-cases (some_text (db_get net (codes "network") it.sect (codes "name")))) [
      | inl a ↦ cc (rw (a, build_bridge) at h)
      | inr (br_name, a) ↦ elim (Option-cases (find_iface_by_device net br_name)) [
        | inl b ↦ cc (rw (a, b, build_bridge) at h)
        | inr (if_sect, b) ↦
            elim (Option-cases (some_text (db_get net (codes "network") if_sect (codes "proto")))) [
              | inl c ↦ cc (rw (a, b, c, build_bridge) at h)
              | inr (proto, c) ↦
                  let named =
                    some_text-there (db_get net (codes "network") it.sect (codes "name")) br_name
                      a in
                  elim (Bool-cases (streq proto (codes "static") || streq proto (codes "dhcp"))) [
                    | inl y ↦
                        add_state-Grown set out
                          (fill_uplink_bridge inet_pton net wifi it.sect if_sect br_name) g
                          (λ d e t.
                            fill_uplink_bridge-IsBuilt inet_pton net wifi it.sect if_sect br_name
                              proto d named c y e)
                          (rw (a, b, c, y, build_bridge) at h)
                    | inr n ↦ elim (Bool-cases (streq proto (codes "none"))) [
                      | inr k ↦ cc (rw (a, b, c, n, k, build_bridge) at h)
                      | inl y ↦
                          add_state-Grown set out
                            (fill_wg_vxlan_bridge net wifi it.sect if_sect br_name) g
                            (λ d e t.
                              fill_wg_vxlan_bridge-IsBuilt net wifi it.sect if_sect br_name d named
                                e t)
                            (rw (a, b, c, n, y, build_bridge) at h)
                    ]
                  ]
            ]
      ]
    ]

build_loop-Grown :
    (inet_pton : Bytes → Option ℕ) (net wifi : UciDb) (items : List UciItem) (set out : DesiredSet)
    → Grown set
    → build_loop inet_pton net wifi items set ≡ ret out
    → Grown out
unfolding build_loop
build_loop-Grown inet_pton net wifi [] set out g h =
    let same : set ≡ out = cc h in subst Grown same g
build_loop-Grown inet_pton net wifi (it ∷ items) set out g h =
    elim (Bool-cases (is_bridge net it)) [
      | inr n ↦ build_loop-Grown inet_pton net wifi items set out g (rw (n, build_loop) at h)
      | inl y ↦
          let (m, e, k) =
            >>=-eq-ret (build_bridge inet_pton net wifi it set)
              (build_loop inet_pton net wifi items) (rw (y, build_loop) at h) in
          build_loop-Grown inet_pton net wifi items m out
            (build_bridge-Grown inet_pton net wifi it set m g e) k
    ]

abbrev not_none : DesiredSet → Result DesiredSet
not_none set = elim set [ [] ↦ err einval | d ∷ ds ↦ ret (d ∷ ds) ]

some_state : (m set : DesiredSet) → not_none m ≡ ret set → Grown m → Grown set × (set ≢ [])
some_state [] set h g = cc h
some_state (d ∷ ds) set h g =
    let same : d ∷ ds ≡ set = cc h in subst (λ z. Grown z × (z ≢ [])) same (g, λ e. cc e)

-- The set, and that it has a state.
uci_build_desired_set-Grown :
    (inet_pton : Bytes → Option ℕ) (network wireless : Result UciDb) (set : DesiredSet)
    → uci_build_desired_set inet_pton network wireless ≡ ret set
    → Grown set × (set ≢ [])
unfolding uci_build_desired_set
uci_build_desired_set-Grown inet_pton network wireless set h = elim (Result-cases network) [
  | inl (x, a) ↦ cc (rw (a, uci_build_desired_set, ◌>>=◌) at h)
  | inr (net, a) ↦ elim (Result-cases wireless) [
    | inl (x, b) ↦ cc (rw (a, b, uci_build_desired_set, ◌>>=◌) at h)
    | inr (wifi, b) ↦ elim (Result-cases (build_loop inet_pton net wifi net [])) [
      | inl (x, c) ↦ cc (rw (a, b, c, uci_build_desired_set, ◌>>=◌) at h)
      | inr (m, c) ↦ some_state m set (rw (a, b, c, uci_build_desired_set, ◌>>=◌) at h) (
          build_loop-Grown inet_pton net wifi net [] m (record { built = tt; few = omega arith }) c)
    ]
  ]
]

All-IsBuilt :
    (set : DesiredSet)
    → All (λ ds. HasTunnel ds → IsBuilt ds) set
    → All HasTunnel set
    → All IsBuilt set
All-IsBuilt [] h t = tt
All-IsBuilt (ds ∷ set) h t = (h.0 t.0, All-IsBuilt set h.1 t.1)

-- A set that is built, and written without an error, is loaded from the file.
yaml_load_desired_set-Grown :
    (set : DesiredSet) (out : Bytes)
    → Grown set × (set ≢ [])
    → All HasTunnel set
    → HaveOwnIds 0 set
    → cfg_set set ≡ ret out
    → yaml_load_desired_set out ≡ ret set
yaml_load_desired_set-Grown [] out g t o e = absurd (g.1 refl)
yaml_load_desired_set-Grown (ds ∷ set) out g t o e =
    yaml_load_desired_set-cfg_set ds set out (All-IsBuilt (ds ∷ set) g.0.built t) g.0.few o e

-- `uci_load_desired_set` returns the set that `uci_build_desired_set` builds, or the error of `cfg_set` if
-- that fails, where a temporary file can be made, the states are written under ids that differ, and no
-- VXLAN has a WireGuard interface with an empty name: the way through the file loses and changes nothing.
pub uci_load_desired_set-build_from :
    (host : UciHost) (uci_bin network_path wireless_path : Option Bytes) (set : DesiredSet)
    → host.mkstemp ≡ ret tt
    → build_from host uci_bin network_path wireless_path ≡ ret set
    → All HasTunnel set
    → HaveOwnIds 0 set
    → uci_load_desired_set host uci_bin network_path wireless_path
      ≡ (cfg_set set >>= λ out. ret set)
unfolding uci_load_desired_set build_from
uci_load_desired_set-build_from host uci_bin network_path wireless_path set m h t o =
    let g =
      uci_build_desired_set-Grown host.inet_pton
        (db_load host uci_bin network_path (codes "network"))
        (db_load host uci_bin wireless_path (codes "wireless")) set h in
    elim (Result-cases (cfg_set set)) [
      | inl (x, e) ↦ rw (m, h, e, uci_load_desired_set, ◌>>=◌) refl
      | inr (out, e) ↦
          rw (m, h, e, uci_load_desired_set, ◌>>=◌) (yaml_load_desired_set-Grown set out g t o e)
    ]
