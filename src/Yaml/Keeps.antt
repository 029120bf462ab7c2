-- ===== src/Yaml/Keeps.antt =====
-- yaml.c: a property that every part of a desired state keeps holds of the whole.
use netrec.Prelude.{inl, inr, Bool-cases, codes, streq, ◌>>=◌, Holds, Holds-keeps}
use netrec.State.{DesiredState}
use netrec.Cfg.Node.{Node}
use netrec.Yaml.Fields.{is_scn}
use netrec.Yaml.Parts.{load_bridge, load_uplink, load_vlan, load_wg_vxlan}
use netrec.Yaml.Load.{uplink_if_any, load_scenario}

module _ (P : DesiredState → Type 0) (root : Node)
    (bridge : (ds : DesiredState) → P ds → Holds P (load_bridge root ds))
    (uplink : (ds : DesiredState) → P ds → Holds P (load_uplink root ds))
    (vlan : (ds : DesiredState) → P ds → Holds P (load_vlan root ds))
    (any_uplink : (ds : DesiredState) → P ds → Holds P (uplink_if_any root ds))
    (wg_vxlan : (ds : DesiredState) → P ds → Holds P (load_wg_vxlan root ds)) where
  pub load_scenario-Holds : (ds : DesiredState) → P ds → Holds P (load_scenario root ds)
  unfolding load_scenario
  load_scenario-Holds ds h =
      elim (Bool-cases (is_scn ds.scenario (codes "only_uplink") (codes "only_uplink_iface"))) [
        | inl a ↦ rw a (uplink ds h)
        | inr a ↦
            elim (Bool-cases
              (is_scn ds.scenario (codes "uplink_bridge") (codes "uplink_in_bridge"))) [
                | inl b ↦
                    rw (a, b)
                      (Holds-keeps P (load_bridge root ds) (load_uplink root) uplink (bridge ds h))
                | inr b ↦
                    elim (Bool-cases
                      (is_scn ds.scenario (codes "vlan_bridge") (codes "vlan_in_bridge"))) [
                        | inl c ↦
                            rw (a, b, c)
                              (Holds-keeps P (load_bridge root ds)
                                (λ d. load_uplink root d >>= load_vlan root)
                                (λ d k.
                                  Holds-keeps P (load_uplink root d) (load_vlan root) vlan
                                    (uplink d k))
                                (bridge ds h))
                        | inr c ↦ elim (Bool-cases (streq ds.scenario (codes "wg_vxlan_bridge"))) [
                          | inl d ↦
                              rw (a, b, c, d)
                                (Holds-keeps P (load_bridge root ds)
                                  (λ d. uplink_if_any root d >>= load_wg_vxlan root)
                                  (λ d k.
                                    Holds-keeps P (uplink_if_any root d) (load_wg_vxlan root)
                                      wg_vxlan (any_uplink d k))
                                  (bridge ds h))
                          | inr d ↦ rw (a, b, c, d) tt
                        ]
                      ]
              ]
      ]
