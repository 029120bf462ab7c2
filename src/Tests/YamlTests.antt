-- ===== src/Tests/YamlTests.antt =====
-- The theorem about yaml.c at a concrete input.
use netrec.Prelude.{Bytes, codes}
use netrec.State.{DesiredState, addr_static}
use netrec.Cfg.Node.{Node}
use netrec.Cfg.Access.{cfg_init}
use netrec.Cfg.Set.{cfg_set_str}
use netrec.Yaml.Load.{blank_state}

abbrev put : Node → Bytes → Bytes → Node
put root path val = (cfg_set_str root path val).0

-- A bridge with a static address and a gateway.
abbrev configured : Node
configured =
    put
      (put
        (put
          (put (put cfg_init (codes "scenario") (codes "uplink_bridge")) (codes "bridge.name")
            (codes "br-lan"))
          (codes "bridge.addr") (codes "10.0.0.1/24"))
        (codes "bridge.gateway") (codes "10.0.0.254"))
      (codes "uplink.ifname") (codes "eth0")

abbrev loaded : DesiredState
loaded = record (blank_state (codes "uplink_bridge")) {
  br_name = codes "br-lan";
  br_addr = codes "10.0.0.1/24";
  br_addr_mode = addr_static;
  br_gateway = codes "10.0.0.254";
  up_ifname = codes "eth0";
}
