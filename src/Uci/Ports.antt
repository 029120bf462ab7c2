-- ===== src/Uci/Ports.antt =====
-- uci.c: the ports of a bridge, from the device and from the wireless configuration.
use netrec.Prelude.{
  ℕ, Bool, true, false, not, ◌&&◌, ◌||◌, Option, none, some, List, [], ◌∷◌, ◌++◌, Bytes, codes,
  streq, any_of, is_empty, leb, length, if◌then◌else◌, Result, ret, err, e2big, enoent, ◌>>=◌,
}
use netrec.State.{DesiredState, nr_br_port_max, ifnamsiz}
use netrec.Uci.Words.{uci_cpy, next_word, words_of, value_has_token}
use netrec.Uci.Db.{UciItem, UciDb, db_get, is_section, some_text}

-- The names that `add_bridge_port` leaves out: none, the uplink, the VXLAN, or a port that is there.
unfoldable pub is_known_port : DesiredState → Bytes → Bool
unfolding any_of
is_known_port ds ifname =
    is_empty ifname
    || (not (is_empty ds.up_ifname) && streq ds.up_ifname ifname)
    || (not (is_empty ds.vx_ifname) && streq ds.vx_ifname ifname)
    || any_of (λ port. streq port ifname) ds.br_ports

unfoldable pub add_bridge_port : DesiredState → Bytes → Result DesiredState
add_bridge_port ds ifname =
    if is_known_port ds ifname
    then ret ds
    else if leb nr_br_port_max (length ds.br_ports)
    then err e2big
    else ret (record ds { br_ports = ds.br_ports ++ uci_cpy ifnamsiz (some ifname) ∷ [] })

-- The port that a wireless section gives to the network.
unfoldable pub wireless_port : UciDb → Bytes → UciItem → Option Bytes
unfolding codes
wireless_port db net_name it =
    let get = db_get db (codes "wireless") it.sect in
    if not (is_section (codes "wireless") (codes "wifi-iface") it)
    then none
    else if (elim (get (codes "disabled")) [ none ↦ false | some v ↦ not (streq v (codes "0")) ])
    then none
    else if not
        (elim (get (codes "network")) [ none ↦ false | some v ↦ value_has_token v net_name ])
    then none
    else some_text (get (codes "ifname"))

-- The loop of `add_wireless_ports`.
unfoldable pub wireless_loop : UciDb → Bytes → List UciItem → DesiredState → Result DesiredState
wireless_loop db net_name [] ds = ret ds
wireless_loop db net_name (it ∷ items) ds = elim (wireless_port db net_name it) [
  | none ↦ wireless_loop db net_name items ds
  | some ifname ↦ add_bridge_port ds ifname >>= wireless_loop db net_name items
]

unfoldable pub add_wireless_ports : UciDb → Bytes → DesiredState → Result DesiredState
unfolding wireless_loop
add_wireless_ports db net_name ds = wireless_loop db net_name db ds

-- The loop of `add_device_ports` behind the word that is skipped.
unfoldable pub port_loop : List (Result Bytes) → DesiredState → Result DesiredState
port_loop [] ds = ret ds
port_loop (err e ∷ ws) ds = err e
port_loop (ret w ∷ ws) ds = add_bridge_port ds w >>= port_loop ws

-- The first word, if it is skipped.
unfoldable pub skip_word : Bool → List (Result Bytes) → List (Result Bytes)
skip_word true (ret w ∷ ws) = ws
skip_word true (err e ∷ ws) = err e ∷ ws
skip_word true [] = []
skip_word false ws = ws

unfoldable pub add_device_ports : Option Bytes → DesiredState → Bool → Result DesiredState
unfolding port_loop skip_word
add_device_ports none ds skip_first = ret ds
add_device_ports (some ports) ds skip_first =
    port_loop (skip_word skip_first (words_of ifnamsiz ports)) ds

unfoldable pub first_device_port : Option Bytes → ℕ → Result Bytes
first_device_port none sz = err enoent
first_device_port (some ports) sz =
    next_word sz ports >>= λ r. elim r [ none ↦ err enoent | some (w, _) ↦ ret w ]
