-- ===== src/Uci/Dump.antt =====
-- uci.c: the configuration that a set of desired states is written as. What a failing call has written is
-- dropped, as `uci2yml` and `uci_load_desired_set` remove the file; a failing `fputc` is not modelled.
use netrec.Prelude.{
  ℕ, zero, suc, ◌+◌, ◌-◌, Bool, ◌||◌, List, [], ◌∷◌, ◌++◌, Bytes, codes, is_empty, decimal, ◌==◌,
  leb, length, if◌then◌else◌, Result, ret, err, e2big, ◌>>=◌,
}
use netrec.Prelude.Libc.{is_digit}
use netrec.State.{
  DesiredRoute4, DesiredState, DesiredSet, AddrMode, addr_none, addr_static, addr_dhcp, ifnamsiz,
}
use netrec.Cfg.Path.{is_alpha}
use netrec.Cfg.Value.{quote}

abbrev pub cfg_quote : Bytes → Bytes
cfg_quote = quote

unfoldable pub cfg_line_str : Bytes → Bytes → Bytes
unfolding codes
cfg_line_str path val = path ++ (codes " = " ++ (cfg_quote val ++ b'\n' ∷ []))

unfoldable pub cfg_line_u32 : Bytes → ℕ → Bytes
unfolding codes
cfg_line_u32 path val = path ++ (codes " = \"" ++ (decimal val ++ codes "\"\n"))

unfoldable pub cfg_path : Bytes → Bytes → Result Bytes
unfolding codes
cfg_path id tail =
    let path = codes "state." ++ (id ++ (b'.' ∷ tail)) in
    if leb 256 (length path) then err e2big else ret path

-- A letter or `_`; with a digit too.
unfoldable pub is_id_start : ℕ → Bool
unfolding is_alpha
is_id_start c = is_alpha c || c == b'_'

unfoldable pub is_id_char : ℕ → Bool
unfolding is_alpha is_digit
is_id_char c = is_alpha c || is_digit c || c == b'_'

-- A byte of the name behind the first.
unfoldable pub id_byte : ℕ → ℕ
unfolding is_id_char
id_byte c = if is_id_char c then c else b'_'

-- What the first byte of the name becomes.
unfoldable pub id_first : ℕ → Bytes
unfolding is_id_start is_digit
id_first c = if is_id_start c then c ∷ [] else if is_digit c then b'_' ∷ c ∷ [] else b'_' ∷ []

-- The loop of `cfg_state_id` behind the first byte, with room for so many bytes more.
unfoldable pub id_loop : ℕ → Bytes → Result Bytes
unfolding id_byte
id_loop room [] = ret []
id_loop zero (c ∷ cs) = err e2big
id_loop (suc room) (c ∷ cs) = id_loop room cs >>= λ rest. ret (id_byte c ∷ rest)

-- `char id[16]`
unfoldable pub cfg_state_id : DesiredState → ℕ → Result Bytes
unfolding id_loop id_first codes
cfg_state_id ds idx = elim (if is_empty ds.br_name then ds.scenario else ds.br_name) [
  | [] ↦ let id = b's' ∷ decimal idx in if leb ifnamsiz (length id) then err e2big else ret id
  | c ∷ cs ↦ id_loop (15 - length (id_first c)) cs >>= λ rest. ret (id_first c ++ rest)
]

-- A line to write: the tail of its path, and a string or a number.
pub data Field : Type 0 where
  field_str : Bytes → Bytes → Field
  field_u32 : Bytes → ℕ → Field

unfoldable pub each_field : Bytes → List Bytes → List Field
each_field tail [] = []
each_field tail (v ∷ vs) = field_str tail v ∷ each_field tail vs

unfoldable pub if_text : Bytes → Bytes → List Field
if_text tail [] = []
if_text tail (c ∷ cs) = field_str tail (c ∷ cs) ∷ []

unfoldable pub mode_fields : DesiredState → AddrMode → List Field
unfolding codes if_text each_field
mode_fields ds addr_static =
    field_str (codes "bridge.addr_mode") (codes "static")
    ∷ field_str (codes "bridge.addr") ds.br_addr
    ∷ (if_text (codes "bridge.gateway") ds.br_gateway
        ++ each_field (codes "bridge.dns[]") ds.br_dns)
mode_fields ds addr_dhcp =
    field_str (codes "bridge.addr_mode") (codes "dhcp")
    ∷ field_str (codes "bridge.dhcp_cmd") ds.br_dhcp_cmd
    ∷ []
mode_fields ds addr_none = field_str (codes "bridge.addr_mode") (codes "none") ∷ []

unfoldable pub bridge_fields : DesiredState → List Field
unfolding codes mode_fields each_field
bridge_fields ds =
    if is_empty ds.br_name
    then []
    else field_str (codes "bridge.name") ds.br_name
      ∷ (mode_fields ds ds.br_addr_mode ++ each_field (codes "bridge.ports[]") ds.br_ports)

unfoldable pub vlan_fields : DesiredState → List Field
unfolding codes if_text
vlan_fields ds =
    if is_empty ds.vlan_ifname
    then []
    else field_str (codes "vlan.ifname") ds.vlan_ifname
      ∷ field_u32 (codes "vlan.id") ds.vlan_id
      ∷ (if_text (codes "vlan.link") ds.vlan_link ++ if_text (codes "vlan.bridge") ds.vlan_bridge)

unfoldable pub wg_fields : DesiredState → List Field
unfolding codes
wg_fields ds =
    if is_empty ds.wg_ifname
    then []
    else field_str (codes "wg.ifname") ds.wg_ifname
      ∷ field_str (codes "wg.peer_ip") ds.wg_peer_ip
      ∷ field_str (codes "wg.route_dev") ds.wg_route_dev
      ∷ []

unfoldable pub vxlan_fields : DesiredState → List Field
unfolding codes if_text
vxlan_fields ds =
    if is_empty ds.vx_ifname
    then []
    else field_str (codes "vxlan.ifname") ds.vx_ifname
      ∷ field_u32 (codes "vxlan.vni") ds.vx_vni
      ∷ field_str (codes "vxlan.remote") ds.vx_remote
      ∷ (if_text (codes "vxlan.dev") ds.vx_dev
          ++ field_str (codes "vxlan.bridge") ds.vx_bridge ∷ [])

-- `"routes.r%d.%s"`: a desired state has at most 64 routes, so it fits in `char route_path[64]`.
unfoldable pub route_path : ℕ → Bytes → Bytes
unfolding codes
route_path i tail = codes "routes.r" ++ (decimal i ++ (b'.' ∷ tail))

unfoldable pub route_fields : ℕ → List DesiredRoute4 → List Field
unfolding codes route_path
route_fields i [] = []
route_fields i (r ∷ rs) =
    field_str (route_path i (codes "dst")) r.dst
    ∷ field_str (route_path i (codes "dev")) r.dev
    ∷ ((if r.has_via then field_str (route_path i (codes "via")) r.via ∷ [] else [])
        ++ route_fields (i + 1) rs)

-- The lines of `cfg_state`, in order.
unfoldable pub state_fields : DesiredState → List Field
unfolding codes bridge_fields if_text vlan_fields wg_fields vxlan_fields route_fields
state_fields ds =
    field_str (codes "scenario") ds.scenario
    ∷ (bridge_fields ds
        ++ (if_text (codes "uplink.ifname") ds.up_ifname
            ++ (vlan_fields ds ++ (wg_fields ds ++ (vxlan_fields ds ++ route_fields 0 ds.routes)))))

-- A `cfg_path` and the line behind it.
unfoldable pub put_field : Bytes → Field → Result Bytes
unfolding cfg_line_str cfg_line_u32
put_field id (field_str tail val) = cfg_path id tail >>= λ path. ret (cfg_line_str path val)
put_field id (field_u32 tail val) = cfg_path id tail >>= λ path. ret (cfg_line_u32 path val)

unfoldable pub put_fields : Bytes → List Field → Result Bytes
put_fields id [] = ret []
put_fields id (f ∷ fs) = do line ← put_field id f; rest ← put_fields id fs; ret (line ++ rest)

unfoldable pub cfg_state : DesiredState → ℕ → Result Bytes
unfolding state_fields put_fields
cfg_state ds idx = cfg_state_id ds idx >>= λ id. put_fields id (state_fields ds)

-- The loop of `cfg_set`, from the index on.
unfoldable pub cfg_set_from : ℕ → DesiredSet → Result Bytes
cfg_set_from idx [] = ret []
cfg_set_from idx (ds ∷ set) = do
  text ← cfg_state ds idx
  rest ← cfg_set_from (idx + 1) set
  ret (text ++ rest)

unfoldable pub cfg_set : DesiredSet → Result Bytes
unfolding cfg_set_from
cfg_set set = cfg_set_from 0 set
