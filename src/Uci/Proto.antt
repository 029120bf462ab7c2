-- ===== src/Uci/Proto.antt =====
-- uci.c: the address of a bridge, and the WireGuard interface behind a VXLAN.
use netrec.Prelude.{
  ℕ, zero, suc, ◌+◌, ◌*◌, ◌/◌, ◌%◌, ◌^◌, Bool, true, false, not, ◌&&◌, ◌||◌, Option, none, some,
  List, [], ◌∷◌, ◌++◌, Bytes, codes, streq, decimal, ◌==◌, leb, take, if◌then◌else◌, Result, ret,
  err, einval, e2big, ◌>>=◌,
}
use netrec.State.{
  DesiredState, addr_none, addr_static, addr_dhcp, inet_addrstrlen, ifnamsiz, nr_des_dns4_max,
}
use netrec.Uci.Words.{uci_cpy, words_of, value_has_token, behind}
use netrec.Uci.Db.{UciItem, UciDb, db_get, is_section, some_text, holds}

-- `ntohl` on a little-endian machine.
unfoldable pub ntohl : ℕ → ℕ
ntohl a = a % 256 * 2 ^ 24 + a / 2 ^ 8 % 256 * 2 ^ 16 + a / 2 ^ 16 % 256 * 2 ^ 8 + a / 2 ^ 24 % 256

-- The loop over the bits, from bit `n - 1` down: no bit is set behind one that is not.
unfoldable pub no_gap : ℕ → Bool → ℕ → Bool
no_gap zero zero_seen v = true
no_gap (suc n) zero_seen v =
    let set = no_gap n zero_seen v in
    let clear = no_gap n true v in
    if v / 2 ^ n % 2 == 1 then (if zero_seen then false else set) else clear

-- `while (v & 0x80000000U) { bits++; v <<= 1; }`. Behind 32 rounds `v` is zero.
unfoldable pub ones : ℕ → ℕ → ℕ
ones zero v = 0
ones (suc fuel) v = let rest = ones fuel (v * 2 % 2 ^ 32) in if leb (2 ^ 31) v then suc rest else 0

unfoldable pub mask_to_prefix : (Bytes → Option ℕ) → Bytes → Result ℕ
unfolding no_gap ones ntohl
mask_to_prefix inet_pton mask = elim (inet_pton mask) [
  | none ↦ err einval
  | some a ↦ if no_gap 32 false (ntohl a) then ret (ones 32 (ntohl a)) else err einval
]

-- The loop of `split_ip_list`, with room for so many more.
unfoldable pub ip_loop : ℕ → List (Result Bytes) → Result (List Bytes)
ip_loop room [] = ret []
ip_loop room (err e ∷ ws) = err e
ip_loop zero (ret w ∷ ws) = err e2big
ip_loop (suc room) (ret w ∷ ws) =
    ip_loop room ws >>= λ rest. ret (uci_cpy inet_addrstrlen (some w) ∷ rest)

unfoldable pub split_ip_list : Option Bytes → ℕ → Result (List Bytes)
unfolding ip_loop
split_ip_list none max = ret []
split_ip_list (some src) max = ip_loop max (words_of 32 src)

-- The static address of `fill_bridge_proto`.
unfoldable pub fill_static : (Bytes → Option ℕ) → UciDb → Bytes → DesiredState → Result DesiredState
unfolding codes
fill_static inet_pton db if_sect ds =
    let get = db_get db (codes "network") if_sect in
    elim (get (codes "ipaddr")) [
      | none ↦ err einval
      | some ipaddr ↦ elim (get (codes "netmask")) [
        | none ↦ err einval
        | some mask ↦ do
          prefix ← mask_to_prefix inet_pton mask
          dns ← split_ip_list (get (codes "dns")) nr_des_dns4_max
          ret (record ds {
            br_addr_mode = addr_static;
            br_addr = take 31 (ipaddr ++ (b'/' ∷ decimal prefix));
            br_gateway = elim (get (codes "gateway")) [
              | none ↦ ds.br_gateway
              | some g ↦ uci_cpy inet_addrstrlen (some g)
            ];
            br_dns = dns;
          })
      ]
    ]

unfoldable pub fill_bridge_proto :
    (Bytes → Option ℕ) → UciDb → Bytes → DesiredState → Result DesiredState
unfolding codes
fill_bridge_proto inet_pton db if_sect ds =
    elim (some_text (db_get db (codes "network") if_sect (codes "proto"))) [
      | none ↦ err einval
      | some proto ↦
          if streq proto (codes "static")
          then fill_static inet_pton db if_sect ds
          else if streq proto (codes "dhcp")
          then ret (record ds {
            br_addr_mode = addr_dhcp;
            br_dhcp_cmd = uci_cpy 128 (some (codes "udhcpc -i $iface -q -n"));
          })
          else if streq proto (codes "none")
          then ret (record ds { br_addr_mode = addr_none })
          else err einval
    ]

-- The interface of a peer section whose allowed addresses have the remote one.
unfoldable pub peer_iface : UciDb → Bytes → UciItem → Option Bytes
unfolding codes
peer_iface db remote it =
    if not (it.is_type && streq it.pkg (codes "network"))
    then none
    else elim (behind (codes "wireguard_") it.val) [
      | none ↦ none
      | some iface ↦ elim (db_get db (codes "network") it.sect (codes "allowed_ips")) [
        | none ↦ none
        | some ips ↦
            if value_has_token ips (take 31 (remote ++ codes "/32")) || value_has_token ips remote
            then some iface
            else none
      ]
    ]

-- The first loop of `find_wg_for_remote`.
unfoldable pub peer_loop : UciDb → Bytes → List UciItem → Option Bytes
peer_loop db remote [] = none
peer_loop db remote (it ∷ items) = elim (peer_iface db remote it) [
  | some iface ↦ some iface
  | none ↦ peer_loop db remote items
]

-- The sections that the second loop finds.
unfoldable pub wg_sects : UciDb → List UciItem → List Bytes
unfolding codes
wg_sects db [] = []
wg_sects db (it ∷ items) =
    let rest = wg_sects db items in
    if is_section (codes "network") (codes "interface") it
      && holds (db_get db (codes "network") it.sect (codes "proto")) (codes "wireguard")
    then it.sect ∷ rest
    else rest

-- `found == 1`
unfoldable pub only_sect : List Bytes → Result Bytes
only_sect (sect ∷ []) = ret sect
only_sect _ = err einval

unfoldable pub find_wg_for_remote : UciDb → Bytes → Result Bytes
unfolding peer_loop wg_sects only_sect
find_wg_for_remote db remote = elim (peer_loop db remote db) [
  | some iface ↦ ret (uci_cpy ifnamsiz (some iface))
  | none ↦ only_sect (wg_sects db db) >>= λ sect. ret (uci_cpy ifnamsiz (some sect))
]
