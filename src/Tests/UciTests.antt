-- ===== src/Tests/UciTests.antt =====
-- The theorems about uci.c at concrete inputs.
use netrec.Prelude.{
  ℕ, ◌+◌, ◌-◌, ◌^◌, ◌≤◌, ◌≡◌, ◌↔◌, refl, arith, true, Option, some, [], ◌∷◌, Bytes, codes, streq,
  Memᴰ, ret, is_blank, any_of, ◌>>=◌,
}
use netrec.Prelude.Libc.{is_digit}
use netrec.State.{DesiredState}
use netrec.Cfg.Path.{is_alpha}
use netrec.Cfg.Value.{ltrim}
use netrec.Yaml.Load.{blank_state}
use netrec.Verify.Exec.{push_word}
use netrec.Uci.Words.{uci_cpy, span_word, next_word, word_calls, value_has_token}
use netrec.Uci.Db.{db_load_line, db_get, UciDb}
use netrec.Uci.Ports.{is_known_port, add_bridge_port, port_loop, skip_word, add_device_ports}
use netrec.Uci.Proto.{ntohl, mask_to_prefix}
use netrec.Uci.Dump.{cfg_state_id, id_first, id_loop, id_byte, is_id_start, is_id_char}
use netrec.Uci.Lookup.{IsLine, option_line, db_get-db_load_line}
use netrec.Uci.Tokens.{value_has_token_iff}
use netrec.Uci.Mask.{mask_to_prefix_iff}
use netrec.Uci.Added.{IsPorts, add_device_ports-IsPorts}

free_text : IsLine (codes "network") (codes "lan") (codes "proto")
unfolding codes
free_text = record {
  pkg_dots = (refl, (refl, (refl, (refl, (refl, (refl, (refl, tt)))))));
  pkg_eqs = (refl, (refl, (refl, (refl, (refl, (refl, (refl, tt)))))));
  sect_dots = (refl, (refl, (refl, tt)));
  sect_eqs = (refl, (refl, (refl, tt)));
  opt_eqs = (refl, (refl, (refl, (refl, (refl, tt)))));
  pkg_fits = omega arith;
  sect_fits = omega arith;
  opt_fits = omega arith;
}

db_get-db_load_line_example :
    (db : UciDb) × (db_load_line []
        (option_line (codes "network") (codes "lan") (codes "proto") (codes "static"))
      ≡ ret db)
    × (db_get db (codes "network") (codes "lan") (codes "proto") ≡ some (codes "static"))
unfolding codes streq db_get
db_get-db_load_line_example =
    db_get-db_load_line [] (codes "network") (codes "lan") (codes "proto") (codes "static")
      (codes "network") (codes "lan") (codes "proto") free_text (omega arith)

value_has_token_iff_example :
    (value_has_token (codes "lan  guest") (codes "guest") ≡ true)
    ↔ Memᴰ (codes "guest") (codes "lan" ∷ codes "guest" ∷ [])
unfolding codes is_blank push_word
value_has_token_iff_example =
    value_has_token_iff (codes "lan  guest") (codes "guest") (omega arith, (omega arith, tt))

-- 255.255.255.0, as it lies in memory.
abbrev mask_pton : Bytes → Option ℕ
mask_pton s = some 0x00ffffff

mask_to_prefix_iff_example : (mask_to_prefix mask_pton (codes "255.255.255.0") ≡ ret 24) ↔ (
    (a : ℕ) × (mask_pton (codes "255.255.255.0") ≡ some a)
    × (24 ≤ 32)
    × (ntohl a + 2 ^ (32 - 24) ≡ 2 ^ 32))
mask_to_prefix_iff_example = mask_to_prefix_iff mask_pton (codes "255.255.255.0") 24

-- A bridge with an uplink and one port.
abbrev one_port : DesiredState
one_port = record (blank_state (codes "uplink_bridge")) {
  br_name = codes "br-lan";
  up_ifname = codes "eth0";
  br_ports = codes "eth1" ∷ [];
}

one_port-IsPorts : IsPorts one_port
unfolding codes is_known_port streq any_of
one_port-IsPorts = record {
  no_repeat = (refl, tt);
  others = ((refl, refl, refl), tt);
  room = omega arith;
}

add_device_ports-IsPorts_example :
    IsPorts (record one_port { br_ports = codes "eth1" ∷ codes "eth2" ∷ [] })
unfolding codes add_device_ports word_calls next_word ltrim span_word is_blank port_loop skip_word
    add_bridge_port is_known_port streq any_of uci_cpy
add_device_ports-IsPorts_example =
    add_device_ports-IsPorts (some (codes "eth0 eth1 eth0 eth2")) one_port
      (record one_port { br_ports = codes "eth1" ∷ codes "eth2" ∷ [] }) true one_port-IsPorts refl

-- Two bridges that are written under one key.
same_id :
    cfg_state_id (record one_port { br_name = codes "br-lan" }) 0
    ≡ cfg_state_id (record one_port { br_name = codes "br.lan" }) 1
unfolding codes cfg_state_id id_first id_loop id_byte is_id_start is_id_char is_alpha is_digit
same_id = refl

-- A name that does not fit in `br_ports` is added again, cut.
added_twice :
    (add_bridge_port one_port (codes "wlan0-guest-network") >>= λ ds.
    add_bridge_port ds (codes "wlan0-guest-network"))
    ≡ ret (record one_port {
      br_ports = codes "eth1" ∷ codes "wlan0-guest-net" ∷ codes "wlan0-guest-net" ∷ [];
    })
unfolding codes add_bridge_port is_known_port streq any_of uci_cpy
added_twice = refl
