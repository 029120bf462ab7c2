-- ===== src/Tests/VerifyTests.antt =====
-- The theorems about verify.c at concrete inputs.
use netrec.Prelude.Decimal.{signed}
use netrec.Prelude.{
  decimal, einval, ◌<◌, ◌≡◌, ◌≢◌, ◌↔◌, refl, true, false, none, [], ◌∷◌, ◌++◌, arith, codes, streq,
  split_first, leb, if◌then◌else◌, All, length, ret, err, enospc,
}
use netrec.Prelude.Libc.{strtol}
use netrec.State.{DesiredState, rs_find_iface}
use netrec.Verify.Address.{parse_addr_prefix, parse_ip4, route_exact, addr_exists}
use netrec.Verify.Address.Subst.{starts_with, subst_iface}
use netrec.Verify.Address.Laws.{expand, parse_addr_prefix-decimal, subst_iface-expand}
use netrec.Verify.Bridge.{
  check_bridge, check_bridge_addr, check_bridge_gateway, check_bridge_dns, dns_loop, check_static,
  has_addr, has_route, is_up,
}
use netrec.Verify.Links.{
  check_iface_exists, check_iface_up, check_master, has_master, check_bridge_ports, ports_loop,
}
use netrec.Verify.Routes.{check_routes, routes_loop, check_one_route, parse_via}
use netrec.Verify.Scenario.{
  verify_scenario, verify_checks, verify_uplink_bridge, verify_only_uplink,
}
use netrec.Verify.Exec.{cmd_split, verify_state}
use netrec.Verify.Report.{miss_lines, verify_state-miss_lines}
use netrec.Verify.Effects.{plan, verify_state-plan, verify_state-dry_run}
use netrec.Verify.Spec.{Satisfies}
use netrec.Verify.Sound.Scenario.{verify_checks_iff, verify_state-zero_iff}
use netrec.Verify.Idle.{IsOk, verify_state-idle}
use netrec.Verify.Words.{IsWord, squeeze, glue, cmd_split-words}
use netrec.Tests.Sample.{pton, all_pass, all_fail, snapshot, wanted, unplugged}

pub wanted_supported : verify_scenario pton wanted snapshot ≢ none
unfolding verify_scenario streq codes
wanted_supported e = cc e

unplugged_supported : verify_scenario pton unplugged snapshot ≢ none
unfolding verify_scenario streq codes
unplugged_supported e = cc e

wanted_diff : (verify_checks pton wanted snapshot).0 ≡ 0
unfolding verify_checks verify_scenario streq codes verify_uplink_bridge check_bridge
    check_bridge_addr check_static check_bridge_gateway check_bridge_dns dns_loop verify_only_uplink
    check_master check_bridge_ports ports_loop rs_find_iface is_up parse_addr_prefix split_first
    strtol has_addr addr_exists check_iface_exists check_iface_up has_master check_routes
    routes_loop check_one_route parse_via parse_ip4 has_route route_exact
wanted_diff = refl

verify_state-zero_iff_example :
    ((verify_state pton all_fail wanted snapshot true false []).diff ≡ 0)
    ↔ Satisfies pton wanted snapshot
verify_state-zero_iff_example = verify_state-zero_iff pton wanted snapshot all_fail true false []

abbrev tunnel : DesiredState
tunnel = record wanted { scenario = codes "wg_vxlan_bridge" }

pub wanted-Satisfies : Satisfies pton wanted snapshot
wanted-Satisfies = (verify_checks_iff pton wanted snapshot).0 wanted_diff

verify_state-idle_example :
    ((verify_state pton all_fail wanted snapshot true true []).ran ≡ [])
    × ((verify_state pton all_fail wanted snapshot true true []).act_fail ≡ false)
    × All IsOk (verify_state pton all_fail wanted snapshot true true []).out
verify_state-idle_example =
    verify_state-idle pton all_fail wanted snapshot true true [] wanted-Satisfies

verify_state-miss_lines_example :
    miss_lines (verify_state pton all_fail unplugged snapshot true false []).out
    ≡ (verify_state pton all_fail unplugged snapshot true false []).diff
verify_state-miss_lines_example =
    verify_state-miss_lines all_fail pton unplugged snapshot true false [] unplugged_supported

verify_state-plan_example :
    (plan (verify_state pton all_fail unplugged snapshot true false []).out
      ≡ plan (verify_state pton all_pass unplugged snapshot false true []).out)
    × ((verify_state pton all_fail unplugged snapshot true false []).diff
        ≡ (verify_state pton all_pass unplugged snapshot false true []).diff)
verify_state-plan_example =
    verify_state-plan pton unplugged snapshot all_fail all_pass false true [] []

verify_state-dry_run_example :
    ((verify_state pton all_fail unplugged snapshot false true []).ran ≡ [])
    × ((verify_state pton all_fail unplugged snapshot false true []).act_fail ≡ false)
verify_state-dry_run_example =
    verify_state-dry_run pton unplugged snapshot all_fail true [] unplugged_supported

cmd_split-words_example :
    All IsWord (codes "ip" ∷ codes "link" ∷ [])
    × (length (codes "ip" ∷ codes "link" ∷ []) < 32)
    × (glue (codes "ip" ∷ codes "link" ∷ []) ≡ squeeze (codes " ip  link"))
unfolding cmd_split codes
cmd_split-words_example =
    cmd_split-words (codes " ip  link") 32 (codes "ip" ∷ codes "link" ∷ []) (omega arith) refl

parse_addr_prefix-decimal_example :
    parse_addr_prefix pton (codes "10.0.0.1" ++ b'/' ∷ signed true (decimal 1)) ≡ err einval
unfolding codes streq
parse_addr_prefix-decimal_example =
    parse_addr_prefix-decimal pton true (codes "10.0.0.1") 0x0100000a 1
      (refl, (refl, (refl, (refl, (refl, (refl, (refl, (refl, tt)))))))) (omega arith) refl
      (omega arith)

subst_iface-expand_example : subst_iface 256 (codes "udhcpc -i $iface") (codes "br0") ≡ (
    if leb 256 (length (expand (codes "br0") 0 (codes "udhcpc -i $iface")))
    then err enospc
    else ret (expand (codes "br0") 0 (codes "udhcpc -i $iface")))
subst_iface-expand_example = subst_iface-expand 256 (codes "udhcpc -i $iface") (codes "br0")

-- `$iface` is replaced by the name.
expand_runs : expand (codes "br0") 0 (codes "udhcpc -i $iface -q") ≡ codes "udhcpc -i br0 -q"
unfolding codes starts_with
expand_runs = refl
